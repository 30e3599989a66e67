-- ===== src/Merge.antt =====
-- sigiledd/src/merge.rs: `changed_paths` and `close_merge`, over a repository whose git commands
-- have arbitrary answers.
pub mod Rules
pub mod Outcomes
use sigiled.Base.{String, Bool, List, [], ◌∷◌, if◌then◌else◌, str_eq, str_append}
use sigiled.Routine.{Run, pure, ◌>>=◌, ◌>>◌}
use sigiled.Git.{Answer, git, outcome, lines}
use sigiled.Sessions.Records.{MergeDebt}
use sigiled.Sessions.World.{MergeOutcome, ff, merged, debt}

abbrev pub range : String → String → String
range base tip = str_append base (str_append ".." tip)

module _ {S : Type 0} (answer : List String → S → Answer) (step : List String → S → S) where
  abbrev pub call : List String → Run S (Unit {0}) String
  call = git answer step

  unfoldable pub changed_paths : String → Run S (Unit {0}) (List String)
  changed_paths branch = do
    base ← call ("merge-base" ∷ "master" ∷ branch ∷ [])
    names ← call ("diff" ∷ "--name-only" ∷ range base branch ∷ [])
    pure (lines names)

  -- Master has not moved.
  unfoldable pub fast_forward : String → Run S (Unit {0}) MergeOutcome
  fast_forward head = do
    call ("update-ref" ∷ "refs/heads/master" ∷ head ∷ [])
    call ("checkout" ∷ "-f" ∷ "master" ∷ [])
    pure (ff head)

  abbrev pub conflict_debt :
      String → String → String → String → String → String → String → MergeDebt
  conflict_debt branch master head conflicted ours_msgs theirs_msgs since = record {
    branch = branch;
    conflicted_files = lines conflicted;
    ours = record { sha = master; commit_messages = lines ours_msgs };
    theirs = record { sha = head; commit_messages = lines theirs_msgs };
    since = since;
  }

  -- The conflict's debt, with the merge taken back.
  unfoldable pub harvest : String → String → String → String → Run S (Unit {0}) MergeOutcome
  harvest branch master head base = do
    conflicted ← call ("diff" ∷ "--name-only" ∷ "--diff-filter=U" ∷ [])
    ours_msgs ← call ("log" ∷ "--format=%s" ∷ range base master ∷ [])
    theirs_msgs ← call ("log" ∷ "--format=%s" ∷ range base head ∷ [])
    since ← call ("show" ∷ "-s" ∷ "--format=%cI" ∷ base ∷ [])
    call ("merge" ∷ "--abort" ∷ [])
    pure (debt (conflict_debt branch master head conflicted ours_msgs theirs_msgs since))

  unfoldable pub read_merged : Run S (Unit {0}) MergeOutcome
  read_merged = do sha ← call ("rev-parse" ∷ "HEAD" ∷ []); pure (merged sha)

  -- Master has moved.
  unfoldable pub three_way : String → String → String → String → Run S (Unit {0}) MergeOutcome
  three_way branch master head base = do
    call ("checkout" ∷ "-f" ∷ "master" ∷ [])
    done ← outcome answer step ("merge" ∷ "--no-ff" ∷ "--no-edit" ∷ branch ∷ [])
    if done then read_merged else harvest branch master head base

  unfoldable pub close_with : String → String → String → String → Run S (Unit {0}) MergeOutcome
  close_with branch master head base =
      if str_eq head base
      then pure (ff master)
      else if str_eq master base
      then fast_forward head
      else three_way branch master head base

  unfoldable pub close_merge : String → Run S (Unit {0}) MergeOutcome
  close_merge branch = do
    master ← call ("rev-parse" ∷ "refs/heads/master" ∷ [])
    head ← call ("rev-parse" ∷ branch ∷ [])
    base ← call ("merge-base" ∷ "master" ∷ branch ∷ [])
    close_with branch master head base
