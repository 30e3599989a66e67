-- ===== src/Merge/Rules.antt =====
-- What `close_merge` of sigiledd/src/merge.rs relies on of the git command.
use sigiled.Base.{◌≡◌, String, Bool, true, false, some, none, List, [], ◌∷◌, ◌||◌, str_eq}
use sigiled.Git.{Answer, output_of, success_of}

abbrev pub is_reading : List String → Bool
is_reading [] = false
is_reading (verb ∷ args) =
    str_eq verb "rev-parse"
    || str_eq verb "merge-base"
    || str_eq verb "diff"
    || str_eq verb "log"
    || str_eq verb "show"

-- What the routine relies on of git. `master` and `session` are the commits that the two branches
-- name, `on_master` whether master is checked out, and `Before a b` that a is b or an ancestor.
pub record Rules {S : Type 0} (answer : List String → S → Answer) (step : List String → S → S)
    (branch : String) : Type 1 where
  pub master : S → String
  pub session : S → String
  pub on_master : S → Bool
  pub Before : String → String → Type 0
  pub itself : (a : String) → Before a a
  -- Neither a reading command nor a failing one moves a branch.
  pub reading :
      (args : List String) (s : S)
      → is_reading args ≡ true
      → (master (step args s) ≡ master s)
        × (session (step args s) ≡ session s)
        × (on_master (step args s) ≡ on_master s)
  pub rev_parse_master :
      (s : S) (x : String)
      → output_of (answer ("rev-parse" ∷ "refs/heads/master" ∷ []) s) ≡ some x
      → x ≡ master s
  pub rev_parse_session :
      (s : S) (x : String)
      → output_of (answer ("rev-parse" ∷ branch ∷ []) s) ≡ some x
      → x ≡ session s
  pub rev_parse_head :
      (s : S) (x : String)
      → on_master s ≡ true
      → output_of (answer ("rev-parse" ∷ "HEAD" ∷ []) s) ≡ some x
      → x ≡ master s
  pub merge_base :
      (s : S) (x : String)
      → output_of (answer ("merge-base" ∷ "master" ∷ branch ∷ []) s) ≡ some x
      → Before x (master s) × Before x (session s)
  pub update_ref :
      (s : S) (new x : String)
      → output_of (answer ("update-ref" ∷ "refs/heads/master" ∷ new ∷ []) s) ≡ some x
      → (master (step ("update-ref" ∷ "refs/heads/master" ∷ new ∷ []) s) ≡ new)
        × (session (step ("update-ref" ∷ "refs/heads/master" ∷ new ∷ []) s) ≡ session s)
  pub update_ref_refused :
      (s : S) (new : String)
      → output_of (answer ("update-ref" ∷ "refs/heads/master" ∷ new ∷ []) s) ≡ none
      → (master (step ("update-ref" ∷ "refs/heads/master" ∷ new ∷ []) s) ≡ master s)
        × (session (step ("update-ref" ∷ "refs/heads/master" ∷ new ∷ []) s) ≡ session s)
  pub checkout :
      (s : S)
      → (master (step ("checkout" ∷ "-f" ∷ "master" ∷ []) s) ≡ master s)
        × (session (step ("checkout" ∷ "-f" ∷ "master" ∷ []) s) ≡ session s)
  pub checked_out :
      (s : S) (x : String)
      → output_of (answer ("checkout" ∷ "-f" ∷ "master" ∷ []) s) ≡ some x
      → on_master (step ("checkout" ∷ "-f" ∷ "master" ∷ []) s) ≡ true
  pub merging :
      (s : S)
      → on_master s ≡ true
      → success_of (answer ("merge" ∷ "--no-ff" ∷ "--no-edit" ∷ branch ∷ []) s) ≡ some true
      → Before (master s) (master (step ("merge" ∷ "--no-ff" ∷ "--no-edit" ∷ branch ∷ []) s))
        × Before (session s) (master (step ("merge" ∷ "--no-ff" ∷ "--no-edit" ∷ branch ∷ []) s))
        × (session (step ("merge" ∷ "--no-ff" ∷ "--no-edit" ∷ branch ∷ []) s) ≡ session s)
        × (on_master (step ("merge" ∷ "--no-ff" ∷ "--no-edit" ∷ branch ∷ []) s) ≡ true)
  pub merging_refused :
      (s : S)
      → (success_of (answer ("merge" ∷ "--no-ff" ∷ "--no-edit" ∷ branch ∷ []) s) ≡ some true → ⊥)
      → (master (step ("merge" ∷ "--no-ff" ∷ "--no-edit" ∷ branch ∷ []) s) ≡ master s)
        × (session (step ("merge" ∷ "--no-ff" ∷ "--no-edit" ∷ branch ∷ []) s) ≡ session s)
  pub aborting :
      (s : S)
      → (master (step ("merge" ∷ "--abort" ∷ []) s) ≡ master s)
        × (session (step ("merge" ∷ "--abort" ∷ []) s) ≡ session s)
