-- ===== src/Agent/Durable.antt =====
-- ide-agent/src/durable.rs: `Repository::validate` and `checkpoint_mode`. Each request to git or
-- to the file system is written down with its answer, newest first, and the answers may depend on
-- all requests so far, since other writers share the repository. The platform lock and the
-- deadline of thirty seconds are among the answers.
pub mod Steps
pub mod Pushes
use sigiled.Base.{
  ℕ, String, Bool, true, false, not, ◌&&◌, ◌||◌, Option, none, some, List, [], ◌∷◌, ◌==◌,
  if◌then◌else◌, str_eq, str_append, codes, any, is_some, strip_prefix,
}
use sigiled.Routine.{Run, Result, ok, err, or_err, pure, fail_unless, ◌>>=◌, ◌>>◌}

pub data Error : Type 0 where
  changed busy dirty git : Error

pub record Repository : Type 0 where
  pub branch : String
  pub remote : String

pub data Request : Type 0 where
  -- The platform lock, without waiting: granted or not.
  flock : Option Bool → Request
  -- Whether a lock file of git exists.
  exists : String → Bool → Request
  -- A git command, and its trimmed output where it succeeds.
  command : List String → Option String → Request

abbrev pub Requests : Type 0
Requests = List Request

pub record Outside : Type 0 where
  -- None where the lock file cannot be opened.
  pub lock_answer : Requests → Option Bool
  pub exists_answer : String → Requests → Bool
  pub git_answer : List String → Requests → Option String

abbrev pub Attempt {ℓ} : Type ℓ → Type ℓ
Attempt A = Run Requests Error A

abbrev pub lock_error : Option Bool → Result Error (Unit {0})
lock_error none = err git
lock_error (some false) = err busy
lock_error (some true) = ok tt

abbrev is_refused_char : ℕ → Bool
is_refused_char c = c == 10 || c == b':' || c == b' '

module _ (out : Outside) (repo : Repository) where
  unfoldable pub run_git : List String → Attempt String
  run_git args t =
      let answer = out.git_answer args t in (or_err git answer, command args answer ∷ t)

  unfoldable pub lock : Attempt (Unit {0})
  lock t = let answer = out.lock_answer t in (lock_error answer, flock answer ∷ t)

  unfoldable pub require_absent : String → Attempt (Unit {0})
  require_absent name t =
      let there = out.exists_answer name t in
      (if there then err busy else ok tt, exists name there ∷ t)

  abbrev pub symbolic_ref : List String
  symbolic_ref = "symbolic-ref" ∷ "--quiet" ∷ "--short" ∷ "HEAD" ∷ []

  abbrev pub get_url : List String
  get_url = "remote" ∷ "get-url" ∷ "--all" ∷ "origin" ∷ []

  abbrev pub get_push_url : List String
  get_push_url = "remote" ∷ "get-url" ∷ "--push" ∷ "--all" ∷ "origin" ∷ []

  abbrev pub rev_parse : List String
  rev_parse = "rev-parse" ∷ "HEAD" ∷ []

  abbrev pub session_ref : String
  session_ref = str_append "refs/heads/" repo.branch

  -- The tests of the repository's configuration.
  abbrev pub is_proper : Bool
  is_proper =
      is_some (strip_prefix "session/" repo.branch)
      && not (any (codes repo.branch) is_refused_char)
      && not (str_eq repo.remote "")

  unfoldable pub expect : List String → String → Attempt (Unit {0})
  expect args wanted = do text ← run_git args; fail_unless (str_eq text wanted) changed

  unfoldable pub validate : Attempt String
  validate = do
    fail_unless is_proper changed
    require_absent "index.lock"
    require_absent "HEAD.lock"
    require_absent "config.lock"
    require_absent "packed-refs.lock"
    expect symbolic_ref repo.branch
    expect get_url repo.remote
    expect get_push_url repo.remote
    run_git rev_parse

  unfoldable pub validate_at : String → Attempt (Unit {0})
  validate_at head = do now ← validate; fail_unless (str_eq now head) changed

  abbrev pub commit_tree : String → String → List String
  commit_tree tree before =
      "commit-tree" ∷ tree ∷ "-p" ∷ before ∷ "-m"
      ∷ "checkpoint: saved workspace work\n\nSigil-Checkpoint: manual" ∷ []

  abbrev pub update_ref : String → String → List String
  update_ref commit before = "update-ref" ∷ session_ref ∷ commit ∷ before ∷ []

  -- The commit of saved work, where there is some.
  unfoldable pub commit_work : String → Attempt (Unit {0})
  commit_work before = do
    run_git ("add" ∷ "-A" ∷ [])
    validate_at before
    tree ← run_git ("write-tree" ∷ [])
    commit ← run_git (commit_tree tree before)
    validate_at before
    run_git (update_ref commit before)
    pure tt

  abbrev pub porcelain : List String
  porcelain = "status" ∷ "--porcelain" ∷ []

  unfoldable pub commit_if_dirty : String → Attempt (Unit {0})
  commit_if_dirty before = do
    status ← run_git porcelain
    if str_eq status "" then pure tt else commit_work before

  abbrev pub push : String → List String
  push head = "push" ∷ "--" ∷ repo.remote ∷ str_append head (str_append ":" session_ref) ∷ []

  unfoldable pub require_cleanliness : String → Attempt (Unit {0})
  require_cleanliness head = do
    status ← run_git porcelain
    fail_unless (str_eq status "") dirty
    validate_at head

  unfoldable pub push_head : Bool → String → Attempt String
  push_head require_clean head = do
    run_git (push head)
    validate_at head
    if require_clean then require_cleanliness head else pure tt
    pure head

  unfoldable pub checkpoint_mode : Bool → Bool → Attempt String
  checkpoint_mode commit require_clean = do
    lock
    before ← validate
    if commit then commit_if_dirty before else pure tt
    head ← validate
    push_head require_clean head

  unfoldable pub checkpoint : Bool → Attempt String
  checkpoint commit = checkpoint_mode commit false

  unfoldable pub checkpoint_clean : Attempt String
  checkpoint_clean = checkpoint_mode true true
