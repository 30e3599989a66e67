-- ===== src/Agent/Durable/Steps.antt =====
-- What the steps of `validate` and `checkpoint_mode` of ide-agent/src/durable.rs write down.
use sigiled.Base.{
  ◌≡◌, refl, subst, String, Bool, true, false, Option, none, some, List, [], ◌∷◌, arith, ◌||◌,
  str_eq, eq_iff, if◌then◌else◌,
}
use sigiled.Routine.{
  Gives, Leads, Leads-bind, Leads-to, fail_unless-Leads, ok, err, or_err, fail_unless,
}
use sigiled.Agent.Durable.{
  Error, changed, busy, git, Repository, flock, exists, command, Requests, Outside, Attempt,
  run_git, lock, lock_error, require_absent, expect, validate, validate_at, symbolic_ref, get_url,
  get_push_url, rev_parse, is_proper, update_ref, push,
}

-- A command that moves no branch, here or in the remote.
abbrev pub is_still : List String → Bool
is_still [] = false
is_still (verb ∷ args) =
    str_eq verb "symbolic-ref"
    || str_eq verb "remote"
    || str_eq verb "rev-parse"
    || str_eq verb "status"
    || str_eq verb "add"
    || str_eq verb "write-tree"
    || str_eq verb "commit-tree"

module _ (out : Outside) (repo : Repository) where
  -- The requests of a validation that finds no lock file, the session's branch checked out, the
  -- expected remote, and HEAD at a commit.
  abbrev pub validated : String → Requests → Requests
  validated head t =
      command (rev_parse out repo) (some head)
      ∷ command (get_push_url out repo) (some repo.remote)
      ∷ command (get_url out repo) (some repo.remote)
      ∷ command (symbolic_ref out repo) (some repo.branch)
      ∷ exists "packed-refs.lock" false
      ∷ exists "config.lock" false
      ∷ exists "HEAD.lock" false
      ∷ exists "index.lock" false
      ∷ t

  -- Requests in which the session's branch is moved only directly behind a validation that found
  -- HEAD at the old value, and a push names only a commit that HEAD was just validated at, for
  -- the session's own branch in the expected remote.
  pub data Proper : Requests → Type 0 where
    none_yet : Proper []
    locks : {t : Requests} → (answer : Option Bool) → Proper t → Proper (flock answer ∷ t)
    looks :
        {t : Requests} → (name : String) (there : Bool) → Proper t → Proper (exists name there ∷ t)
    reads :
        {t : Requests}
        → (args : List String) (answer : Option String) → is_still args ≡ true
        → Proper t
        → Proper (command args answer ∷ t)
    moves :
        {t : Requests}
        → (commit before : String) (answer : Option String) → Proper (validated before t)
        → Proper (command (update_ref out repo commit before) answer ∷ validated before t)
    pushes :
        {t : Requests}
        → (head : String) (answer : Option String) → Proper (validated head t)
        → Proper (command (push out repo head) answer ∷ validated head t)

  -- The requests so far are just these.
  abbrev pub At : Requests → Requests → Type 0
  At t u = (u ≡ t) × Proper t

  pub run_git-At :
      (args : List String) (t : Requests)
      → ((answer : Option String) → Proper (command args answer ∷ t))
      → Leads (At t) Proper (λ x u. At (command args (some x) ∷ t) u) (run_git out repo args)
  unfolding run_git
  run_git-At args t allowed = record { at = λ u (e, p). rw e (told (out.git_answer args t)) }
    where
      told :
          (o : Option String)
          → Gives
              (λ x u. At (command args (some x) ∷ t) u)
              Proper
              (or_err git o, command args o ∷ t)
      told none = allowed none
      told (some x) = (refl, allowed (some x))

  pub lock-At :
      (t : Requests) → Leads (At t) Proper (λ u. At (flock (some true) ∷ t)) (lock out repo)
  unfolding lock
  lock-At t = record { at = λ u (e, p). rw e (told p (out.lock_answer t)) }
    where
      told :
          Proper t
          → (o : Option Bool)
          → Gives (λ x u. At (flock (some true) ∷ t) u) Proper (lock_error o, flock o ∷ t)
      told p none = Proper.locks none p
      told p (some false) = Proper.locks (some false) p
      told p (some true) = (refl, Proper.locks (some true) p)

  require_absent-At :
      (name : String) (t : Requests)
      → Leads (At t) Proper (λ u. At (exists name false ∷ t)) (require_absent out repo name)
  unfolding require_absent
  require_absent-At name t = record { at = λ u (e, p). rw e (told p (out.exists_answer name t)) }
    where
      told :
          Proper t
          → (b : Bool)
          → Gives
              (λ (x : Unit {0}) u. At (exists name false ∷ t) u)
              Proper
              (if b then err busy else ok tt, exists name b ∷ t)
      told p true = Proper.looks name true p
      told p false = (refl, Proper.looks name false p)

  -- What is proper so far may be used.
  pub At-Proper {ℓ} :
      {A : Type ℓ} {Q : A → Requests → Type 0} {m : Attempt A} (t : Requests)
      → (Proper t → Leads (At t) Proper Q m)
      → Leads (At t) Proper Q m
  At-Proper t l = record { at = λ u (e, p). (l p).at u (e, p) }

  -- A test of an answer.
  pub fail_unless-At :
      (f : String → Requests) (x wanted : String) (e : Error)
      → Leads (At (f x)) Proper (λ u. At (f wanted)) (fail_unless (str_eq x wanted) e)
  fail_unless-At f x wanted e =
      Leads-to (λ u s (same, a). subst (λ y. At (f y) s) (ground (arith, same, eq_iff x wanted)) a)
        (fail_unless-Leads (str_eq x wanted) e λ s (a, p). rw a p)

  expect-At :
      (args : List String) (wanted : String) (t : Requests)
      → is_still args ≡ true
      → Leads (At t) Proper (λ u. At (command args (some wanted) ∷ t)) (expect out repo args wanted)
  unfolding expect
  expect-At args wanted t still = At-Proper t λ p.
      Leads-bind (run_git-At args t λ a. Proper.reads args a still p)
        λ x. fail_unless-At (λ y. command args (some y) ∷ t) x wanted changed

  -- A validation writes down just its requests.
  pub validate-At :
      (t : Requests) → Leads (At t) Proper (λ head. At (validated head t)) (validate out repo)
  unfolding validate
  validate-At t =
      Leads-bind
        (Leads-to (λ u s h. h.1)
          (fail_unless-Leads (is_proper out repo) changed λ s (a, p). rw a p))
        λ u. Leads-bind (require_absent-At "index.lock" t) λ u.
          Leads-bind (require_absent-At "HEAD.lock" _) λ u.
            Leads-bind (require_absent-At "config.lock" _) λ u.
              Leads-bind (require_absent-At "packed-refs.lock" _) λ u.
                Leads-bind (expect-At (symbolic_ref out repo) repo.branch _ refl) λ u.
                  Leads-bind (expect-At (get_url out repo) repo.remote _ refl) λ u.
                    Leads-bind (expect-At (get_push_url out repo) repo.remote _ refl) λ u.
                      At-Proper _ λ p.
                        run_git-At (rev_parse out repo) _
                          λ a. Proper.reads (rev_parse out repo) a refl p

  pub validate_at-At :
      (head : String) (t : Requests)
      → Leads (At t) Proper (λ u. At (validated head t)) (validate_at out repo head)
  unfolding validate_at
  validate_at-At head t =
      Leads-bind (validate-At t) λ x. fail_unless-At (λ y. validated y t) x head changed
