-- ===== src/Agent/Durable/Pushes.antt =====
-- The pushes of `checkpoint_mode` of ide-agent/src/durable.rs.
use sigiled.Base.{◌≡◌, refl, String, Bool, true, false, some, [], ◌∷◌, str_eq, if◌then◌else◌}
use sigiled.Routine.{Gives, Leads, Leads-bind, Leads-to, Leads-from, Leads-if, Leads-pure, pure}
use sigiled.Agent.Durable.{
  dirty, Repository, command, Requests, Outside, commit_work, commit_if_dirty, push_head,
  require_cleanliness, checkpoint_mode, update_ref, push, porcelain, commit_tree,
}
use sigiled.Agent.Durable.Steps.{
  validated, Proper, At, At-Proper, fail_unless-At, run_git-At, lock-At, validate-At,
  validate_at-At,
}

module _ (out : Outside) (repo : Repository) where
  -- The requests end with a push of a commit that succeeded, between two validations that found
  -- HEAD at it; with a clean work tree behind them where one is required.
  abbrev pub Pushed : Bool → String → Requests → Type 0
  Pushed false head u =
      (t : Requests) × (x : String) × (u
        ≡ validated out repo head
            (command (push out repo head) (some x) ∷ validated out repo head t))
  Pushed true head u =
      (t : Requests) × (x : String) × (u
        ≡ validated out repo head (
            command (porcelain out repo) (some "")
            ∷ validated out repo head
                (command (push out repo head) (some x) ∷ validated out repo head t)))

  abbrev Some : Requests → Type 0
  Some u = Proper out repo u

  At-Some : (t u : Requests) → At out repo t u → Some u
  At-Some t u (e, p) = rw e p

  commit_work-At :
      (before : String) (t : Requests)
      → Leads (At out repo t) (Proper out repo) (λ u. Some) (commit_work out repo before)
  unfolding commit_work
  commit_work-At before t = At-Proper out repo t λ p.
      Leads-bind
        (run_git-At out repo ("add" ∷ "-A" ∷ []) t λ a. Proper.reads ("add" ∷ "-A" ∷ []) a refl p)
        λ x. Leads-bind (validate_at-At out repo before _) λ u. At-Proper out repo _ λ q.
          Leads-bind
            (run_git-At out repo ("write-tree" ∷ []) _
              λ a. Proper.reads ("write-tree" ∷ []) a refl q)
            λ tree. At-Proper out repo _ λ r.
              Leads-bind
                (run_git-At out repo (commit_tree out repo tree before) _
                  λ a. Proper.reads (commit_tree out repo tree before) a refl r)
                λ commit. Leads-bind (validate_at-At out repo before _) λ u.
                  At-Proper out repo _ λ s.
                    Leads-bind
                      (run_git-At out repo (update_ref out repo commit before) _
                        λ a. Proper.moves commit before a s)
                      λ y. Leads-from (At-Some _) (Leads-pure (λ u. Some) tt)

  commit_if_dirty-At :
      (before : String) (t : Requests)
      → Leads (At out repo t) (Proper out repo) (λ u. Some) (commit_if_dirty out repo before)
  unfolding commit_if_dirty
  commit_if_dirty-At before t = At-Proper out repo t λ p.
      Leads-bind
        (run_git-At out repo (porcelain out repo) t λ a. Proper.reads (porcelain out repo) a refl p)
        λ status.
          Leads-if (str_eq status "") (λ e. Leads-from (At-Some _) (Leads-pure (λ u. Some) tt))
            λ e. commit_work-At before _

  require_cleanliness-At :
      (head : String) (t : Requests)
      → Leads
          (At out repo t)
          (Proper out repo)
          (λ u. At out repo (validated out repo head (command (porcelain out repo) (some "") ∷ t)))
          (require_cleanliness out repo head)
  unfolding require_cleanliness
  require_cleanliness-At head t = At-Proper out repo t λ p.
      Leads-bind
        (run_git-At out repo (porcelain out repo) t λ a. Proper.reads (porcelain out repo) a refl p)
        λ status.
          Leads-bind
            (fail_unless-At out repo (λ y. command (porcelain out repo) (some y) ∷ t) status ""
              dirty)
            λ u. validate_at-At out repo head _

  abbrev Done : Bool → String → Requests → Type 0
  Done require_clean head u = Pushed require_clean head u × Proper out repo u

  push_head-Pushed :
      (require_clean : Bool) (head : String) (t : Requests)
      → Leads
          (At out repo (validated out repo head t))
          (Proper out repo)
          (Done require_clean)
          (push_head out repo require_clean head)
  unfolding push_head
  push_head-Pushed require_clean head t = At-Proper out repo _ λ p.
      Leads-bind (run_git-At out repo (push out repo head) _ λ a. Proper.pushes head a p) λ x.
        Leads-bind (validate_at-At out repo head _) λ u.
          Leads-bind {Q = λ u. Done require_clean head} (cleaned require_clean x)
            λ u. Leads-pure (Done require_clean) head
    where
      after : String → Requests
      after x =
          validated out repo head
            (command (push out repo head) (some x) ∷ validated out repo head t)

      cleaned :
          (b : Bool) (x : String)
          → Leads
              (At out repo (after x))
              (Proper out repo)
              (λ u. Done b head)
              (if b then require_cleanliness out repo head else pure tt)
      cleaned false x =
          Leads-from (λ u (e, p). ((t, x, e), rw e p)) (Leads-pure (λ u. Done false head) tt)
      cleaned true x =
          Leads-to (λ y u (e, p). ((t, x, e), rw e p)) (require_cleanliness-At head (after x))

  -- Whatever git, the file system and the other writers answer at any request: a checkpoint moves
  -- the session's branch only directly behind a validation that found HEAD at the old value, and
  -- pushes only a commit that HEAD was just validated at, to the session's own branch in the
  -- expected remote. Where it succeeds, the push of the commit that it names succeeded, HEAD was
  -- validated at that commit before and after it, and where a clean work tree is required, the
  -- tree was clean after the push and HEAD still at the commit after that.
  pub checkpoint_mode-Pushed :
      (commit require_clean : Bool) (t : Requests)
      → Proper out repo t
      → Gives
          (λ head u. Pushed require_clean head u × Proper out repo u)
          (Proper out repo)
          (checkpoint_mode out repo commit require_clean t)
  unfolding checkpoint_mode
  checkpoint_mode-Pushed commit require_clean t p =
      (Leads-bind (lock-At out repo t) λ u. Leads-bind (validate-At out repo _) λ before.
          Leads-bind {Q = λ u. Some}
            (record { at = λ v (e, q). (committed before v).at v (refl, rw e q) })
            λ u.
              Leads-bind {Q = λ head u. (v : Requests) × At out repo (validated out repo head v) u}
                (record {
                  at = λ v q. (Leads-to (λ h u a. (v, a)) (validate-At out repo v)).at v (refl, q);
                })
                λ head. record {
                  at = λ u (v, a). (push_head-Pushed require_clean head v).at u a;
                }).at
        t (refl, p)
    where
      committed :
          (before : String) (v : Requests)
          → Leads
              (At out repo v)
              (Proper out repo)
              (λ u. Some)
              (if commit then commit_if_dirty out repo before else pure tt)
      committed before v =
          Leads-if commit (λ e. commit_if_dirty-At before v)
            λ e. Leads-from (At-Some v) (Leads-pure (λ u. Some) tt)
