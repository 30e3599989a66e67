-- ===== src/Merge/Outcomes.antt =====
-- The outcomes of `close_merge` of sigiledd/src/merge.rs, for a repository that obeys git's
-- documented rules.
use sigiled.Base.{
  ◌≡◌, refl, sym, subst, ◌∙◌, String, Bool, true, false, some, List, [], ◌∷◌, arith, if◌then◌else◌,
  str_eq, eq_iff,
}
use sigiled.Routine.{Gives, Leads, Leads-bind, Leads-pure, Leads-from, Leads-given, Leads-if}
use sigiled.Git.{Answer, git-Leads, outcome-Leads, output_of, success_of, git}
use sigiled.Sessions.World.{MergeOutcome, ff, merged, debt}
use sigiled.Merge.Rules.{Rules, is_reading}
use sigiled.Merge.{
  fast_forward, harvest, read_merged, three_way, close_with, close_merge, range, conflict_debt,
}

module _ {S : Type 0} (answer : List String → S → Answer) (step : List String → S → S)
    (branch : String) (rules : Rules answer step branch) (m h : String) where
  -- The branches stand where they stood.
  abbrev H : S → Type 0
  H s = (rules.master s ≡ m) × (rules.session s ≡ h)

  -- What an error leaves: the session's branch as it was, and no commit of master lost.
  abbrev pub Kept : S → Type 0
  Kept s = rules.Before m (rules.master s) × (rules.session s ≡ h)

  -- What an outcome promises of the repository that it leaves.
  abbrev pub Promise : MergeOutcome → S → Type 0
  Promise (ff sha) s =
      (rules.master s ≡ sha) × rules.Before m sha × rules.Before h sha × (rules.session s ≡ h)
  Promise (merged sha) s =
      (rules.master s ≡ sha) × rules.Before m sha × rules.Before h sha × (rules.session s ≡ h)
  Promise (debt d) s =
      (rules.master s ≡ m)
      × (rules.session s ≡ h)
      × (d.branch ≡ branch)
      × (d.ours.sha ≡ m)
      × (d.theirs.sha ≡ h)

  H-Kept : (s : S) → H s → Kept s
  H-Kept s (a, b) = (subst (λ x. rules.Before m x) (sym a) (rules.itself m), b)

  same-H :
      (s t : S) → H s → rules.master t ≡ rules.master s → rules.session t ≡ rules.session s → H t
  same-H s t (a, b) e f = (e ∙ a, f ∙ b)

  -- A command that reads keeps what holds of the branches, and its answer tells a fact.
  reading-Leads :
      (args : List String) (F : String → Type 0)
      → is_reading args ≡ true
      → ((s : S) → H s → (x : String) → output_of (answer args s) ≡ some x → F x)
      → Leads H Kept (λ x s. F x × H s) (git answer step args)
  reading-Leads args F reads fact =
      git-Leads answer step args (λ s k x e. (fact s k x e, kept s k))
        λ s k e. H-Kept (step args s) (kept s k)
    where
      kept : (s : S) → H s → H (step args s)
      kept s k = let (e, f, g) = rules.reading args s reads in same-H s (step args s) k e f

  -- A reading whose answer is only quoted.
  quoted-Leads :
      (args : List String)
      → is_reading args ≡ true
      → Leads H Kept (λ x s. H s) (git answer step args)
  quoted-Leads args reads =
      git-Leads answer step args (λ s k x e. kept s k) λ s k e. H-Kept (step args s) (kept s k)
    where
      kept : (s : S) → H s → H (step args s)
      kept s k = let (e, f, g) = rules.reading args s reads in same-H s (step args s) k e f

  fast_forward-Promise : rules.Before m h → Leads H Kept Promise (fast_forward answer step h)
  unfolding fast_forward
  fast_forward-Promise ahead =
      Leads-bind {Q = λ u s. Moved s}
        (git-Leads answer step ("update-ref" ∷ "refs/heads/master" ∷ h ∷ [])
          (λ s k x e. let (a, b) = rules.update_ref s h x e in (a, b ∙ k.1))
          λ s k e. let (a, b) = rules.update_ref_refused s h e in H-Kept _ (same-H s _ k a b))
        λ u.
          Leads-bind {Q = λ u s. Moved s}
            (git-Leads answer step ("checkout" ∷ "-f" ∷ "master" ∷ []) (λ s k x e. moved s k)
              λ s k e. let (a, b) = moved s k in (subst (λ x. rules.Before m x) (sym a) ahead, b))
            λ u. Leads-from (λ s (a, b). (a, ahead, rules.itself h, b)) (Leads-pure Promise (ff h))
    where
      Moved : S → Type 0
      Moved s = (rules.master s ≡ h) × (rules.session s ≡ h)

      moved : (s : S) → Moved s → Moved (step ("checkout" ∷ "-f" ∷ "master" ∷ []) s)
      moved s (a, b) = let (e, f) = rules.checkout s in (e ∙ a, f ∙ b)

  harvest-Promise : (base : String) → Leads H Kept Promise (harvest answer step branch m h base)
  unfolding harvest
  harvest-Promise base =
      Leads-bind (quoted-Leads ("diff" ∷ "--name-only" ∷ "--diff-filter=U" ∷ []) refl) λ conflicted.
        Leads-bind (quoted-Leads ("log" ∷ "--format=%s" ∷ range base m ∷ []) refl) λ ours.
          Leads-bind (quoted-Leads ("log" ∷ "--format=%s" ∷ range base h ∷ []) refl) λ theirs.
            Leads-bind (quoted-Leads ("show" ∷ "-s" ∷ "--format=%cI" ∷ base ∷ []) refl) λ since.
              Leads-bind {Q = λ u s. H s}
                (git-Leads answer step ("merge" ∷ "--abort" ∷ []) (λ s k x e. aborted s k)
                  λ s k e. H-Kept _ (aborted s k))
                λ u.
                  Leads-from (λ s (a, b). (a, b, refl, refl, refl))
                    (Leads-pure Promise
                      (debt (conflict_debt answer step branch m h conflicted ours theirs since)))
    where
      aborted : (s : S) → H s → H (step ("merge" ∷ "--abort" ∷ []) s)
      aborted s k = let (a, b) = rules.aborting s in same-H s _ k a b

  -- What a merge leaves.
  abbrev Fused : S → Type 0
  Fused s =
      rules.Before m (rules.master s)
      × rules.Before h (rules.master s)
      × (rules.session s ≡ h)
      × (rules.on_master s ≡ true)

  read_merged-Promise : Leads Fused Kept Promise (read_merged answer step)
  unfolding read_merged
  read_merged-Promise =
      Leads-bind {Q = λ sha s. (sha ≡ rules.master s) × Fused s}
        (git-Leads answer step head
          (λ s k x e.
            (rules.rev_parse_head s x k.3 e ∙ sym (rules.reading head s refl).0, kept s k))
          λ s k e. let (a, b, c, d) = kept s k in (a, c))
        λ sha.
          Leads-from
            (λ s (e, k). (
              sym e,
              subst (λ x. rules.Before m x) (sym e) k.0,
              subst (λ x. rules.Before h x) (sym e) k.1,
              k.2,
            ))
            (Leads-pure Promise (merged sha))
    where
      head : List String
      head = "rev-parse" ∷ "HEAD" ∷ []

      kept : (s : S) → Fused s → Fused (step head s)
      kept s (a, b, c, d) =
          let (e, f, g) = rules.reading head s refl in
          (
            subst (λ x. rules.Before m x) (sym e) a,
            subst (λ x. rules.Before h x) (sym e) b,
            f ∙ c,
            g ∙ d,
          )

  three_way-Promise : (base : String) → Leads H Kept Promise (three_way answer step branch m h base)
  unfolding three_way
  three_way-Promise base =
      Leads-bind {Q = λ u s. H s × (rules.on_master s ≡ true)}
        (git-Leads answer step ("checkout" ∷ "-f" ∷ "master" ∷ [])
          (λ s k x e. (kept s k, rules.checked_out s x e)) λ s k e. H-Kept _ (kept s k))
        λ u.
          Leads-bind {Q = After}
            (outcome-Leads answer step merge tried
              (λ s (k, on) e. H-Kept _ (refused s k (λ f. absurd (ground (arith, e, f))))))
            λ done. split done
    where
      merge : List String
      merge = "merge" ∷ "--no-ff" ∷ "--no-edit" ∷ branch ∷ []

      kept : (s : S) → H s → H (step ("checkout" ∷ "-f" ∷ "master" ∷ []) s)
      kept s k = let (a, b) = rules.checkout s in same-H s _ k a b

      refused : (s : S) → H s → (success_of (answer merge s) ≡ some true → ⊥) → H (step merge s)
      refused s k n = let (a, b) = rules.merging_refused s n in same-H s _ k a b

      After : Bool → S → Type 0
      After true s = Fused s
      After false s = H s

      tried :
          (s : S)
          → H s × (rules.on_master s ≡ true)
          → (b : Bool) → success_of (answer merge s) ≡ some b
          → After b (step merge s)
      tried s (k, on) true e =
          let (a, b, c, d) = rules.merging s on e in
          (
            subst (λ x. rules.Before x (rules.master (step merge s))) k.0 a,
            subst (λ x. rules.Before x (rules.master (step merge s))) k.1 b,
            c ∙ k.1,
            d,
          )
      tried s (k, on) false e = refused s k (λ f. absurd (ground (arith, e, f)))

      split :
          (done : Bool)
          → Leads
              (After done)
              Kept
              Promise
              (if done then read_merged answer step else harvest answer step branch m h base)
      split true = read_merged-Promise
      split false = harvest-Promise base

  close_with-Promise :
      (base : String)
      → rules.Before base m
      → rules.Before base h
      → Leads H Kept Promise (close_with answer step branch m h base)
  unfolding close_with
  close_with-Promise base on_m on_h =
      Leads-if (str_eq h base)
        (λ e.
          Leads-from
            (λ s (a, b). (
              a,
              rules.itself m,
              subst (λ x. rules.Before x m) (ground (arith, e, eq_iff h base)) on_m,
              b,
            ))
            (Leads-pure Promise (ff m)))
        λ e.
          Leads-if (str_eq m base)
            (λ f.
              fast_forward-Promise
                (subst (λ x. rules.Before x h) (ground (arith, f, eq_iff m base)) on_h))
            λ f. three_way-Promise base

  close_with-given :
      (x y base : String)
      → x ≡ m
      → y ≡ h
      → rules.Before base m
      → rules.Before base h
      → Leads H Kept Promise (close_with answer step branch x y base)
  close_with-given x y base e f a b = rw (e, f) (close_with-Promise base a b)

  -- In a repository that obeys git's rules, whatever else its commands answer: a close that
  -- replies success leaves master on the commit it names, which has both the former master and the
  -- session's head behind it. A debt leaves master where it was and names its commit and the
  -- session's head. An error loses no commit of master. The session's branch never moves.
  pub close_merge-Promise :
      (s : S)
      → rules.master s ≡ m
      → rules.session s ≡ h
      → Gives Promise Kept (close_merge answer step branch s)
  unfolding close_merge
  close_merge-Promise s a b =
      (Leads-bind
          (reading-Leads ("rev-parse" ∷ "refs/heads/master" ∷ []) (λ x. x ≡ m) refl
            (λ s k x e. rules.rev_parse_master s x e ∙ k.0))
          λ x. Leads-given λ is_m.
            Leads-bind
              (reading-Leads ("rev-parse" ∷ branch ∷ []) (λ x. x ≡ h) refl
                (λ s k x e. rules.rev_parse_session s x e ∙ k.1))
              λ y. Leads-given λ is_h.
                Leads-bind
                  (reading-Leads ("merge-base" ∷ "master" ∷ branch ∷ [])
                    (λ x. rules.Before x m × rules.Before x h) refl
                    (λ s k x e.
                      let (p, q) = rules.merge_base s x e in
                      (subst (λ y. rules.Before x y) k.0 p, subst (λ y. rules.Before x y) k.1 q)))
                  λ base.
                    Leads-given λ bases. close_with-given x y base is_m is_h bases.0 bases.1).at
        s (a, b)
