-- ===== src/IdePolicy/Enforced.antt =====
-- The policies that `prove` of sigiledd/src/ide_policy.rs accepts.
use sigiled.Base.{
  ◌⊎◌, ℕ, ◌≡◌, ◌≢◌, ◌↔◌, inl, inr, refl, String, Bool, true, false, ◌||◌, Option, none, some, List,
  [], ◌∷◌, arith, eq_iff, find as find_first, any, All, Option-cases, Bool-cases,
}
use sigiled.IdePolicy.{
  Rule, Bypass, Ruleset, proved, is_text, is_number, is_update, is_supported, is_in_force, is_host,
  check_bypass, check_detail, detail_of, check_rule, check_rules, prove,
}

-- The rule is of a supported kind, and its ruleset, the first of that number, is in force for
-- this repository and can be bypassed by the host user alone.
abbrev pub Holds : ℕ → String → List Ruleset → Rule → Type 0
Holds actor owner_repo details rule =
    ((rule.kind ≡ some "update")
      ⊎ (rule.kind ≡ some "deletion")
      ⊎ (rule.kind ≡ some "non_fast_forward"))
    × ((id : ℕ) × (d : Ruleset) × (b : Bypass) × (rule.ruleset_id ≡ some id)
        × (find_first details (λ x. is_number id x.id) ≡ some d)
        × (d.enforcement ≡ some "active")
        × (d.source_type ≡ some "Repository")
        × (d.source ≡ some owner_repo)
        × (d.bypass_actors ≡ some (b ∷ []))
        × (b.actor_type ≡ some "User")
        × (b.actor_id ≡ some actor)
        × (b.bypass_mode ≡ some "always"))

is_text-some : (s : String) (o : Option String) → is_text s o ≡ true → o ≡ some s
is_text-some s none h = cc
is_text-some s (some t) h = let e = (eq_iff t s).0 h in cc

is_number-some : (n : ℕ) (o : Option ℕ) → is_number n o ≡ true → o ≡ some n
is_number-some n none h = cc
is_number-some n (some m) h = ground arith

is_text_self : (s : String) → is_text s (some s) ≡ true
is_text_self s = (eq_iff s s).1 refl

is_supported-kind :
    (rule : Rule)
    → is_supported rule ≡ true
    → (rule.kind ≡ some "update")
      ⊎ (rule.kind ≡ some "deletion")
      ⊎ (rule.kind ≡ some "non_fast_forward")
is_supported-kind rule h = elim (Bool-cases (is_update rule)) [
  | inl y ↦ inl (is_text-some "update" rule.kind y)
  | inr n ↦ elim (Bool-cases (is_text "deletion" rule.kind)) [
    | inl y ↦ inr (inl (is_text-some "deletion" rule.kind y))
    | inr m ↦ inr (inr (is_text-some "non_fast_forward" rule.kind (ground (arith, n, m))))
  ]
]

kind-is_supported :
    (rule : Rule)
    → (rule.kind ≡ some "update")
      ⊎ (rule.kind ≡ some "deletion")
      ⊎ (rule.kind ≡ some "non_fast_forward")
    → is_supported rule ≡ true
kind-is_supported rule h =
    ground (arith, is_text_self "update", is_text_self "deletion", is_text_self "non_fast_forward")

is_in_force-fields :
    (owner_repo : String) (d : Ruleset)
    → is_in_force owner_repo d ≡ true
    → (d.enforcement ≡ some "active")
      × (d.source_type ≡ some "Repository")
      × (d.source ≡ some owner_repo)
is_in_force-fields owner_repo d h = (
  is_text-some "active" d.enforcement (ground arith),
  is_text-some "Repository" d.source_type (ground arith),
  is_text-some owner_repo d.source (ground arith),
)

is_host-one :
    (actor : ℕ) (bs : List Bypass)
    → is_host actor bs ≡ true
    → (b : Bypass) × (bs ≡ b ∷ [])
      × (b.actor_type ≡ some "User")
      × (b.actor_id ≡ some actor)
      × (b.bypass_mode ≡ some "always")
is_host-one actor [] h = cc
is_host-one actor (b ∷ []) h = (
  b,
  refl,
  is_text-some "User" b.actor_type (ground arith),
  is_number-some actor b.actor_id (ground arith),
  is_text-some "always" b.bypass_mode (ground arith),
)
is_host-one actor (b ∷ (c ∷ more)) h = cc

check_detail-Holds :
    (actor : ℕ) (owner_repo : String) (o : Option Ruleset)
    → check_detail actor owner_repo o ≡ none
    → (d : Ruleset) × (b : Bypass) × (o ≡ some d)
      × (is_in_force owner_repo d ≡ true)
      × (d.bypass_actors ≡ some (b ∷ []))
      × (b.actor_type ≡ some "User")
      × (b.actor_id ≡ some actor)
      × (b.bypass_mode ≡ some "always")
unfolding check_detail check_bypass
check_detail-Holds actor owner_repo none h = cc
check_detail-Holds actor owner_repo (some d) h = elim (Option-cases d.bypass_actors) [
  | inl e ↦ absurd (ground (arith, e))
  | inr (bs, e) ↦
      let (b, one, kind, who, mode) = is_host-one actor bs (ground (arith, e)) in
      (d, b, refl, ground (arith, e), ground (arith, e, one), kind, who, mode)
]

detail_of-some :
    (details : List Ruleset) (o : Option ℕ) (d : Ruleset)
    → detail_of details o ≡ some d
    → (id : ℕ) × (o ≡ some id) × (find_first details (λ x. is_number id x.id) ≡ some d)
unfolding detail_of
detail_of-some details none d h = cc
detail_of-some details (some id) d h = (id, refl, h)

check_rule-Holds :
    (actor : ℕ) (owner_repo : String) (details : List Ruleset) (rule : Rule)
    → check_rule actor owner_repo details rule ≡ none
    → Holds actor owner_repo details rule
unfolding check_rule
check_rule-Holds actor owner_repo details rule h = elim (Bool-cases (is_supported rule)) [
  | inl y ↦
      let (d, b, there, force, bypass, kind, who, mode) =
        check_detail-Holds actor owner_repo (detail_of details rule.ruleset_id)
          (ground (arith, y)) in
      let (id, at, found) = detail_of-some details rule.ruleset_id d there in
      let (on, own, repo) = is_in_force-fields owner_repo d force in
      (is_supported-kind rule y, (id, d, b, at, found, on, own, repo, bypass, kind, who, mode))
  | inr n ↦ absurd (ground (arith, n))
]

Holds-check_rule :
    (actor : ℕ) (owner_repo : String) (details : List Ruleset) (rule : Rule)
    → Holds actor owner_repo details rule
    → check_rule actor owner_repo details rule ≡ none
unfolding check_rule check_detail check_bypass detail_of
Holds-check_rule actor owner_repo details rule
      (sup, (id, d, b, at, found, on, own, repo, bypass, kind, who, mode)) =
    let one : is_host actor (b ∷ []) ≡ true =
      rw (kind, who, mode) (ground (arith, is_text_self "User", is_text_self "always")) in
    let force : is_in_force owner_repo d ≡ true =
      rw (on, own, repo)
        (ground
          (arith, is_text_self "active", is_text_self "Repository", is_text_self owner_repo)) in
    rw (at, found) (ground (arith, kind-is_supported rule sup, force, bypass, one))

check_rules-Holds :
    (actor : ℕ) (owner_repo : String) (details : List Ruleset) (protects : Bool) (rules : List Rule)
    → check_rules actor owner_repo details protects rules ≡ proved
    → All (Holds actor owner_repo details) rules × (protects || any rules is_update ≡ true)
unfolding check_rules
check_rules-Holds actor owner_repo details protects [] h = (tt, ground arith)
check_rules-Holds actor owner_repo details protects (rule ∷ rules) h =
    elim (Option-cases (check_rule actor owner_repo details rule)) [
      | inl e ↦
          let (a, p) =
            check_rules-Holds actor owner_repo details (is_update rule || protects) rules
              (ground (arith, e)) in
          ((check_rule-Holds actor owner_repo details rule e, a), ground arith)
      | inr (x, e) ↦ absurd (ground (arith, e))
    ]

Holds-check_rules :
    (actor : ℕ) (owner_repo : String) (details : List Ruleset) (protects : Bool) (rules : List Rule)
    → All (Holds actor owner_repo details) rules
    → protects || any rules is_update ≡ true
    → check_rules actor owner_repo details protects rules ≡ proved
unfolding check_rules
Holds-check_rules actor owner_repo details protects [] a p = ground arith
Holds-check_rules actor owner_repo details protects (rule ∷ rules) a p = ground (
  arith,
  Holds-check_rule actor owner_repo details rule a.0,
  Holds-check_rules actor owner_repo details (is_update rule || protects) rules a.1 (ground arith),
)

-- The proof of a policy succeeds exactly when there is a host user; every rule on master is of a
-- supported kind and belongs to a ruleset that is in force, is the repository's own, and can be
-- bypassed, always, by the host user and by nobody else; and some rule forbids updates.
pub prove_iff :
    (actor : ℕ) (owner_repo : String) (rules : List Rule) (details : List Ruleset)
    → (prove actor owner_repo rules details ≡ proved)
      ↔ ((actor ≢ 0) × All (Holds actor owner_repo details) rules × (any rules is_update ≡ true))
unfolding prove
prove_iff actor owner_repo [] details = (λ h. absurd (ground arith), λ h. absurd (ground arith))
prove_iff actor owner_repo (rule ∷ rules) details = (
  λ h.
      let (a, p) = check_rules-Holds actor owner_repo details false (rule ∷ rules) (ground arith) in
      (λ e. ground (arith, e), a, p),
  λ h. ground (arith, h.0, Holds-check_rules actor owner_repo details false (rule ∷ rules) h.1 h.2),
)
