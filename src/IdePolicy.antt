-- ===== src/IdePolicy.antt =====
-- sigiledd/src/ide_policy.rs, `prove`: the rules of a repository's master branch, as GitHub
-- reports them, protect it from everyone but one user. A JSON field that is missing or of another
-- type is `none`. The reports are fetched elsewhere, page by page.
pub mod Enforced
use sigiled.Base.{
  ℕ, String, Bool, true, false, not, ◌&&◌, ◌||◌, Option, none, some, List, [], ◌∷◌, ◌==◌,
  if◌then◌else◌, str_eq, find as find_first,
}

pub record Rule : Type 0 where
  pub kind : Option String
  pub ruleset_id : Option ℕ

pub record Bypass : Type 0 where
  pub actor_type : Option String
  pub actor_id : Option ℕ
  pub bypass_mode : Option String

pub record Ruleset : Type 0 where
  pub id : Option ℕ
  pub enforcement : Option String
  pub source_type : Option String
  pub source : Option String
  pub bypass_actors : Option (List Bypass)

pub data Problem : Type 0 where
  master_update_rule_required unsupported_master_policy incomplete_master_policy : Problem
  policy_bypass_visibility_required distinct_host_merge_user_required : Problem

pub data Proof : Type 0 where
  proved : Proof
  lacks : Problem → Proof

abbrev pub is_text : String → Option String → Bool
is_text s none = false
is_text s (some t) = str_eq t s

abbrev pub is_number : ℕ → Option ℕ → Bool
is_number n none = false
is_number n (some m) = m == n

abbrev pub is_update : Rule → Bool
is_update r = is_text "update" r.kind

abbrev pub is_supported : Rule → Bool
is_supported r = is_update r || is_text "deletion" r.kind || is_text "non_fast_forward" r.kind

abbrev pub is_in_force : String → Ruleset → Bool
is_in_force owner_repo d =
    is_text "active" d.enforcement
    && is_text "Repository" d.source_type
    && is_text owner_repo d.source

abbrev pub is_host : ℕ → List Bypass → Bool
is_host actor [] = false
is_host actor (b ∷ []) =
    is_text "User" b.actor_type && is_number actor b.actor_id && is_text "always" b.bypass_mode
is_host actor (b ∷ (c ∷ more)) = false

-- One rule's checks: `none` lets the loop go on.
unfoldable pub check_bypass : ℕ → Option (List Bypass) → Option Problem
check_bypass actor none = some policy_bypass_visibility_required
check_bypass actor (some bypass) =
    if is_host actor bypass then none else some distinct_host_merge_user_required

unfoldable pub check_detail : ℕ → String → Option Ruleset → Option Problem
check_detail actor owner_repo none = some incomplete_master_policy
check_detail actor owner_repo (some d) =
    if is_in_force owner_repo d
    then check_bypass actor d.bypass_actors
    else some unsupported_master_policy

-- The detail of the rule's ruleset.
unfoldable pub detail_of : List Ruleset → Option ℕ → Option Ruleset
detail_of details none = none
detail_of details (some id) = find_first details (λ d. is_number id d.id)

unfoldable pub check_rule : ℕ → String → List Ruleset → Rule → Option Problem
check_rule actor owner_repo details rule =
    if is_supported rule
    then check_detail actor owner_repo (detail_of details rule.ruleset_id)
    else some unsupported_master_policy

unfoldable pub check_rules : ℕ → String → List Ruleset → Bool → List Rule → Proof
check_rules actor owner_repo details protects [] =
    if protects then proved else lacks master_update_rule_required
check_rules actor owner_repo details protects (rule ∷ rules) =
    let rest = check_rules actor owner_repo details (is_update rule || protects) rules in
    elim (check_rule actor owner_repo details rule) [ some problem ↦ lacks problem | none ↦ rest ]

abbrev is_empty : List Rule → Bool
is_empty [] = true
is_empty (r ∷ rs) = false

unfoldable pub prove : ℕ → String → List Rule → List Ruleset → Proof
prove actor owner_repo rules details =
    if actor == 0 || is_empty rules
    then lacks master_update_rule_required
    else check_rules actor owner_repo details false rules
