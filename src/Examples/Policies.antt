-- ===== src/Examples/Policies.antt =====
-- Runs and instances for sigiledd/src/ide_policy.rs, after the cases of its tests.
use sigiled.Base.{ℕ, ◌≡◌, ◌≢◌, ◌↔◌, refl, true, none, some, [], ◌∷◌, any, All}
use sigiled.IdePolicy.{
  Rule, Bypass, Ruleset, proved, lacks, distinct_host_merge_user_required,
  policy_bypass_visibility_required, is_update, prove,
}
use sigiled.IdePolicy.Enforced.{Holds, prove_iff}

abbrev update_rule : Rule
update_rule = record { kind = some "update"; ruleset_id = some 7 }

abbrev host : Bypass
host = record { actor_type = some "User"; actor_id = some 12; bypass_mode = some "always" }

abbrev good : Ruleset
good = record {
  id = some 7;
  enforcement = some "active";
  source_type = some "Repository";
  source = some "o/proj";
  bypass_actors = some (host ∷ []);
}

passes : prove 12 "o/proj" (update_rule ∷ []) (good ∷ []) ≡ proved
unfolding prove sigiled.IdePolicy.check_rules sigiled.IdePolicy.check_rule
    sigiled.IdePolicy.check_detail sigiled.IdePolicy.detail_of sigiled.IdePolicy.check_bypass
passes = refl

hidden_bypass :
    prove 12 "o/proj" (update_rule ∷ []) (record good { bypass_actors = none } ∷ [])
    ≡ lacks policy_bypass_visibility_required
unfolding prove sigiled.IdePolicy.check_rules sigiled.IdePolicy.check_rule
    sigiled.IdePolicy.check_detail sigiled.IdePolicy.detail_of sigiled.IdePolicy.check_bypass
hidden_bypass = refl

another_user :
    prove 13 "o/proj" (update_rule ∷ []) (good ∷ []) ≡ lacks distinct_host_merge_user_required
unfolding prove sigiled.IdePolicy.check_rules sigiled.IdePolicy.check_rule
    sigiled.IdePolicy.check_detail sigiled.IdePolicy.detail_of sigiled.IdePolicy.check_bypass
another_user = refl

abbrev host_user : ℕ
host_user = 12

prove_iff_example : (prove 12 "o/proj" (update_rule ∷ []) (good ∷ []) ≡ proved) ↔ (
    (host_user ≢ 0)
    × All (Holds 12 "o/proj" (good ∷ [])) (update_rule ∷ [])
    × (any (update_rule ∷ []) is_update ≡ true))
prove_iff_example = prove_iff 12 "o/proj" (update_rule ∷ []) (good ∷ [])
