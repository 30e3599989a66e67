-- ===== src/Examples/Approvals.antt =====
-- Runs and instances for sigiledd/src/auth.rs, the approvals and the policy.
use mathlib.Core.List.{Memᴰ}
use sigiled.Base.{
  ℕ, ◌≡◌, ◌≢◌, ◌↔◌, ◌⊎◌, inl, inr, refl, String, true, false, Option, none, some, List, [], ◌∷◌,
  contains, str_eq, eq_iff, arith, codes,
}
use sigiled.Auth.Approvals.{
  ApprovalStore, Approval, Poll, PollReply, error, approved, elevate, live, elevate_pending,
}
use sigiled.Auth.Approvals.Flow.{elevate-live, Grants, granted_by}
use sigiled.Auth.Policy.{
  Actor, driver_role, Claims, AuthConfig, ok, actor_from_claims, per_service,
  authorize_service_call, service_group, claims_driver, GrantedBy, by_compose,
}
use sigiled.Auth.Policy.Service.{compose_group_exact}

-- The identity provider makes the driver wait once and then accepts.
abbrev two_polls : List Poll
two_polls =
    record { now = 10; reply = error "authorization_pending"; granted_at = 10 }
    ∷ record { now = 15; reply = approved (some "ivan") (some 3600) "{}"; granted_at = 16 }
    ∷ []

abbrev given : Approval
given = granted_by "claude" 16 (some "ivan") (some 3600) "{}"

elevated : live (elevate "claude" 600 [] two_polls).0 "claude" 100 ≡ some given
unfolding live elevate sigiled.Base.get sigiled.Auth.Approvals.grant sigiled.Base.insert
elevated = refl

denied_then :
    live
      (elevate "claude" 600 []
        (record { now = 10; reply = error "access_denied"; granted_at = 10 } ∷ [])).0
      "claude"
      100
    ≡ none
unfolding live elevate sigiled.Base.get sigiled.Auth.Approvals.mark sigiled.Base.adjust
    sigiled.Base.insert
denied_then = refl

elevate-live_example : (p : Poll) × Memᴰ p two_polls × Grants "claude" 600 given p
elevate-live_example = elevate-live "claude" 600 [] two_polls 100 given elevated

abbrev claude_name : String
claude_name = "claude"

claude_is_not_codex : claude_name ≢ "codex"
claude_is_not_codex e =
    let h : str_eq claude_name "codex" ≡ true = (eq_iff claude_name "codex").1 e in cc

abbrev driver : Actor
driver = record { driver = "claude"; role = driver_role; approval = none }

abbrev config : AuthConfig
config = record {
  bootstrap_bearer = some "secret";
  oidc_base = some "https://id.example/application/o";
  device_client_id = "sigiled";
  admin_group = "sigiled-admins";
  driver_group = "sigiled-drivers";
  service_group_prefix = "svc-";
  service_policy = per_service;
}

abbrev claims : List String → Claims
claims groups = record {
  sub = "42";
  preferred_username = some "claude";
  azp = none;
  groups = groups;
  iss = "https://id.example/application/o/sigiled/";
  exp = 1000;
}

made : actor_from_claims (claims ("sigiled-drivers" ∷ [])) config [] 5 ≡ ok driver
unfolding actor_from_claims claims_driver live sigiled.Base.get
made = refl

mail_group : "svc-mail" ∷ [] ≡ service_group config "mail" ∷ []
unfolding service_group
mail_group = refl

mail_allowed : authorize_service_call (claims ("svc-mail" ∷ [])) "mail" config ≡ ok by_compose
unfolding authorize_service_call service_group
mail_allowed = refl

abbrev mail : String
mail = "mail"

compose_group_exact_example :
    ((g : GrantedBy) × (authorize_service_call (claims ("svc-mail" ∷ [])) "wiki" config ≡ ok g))
    ↔ (mail ≡ "wiki")
compose_group_exact_example =
    compose_group_exact (claims ("svc-mail" ∷ [])) "mail" "wiki" config refl mail_group refl

abbrev one_two : List ℕ
one_two = 1 ∷ 2 ∷ []
