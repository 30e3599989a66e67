-- ===== src/Auth/Policy/Capability.antt =====
-- The decisions of `authorize` in sigiledd/src/auth.rs, and the groups of a token.
use sigiled.Base.{ℕ, String, true, false, ◌≡◌, ◌⊎◌, Option, none, arith, contains, ◌↔◌}
use sigiled.Auth.Approvals.{ApprovalStore, live, elevate_pending}
use sigiled.Auth.Approvals.Flow.{live-elevate_pending}
use sigiled.Auth.Policy.{
  Actor, Action, admin, driver_role, ok, denied, needs_approval, Claims, AuthConfig, authorize,
  requires_approval, actor_from_claims, open_session, projects_new, app_verb, skill_render,
  is_platform,
}

-- The actions that the capability map guards for the stack's drivers.
abbrev pub Guarded : Action → Option String → Type 0
Guarded action project =
    (action ≡ projects_new)
    ⊎ (action ≡ app_verb)
    ⊎ (action ≡ skill_render)
    ⊎ ((action ≡ open_session) × (is_platform project ≡ true))

requires_approval-Guarded :
    (action : Action) (project : Option String)
    → requires_approval action project ≡ true
    → Guarded action project
unfolding requires_approval
requires_approval-Guarded action project h = ground arith

Guarded-requires_approval :
    (action : Action) (project : Option String)
    → Guarded action project
    → requires_approval action project ≡ true
unfolding requires_approval
Guarded-requires_approval action project h = ground arith

-- A driver is denied exactly when the action is one that the map guards and the driver has no
-- live approval; an admin is never denied.
pub authorize-denied_iff :
    (actor : Actor) (action : Action) (project : Option String) (approvals : ApprovalStore)
    (now : ℕ)
    → (authorize actor action project approvals now ≡ denied (needs_approval actor.driver)) ↔ (
        (actor.role ≡ driver_role)
        × Guarded action project
        × (live approvals actor.driver now ≡ none))
unfolding authorize
authorize-denied_iff actor action project approvals now = (
  λ h. ground (arith, requires_approval-Guarded action project),
  λ h. ground (arith, Guarded-requires_approval action project h.1),
)

-- An actor made from a token is an admin exactly when the token carries the admin group.
pub actor_from_claims-role :
    (claims : Claims) (cfg : AuthConfig) (approvals : ApprovalStore) (now : ℕ) (actor : Actor)
    → actor_from_claims claims cfg approvals now ≡ ok actor
    → (actor.role ≡ admin) ↔ (contains claims.groups cfg.admin_group ≡ true)
unfolding actor_from_claims
actor_from_claims-role claims cfg approvals now actor e = (λ h. ground arith, λ h. ground arith)

-- A token without the admin group cannot pass a guarded action while its driver elevates.
pub elevating-denied :
    (claims : Claims) (cfg : AuthConfig) (approvals : ApprovalStore) (made now expires : ℕ)
    (actor : Actor) (action : Action) (project : Option String)
    → contains claims.groups cfg.admin_group ≡ false
    → actor_from_claims claims cfg approvals made ≡ ok actor
    → Guarded action project
    → authorize actor action project (elevate_pending actor.driver expires approvals) now
      ≡ denied (needs_approval actor.driver)
unfolding actor_from_claims
elevating-denied claims cfg approvals made now expires actor action project n e g =
    (authorize-denied_iff actor action project _ now).1
      (ground arith, g, live-elevate_pending actor.driver expires approvals now)
