-- ===== src/Auth/Policy.antt =====
-- sigiledd/src/auth.rs, the policy: the capability map of `authorize`, the mapping of an identity
-- provider's groups to a role, and the decision on service-to-service calls. A denial's text is
-- a constructor with the values that the text quotes.
pub mod Capability
pub mod Service
use sigiled.Base.{
  ℕ, String, Bool, true, false, ◌||◌, Option, none, some, List, [], ◌∷◌, is_none, is_some,
  if◌then◌else◌, str_eq, str_append, contains, any, ◌&&◌,
}
use sigiled.Auth.Approvals.{Approval, ApprovalStore, live, or_else}

abbrev pub platform_projects : List String
platform_projects = "sigiled" ∷ "sigiled-supervisor" ∷ []

pub data Role : Type 0 where
  admin driver_role : Role

abbrev pub is_admin : Role → Bool
is_admin admin = true
is_admin driver_role = false

-- `approval` is the text "<human> (device, expires <epoch>)": its two values.
pub record Actor : Type 0 where
  pub driver : String
  pub role : Role
  pub approval : Option (String × ℕ)

pub data Action : Type 0 where
  open_session close_session recycle git exec job_run job_recap projects_new app_verb : Action
  skill_render : Action

pub data ServicePolicy : Type 0 where
  any_authenticated per_service : ServicePolicy

unfoldable pub parse_policy : String → Option ServicePolicy
parse_policy s =
    if str_eq s "any-authenticated"
    then some any_authenticated
    else if str_eq s "per-service"
    then some per_service
    else none

pub record AuthConfig : Type 0 where
  pub bootstrap_bearer : Option String
  pub oidc_base : Option String
  pub device_client_id : String
  pub admin_group : String
  pub driver_group : String
  pub service_group_prefix : String
  pub service_policy : ServicePolicy

abbrev pub enabled : AuthConfig → Bool
enabled cfg = is_some cfg.bootstrap_bearer || is_some cfg.oidc_base

unfoldable pub service_group : AuthConfig → String → String
service_group cfg service = str_append cfg.service_group_prefix service

abbrev pub is_platform : Option String → Bool
is_platform none = false
is_platform (some p) = contains platform_projects p

unfoldable pub requires_approval : Action → Option String → Bool
requires_approval projects_new project = true
requires_approval app_verb project = true
requires_approval skill_render project = true
requires_approval open_session project = is_platform project
requires_approval _ project = false

pub data Denial : Type 0 where
  needs_approval : String → Denial
  lacks_group : String → String → Denial
  lacks_role : String → String → Denial

pub data Decision {ℓ} (A : Type ℓ) : Type ℓ where
  ok : A → Decision A
  denied : Denial → Decision A

unfoldable pub authorize : Actor → Action → Option String → ApprovalStore → ℕ → Decision (Unit {0})
authorize actor action project approvals now =
    if is_admin actor.role
    then ok tt
    else if requires_approval action project && is_none (live approvals actor.driver now)
    then denied (needs_approval actor.driver)
    else ok tt

pub record Claims : Type 0 where
  pub sub : String
  pub preferred_username : Option String
  pub azp : Option String
  pub groups : List String
  pub iss : String
  pub exp : ℕ

unfoldable pub claims_driver : Claims → String
claims_driver c = or_else c.preferred_username (or_else c.azp c.sub)

abbrev pub approval_view : Option Approval → Option (String × ℕ)
approval_view none = none
approval_view (some a) = some (a.human, a.expires_epoch)

abbrev actor_as : Role → Claims → ApprovalStore → ℕ → Actor
actor_as role claims approvals now =
    let driver = claims_driver claims in
    record { driver = driver; role = role; approval = approval_view (live approvals driver now) }

unfoldable pub actor_from_claims : Claims → AuthConfig → ApprovalStore → ℕ → Decision Actor
actor_from_claims claims cfg approvals now =
    if contains claims.groups cfg.admin_group
    then ok (actor_as admin claims approvals now)
    else if contains claims.groups cfg.driver_group
    then ok (actor_as driver_role claims approvals now)
    else denied (lacks_role cfg.admin_group cfg.driver_group)

pub data GrantedBy : Type 0 where
  by_admin by_authentication by_compose : GrantedBy

service_decision : ServicePolicy → Claims → String → Decision GrantedBy
service_decision any_authenticated claims wanted = ok by_authentication
service_decision per_service claims wanted =
    if contains claims.groups wanted
    then ok by_compose
    else denied (lacks_group (claims_driver claims) wanted)

unfoldable pub authorize_service_call : Claims → String → AuthConfig → Decision GrantedBy
unfolding service_decision
authorize_service_call claims service cfg =
    if contains claims.groups cfg.admin_group
    then ok by_admin
    else service_decision cfg.service_policy claims (service_group cfg service)
