-- ===== src/Auth/Policy/Service.antt =====
-- Which services a caller may reach by `authorize_service_call` of sigiledd/src/auth.rs.
use text.Mathlib.TextLemmas.{append_cancel_left}
use sigiled.Base.{
  String, true, false, ◌≡◌, ◌⊎◌, ◌↔◌, inl, inr, [], ◌∷◌, arith, contains, eq_iff, Bool-cases,
}
use sigiled.Auth.Policy.{
  Claims, AuthConfig, GrantedBy, ok, authorize_service_call, service_group, per_service, by_admin,
  by_compose,
}

-- Under the per-service policy a call is allowed exactly when the token carries the admin group
-- or the group of that very service.
pub per_service_iff :
    (claims : Claims) (service : String) (cfg : AuthConfig)
    → cfg.service_policy ≡ per_service
    → ((g : GrantedBy) × (authorize_service_call claims service cfg ≡ ok g)) ↔ (
        (contains claims.groups cfg.admin_group ≡ true)
        ⊎ (contains claims.groups (service_group cfg service) ≡ true))
unfolding authorize_service_call
per_service_iff claims service cfg p = (
  λ h. ground arith,
  λ h. elim (Bool-cases (contains claims.groups cfg.admin_group)) [
    | inl y ↦ (by_admin, ground arith)
    | inr n ↦ (by_compose, ground arith)
  ],
)

service_group_injective :
    (cfg : AuthConfig) (a b : String) → service_group cfg a ≡ service_group cfg b → a ≡ b
unfolding service_group
service_group_injective cfg a b = append_cancel_left cfg.service_group_prefix a b

-- Under the per-service policy a token whose only group is that of service `a`, which is not
-- the admin group, is allowed to call service `a`, and no other service.
pub compose_group_exact :
    (claims : Claims) (a b : String) (cfg : AuthConfig)
    → cfg.service_policy ≡ per_service
    → claims.groups ≡ service_group cfg a ∷ []
    → contains claims.groups cfg.admin_group ≡ false
    → ((g : GrantedBy) × (authorize_service_call claims b cfg ≡ ok g)) ↔ (a ≡ b)
compose_group_exact claims a b cfg p only n = (
  λ allowed. elim ((per_service_iff claims b cfg p).0 allowed) [
    | inl y ↦ cc
    | inr y ↦
        service_group_injective cfg a b
          (ground (arith, eq_iff (service_group cfg a) (service_group cfg b)))
  ],
  λ e.
      (per_service_iff claims b cfg p).1
        (inr (ground (arith, e, eq_iff (service_group cfg a) (service_group cfg b)))),
)
