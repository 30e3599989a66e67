-- ===== src/Auth/Token/Callers.antt =====
-- Who passes the extractor and the edge's `verify`, in sigiledd/src/auth.rs.
use sigiled.Base.{
  ℕ, ◌≡◌, ◌≢◌, sym, subst, ◌⊎◌, inl, inr, refl, String, true, Option, none, some, arith, eq_iff,
  Bool-cases, codes,
}
use sigiled.Auth.Approvals.{ApprovalStore}
use sigiled.Auth.Policy.{
  Actor, AuthConfig, Claims, ok, actor_from_claims, enabled, authorize_service_call, ServicePolicy,
  any_authenticated, per_service, claims_driver,
}
use sigiled.Auth.Token.{
  Jwt, Checked, valid, invalid, KeyStore, Client, validate_jwt, actor, bearer_of, is_bootstrap,
  bootstrap_actor, from_checked, from_token, from_request_parts, VerifyBody, allowed, verify,
  verify_token, verify_claims, verify_service, service_of, named,
}
use sigiled.Auth.Token.Compare.{constant_time_eq_iff, codes_injective}

is_bootstrap-eq : (o : Option String) (t : String) → is_bootstrap o t ≡ true → o ≡ some t
is_bootstrap-eq none t h = cc
is_bootstrap-eq (some b) t h =
    let e = codes_injective t b ((constant_time_eq_iff (codes t) (codes b)).0 h) in cc

named-service_of :
    (o : Option String) (p : ServicePolicy) (s : String)
    → service_of o p ≡ some s
    → p ≡ per_service
    → (o ≡ some s) × (s ≢ "")
unfolding service_of named
named-service_of none per_service s h p = cc
named-service_of none any_authenticated s h p = cc
named-service_of (some n) any_authenticated s h p = cc
named-service_of (some n) per_service s h p = ground (arith, eq_iff n "")

module _ (j : Jwt) (cfg : AuthConfig) (keys : KeyStore j) (http : Client j) where
  from_checked-actor :
      (approvals : ApprovalStore) (now : ℕ) (r : Checked Claims) (a : Actor)
      → from_checked j cfg approvals now r ≡ actor a
      → (c : Claims) × (r ≡ valid c) × (actor_from_claims c cfg approvals now ≡ ok a)
  unfolding from_checked
  from_checked-actor approvals now (invalid e) a h = cc
  from_checked-actor approvals now (valid c) a h = (c, refl, ground arith)

  -- What an actor that the extractor lets through has shown.
  abbrev pub Shown : ApprovalStore → ℕ → Actor → String → Type 0
  Shown approvals now a t =
      ((cfg.bootstrap_bearer ≡ some t) × (a ≡ bootstrap_actor))
      ⊎ ((c : Claims) × ((validate_jwt j t cfg keys http).outcome ≡ valid c)
          × (actor_from_claims c cfg approvals now ≡ ok a))

  from_token-actor :
      (approvals : ApprovalStore) (now : ℕ) (o : Option String) (a : Actor)
      → from_token j cfg approvals keys http now o ≡ actor a
      → (t : String) × (o ≡ some t) × Shown approvals now a t
  unfolding from_token
  from_token-actor approvals now none a h = cc
  from_token-actor approvals now (some t) a h =
      elim (Bool-cases (is_bootstrap cfg.bootstrap_bearer t)) [
        | inl y ↦ (t, refl, inl (is_bootstrap-eq cfg.bootstrap_bearer t y, ground arith))
        | inr n ↦ (t, refl, inr (from_checked-actor approvals now _ a (rw n at h)))
      ]

  -- With authentication configured, the extractor yields an actor only for the bootstrap bearer
  -- itself, as the bootstrap admin, or for a token that validates, as the actor that the token's
  -- groups give.
  pub from_request_parts-actor :
      (approvals : ApprovalStore) (now : ℕ) (header : Option String) (a : Actor)
      → enabled cfg ≡ true
      → from_request_parts j cfg approvals keys http now header ≡ actor a
      → (t : String) × (bearer_of header ≡ some t) × Shown approvals now a t
  unfolding from_request_parts
  from_request_parts-actor approvals now header a on h =
      from_token-actor approvals now (bearer_of header) a (rw on at h)

  abbrev pub Answers : String → Option String → VerifyBody → Type 0
  Answers service authorization b =
      (t : String) × (c : Claims) × (bearer_of authorization ≡ some t)
      × ((validate_jwt j t cfg keys http).outcome ≡ valid c)
      × (authorize_service_call c service cfg ≡ ok b.granted_by)
      × (b.caller ≡ claims_driver c)
      × (b.service ≡ service)

  verify_claims-allowed :
      (service : String) (r : Checked Claims) (b : VerifyBody)
      → verify_claims j cfg service r ≡ allowed b
      → (c : Claims) × (r ≡ valid c)
        × (authorize_service_call c service cfg ≡ ok b.granted_by)
        × (b.caller ≡ claims_driver c)
        × (b.service ≡ service)
  unfolding verify_claims
  verify_claims-allowed service (invalid e) b h = cc
  verify_claims-allowed service (valid c) b h = (c, refl, ground arith, ground arith, ground arith)

  verify_token-allowed :
      (service : String) (o : Option String) (b : VerifyBody)
      → verify_token j cfg keys http service o ≡ allowed b
      → (t : String) × (c : Claims) × (o ≡ some t)
        × ((validate_jwt j t cfg keys http).outcome ≡ valid c)
        × (authorize_service_call c service cfg ≡ ok b.granted_by)
        × (b.caller ≡ claims_driver c)
        × (b.service ≡ service)
  unfolding verify_token
  verify_token-allowed service none b h = cc
  verify_token-allowed service (some t) b h =
      let (c, r, g, who, what) =
        verify_claims-allowed service (validate_jwt j t cfg keys http).outcome b h in
      (t, c, refl, r, g, who, what)

  verify_service-allowed :
      (o authorization : Option String) (b : VerifyBody)
      → verify_service j cfg keys http o authorization ≡ allowed b
      → (s : String) × (o ≡ some s) × Answers s authorization b
  unfolding verify_service
  verify_service-allowed none authorization b h = cc
  verify_service-allowed (some s) authorization b h =
      (s, refl, verify_token-allowed s (bearer_of authorization) b h)

  -- The edge's question is answered with an identity only for a token that validates and that
  -- the policy lets call the service in the answer; under the per-service policy that is the
  -- service which the edge named, and never the empty name.
  pub verify-allowed :
      (service authorization : Option String) (b : VerifyBody)
      → verify j cfg keys http service authorization ≡ allowed b
      → Answers b.service authorization b
        × (cfg.service_policy ≡ per_service → (service ≡ some b.service) × (b.service ≢ ""))
  unfolding verify
  verify-allowed service authorization b h =
      let (s, set, answer) =
        verify_service-allowed (service_of service cfg.service_policy) authorization b h in
      let (t, c, bearer, r, g, who, what) = answer in
      let set' = rw (← what) at set in
      (
        (
          t,
          c,
          bearer,
          r,
          subst (λ x. authorize_service_call c x cfg ≡ ok b.granted_by) (sym what) g,
          who,
          refl,
        ),
        λ p. named-service_of service cfg.service_policy b.service set' p,
      )
