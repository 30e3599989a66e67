-- ===== src/Examples/Callers.antt =====
-- Runs and instances for sigiledd/src/auth.rs, the tokens: a toy provider whose tokens are texts.
use text.Mathlib.Text.{starts_with}
use sigiled.Base.{
  ℕ, ◌≡◌, ◌≢◌, ◌⊎◌, inl, inr, refl, sym, ◌∙◌, eq_iff, String, true, false, Option, none, some, List,
  [], ◌∷◌, str_eq, if◌then◌else◌, arith,
}
use sigiled.Auth.Policy.{Actor, Claims, AuthConfig, per_service, by_compose, driver_role}
use sigiled.Auth.Token.{
  Jwt, Checked, valid, KeyStore, Client, validate_jwt, from_request_parts, verify, VerifyBody,
  allowed, actor, key_get, store_keys, ensure_slash, bearer_of,
}
use sigiled.Auth.Token.Trust.{validate_jwt-trusted}
use sigiled.Auth.Token.Callers.{from_request_parts-actor, verify-allowed, Shown, Answers}

abbrev issuer : String
issuer = "https://id.example/application/o/sigiled/"

abbrev claims : Claims
claims = record {
  sub = "42";
  preferred_username = some "claude";
  azp = none;
  groups = "sigiled-drivers" ∷ "svc-mail" ∷ [];
  iss = issuer;
  exp = 1000;
}

-- Keys are texts, and the one good token is signed by "key".
abbrev jwt : Jwt
jwt = record {
  Key = String;
  decode_header = λ token. some (some "k1");
  unverified = λ token. some claims;
  verified = λ token key.
      if str_eq token "good" then (if str_eq key "key" then some claims else none) else none;
}

abbrev http : Client jwt
http = some λ from. some (("k1", "key") ∷ [])

abbrev config : AuthConfig
config = record {
  bootstrap_bearer = some "secret";
  oidc_base = some "https://id.example/application/o";
  device_client_id = "sigiled";
  admin_group = "sigiled-admins";
  driver_group = "sigiled-drivers";
  service_group_prefix = "svc-";
  service_policy = per_service;
}

accepted : (validate_jwt jwt "good" config [] http).outcome ≡ valid claims
unfolding validate_jwt ensure_slash key_get store_keys sigiled.Base.ends_with
accepted = refl

validate_jwt-trusted_example :
    (base kid : String) × (claimed : Claims) × (key : String) × (config.oidc_base ≡ some base)
    × (jwt.decode_header "good" ≡ some (some kid))
    × (jwt.unverified "good" ≡ some claimed)
    × (starts_with claimed.iss (ensure_slash base) ≡ true)
    × (key_get (validate_jwt jwt "good" config [] http).keys claimed.iss kid ≡ some key)
    × (jwt.verified "good" key ≡ some claims)
validate_jwt-trusted_example = validate_jwt-trusted jwt "good" config [] http claims accepted

fetched_once : (validate_jwt jwt "good" config [] http).fetched ≡ issuer ∷ []
unfolding validate_jwt ensure_slash sigiled.Base.ends_with key_get
fetched_once = refl

not_elsewhere : (validate_jwt jwt "good" config [] http).fetched ≢ "https://other.example/" ∷ []
not_elsewhere e =
    let q : issuer ∷ [] ≡ "https://other.example/" ∷ [] = sym fetched_once ∙ e in
    let h : str_eq issuer "https://other.example/" ≡ true =
      (eq_iff issuer "https://other.example/").1 (cc) in
    cc

abbrev claude : Actor
claude = record { driver = "claude"; role = driver_role; approval = none }

extracted : from_request_parts jwt config [] [] http 5 (some "Bearer good") ≡ actor claude
unfolding from_request_parts validate_jwt ensure_slash key_get store_keys sigiled.Base.strip_prefix
    sigiled.Auth.Token.constant_time_eq sigiled.Base.ends_with sigiled.Auth.Policy.actor_from_claims
    sigiled.Auth.Policy.claims_driver sigiled.Auth.Approvals.live sigiled.Base.get
extracted = refl

from_request_parts-actor_example :
    (t : String) × (bearer_of (some "Bearer good") ≡ some t)
    × Shown jwt config [] http [] 5 claude t
from_request_parts-actor_example =
    from_request_parts-actor jwt config [] http [] 5 (some "Bearer good") claude refl extracted

abbrev body : VerifyBody
body = record {
  caller = "claude";
  service = "mail";
  granted_by = by_compose;
  issuer = issuer;
  subject = "42";
}

verified : verify jwt config [] http (some "mail") (some "Bearer good") ≡ allowed body
unfolding verify validate_jwt ensure_slash key_get store_keys sigiled.Base.strip_prefix
    sigiled.Base.ends_with sigiled.Auth.Policy.authorize_service_call
    sigiled.Auth.Policy.service_group sigiled.Auth.Policy.claims_driver
verified = refl

abbrev mail : String
mail = "mail"

verify-allowed_example :
    Answers jwt config [] http "mail" (some "Bearer good") body
    × (per_service ≡ per_service → (some mail ≡ some "mail") × (mail ≢ ""))
verify-allowed_example =
    verify-allowed jwt config [] http (some "mail") (some "Bearer good") body verified
