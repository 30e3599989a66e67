-- ===== src/Auth/Token.antt =====
-- sigiledd/src/auth.rs, the callers: the constant-time comparison, the key store, `validate_jwt`,
-- the `Actor` extractor and the edge's `verify`. The `jsonwebtoken` crate and the fetch of a
-- key set are parameters (`Jwt`, and the `http` argument, `none` where no client is given).
pub mod Compare
pub mod Trust
pub mod Callers
use Prim.Native.Nat.{bit_or, bit_xor}
use text.Mathlib.Text.{starts_with}
use sigiled.Base.{
  ℕ, String, Bool, true, false, ◌&&◌, ◌≡◌, Option, none, some, List, [], ◌∷◌, ◌++◌, length, ◌==◌,
  if◌then◌else◌, str_eq, str_append, codes, strip_prefix, ends_with,
}
use sigiled.Auth.Approvals.{ApprovalStore}
use sigiled.Auth.Policy.{
  Actor, admin, AuthConfig, Claims, Denial, GrantedBy, Decision, ok, denied, enabled,
  actor_from_claims, authorize_service_call, claims_driver, ServicePolicy, per_service,
  any_authenticated,
}

-- The fold over the zipped bytes.
unfoldable pub fold_differences : ℕ → List ℕ → List ℕ → ℕ
fold_differences acc [] ys = acc
fold_differences acc (x ∷ xs) [] = acc
fold_differences acc (x ∷ xs) (y ∷ ys) = fold_differences (bit_or acc (bit_xor x y)) xs ys

unfoldable pub constant_time_eq : List ℕ → List ℕ → Bool
constant_time_eq a b = if length a == length b then fold_differences 0 a b == 0 else false

-- What the program uses of the `jsonwebtoken` crate. The key id of a token's header, its claims
-- without a check of the signature, and its claims under a key.
pub record Jwt : Type 1 where
  pub Key : Type 0
  pub decode_header : String → Option (Option String)
  pub unverified : String → Option Claims
  pub verified : String → Key → Option Claims

pub data TokenError : Type 0 where
  oidc_off bad_header no_kid bad_claims no_client fetch_failed unknown_kid : TokenError
  bad_signature : TokenError
  foreign_issuer : String → TokenError

pub data Checked {ℓ} (A : Type ℓ) : Type ℓ where
  valid : A → Checked A
  invalid : TokenError → Checked A

unfoldable pub ensure_slash : String → String
ensure_slash s = if ends_with b'/' s then s else str_append s "/"

module _ {ℓ} {K : Type ℓ} where
  -- The store's keys are pairs of an issuer and a key id.
  unfoldable pub key_get : List (String × String × K) → String → String → Option K
  key_get [] issuer kid = none
  key_get ((i, k, key) ∷ rest) issuer kid =
      if str_eq i issuer && str_eq k kid then some key else key_get rest issuer kid

  -- `refresh_from` after the fetch: every usable key goes in, a later one over an earlier one.
  unfoldable pub store_keys :
      List (String × String × K) → String → List (String × K) → List (String × String × K)
  store_keys store issuer [] = store
  store_keys store issuer ((kid, key) ∷ more) = store_keys ((issuer, kid, key) ∷ store) issuer more

pub data Extracted : Type 0 where
  actor : Actor → Extracted
  unauthorized : Option TokenError → Extracted
  forbidden : Denial → Extracted

abbrev pub bearer_of : Option String → Option String
bearer_of none = none
bearer_of (some v) = strip_prefix "Bearer " v

abbrev is_bootstrap : Option String → String → Bool
is_bootstrap none token = false
is_bootstrap (some b) token = constant_time_eq (codes token) (codes b)

abbrev pub bootstrap_actor : Actor
bootstrap_actor = record { driver = "bootstrap"; role = admin; approval = none }

from_decision : Decision Actor → Extracted
from_decision (ok a) = actor a
from_decision (denied d) = forbidden d

pub record VerifyBody : Type 0 where
  pub caller : String
  pub service : String
  pub granted_by : GrantedBy
  pub issuer : String
  pub subject : String

pub data Verified : Type 0 where
  allowed : VerifyBody → Verified
  edge_misconfigured missing_bearer : Verified
  rejected : TokenError → Verified
  refused_call : Denial → Verified

named : String → Option String
named s = if str_eq s "" then none else some s

-- The service named by the edge, if the policy can do with it.
service_of : Option String → ServicePolicy → Option String
unfolding named
service_of none per_service = none
service_of none any_authenticated = some ""
service_of (some s) per_service = named s
service_of (some s) any_authenticated = some s

module _ (j : Jwt) where
  open j use {Key, decode_header, unverified, verified}

  abbrev pub KeyStore : Type 0
  KeyStore = List (String × String × Key)

  abbrev pub Client : Type 0
  Client = Option (String → Option (List (String × Key)))

  -- A result, the key store behind it, and the issuers whose key sets were fetched.
  pub record Validation : Type 0 where
    pub outcome : Checked Claims
    pub keys : KeyStore
    pub fetched : List String

  abbrev check_signature : String → Option Key → Checked Claims
  check_signature token none = invalid unknown_kid
  check_signature token (some key) = elim (verified token key) [
    | none ↦ invalid bad_signature
    | some c ↦ valid c
  ]

  with_key_set : String → String → String → KeyStore → Option (List (String × Key)) → Validation
  with_key_set token issuer kid keys none = record {
    outcome = invalid fetch_failed;
    keys = keys;
    fetched = issuer ∷ [];
  }
  with_key_set token issuer kid keys (some set) =
      let keys' = store_keys keys issuer set in
      record {
        outcome = check_signature token (key_get keys' issuer kid);
        keys = keys';
        fetched = issuer ∷ [];
      }

  with_client : Client → String → String → String → KeyStore → Validation
  unfolding with_key_set
  with_client none token issuer kid keys = record {
    outcome = invalid no_client;
    keys = keys;
    fetched = [];
  }
  with_client (some fetch) token issuer kid keys = with_key_set token issuer kid keys (fetch issuer)

  abbrev refused : TokenError → KeyStore → Validation
  refused e keys = record { outcome = invalid e; keys = keys; fetched = [] }

  -- The key is at hand, or the issuer's key set is fetched first.
  with_issuer : Client → String → String → String → KeyStore → Validation
  unfolding with_client
  with_issuer http token issuer kid keys = elim (key_get keys issuer kid) [
    | some key ↦ record { outcome = check_signature token (some key); keys = keys; fetched = [] }
    | none ↦ with_client http token issuer kid keys
  ]

  with_claims : Client → String → String → String → KeyStore → Option Claims → Validation
  unfolding with_issuer
  with_claims http base token kid keys none = refused bad_claims keys
  with_claims http base token kid keys (some c) =
      if starts_with c.iss (ensure_slash base)
      then with_issuer http token c.iss kid keys
      else refused (foreign_issuer c.iss) keys

  with_header : Client → String → String → KeyStore → Option (Option String) → Validation
  unfolding with_claims
  with_header http base token keys none = refused bad_header keys
  with_header http base token keys (some none) = refused no_kid keys
  with_header http base token keys (some (some kid)) =
      with_claims http base token kid keys (unverified token)

  with_base : Client → Option String → String → KeyStore → Validation
  unfolding with_header
  with_base http none token keys = refused oidc_off keys
  with_base http (some base) token keys = with_header http base token keys (decode_header token)

  unfoldable pub validate_jwt : String → AuthConfig → KeyStore → Client → Validation
  unfolding with_base
  validate_jwt token cfg keys http = with_base http cfg.oidc_base token keys

  from_checked : AuthConfig → ApprovalStore → ℕ → Checked Claims → Extracted
  unfolding from_decision
  from_checked cfg approvals now (invalid e) = unauthorized (some e)
  from_checked cfg approvals now (valid c) = from_decision (actor_from_claims c cfg approvals now)

  from_token : AuthConfig → ApprovalStore → KeyStore → Client → ℕ → Option String → Extracted
  unfolding from_checked
  from_token cfg approvals keys http now none = unauthorized none
  from_token cfg approvals keys http now (some token) =
      if is_bootstrap cfg.bootstrap_bearer token
      then actor bootstrap_actor
      else from_checked cfg approvals now (validate_jwt token cfg keys http).outcome

  -- The extractor, `Actor::from_request_parts`; `header` is the `authorization` header.
  unfoldable pub from_request_parts :
      AuthConfig → ApprovalStore → KeyStore → Client → ℕ → Option String → Extracted
  unfolding from_token
  from_request_parts cfg approvals keys http now header =
      if enabled cfg
      then from_token cfg approvals keys http now (bearer_of header)
      else actor (record { driver = "dev"; role = admin; approval = none })

  verify_decision : Claims → String → Decision GrantedBy → Verified
  verify_decision c service (denied d) = refused_call d
  verify_decision c service (ok g) = allowed (record {
    caller = claims_driver c;
    service = service;
    granted_by = g;
    issuer = c.iss;
    subject = c.sub;
  })

  verify_claims : AuthConfig → String → Checked Claims → Verified
  unfolding verify_decision
  verify_claims cfg service (invalid e) = rejected e
  verify_claims cfg service (valid c) =
      verify_decision c service (authorize_service_call c service cfg)

  verify_token : AuthConfig → KeyStore → Client → String → Option String → Verified
  unfolding verify_claims
  verify_token cfg keys http service none = missing_bearer
  verify_token cfg keys http service (some token) =
      verify_claims cfg service (validate_jwt token cfg keys http).outcome

  verify_service : AuthConfig → KeyStore → Client → Option String → Option String → Verified
  unfolding verify_token
  verify_service cfg keys http none authorization = edge_misconfigured
  verify_service cfg keys http (some service) authorization =
      verify_token cfg keys http service (bearer_of authorization)

  -- The handler `verify`, from its two headers. Of the answer its body is kept; the header
  -- `x-sigiled-caller`, which repeats the caller for the edge, is not modelled.
  unfoldable pub verify : AuthConfig → KeyStore → Client → Option String → Option String → Verified
  unfolding service_of verify_service
  verify cfg keys http service_header authorization =
      verify_service cfg keys http (service_of service_header cfg.service_policy) authorization
