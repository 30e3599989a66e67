-- ===== src/Auth/Token/Trust.antt =====
-- What stands behind a token that `validate_jwt` of sigiledd/src/auth.rs accepts.
use text.Mathlib.Text.{starts_with}
use sigiled.Base.{
  ◌≡◌, ◌≢◌, ◌⊎◌, inl, inr, refl, String, true, Option, none, some, List, [], ◌∷◌, arith, eq_iff,
  Option-cases, Bool-cases,
}
use sigiled.Auth.Policy.{AuthConfig, Claims}
use sigiled.Auth.Token.{
  Jwt, valid, invalid, ensure_slash, key_get, store_keys, KeyStore, Client, Validation,
  validate_jwt, check_signature, with_key_set, with_claims, with_header, with_base, TokenError,
  oidc_off, bad_header, no_kid, bad_claims, foreign_issuer, with_client, with_issuer,
}

key_get-store_keys {ℓ} :
    {K : Type ℓ} (store : List (String × String × K)) (issuer other kid : String)
    (set : List (String × K))
    → issuer ≢ other
    → key_get (store_keys store issuer set) other kid ≡ key_get store other kid
unfolding key_get store_keys
key_get-store_keys store issuer other kid [] d = refl
key_get-store_keys store issuer other kid ((k, key) ∷ more) d =
    let ih = key_get-store_keys ((issuer, k, key) ∷ store) issuer other kid more d in
    ground (arith, eq_iff issuer other, ih)

module _ (j : Jwt) (token : String) (keys : KeyStore j) where
  open j use {Key, decode_header, unverified, verified}

  -- The validation ends with a key of the issuer, under which the token verifies.
  abbrev UnderKey : String → String → Claims → Validation j → Type 0
  UnderKey issuer kid c v =
      (key : Key) × (key_get v.keys issuer kid ≡ some key) × (verified token key ≡ some c)

  check_signature_key :
      (o : Option Key) (c : Claims)
      → check_signature j token o ≡ valid c
      → (key : Key) × (o ≡ some key) × (verified token key ≡ some c)
  check_signature_key none c h = cc
  check_signature_key (some key) c h = (key, refl, ground arith)

  with_client_key :
      (http : Client j) (issuer kid : String) (c : Claims)
      → (with_client j http token issuer kid keys).outcome ≡ valid c
      → UnderKey issuer kid c (with_client j http token issuer kid keys)
  unfolding with_client
  with_client_key none issuer kid c h = cc
  with_client_key (some fetch) issuer kid c h = elim (Option-cases (fetch issuer)) [
    | inl e ↦ absurd (ground arith)
    | inr (set, e) ↦ rw (e, with_key_set) (check_signature_key _ c (rw (e, with_key_set) at h))
  ]

  with_issuer_key :
      (http : Client j) (issuer kid : String) (c : Claims)
      → (with_issuer j http token issuer kid keys).outcome ≡ valid c
      → UnderKey issuer kid c (with_issuer j http token issuer kid keys)
  unfolding with_issuer
  with_issuer_key http issuer kid c h = elim (Option-cases (key_get keys issuer kid)) [
    | inl e ↦ rw (e, with_issuer) (with_client_key http issuer kid c (rw (e, with_issuer) at h))
    | inr (key, e) ↦ (key, ground arith, ground arith)
  ]

  with_issuer_fetched :
      (http : Client j) (issuer kid : String)
      → ((with_issuer j http token issuer kid keys).fetched ≡ [])
        ⊎ ((with_issuer j http token issuer kid keys).fetched ≡ issuer ∷ [])
  unfolding with_issuer
  with_issuer_fetched http issuer kid = ground arith

  -- The keys of an issuer that was not fetched are as before.
  abbrev Isolated : String → String → Validation j → Type 0
  Isolated issuer kid v =
      v.fetched ≢ issuer ∷ [] → key_get v.keys issuer kid ≡ key_get keys issuer kid

  with_key_set-Isolated :
      (from named issuer kid : String) (set : Option (List (String × Key)))
      → Isolated issuer kid (with_key_set j token from named keys set)
  unfolding with_key_set
  with_key_set-Isolated from named issuer kid none d = refl
  with_key_set-Isolated from named issuer kid (some set) d =
      key_get-store_keys keys from issuer kid set (λ e. d (cc))

  with_issuer-Isolated :
      (http : Client j) (from named issuer kid : String)
      → Isolated issuer kid (with_issuer j http token from named keys)
  unfolding with_issuer with_client
  with_issuer-Isolated none from named issuer kid = elim (Option-cases (key_get keys from named)) [
    | inl e ↦ rw (e, with_issuer) (λ d. refl)
    | inr (key, e) ↦ rw (e, with_issuer) (λ d. refl)
  ]
  with_issuer-Isolated (some fetch) from named issuer kid =
      elim (Option-cases (key_get keys from named)) [
        | inl e ↦ rw (e, with_issuer) (with_key_set-Isolated from named issuer kid (fetch from))
        | inr (key, e) ↦ rw (e, with_issuer) (λ d. refl)
      ]

module _ (j : Jwt) (token : String) (cfg : AuthConfig) (keys : KeyStore j) (http : Client j) where
  open j use {Key, decode_header, unverified, verified}

  -- A validation is refused before any key is looked up, or it reads the claims of a token whose
  -- issuer lies under the configured provider, and goes on with that issuer.
  abbrev Reaches : Validation j → Type 0
  Reaches v =
      ((e : TokenError) × (v ≡ record { outcome = invalid e; keys = keys; fetched = [] }))
      ⊎ ((base kid : String) × (claimed : Claims) × (cfg.oidc_base ≡ some base)
          × (decode_header token ≡ some (some kid))
          × (unverified token ≡ some claimed)
          × (starts_with claimed.iss (ensure_slash base) ≡ true)
          × (v ≡ with_issuer j http token claimed.iss kid keys))

  with_claims-Reaches :
      (base kid : String) (o : Option Claims)
      → cfg.oidc_base ≡ some base
      → decode_header token ≡ some (some kid)
      → unverified token ≡ o
      → Reaches (with_claims j http base token kid keys o)
  unfolding with_claims
  with_claims-Reaches base kid none on header read = inl (bad_claims, refl)
  with_claims-Reaches base kid (some c) on header read =
      elim (Bool-cases (starts_with c.iss (ensure_slash base))) [
        | inl y ↦ inr (base, kid, c, on, header, read, y, rw y)
        | inr n ↦ inl (foreign_issuer c.iss, rw n)
      ]

  with_header-Reaches :
      (base : String) (o : Option (Option String))
      → cfg.oidc_base ≡ some base
      → decode_header token ≡ o
      → Reaches (with_header j http base token keys o)
  unfolding with_header
  with_header-Reaches base none on header = inl (bad_header, refl)
  with_header-Reaches base (some none) on header = inl (no_kid, refl)
  with_header-Reaches base (some (some kid)) on header =
      with_claims-Reaches base kid (unverified token) on header refl

  with_base-Reaches :
      (o : Option String) → cfg.oidc_base ≡ o → Reaches (with_base j http o token keys)
  unfolding with_base
  with_base-Reaches none on = inl (oidc_off, refl)
  with_base-Reaches (some base) on = with_header-Reaches base (decode_header token) on refl

  validate_jwt-Reaches : Reaches (validate_jwt j token cfg keys http)
  unfolding validate_jwt
  validate_jwt-Reaches = with_base-Reaches cfg.oidc_base refl

  -- A token is accepted only if the identity provider is configured, the token's issuer lies
  -- under it, and the token verifies under a key that the store then holds for that very issuer
  -- and the token's key id.
  pub validate_jwt-trusted :
      (c : Claims)
      → (validate_jwt j token cfg keys http).outcome ≡ valid c
      → (base kid : String) × (claimed : Claims) × (key : Key) × (cfg.oidc_base ≡ some base)
        × (decode_header token ≡ some (some kid))
        × (unverified token ≡ some claimed)
        × (starts_with claimed.iss (ensure_slash base) ≡ true)
        × (key_get (validate_jwt j token cfg keys http).keys claimed.iss kid ≡ some key)
        × (verified token key ≡ some c)
  validate_jwt-trusted c h = elim validate_jwt-Reaches [
    | inl (e, r) ↦ absurd (ground arith)
    | inr (base, kid, claimed, on, header, read, below, r) ↦
        let (key, at, sig) = with_issuer_key j token keys http claimed.iss kid c (rw r at h) in
        (base, kid, claimed, key, on, header, read, below, rw r at, sig)
  ]

  -- Whatever the token says, a key set is fetched at most once, and only from an issuer that
  -- lies under the configured identity provider.
  pub validate_jwt-fetched :
      ((validate_jwt j token cfg keys http).fetched ≡ [])
      ⊎ ((base issuer : String) × ((validate_jwt j token cfg keys http).fetched ≡ issuer ∷ [])
          × (cfg.oidc_base ≡ some base)
          × (starts_with issuer (ensure_slash base) ≡ true))
  validate_jwt-fetched = elim validate_jwt-Reaches [
    | inl (e, r) ↦ inl (rw r)
    | inr (base, kid, claimed, on, header, read, below, r) ↦
        elim (with_issuer_fetched j token keys http claimed.iss kid) [
          | inl f ↦ inl (rw r f)
          | inr f ↦ inr (base, claimed.iss, rw r f, on, below)
        ]
  ]

  -- The keys of an issuer that is not fetched stay as they were: a key set never bears on the
  -- tokens of another issuer.
  pub validate_jwt-keys :
      (issuer kid : String)
      → (validate_jwt j token cfg keys http).fetched ≢ issuer ∷ []
      → key_get (validate_jwt j token cfg keys http).keys issuer kid ≡ key_get keys issuer kid
  validate_jwt-keys issuer kid = elim validate_jwt-Reaches [
    | inl (e, r) ↦ rw r (λ d. refl)
    | inr (base, named, claimed, on, header, read, below, r) ↦
        rw r (with_issuer-Isolated j token keys http claimed.iss named issuer kid)
  ]
