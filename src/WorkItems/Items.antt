-- ===== src/WorkItems/Items.antt =====
-- sigiledd/src/work_items.rs, the items and `validate`. Texts are walked as code points; `len`
-- counts bytes, as Rust does. `reqwest::Url` is a parameter.
use Prim.Native.String.{len}
use sigiled.Base.{
  ℕ, suc, String, Bool, true, false, ◌&&◌, ◌||◌, not, Option, none, some, List, [], ◌∷◌, ltb, leb,
  ◌==◌, if◌then◌else◌, str_eq, codes, all, any, Assoc,
}

pub data State : Type 0 where
  opened blocked done : State

pub record Fields : Type 0 where
  pub title : String
  pub description : String
  pub state : State
  pub owner : String
  pub source_link : String

pub record Edit : Type 0 where
  pub revision : ℕ
  pub at : ℕ
  pub actor : String
  pub fields : Fields

pub record Item : Type 0 where
  pub id : String
  pub project : String
  pub fields : Fields
  pub created_at : ℕ
  pub updated_at : ℕ
  pub revision : ℕ
  pub creator : String
  pub editor : String
  pub audit : List Edit

pub record Create : Type 0 where
  pub id : String
  pub fields : Fields

pub record Update : Type 0 where
  pub expected_revision : ℕ
  pub fields : Fields

-- The error codes; `panicked` is the index out of range of `old.audit[0]`.
pub data Error : Type 0 where
  storage_not_configured store_invalid store_unavailable save_uncertain capacity : Error
  not_found invalid_id id_conflict revision_conflict audit_capacity invalid_fields : Error
  panicked : Error

pub data Result {ℓ} (A : Type ℓ) : Type ℓ where
  ok : A → Result A
  err : Error → Result A

module _ {ℓ κ} {S : Type ℓ} {T : Type κ} where
  infixl 5 ◌>>=◌
  abbrev pub ◌>>=◌ : Result S → (S → Result T) → Result T
  ◌>>=◌ (err refusal) next = err refusal
  ◌>>=◌ (ok value) next = next value

module _ {κ} {T : Type κ} where
  infixl 5 ◌>>◌
  abbrev pub ◌>>◌ : Result (Unit {0}) → Result T → Result T
  check >> rest = check >>= λ done. rest

-- `if !test { return Err(refusal) }`.
abbrev pub guard : Bool → Error → Result (Unit {0})
guard test refusal = if test then ok tt else err refusal

abbrev pub Data : Type 0
Data = Assoc Item

abbrev pub same_state : State → State → Bool
same_state opened opened = true
same_state blocked blocked = true
same_state done done = true
same_state _ _ = false

-- The derived `PartialEq` of `Fields`.
unfoldable pub same_fields : Fields → Fields → Bool
same_fields f g =
    str_eq f.title g.title
    && str_eq f.description g.description
    && same_state f.state g.state
    && str_eq f.owner g.owner
    && str_eq f.source_link g.source_link

-- `char::is_control`, and the characters that `trim` removes.
is_control : ℕ → Bool
is_control c = ltb c 32 || (leb 127 c && ltb c 160)

is_whitespace : ℕ → Bool
is_whitespace c =
    (leb 9 c && leb c 13)
    || c == 32
    || c == 0x85
    || c == 0xA0
    || c == 0x1680
    || (leb 0x2000 c && leb c 0x200A)
    || c == 0x2028
    || c == 0x2029
    || c == 0x202F
    || c == 0x205F
    || c == 0x3000

-- What `safe_link` reads of a parsed absolute URL.
pub record Url : Type 0 where
  pub scheme : String
  pub has_host : Bool
  pub username : String
  pub has_password : Bool

same_codes : List ℕ → List ℕ → Bool
same_codes [] [] = true
same_codes [] (y ∷ ys) = false
same_codes (x ∷ xs) [] = false
same_codes (x ∷ xs) (y ∷ ys) = x == y && same_codes xs ys

extend_first : ℕ → List (List ℕ) → List (List ℕ)
extend_first c [] = (c ∷ []) ∷ []
extend_first c (p ∷ ps) = (c ∷ p) ∷ ps

-- `split` at one character.
split : ℕ → List ℕ → List (List ℕ)
unfolding extend_first
split sep [] = [] ∷ []
split sep (c ∷ cs) = let rest = split sep cs in if c == sep then [] ∷ rest else extend_first c rest

starts_with : List ℕ → List ℕ → Bool
starts_with [] s = true
starts_with (p ∷ ps) [] = false
starts_with (p ∷ ps) (c ∷ cs) = p == c && starts_with ps cs

is_dots : List ℕ → Bool
unfolding same_codes
is_dots p = same_codes p (codes "..") || same_codes p (codes ".")

safe_path : List ℕ → Bool
unfolding split starts_with is_dots
safe_path link =
    starts_with (codes "/ui/") link
    && not (any link (λ c. c == b'%'))
    && not (any (split b'/' link) is_dots)

safe_url : Option Url → Bool
safe_url none = false
safe_url (some u) =
    str_eq u.scheme "https" && u.has_host && str_eq u.username "" && not u.has_password

module _ (parse : String → Option Url) where
  unfoldable pub safe_link : String → Bool
  unfolding is_control safe_path safe_url starts_with
  safe_link link =
      let cs = codes link in
      if str_eq link ""
      then true
      else if any cs (λ c. c == b'\\') || any cs is_control
      then false
      else if starts_with (codes "/") cs
      then safe_path cs
      else safe_url (parse link)

  unfoldable pub are_valid : Fields → Bool
  unfolding is_control is_whitespace safe_link
  are_valid f = not (
      all (codes f.title) is_whitespace
      || ltb 200 (len f.title)
      || ltb 8000 (len f.description)
      || ltb 200 (len f.owner)
      || ltb 2048 (len f.source_link)
      || any (codes f.title) is_control
      || any (codes f.owner) is_control
      || any (codes f.source_link) is_control
      || not (safe_link f.source_link))

  unfoldable pub validate : Fields → Result (Unit {0})
  unfolding are_valid
  validate f = guard (are_valid f) invalid_fields

is_hexdigit : ℕ → Bool
is_hexdigit c =
    (leb b'0' c && leb c b'9') || (leb b'a' c && leb c b'f') || (leb b'A' c && leb c b'F')

is_dash_place : ℕ → Bool
is_dash_place i = i == 8 || i == 13 || i == 18 || i == 23

uuid_from : ℕ → List ℕ → Bool
unfolding is_hexdigit is_dash_place
uuid_from i [] = true
uuid_from i (c ∷ cs) =
    (if is_dash_place i then c == b'-' else is_hexdigit c) && uuid_from (suc i) cs

-- The shape of an item's id that `create` asks for.
unfoldable pub is_uuid : String → Bool
unfolding uuid_from
is_uuid id = len id == 36 && uuid_from 0 (codes id)
