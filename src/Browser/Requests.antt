-- ===== src/Browser/Requests.antt =====
-- What sigiledd/src/browser/mod.rs reads of a request (`single`, `cookie`, `Inner::origin`), and
-- `return_path` of sigiledd/src/browser/config.rs. A header's value is none where it is not
-- visible ASCII; the others are texts whose code points are their bytes.
use Prim.Native.Char.{Char, code}
use sigiled.Base.{
  ℕ, String, Bool, false, not, ◌&&◌, ◌||◌, Option, none, some, List, [], ◌∷◌, ◌++◌, ◌==◌, leb,
  if◌then◌else◌, is_some, str_eq, codes, all, any, length, find, strip_prefix,
}
use sigiled.Routine.{Result, ok, err}

pub data Error : Type 0 where
  login_required browser_disabled entropy_unavailable : Error
  forbidden capacity : String → Error

abbrev pub Headers : Type 0
Headers = List (String × Option String)

abbrev pub get_all : Headers → String → List (Option String)
get_all [] k = []
get_all ((j, v) ∷ h) k = let rest = get_all h k in if str_eq j k then v ∷ rest else rest

abbrev only : List (Option String) → Option String
only [] = none
only (v ∷ []) = v
only (v ∷ w ∷ vs) = none

-- `single`.
unfoldable pub single : Headers → String → Option String
single h k = only (get_all h k)

abbrev pub is_text : Option String → String → Bool
is_text none s = false
is_text (some t) s = str_eq t s

abbrev on_first : Char → List String → List String
on_first c [] = String.◌∷◌ c "" ∷ []
on_first c (l ∷ ls) = String.◌∷◌ c l ∷ ls

-- `split` at a character, given by its code.
unfoldable pub split : ℕ → String → List String
split x String.[] = "" ∷ []
split x (String.◌∷◌ c s) =
    let rest = split x s in if code c == x then "" ∷ rest else on_first c rest

abbrev before_rest : Char → Option (String × String) → Option (String × String)
before_rest c none = none
before_rest c (some (k, v)) = some (String.◌∷◌ c k, v)

-- `split_once` at a character.
unfoldable pub split_once : ℕ → String → Option (String × String)
split_once x String.[] = none
split_once x (String.◌∷◌ c s) =
    let rest = split_once x s in if code c == x then some ("", s) else before_rest c rest

abbrev is_blank : ℕ → Bool
is_blank c = c == b' ' || c == 9

trim_start : String → String
trim_start String.[] = ""
trim_start (String.◌∷◌ c s) =
    let rest = trim_start s in if is_blank (code c) then rest else String.◌∷◌ c s

trim_end : String → String
trim_end String.[] = ""
trim_end (String.◌∷◌ c s) =
    let rest = trim_end s in if is_blank (code c) && str_eq rest "" then "" else String.◌∷◌ c rest

-- `trim`: a header's white space is spaces and tabs.
unfoldable pub trim : String → String
unfolding trim_start trim_end
trim s = trim_end (trim_start s)

abbrev is_alphanumeric : ℕ → Bool
is_alphanumeric c =
    (leb b'0' c && leb c b'9') || (leb b'a' c && leb c b'z') || (leb b'A' c && leb c b'Z')

abbrev is_token_char : ℕ → Bool
is_token_char c = is_alphanumeric c || c == b'-' || c == b'_'

-- The texts that `random` gives: 32 bytes in base64.
unfoldable pub is_token : String → Bool
is_token v = length (codes v) == 43 && all (codes v) is_token_char

-- The cookies named so in one part after another. None ends the search without a cookie.
abbrev take_part : String → Option (String × String) → Option String → Option (Option String)
take_part name none found = some found
take_part name (some (k, v)) found =
    if str_eq k name
    then (if is_some found || not (is_token v) then none else some (some v))
    else some found

search : String → List String → Option String → Option String
search name [] found = found
search name (part ∷ parts) found = elim (take_part name (split_once b'=' (trim part)) found) [
  | none ↦ none
  | some next ↦ search name parts next
]

abbrev with_parts : Option String → Option (List String) → Option (List String)
with_parts none rest = none
with_parts (some value) none = none
with_parts (some value) (some parts) = some (split b';' value ++ parts)

parts_of : List (Option String) → Option (List String)
parts_of [] = some []
parts_of (v ∷ vs) = with_parts v (parts_of vs)

-- `cookie`.
unfoldable pub cookie : Headers → String → Option String
unfolding parts_of search
cookie h name = elim (parts_of (get_all h "cookie")) [
  | none ↦ none
  | some parts ↦ search name parts none
]

-- The text behind the first "://".
unfoldable pub authority : String → Option String
authority String.[] = none
authority (String.◌∷◌ c s) = elim (strip_prefix "://" (String.◌∷◌ c s)) [
  | some rest ↦ some rest
  | none ↦ authority s
]

abbrev checked_origin : Headers → Option String → Result Error String
checked_origin h none = err (forbidden "invalid_host")
checked_origin h (some o) =
    if is_origin_named && not (is_text (single h "origin") o)
    then err (forbidden "invalid_origin")
    else ok o
  where
    is_origin_named : Bool
    is_origin_named = any h (λ (k, v). str_eq k "origin")

abbrev origin_at : List String → Headers → Option String → Result Error String
origin_at origins h none = err (forbidden "invalid_host")
origin_at origins h (some host) = checked_origin h (find origins (λ o. is_text (authority o) host))

-- `Inner::origin`.
unfoldable pub origin : List String → Headers → Result Error String
origin origins h = origin_at origins h (single h "host")

abbrev is_path_char : ℕ → Bool
is_path_char c = is_alphanumeric c || c == b'/' || c == b'-' || c == b'_' || c == b'.' || c == b'~'

-- `return_path`.
unfoldable pub return_path : String → Bool
return_path path =
    is_some (strip_prefix "/" path)
    && not (is_some (strip_prefix "//" path))
    && leb (length (codes path)) 1024
    && all (codes path) is_path_char
    && not (any (split b'/' path) (λ s. str_eq s "." || str_eq s ".."))
    && not (is_some (strip_prefix "/browser/" path))
