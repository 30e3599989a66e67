-- ===== src/Base/Texts.antt =====
-- Texts: their code points, and the few operations of Rust's `str` that the program uses.
use Prim.Native.Nat.{ℕ}
use Prim.Native.Char.{code}
use Prim.Native.String.{String}
use mathlib.Core.Path.{◌≡◌}
use mathlib.Core.Bool.{Bool, true, false}
use mathlib.Core.List.{List, [], ◌∷◌}
use mathlib.Core.Option.{Option, none, some}
use native.Mathlib.Omega.{arith}
use text.Mathlib.Text.{◌==◌ as str_eq}
use text.Mathlib.TextEquality.{eq_iff}
use sigiled.Base.Tests.{◌==◌, if◌then◌else◌}
use sigiled.Base.Lists.{any}

-- The code points of a text: its bytes, if it is ASCII.
abbrev pub codes : String → List ℕ
codes String.[] = []
codes (String.◌∷◌ c s) = code c ∷ codes s

-- `strip_prefix`: the rest of the second text behind the first.
unfoldable pub strip_prefix : String → String → Option String
strip_prefix String.[] s = some s
strip_prefix (String.◌∷◌ c p) String.[] = none
strip_prefix (String.◌∷◌ c p) (String.◌∷◌ d s) =
    let rest = strip_prefix p s in if code c == code d then rest else none

-- `ends_with` of one character, by its code.
unfoldable pub ends_with : ℕ → String → Bool
ends_with x String.[] = false
ends_with x (String.◌∷◌ c String.[]) = code c == x
ends_with x (String.◌∷◌ c (String.◌∷◌ d s)) = ends_with x (String.◌∷◌ d s)

-- `contains` of a list of texts.
abbrev pub contains : List String → String → Bool
contains xs x = any xs (λ y. str_eq y x)

pub contains_cons : (x : String) (xs : List String) → contains (x ∷ xs) x ≡ true
contains_cons x xs = ground (arith, eq_iff x x)
