-- ===== src/Base/Maps.antt =====
-- A map with text keys as an association list: the entry of a key stays where it was first
-- inserted. The order of entries stands for the iteration order that Rust leaves open.
use Prim.Native.Nat.{suc, ◌≤◌, ◌<◌}
use Prim.Native.String.{String}
use mathlib.Core.Path.{◌≡◌, refl, ◌∙◌}
use mathlib.Core.Logic.{inl, inr}
use mathlib.Core.Bool.{Bool, true, false}
use mathlib.Core.List.{List, [], ◌∷◌}
use mathlib.Core.Option.{Option, none, some}
use native.Mathlib.Omega.{arith}
use text.Mathlib.Text.{◌==◌ as str_eq}
use text.Mathlib.TextEquality.{eq_iff}
use sigiled.Base.Lists.{length}
use sigiled.Base.Tests.{if◌then◌else◌, Bool-cases}

abbrev pub Assoc {ℓ} : Type ℓ → Type ℓ
Assoc V = List (String × V)

module _ {ℓ} {V : Type ℓ} where
  unfoldable pub get : String → Assoc V → Option V
  get k [] = none
  get k ((j, v) ∷ m) = if str_eq j k then some v else get k m

  unfoldable pub insert : String → V → Assoc V → Assoc V
  insert k v [] = (k, v) ∷ []
  insert k v ((j, w) ∷ m) =
      let rest = insert k v m in if str_eq j k then (k, v) ∷ m else (j, w) ∷ rest

  unfoldable pub remove : String → Assoc V → Assoc V
  remove k [] = []
  remove k ((j, v) ∷ m) = let rest = remove k m in if str_eq j k then rest else (j, v) ∷ rest

  abbrev pub values : Assoc V → List V
  values [] = []
  values ((k, v) ∷ m) = v ∷ values m

  -- `get_mut` with a change: a missing key changes nothing.
  unfoldable pub adjust : String → (V → V) → Assoc V → Assoc V
  adjust k f [] = []
  adjust k f ((j, v) ∷ m) =
      let rest = adjust k f m in if str_eq j k then (j, f v) ∷ m else (j, v) ∷ rest

  pub get-insert :
      (k j : String) (v : V) (m : Assoc V)
      → get j (insert k v m) ≡ (if str_eq k j then some v else get j m)
  unfolding get insert
  get-insert k j v [] = refl
  get-insert k j v ((i, w) ∷ m) =
      ground (arith, eq_iff k j, eq_iff i k, eq_iff i j, get-insert k j v m)

  pub get-remove :
      (k j : String) (m : Assoc V) → get j (remove k m) ≡ (if str_eq k j then none else get j m)
  unfolding get remove
  get-remove k j [] = ground arith
  get-remove k j ((i, w) ∷ m) = ground (arith, eq_iff k j, eq_iff i k, eq_iff i j, get-remove k j m)

  abbrev pub map_option : (V → V) → Option V → Option V
  map_option f none = none
  map_option f (some v) = some (f v)

  pub get-adjust :
      (k j : String) (f : V → V) (m : Assoc V)
      → get j (adjust k f m) ≡ (if str_eq k j then map_option f (get j m) else get j m)
  unfolding get adjust
  get-adjust k j f [] = ground arith
  get-adjust k j f ((i, w) ∷ m) =
      ground (arith, eq_iff k j, eq_iff i k, eq_iff i j, get-adjust k j f m)

  -- `retain` by a test of the values. A key has one value, so a dropped key is gone.
  unfoldable pub keep : (V → Bool) → Assoc V → Assoc V
  keep p [] = []
  keep p ((j, v) ∷ m) = let rest = remove j (keep p m) in if p v then (j, v) ∷ rest else rest

  abbrev pub filtered : (V → Bool) → Option V → Option V
  filtered p none = none
  filtered p (some v) = if p v then some v else none

  get-keep_cons :
      (p : V → Bool) (k j : String) (v : V) (m : Assoc V)
      → get k (keep p ((j, v) ∷ m)) ≡ (if str_eq j k then filtered p (some v) else get k (keep p m))
  unfolding keep get
  get-keep_cons p k j v m = elim (Bool-cases (p v)) [
    | inl passed ↦ rw passed (ground (arith, get-remove j k (keep p m)))
    | inr dropped ↦ rw dropped (ground (arith, get-remove j k (keep p m)))
  ]

  pub get-keep : (p : V → Bool) (k : String) (m : Assoc V) → get k (keep p m) ≡ filtered p (get k m)
  unfolding get keep
  get-keep p k [] = refl
  get-keep p k ((j, v) ∷ m) = get-keep_cons p k j v m ∙ chosen (str_eq j k) (get-keep p k m)
    where
      chosen :
          (b : Bool)
          → get k (keep p m) ≡ filtered p (get k m)
          → (if b then filtered p (some v) else get k (keep p m))
            ≡ filtered p (if b then some v else get k m)
      chosen true e = refl
      chosen false e = e

  pub length-remove-le : (k : String) (m : Assoc V) → length (remove k m) ≤ length m
  unfolding remove
  length-remove-le k [] = omega arith
  length-remove-le k ((j, v) ∷ m) = ground (arith, length-remove-le k m)

  pub length-keep-le : (p : V → Bool) (m : Assoc V) → length (keep p m) ≤ length m
  unfolding keep
  length-keep-le p [] = omega arith
  length-keep-le p ((j, v) ∷ m) = ground (arith, length-keep-le p m, length-remove-le j (keep p m))

  pub length-adjust : (k : String) (f : V → V) (m : Assoc V) → length (adjust k f m) ≡ length m
  unfolding adjust
  length-adjust k f [] = refl
  length-adjust k f ((j, v) ∷ m) = ground (arith, length-adjust k f m)

  pub length-remove-lt :
      (k : String) (m : Assoc V) (v : V) → get k m ≡ some v → length (remove k m) < length m
  unfolding remove get
  length-remove-lt k [] v e = absurd (ground (arith, e))
  length-remove-lt k ((j, w) ∷ m) v e =
      ground (arith, e, length-remove-le k m, length-remove-lt k m v)

  pub length-insert-le : (k : String) (v : V) (m : Assoc V) → length (insert k v m) ≤ suc (length m)
  unfolding insert
  length-insert-le k v [] = omega arith
  length-insert-le k v ((j, w) ∷ m) = ground (arith, length-insert-le k v m)

pub ruleset assoc_laws = (get-insert, get-remove, get-adjust)
