-- ===== src/Auth/Token/Compare.antt =====
-- `constant_time_eq` of sigiledd/src/auth.rs, against equality.
use Prim.Native.Nat.{
  bit_or, bit_xor, digits, differ, max, ◌/◌, ◌%◌, ◌≤◌, bit_or-bitwise, bit_xor-bitwise,
}
use text.Mathlib.TextEquality.{Char-path}
use sigiled.Base.{
  ℕ, zero, suc, ◌≡◌, ◌↔◌, refl, ap, true, String, List, [], ◌∷◌, arith, length, codes,
}
use sigiled.Auth.Token.{fold_differences, constant_time_eq}

or_digits_zero : (n a b : ℕ) → a ≤ n → digits (λ b. b) max n a b ≡ 0 → (a ≡ 0) × (b ≡ 0)
or_digits_zero zero a b h e = (omega arith, e)
or_digits_zero (suc n) zero b h e = (refl, e)
or_digits_zero (suc n) (suc a) b h e =
    let (x, y) = or_digits_zero n (suc a / 2) (b / 2) (omega arith) (omega arith) in
    (omega arith, omega arith)

bit_or-zero : (a b : ℕ) → bit_or a b ≡ 0 → (a ≡ 0) × (b ≡ 0)
bit_or-zero a b e = or_digits_zero a a b (omega arith) (simp bit_or-bitwise at e)

differ-zero : (x y : ℕ) → differ x y ≡ 0 → x ≡ y
differ-zero zero y e = omega arith
differ-zero (suc x) zero e = omega arith
differ-zero (suc x) (suc y) e = ap suc (differ-zero x y e)

differ_self : (x : ℕ) → differ x x ≡ 0
differ_self zero = refl
differ_self (suc x) = differ_self x

xor_digits_zero : (n a b : ℕ) → a ≤ n → digits (λ b. b) differ n a b ≡ 0 → a ≡ b
xor_digits_zero zero a b h e = omega arith
xor_digits_zero (suc n) zero b h e = omega arith
xor_digits_zero (suc n) (suc a) b h e = omega (
  arith,
  xor_digits_zero n (suc a / 2) (b / 2) (omega arith) (omega arith),
  differ-zero (suc a % 2) (b % 2) (omega arith),
)

bit_xor-zero : (a b : ℕ) → bit_xor a b ≡ 0 → a ≡ b
bit_xor-zero a b e = xor_digits_zero a a b (omega arith) (simp bit_xor-bitwise at e)

xor_digits_self : (n a : ℕ) → a ≤ n → digits (λ b. b) differ n a a ≡ 0
xor_digits_self zero a h = omega arith
xor_digits_self (suc n) zero h = refl
xor_digits_self (suc n) (suc a) h =
    omega (arith, xor_digits_self n (suc a / 2) (omega arith), differ_self (suc a % 2))

bit_xor_self : (a : ℕ) → bit_xor a a ≡ 0
bit_xor_self a = simp bit_xor-bitwise (xor_digits_self a a (omega arith))

fold_differences-zero :
    (acc : ℕ) (xs ys : List ℕ)
    → length xs ≡ length ys
    → fold_differences acc xs ys ≡ 0
    → (acc ≡ 0) × (xs ≡ ys)
unfolding fold_differences
fold_differences-zero acc [] [] h e = (e, refl)
fold_differences-zero acc [] (y ∷ ys) h e = absurd (omega arith)
fold_differences-zero acc (x ∷ xs) [] h e = absurd (omega arith)
fold_differences-zero acc (x ∷ xs) (y ∷ ys) h e =
    let (o, same) = fold_differences-zero (bit_or acc (bit_xor x y)) xs ys (omega arith) e in
    let (z, d) = bit_or-zero acc (bit_xor x y) o in (z, cc (bit_xor-zero x y d))

fold_differences_self : (xs : List ℕ) → fold_differences 0 xs xs ≡ 0
unfolding fold_differences
fold_differences_self [] = refl
fold_differences_self (x ∷ xs) = rw (bit_xor_self x) (fold_differences_self xs)

constant_time_eq_self : (a : List ℕ) → constant_time_eq a a ≡ true
unfolding constant_time_eq
constant_time_eq_self a = ground (arith, fold_differences_self a)

-- Two byte strings compare as equal exactly when they are equal, whatever bytes they hold: the
-- test over every byte loses no difference.
pub constant_time_eq_iff : (a b : List ℕ) → (constant_time_eq a b ≡ true) ↔ (a ≡ b)
unfolding constant_time_eq
constant_time_eq_iff a b = (
  λ h. (fold_differences-zero 0 a b (ground arith) (ground arith)).1,
  λ e. rw (← e) (constant_time_eq_self a),
)

pub codes_injective : (s t : String) → codes s ≡ codes t → s ≡ t
codes_injective String.[] String.[] e = refl
codes_injective String.[] (String.◌∷◌ d t) e = cc
codes_injective (String.◌∷◌ c s) String.[] e = cc
codes_injective (String.◌∷◌ c s) (String.◌∷◌ d t) e =
    cc (Char-path c d (cc), codes_injective s t (cc))
