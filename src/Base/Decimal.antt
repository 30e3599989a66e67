-- ===== src/Base/Decimal.antt =====
-- The decimal text of a number below 10^20, which holds every `u64`.
use Prim.Native.Nat.{ℕ, zero, suc, ◌/◌, ◌%◌}
use Prim.Native.String.{String, ◌++◌}
use mathlib.Core.Bool.{true, false}
use sigiled.Base.Tests.{ltb}

digit : ℕ → String
digit zero = "0"
digit (suc zero) = "1"
digit (suc (suc zero)) = "2"
digit (suc (suc (suc zero))) = "3"
digit (suc (suc (suc (suc zero)))) = "4"
digit (suc (suc (suc (suc (suc zero))))) = "5"
digit (suc (suc (suc (suc (suc (suc zero)))))) = "6"
digit (suc (suc (suc (suc (suc (suc (suc zero))))))) = "7"
digit (suc (suc (suc (suc (suc (suc (suc (suc zero)))))))) = "8"
digit _ = "9"

-- One round for each digit.
digits_text : ℕ → ℕ → String
unfolding digit
digits_text zero n = ""
digits_text (suc rounds) n = elim (ltb n 10) [
  | true ↦ digit n
  | false ↦ digits_text rounds (n / 10) ++ digit (n % 10)
]

unfoldable pub decimal : ℕ → String
unfolding digits_text
decimal n = digits_text 20 n
