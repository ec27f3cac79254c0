-- ===== src/Decimal.antt =====
-- The decimal form of the numbers that the data plane formats: ports. Ten digits are enough for every
-- `i32` and `u16`.
use argon.Prelude.{ℕ, zero, suc, ◌+◌, ◌/◌, ◌%◌, true, false, [], ◌∷◌, ◌++◌, ltb, nat_eq}
use argon.Prelude.Int.{ℤ, pos, negsuc}
use argon.Text.{Text}

-- The last digit is appended by the caller; the fuel counts the digits.
unfoldable pub digits : ℕ → ℕ → Text
digits zero n = []
digits (suc fuel) n = elim (ltb n 10) [
  | true ↦ (b'0' + n) ∷ []
  | false ↦ digits fuel (n / 10) ++ (b'0' + n % 10) ∷ []
]

unfoldable pub decimal : ℕ → Text
unfolding digits
decimal n = digits 10 n

unfoldable pub decimal_ℤ : ℤ → Text
unfolding decimal
decimal_ℤ (pos n) = decimal n
decimal_ℤ (negsuc n) = b'-' ∷ decimal (suc n)
