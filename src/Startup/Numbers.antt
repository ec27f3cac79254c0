-- ===== src/Startup/Numbers.antt =====
-- The numbers that `main` of images/dataplane/src/main.rs reads.
use argon.Prelude.{
  ℕ, zero, suc, ◌+◌, ◌-◌, ◌*◌, ◌/◌, ◌%◌, ◌^◌, ◌≤◌, ◌<◌, ◌≡◌, refl, sym, ap, ◌∙◌, inl, inr, false,
  some, [], ◌∷◌, ◌++◌, arith, ltb, Bool-cases, nat_eq, list_eq,
}
use argon.Text.{Text}
use argon.Decimal.{digits, decimal}
use argon.Startup.{parse_digits, parse_unsigned}

parse_digits-append :
    (bits value result : ℕ) (xs ys : Text)
    → parse_digits bits value xs ≡ some result
    → parse_digits bits value (xs ++ ys) ≡ parse_digits bits result ys
unfolding parse_digits
parse_digits-append bits value result [] ys e = ground arith
parse_digits-append bits value result (c ∷ xs) ys e =
    ground (arith, parse_digits-append bits (value * 10 + (c - b'0')) result xs ys)

parse_digit :
    (bits n d : ℕ)
    → d < 10
    → n * 10 + d < 2 ^ bits
    → parse_digits bits n ((b'0' + d) ∷ []) ≡ some (n * 10 + d)
unfolding parse_digits
parse_digit bits n d small fits =
    let back : b'0' + d - b'0' ≡ d = omega arith in rw back (ground arith)

-- One digit more.
parse_digits-snoc :
    (bits n d : ℕ) (xs : Text)
    → d < 10
    → n * 10 + d < 2 ^ bits
    → parse_digits bits 0 xs ≡ some n
    → parse_digits bits 0 (xs ++ (b'0' + d) ∷ []) ≡ some (n * 10 + d)
parse_digits-snoc bits n d xs small fits e =
    parse_digits-append bits 0 n xs ((b'0' + d) ∷ []) e ∙ parse_digit bits n d small fits

digits-long :
    (fuel n : ℕ)
    → ltb n 10 ≡ false
    → digits (suc fuel) n ≡ digits fuel (n / 10) ++ (b'0' + n % 10) ∷ []
unfolding digits
digits-long fuel n large = ground arith

parse_digits-digits :
    (bits fuel n : ℕ)
    → n < 10 ^ suc fuel
    → n < 2 ^ bits
    → parse_digits bits 0 (digits (suc fuel) n) ≡ some n
unfolding digits
parse_digits-digits bits zero n enough fits =
    let small : n < 10 = omega arith in ground (arith, parse_digit bits 0 n small (omega arith))
parse_digits-digits bits (suc fuel) n enough fits = elim (Bool-cases (ltb n 10)) [
  | inl small ↦ ground (arith, parse_digit bits 0 n (ground arith) (omega arith))
  | inr large ↦
      let whole : n / 10 * 10 + n % 10 ≡ n = omega arith in
      let shorter = parse_digits-digits bits fuel (n / 10) (omega arith) (omega arith) in
      ap (parse_digits bits 0) (digits-long (suc fuel) n large)
      ∙ parse_digits-snoc bits (n / 10) (n % 10) (digits (suc fuel) (n / 10)) (omega arith)
          (omega arith) shorter
      ∙ ap some whole
]

-- The first sign of a number is a digit.
digits-IsDigit : (fuel n : ℕ) → (c : ℕ) × (cs : Text) × (digits (suc fuel) n ≡ c ∷ cs) × (b'0' ≤ c)
unfolding digits
digits-IsDigit zero n = elim (Bool-cases (ltb n 10)) [
  | inl small ↦ (b'0' + n, [], ground arith, omega arith)
  | inr large ↦ (b'0' + n % 10, [], ground arith, omega arith)
]
digits-IsDigit (suc fuel) n = elim (Bool-cases (ltb n 10)) [
  | inl small ↦ (b'0' + n, [], ground arith, omega arith)
  | inr large ↦
      let (c, cs, e, digit) = digits-IsDigit fuel (n / 10) in
      (
        c,
        cs ++ (b'0' + n % 10) ∷ [],
        digits-long (suc fuel) n large ∙ ap (λ t. t ++ (b'0' + n % 10) ∷ []) e,
        digit,
      )
]

-- Without a sign, the digits are all.
parse_unsigned-digits :
    (bits c : ℕ) (cs : Text)
    → b'0' ≤ c
    → parse_unsigned bits (c ∷ cs) ≡ parse_digits bits 0 (c ∷ cs)
unfolding parse_unsigned
parse_unsigned-digits bits c [] digit = refl
parse_unsigned-digits bits c (d ∷ cs) digit = ground arith

-- Reading the decimal form of a number gives the number, if it is in the range of the type and has at
-- most ten digits.
pub parse_unsigned-decimal :
    (bits n : ℕ) → n < 2 ^ bits → n < 10 ^ 10 → parse_unsigned bits (decimal n) ≡ some n
unfolding decimal
parse_unsigned-decimal bits n fits short =
    let (c, cs, e, digit) = digits-IsDigit 9 n in
    ap (parse_unsigned bits) e
    ∙ parse_unsigned-digits bits c cs digit
    ∙ ap (parse_digits bits 0) (sym e)
    ∙ parse_digits-digits bits 9 n short fits
