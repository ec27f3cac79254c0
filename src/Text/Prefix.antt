-- ===== src/Text/Prefix.antt =====
-- Prefixes of one text.
use argon.Prelude.{
  ℕ, ◌+◌, ◌≤◌, ◌≡◌, refl, sym, ap, ap₂, ◌∙◌, true, List, [], ◌∷◌, ◌++◌, arith, eq_iff, eq_refl,
  nat_eq, list_eq, length,
}
use argon.Text.{Text, utf8, as_bytes, len, starts_with}

length-append : {A : Type 0} → (xs ys : List A) → length (xs ++ ys) ≡ length xs + length ys
length-append [] ys = omega arith
length-append (x ∷ xs) ys = omega (arith, length-append xs ys)

utf8-one : (c : ℕ) → 1 ≤ length (utf8 c)
unfolding utf8
utf8-one c = ground arith

len-cons : (c : ℕ) (s : Text) → len (c ∷ s) ≡ length (utf8 c) + len s
unfolding len
len-cons c s = length-append (utf8 c) (as_bytes s)

len-nil : len [] ≡ 0
unfolding len as_bytes
len-nil = refl

-- Two prefixes of a text that have the same number of bytes are the same.
pub eq_of_starts_with :
    (s p q : Text) → starts_with s p ≡ true → starts_with s q ≡ true → len p ≡ len q → p ≡ q
unfolding starts_with
eq_of_starts_with s [] [] h k e = refl
eq_of_starts_with s [] (d ∷ q) h k e = absurd (omega (arith, len-nil, len-cons d q, utf8-one d, e))
eq_of_starts_with s (d ∷ p) [] h k e = absurd (omega (arith, len-nil, len-cons d p, utf8-one d, e))
eq_of_starts_with [] (d ∷ p) (d' ∷ q) h k e = absurd (ground arith)
eq_of_starts_with (c ∷ s) (d ∷ p) (d' ∷ q) h k e =
    let first : c ≡ d = ground (arith, eq_iff c d) in
    let second : c ≡ d' = ground (arith, eq_iff c d') in
    let same : d ≡ d' = sym first ∙ second in
    let shorter : len p ≡ len q =
      omega (arith, len-cons d p, len-cons d' q, ap (λ x. length (utf8 x)) same, e) in
    ap₂ (λ x xs. x ∷ xs) same (eq_of_starts_with s p q (ground arith) (ground arith) shorter)

pub starts_with_self : (s : Text) → starts_with s s ≡ true
unfolding starts_with
starts_with_self [] = refl
starts_with_self (c ∷ s) = ground (arith, eq_refl c, starts_with_self s)
