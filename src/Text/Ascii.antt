-- ===== src/Text/Ascii.antt =====
-- Lower case and comparison without case.
use argon.Prelude.{
  ℕ, ◌≡◌, refl, sym, ap, ◌∙◌, ◌≢◌, ◌↔◌, inl, inr, true, false, [], ◌∷◌, arith, Bool-cases, ◌==◌,
  eq_iff, list_eq,
}
use argon.Text.{Text, lower, to_ascii_lowercase, eq_ignore_ascii_case}

lower-lower : (c : ℕ) → lower (lower c) ≡ lower c
unfolding lower
lower-lower c = ground arith

pub to_ascii_lowercase_idem :
    (s : Text) → to_ascii_lowercase (to_ascii_lowercase s) ≡ to_ascii_lowercase s
unfolding to_ascii_lowercase
to_ascii_lowercase_idem [] = refl
to_ascii_lowercase_idem (c ∷ s) = cc (lower-lower c, to_ascii_lowercase_idem s)

pub eq_ignore_ascii_case_iff :
    (s t : Text) → (eq_ignore_ascii_case s t ≡ true) ↔ (to_ascii_lowercase s ≡ to_ascii_lowercase t)
unfolding eq_ignore_ascii_case
eq_ignore_ascii_case_iff s t = eq_iff (to_ascii_lowercase s) (to_ascii_lowercase t)

-- A text with an upper-case letter in it.
abbrev pub HasUpper : Text → Type 0
HasUpper s = to_ascii_lowercase s ≢ s

-- No text in lower case is equal to a text with an upper-case letter.
pub differs : (s t : Text) → HasUpper t → (to_ascii_lowercase s == t) ≡ false
differs s t up = elim (Bool-cases (to_ascii_lowercase s == t)) [
  | inr other ↦ other
  | inl e ↦
      let same = (eq_iff (to_ascii_lowercase s) t).0 e in
      absurd (up (ap to_ascii_lowercase (sym same) ∙ to_ascii_lowercase_idem s ∙ same))
]
