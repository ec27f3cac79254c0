-- ===== src/Text/Trim.antt =====
-- `trim` and the ends of its result.
use argon.Prelude.{◌≡◌, refl, false, [], ◌∷◌, arith}
use argon.Text.{Text, is_whitespace, trim_start, trim_end, trim}

-- No blank at the front.
abbrev pub IsTight : Text → Type 0
IsTight [] = Unit
IsTight (c ∷ s) = is_whitespace c ≡ false

trim_start-IsTight : (s : Text) → IsTight (trim_start s)
unfolding trim_start
trim_start-IsTight [] = tt
trim_start-IsTight (c ∷ s) = ground (arith, trim_start-IsTight s)

trim_end-IsTight : (s : Text) → IsTight s → IsTight (trim_end s)
unfolding trim_end
trim_end-IsTight [] h = tt
trim_end-IsTight (c ∷ s) h = ground arith

trim-IsTight : (s : Text) → IsTight (trim s)
unfolding trim
trim-IsTight s = trim_end-IsTight (trim_start s) (trim_start-IsTight s)

trim_start_of_IsTight : (s : Text) → IsTight s → trim_start s ≡ s
unfolding trim_start
trim_start_of_IsTight [] h = refl
trim_start_of_IsTight (c ∷ s) h = ground arith

trim_end_idem : (s : Text) → trim_end (trim_end s) ≡ trim_end s
unfolding trim_end
trim_end_idem [] = refl
trim_end_idem (c ∷ s) = ground (arith, trim_end_idem s)

pub trim_idem : (s : Text) → trim (trim s) ≡ trim s
trim_idem s =
    let tight = trim-IsTight s in
    unfold trim in rw (trim_start_of_IsTight (trim s) tight) (trim_end_idem (trim_start s))
