-- ===== src/Text.antt =====
-- Rust's `str` as a list of Unicode scalar values, and the methods of it that the data plane calls.
-- `len` and `as_bytes` count and list the bytes of the UTF-8 form, as Rust does.
pub mod Ascii
pub mod Prefix
pub mod Trim
use Prim.Native.Char.{code}
use Prim.Native.String.{String}
use argon.Prelude.{
  ℕ, zero, suc, ◌+◌, ◌-◌, ◌/◌, ◌%◌, Bool, true, false, ◌&&◌, ◌||◌, Option, none, some, List, [],
  ◌∷◌, ◌++◌, map, ltb, leb, if◌then◌else◌, ◌==◌, nat_eq, list_eq, length,
}

abbrev pub Text : Type 0
Text = List ℕ

-- A literal of the source.
abbrev pub codes : String → Text
codes String.[] = []
codes (String.◌∷◌ c s) = code c ∷ codes s

abbrev pub is_empty : Text → Bool
is_empty [] = true
is_empty (c ∷ s) = false

-- `char::is_whitespace`: the code points with the property White_Space.
unfoldable pub is_whitespace : ℕ → Bool
is_whitespace c =
    (leb 9 c && leb c 13)
    || c == 0x20
    || c == 0x85
    || c == 0xA0
    || c == 0x1680
    || (leb 0x2000 c && leb c 0x200A)
    || c == 0x2028
    || c == 0x2029
    || c == 0x202F
    || c == 0x205F
    || c == 0x3000

unfoldable pub trim_start : Text → Text
trim_start [] = []
trim_start (c ∷ s) = if is_whitespace c then trim_start s else c ∷ s

unfoldable pub trim_end : Text → Text
trim_end [] = []
trim_end (c ∷ s) = let r = trim_end s in if is_whitespace c && is_empty r then [] else c ∷ r

unfoldable pub trim : Text → Text
unfolding trim_start trim_end
trim s = trim_end (trim_start s)

-- `trim_end_matches(d)` for one character
unfoldable pub trim_end_matches : ℕ → Text → Text
trim_end_matches d [] = []
trim_end_matches d (c ∷ s) =
    let r = trim_end_matches d s in if c == d && is_empty r then [] else c ∷ r

-- `char::to_ascii_lowercase`
unfoldable pub lower : ℕ → ℕ
lower c = if leb b'A' c && leb c b'Z' then c + 32 else c

unfoldable pub to_ascii_lowercase : Text → Text
unfolding lower
to_ascii_lowercase s = map lower s

unfoldable pub eq_ignore_ascii_case : Text → Text → Bool
unfolding to_ascii_lowercase
eq_ignore_ascii_case s t = to_ascii_lowercase s == to_ascii_lowercase t

-- The bytes of one scalar value.
unfoldable pub utf8 : ℕ → List ℕ
utf8 c =
    if ltb c 0x80
    then c ∷ []
    else if ltb c 0x800
    then (0xC0 + c / 64) ∷ (0x80 + c % 64) ∷ []
    else if ltb c 0x10000
    then (0xE0 + c / 4096) ∷ (0x80 + c / 64 % 64) ∷ (0x80 + c % 64) ∷ []
    else (0xF0 + c / 262144) ∷ (0x80 + c / 4096 % 64) ∷ (0x80 + c / 64 % 64) ∷ (0x80 + c % 64) ∷ []

unfoldable pub as_bytes : Text → List ℕ
unfolding utf8
as_bytes [] = []
as_bytes (c ∷ s) = utf8 c ++ as_bytes s

-- `str::len` counts bytes.
unfoldable pub len : Text → ℕ
unfolding as_bytes
len s = length (as_bytes s)

unfoldable pub starts_with : Text → Text → Bool
starts_with s [] = true
starts_with [] (d ∷ p) = false
starts_with (c ∷ s) (d ∷ p) = c == d && starts_with s p

unfoldable pub contains : Text → Text → Bool
unfolding starts_with
contains [] p = is_empty p
contains (c ∷ s) p = starts_with (c ∷ s) p || contains s p

-- `replace` for a pattern that is not empty; the first argument counts the characters of an
-- occurrence that are still to be passed over.
replace_from : Text → Text → ℕ → Text → Text
replace_from p to skip [] = []
replace_from p to (suc k) (c ∷ s) = replace_from p to k s
replace_from p to zero (c ∷ s) = elim (starts_with (c ∷ s) p) [
  | true ↦ to ++ replace_from p to (length p - 1) s
  | false ↦ c ∷ replace_from p to 0 s
]

unfoldable pub replace : Text → Text → Text → Text
unfolding replace_from starts_with
replace s p to = replace_from p to 0 s

-- The text after the first `d`, or none: `find(d)` with the slice behind it.
unfoldable pub after : ℕ → Text → Option Text
after d [] = none
after d (c ∷ s) = if c == d then some s else after d s
