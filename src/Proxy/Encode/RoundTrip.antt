-- ===== src/Proxy/Encode/RoundTrip.antt =====
-- `percent_encode` of images/dataplane/src/proxy.rs against a decoder.
use argon.Prelude.{
  ℕ, ◌+◌, ◌-◌, ◌*◌, ◌/◌, ◌%◌, ◌<◌, ◌≡◌, refl, ap, ◌∙◌, ◌⊎◌, inl, inr, true, false, List, [], ◌∷◌,
  ◌++◌, arith, leb, if◌then◌else◌, Bool-cases, ◌==◌, nat_eq, All, All-append,
}
use argon.Text.{Text, utf8, as_bytes}
use argon.Proxy.Encode.{is_unreserved, hex, encode_byte, encode_bytes, percent_encode}

-- A byte.
abbrev pub IsByte : ℕ → Type 0
IsByte b = b < 256

-- A Unicode code point.
abbrev pub IsCode : ℕ → Type 0
IsCode c = c < 0x110000

utf8-IsByte : (c : ℕ) → IsCode c → All IsByte (utf8 c)
unfolding utf8
utf8-IsByte c h = ground arith

as_bytes-IsByte : (s : Text) → All IsCode s → All IsByte (as_bytes s)
unfolding as_bytes
as_bytes-IsByte [] h = tt
as_bytes-IsByte (c ∷ s) (h, hs) =
    All-append IsByte (utf8 c) (as_bytes s) (utf8-IsByte c h) (as_bytes-IsByte s hs)

-- The value of a hexadecimal digit.
unhex : ℕ → ℕ
unhex c = if leb b'A' c then c - b'A' + 10 else c - b'0'

unhex-hex : (d : ℕ) → d < 16 → unhex (hex d) ≡ d
unfolding unhex hex
unhex-hex d h = ground arith

-- What a decoder has read of an escape.
pub data Pending : Type 0 where
  plain high : Pending
  low : ℕ → Pending

-- A decoder of percent encoding, by one character at a time.
decode_from : Pending → Text → List ℕ
decode_from p [] = []
decode_from plain (c ∷ s) = elim (c == b'%') [
  | true ↦ decode_from high s
  | false ↦ c ∷ decode_from plain s
]
decode_from high (c ∷ s) = decode_from (low (unhex c)) s
decode_from (low d) (c ∷ s) = (d * 16 + unhex c) ∷ decode_from plain s

unfoldable pub decode : Text → List ℕ
unfolding decode_from unhex
decode s = decode_from plain s

unreserved_ne_percent : (b : ℕ) → is_unreserved b ≡ true → (b == b'%') ≡ false
unfolding is_unreserved
unreserved_ne_percent b h = ground arith

decode-encode_byte :
    (b : ℕ) (s : Text) → IsByte b → decode_from plain (encode_byte b ++ s) ≡ b ∷ decode_from plain s
unfolding decode_from encode_byte
decode-encode_byte b s h = elim (Bool-cases (is_unreserved b)) [
  | inl kept ↦ rw kept (ground (arith, unreserved_ne_percent b kept))
  | inr escaped ↦ rw escaped (
      ap (λ c. c ∷ decode_from plain s)
        (omega (arith, unhex-hex (b / 16) (omega arith), unhex-hex (b % 16) (omega arith))))
]

decode-encode_bytes : (bs : List ℕ) → All IsByte bs → decode_from plain (encode_bytes bs) ≡ bs
unfolding encode_bytes
decode-encode_bytes [] h = unfold decode_from in refl
decode-encode_bytes (b ∷ bs) (h, hs) =
    decode-encode_byte b (encode_bytes bs) h ∙ ap (λ r. b ∷ r) (decode-encode_bytes bs hs)

-- An unreserved character or the sign of an escape.
abbrev pub IsPlain : ℕ → Type 0
IsPlain c = (is_unreserved c ≡ true) ⊎ (c ≡ b'%')

hex-unreserved : (d : ℕ) → d < 16 → is_unreserved (hex d) ≡ true
unfolding hex is_unreserved
hex-unreserved d h = ground arith

encode_byte-IsPlain : (b : ℕ) → IsByte b → All IsPlain (encode_byte b)
unfolding encode_byte
encode_byte-IsPlain b h = elim (Bool-cases (is_unreserved b)) [
  | inl kept ↦ rw kept (inl kept, tt)
  | inr escaped ↦ rw escaped (
    inr refl,
    (
      inl (hex-unreserved (b / 16) (omega arith)),
      (inl (hex-unreserved (b % 16) (omega arith)), tt),
    ),
  )
]

encode_bytes-IsPlain : (bs : List ℕ) → All IsByte bs → All IsPlain (encode_bytes bs)
unfolding encode_bytes
encode_bytes-IsPlain [] h = tt
encode_bytes-IsPlain (b ∷ bs) (h, hs) =
    All-append IsPlain (encode_byte b) (encode_bytes bs) (encode_byte-IsPlain b h)
      (encode_bytes-IsPlain bs hs)

-- Decoding the percent encoding of a text of Unicode code points gives the bytes of the text in
-- UTF-8, and the encoding has only unreserved characters and the sign that begins an escape.
pub decode-percent_encode :
    (s : Text)
    → All IsCode s
    → (decode (percent_encode s) ≡ as_bytes s) × All IsPlain (percent_encode s)
unfolding decode percent_encode
decode-percent_encode s h = (
  decode-encode_bytes (as_bytes s) (as_bytes-IsByte s h),
  encode_bytes-IsPlain (as_bytes s) (as_bytes-IsByte s h),
)
