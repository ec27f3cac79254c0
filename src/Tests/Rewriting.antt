-- ===== src/Tests/Rewriting.antt =====
-- Texts and headers: lists of settings, the percent encoding, rewrites.
use argon.Prelude.{
  list_beq, ◌≡◌, refl, none, some, List, [], ◌∷◌, ◌++◌, arith, nat_eq, list_eq, All,
}
use argon.Text.{Text, codes, as_bytes, trim, is_whitespace, eq_ignore_ascii_case}
use argon.Auth.{normalize_list}
use argon.Auth.Lists.{IsNormal, Covers, normalize_list-IsNormal}
use argon.Auth.Lists
use argon.Rewrites.{HeaderRewriteRule, append, remove}
use argon.Proxy.Headers.{apply_header_rewrites}
use argon.Proxy.Headers.Laws.{rules_values, apply_header_rewrites-get_all}
use argon.Proxy.Encode.{percent_encode}
use argon.Proxy.Encode.RoundTrip.{IsPlain, decode, decode-percent_encode}
use argon.Tests.Network.{http}

-- A list with blanks, a blank item and a repeated item.
abbrev messy : List Text
messy = codes " /a" ∷ codes "  " ∷ codes "/A" ∷ codes "/b " ∷ []

normalized : normalize_list messy ≡ codes "/a" ∷ codes "/b" ∷ []
unfolding normalize_list trim is_whitespace eq_ignore_ascii_case list_beq
normalized = refl

normalize_list-IsNormal_example :
    IsNormal (normalize_list messy)
    × Lists.ComesFrom messy (normalize_list messy)
    × Covers messy (normalize_list messy)
normalize_list-IsNormal_example = normalize_list-IsNormal messy

-- A space and the letter e with an acute accent.
abbrev accented : Text
accented = codes "/a " ++ 0xE9 ∷ []

encoded : percent_encode accented ≡ codes "%2Fa%20%C3%A9"
unfolding percent_encode as_bytes
encoded = refl

decode-percent_encode_example :
    (decode (percent_encode accented) ≡ as_bytes accented) × All IsPlain (percent_encode accented)
decode-percent_encode_example =
    decode-percent_encode accented (omega arith, (omega arith, (omega arith, (omega arith, tt))))

abbrev sample_headers : http.HeaderMap
sample_headers =
    (codes "te", codes "trailers")
    ∷ (codes "accept", codes "*/*")
    ∷ (codes "x-user", codes "eve")
    ∷ []

abbrev sample_rules : List HeaderRewriteRule
sample_rules =
    record { name = codes "x-user"; value = none; mode = remove }
    ∷ record { name = codes "x-user"; value = some (codes "ann"); mode = append }
    ∷ []

apply_header_rewrites-get_all_example :
    http.get_all (apply_header_rewrites http sample_headers sample_rules) (codes "x-user")
    ≡ rules_values http (codes "x-user") sample_rules (http.get_all sample_headers (codes "x-user"))
apply_header_rewrites-get_all_example =
    apply_header_rewrites-get_all http sample_headers sample_rules (codes "x-user")
