-- ===== src/Proxy/Encode.antt =====
-- images/dataplane/src/proxy.rs: `percent_encode` and `build_signin_location`.
pub mod RoundTrip
use argon.Prelude.{
  ℕ, ◌+◌, ◌-◌, ◌/◌, ◌%◌, Bool, ◌&&◌, ◌||◌, List, [], ◌∷◌, ◌++◌, ltb, leb, if◌then◌else◌, unwrap_or,
  ◌==◌, nat_eq,
}
use argon.Text.{Text, codes, as_bytes, replace}
use argon.Http.{Http}
use argon.Proxy.Headers.{scheme_of}

-- Membership in `UNRESERVED`.
unfoldable pub is_unreserved : ℕ → Bool
is_unreserved b =
    (leb b'A' b && leb b b'Z')
    || (leb b'a' b && leb b b'z')
    || (leb b'0' b && leb b b'9')
    || b == b'-'
    || b == b'.'
    || b == b'_'
    || b == b'~'

-- A digit of `{:02X}`.
unfoldable pub hex : ℕ → ℕ
hex d = if ltb d 10 then b'0' + d else b'A' + (d - 10)

unfoldable pub encode_byte : ℕ → Text
unfolding is_unreserved hex
encode_byte b = if is_unreserved b then b ∷ [] else b'%' ∷ hex (b / 16) ∷ hex (b % 16) ∷ []

unfoldable pub encode_bytes : List ℕ → Text
unfolding encode_byte
encode_bytes [] = []
encode_bytes (b ∷ bs) = encode_byte b ++ encode_bytes bs

unfoldable pub percent_encode : Text → Text
unfolding encode_bytes
percent_encode input = encode_bytes (as_bytes input)

module _ (http : Http) where
  abbrev pub path_q_of : http.Uri → Text
  path_q_of uri = unwrap_or (http.uri_path_and_query uri) (codes "/")

  unfoldable pub build_signin_location : Text → Text → http.Uri → Bool → Text
  unfolding percent_encode
  build_signin_location signin_tmpl host uri frontend_is_tls =
      let escaped = percent_encode (path_q_of uri) in
      replace
        (replace (replace signin_tmpl (codes "$host") host) (codes "$escaped_request_uri") escaped)
        (codes "$scheme") (scheme_of frontend_is_tls)
