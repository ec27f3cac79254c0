-- ===== src/Proxy/Headers.antt =====
-- images/dataplane/src/proxy.rs: the header work (`HOP_HEADERS_REF`, `remove_hop_headers`,
-- `add_forward_headers`, `apply_header_rewrites`).
pub mod Laws
use argon.Prelude.{Bool, none, some, List, [], ◌∷◌, if◌then◌else◌, list_eq}
use argon.Text.{Text, codes}
use argon.Rewrites.{HeaderName, set, append, remove, HeaderRewriteRule}
use argon.Http.{Http, contains_key, insert_text}

abbrev pub hop_headers : List HeaderName
hop_headers =
    codes "connection"
    ∷ codes "proxy-authenticate"
    ∷ codes "proxy-authorization"
    ∷ codes "te"
    ∷ codes "trailer"
    ∷ codes "transfer-encoding"
    ∷ codes "upgrade"
    ∷ codes "proxy-connection"
    ∷ codes "keep-alive"
    ∷ []

-- The scheme of a connection, by whether it is TLS.
abbrev pub scheme_of : Bool → Text
scheme_of tls = if tls then codes "https" else codes "http"

module _ (http : Http) where
  remove_all : http.HeaderMap → List HeaderName → http.HeaderMap
  remove_all m [] = m
  remove_all m (k ∷ ks) = remove_all (http.remove m k) ks

  unfoldable pub remove_hop_headers : http.HeaderMap → http.HeaderMap
  unfolding remove_all
  remove_hop_headers m = remove_all m hop_headers

  unfoldable pub add_forward_headers : http.HeaderMap → Bool → Text → http.HeaderMap
  unfolding contains_key insert_text
  add_forward_headers m frontend_is_tls original_host =
      let m' =
        http.insert m (codes "x-forwarded-proto")
          (http.value_from_static (scheme_of frontend_is_tls)) in
      if contains_key http m' (codes "x-forwarded-host")
      then m'
      else insert_text http m' (codes "x-forwarded-host") original_host

  -- One round of the loop over the rewrites.
  apply_rule : http.HeaderMap → HeaderRewriteRule → http.HeaderMap
  apply_rule m rule = elim rule.mode [
    | remove ↦ http.remove m rule.name
    | set ↦ elim rule.value [ none ↦ m | some value ↦ insert_text http m rule.name value ]
    | append ↦ elim rule.value [
      | none ↦ m
      | some value ↦ elim (http.value_from_str value) [
        | none ↦ m
        | some v ↦ http.append m rule.name v
      ]
    ]
  ]

  unfoldable pub apply_header_rewrites : http.HeaderMap → List HeaderRewriteRule → http.HeaderMap
  unfolding apply_rule
  apply_header_rewrites m [] = m
  apply_header_rewrites m (rule ∷ rules) = apply_header_rewrites (apply_rule m rule) rules
