-- ===== src/Proxy/Subrequest/Copied.antt =====
-- The headers that images/dataplane/src/proxy.rs takes from the answer of the authorization service.
use argon.Prelude.{
  ◌≡◌, refl, ap, ◌∙◌, inl, inr, Bool, false, ◌||◌, none, some, List, [], ◌∷◌, arith, if◌then◌else◌,
  Option-cases, ◌==◌, eq_iff, nat_eq, list_eq,
}
use argon.Text.{Text}
use argon.Rewrites.{HeaderName}
use argon.Http.{Http, get}
use argon.Proxy.Subrequest.{copy_response_headers}

module _ (http : Http) where
  -- A configured name is this header.
  abbrev pub is_named : HeaderName → List Text → Bool
  is_named k [] = false
  is_named k (name ∷ names) =
      elim (http.header_name name) [ none ↦ false | some hn ↦ hn == k ] || is_named k names

  -- The answer's first value of a header, or what the client sent.
  abbrev pub answered_or :
      http.HeaderMap → HeaderName → List http.HeaderValue → List http.HeaderValue
  answered_or answer k vs = elim (get http answer k) [ none ↦ vs | some v ↦ v ∷ [] ]

  copy_one :
      (answer m : http.HeaderMap) (hn k : HeaderName)
      → http.get_all (elim (get http answer hn) [ none ↦ m | some v ↦ http.insert m hn v ]) k
        ≡ (if hn == k then answered_or answer k (http.get_all m k) else http.get_all m k)
  copy_one answer m hn k = elim (Option-cases (get http answer hn)) [
    | inl e ↦ ground (arith, eq_iff hn k)
    | inr (v, e) ↦ ground (arith, eq_iff hn k, http.get_all-insert m hn k v)
  ]

  -- After the authorization, each header whose name is configured has the first value that the
  -- answer has of it, or what the client sent where the answer has none; all other headers are the
  -- client's.
  pub copy_response_headers-get_all :
      (answer : http.HeaderMap) (names : List Text) (m : http.HeaderMap) (k : HeaderName)
      → http.get_all (copy_response_headers http answer names m) k
        ≡ (if is_named k names then answered_or answer k (http.get_all m k) else http.get_all m k)
  unfolding copy_response_headers
  copy_response_headers-get_all answer [] m k = refl
  copy_response_headers-get_all answer (name ∷ names) m k =
      elim (Option-cases (http.header_name name)) [
        | inl e ↦ rw e (copy_response_headers-get_all answer names m k)
        | inr (hn, e) ↦ rw e (
            copy_response_headers-get_all answer names
              (elim (get http answer hn) [ none ↦ m | some v ↦ http.insert m hn v ]) k
            ∙ ap (λ vs. if is_named k names then answered_or answer k vs else vs)
                (copy_one answer m hn k)
            ∙ ground arith)
      ]
