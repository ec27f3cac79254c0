-- ===== src/Proxy/Subrequest/Asked.antt =====
-- The subrequest of images/dataplane/src/proxy.rs to the authorization service.
use argon.Prelude.{
  list_beq, ◌≡◌, refl, inl, inr, Bool, none, some, List, [], ◌∷◌, ◌++◌, arith, if◌then◌else◌,
  Option-cases, ◌==◌, eq_iff, nat_eq, list_eq,
}
use argon.Text.{Text, codes}
use argon.Rewrites.{HeaderName}
use argon.Http.{Http, Request, get, insert_text}
use argon.Proxy.Headers.{scheme_of}
use argon.Proxy.Headers.Laws.{insert_text-get_all}
use argon.Proxy.Encode.{path_q_of}
use argon.Proxy.Subrequest.{copy_header, build_auth_request}

module _ (http : Http) (req : Request http) (uri : http.Uri) (host : Text) (tls : Bool) where
  -- The one value that a text can be, or none.
  abbrev pub text_values : Text → List http.HeaderValue
  text_values s = elim (http.value_from_str s) [ none ↦ [] | some v ↦ v ∷ [] ]

  abbrev pub first_of : HeaderName → List http.HeaderValue
  first_of k = elim (get http req.headers k) [ none ↦ [] | some v ↦ v ∷ [] ]

  abbrev path_q : Text
  path_q = path_q_of http req.uri

  abbrev Table : http.HeaderMap → (HeaderName → List http.HeaderValue) → Type 0
  Table m values = (k : HeaderName) → http.get_all m k ≡ values k

  insert_text-fresh :
      (m : http.HeaderMap) (values : HeaderName → List http.HeaderValue) (n : HeaderName) (s : Text)
      → Table m values
      → values n ≡ []
      → Table (insert_text http m n s) (λ k. if n == k then text_values s else values k)
  insert_text-fresh m values n s t fresh k = elim (Option-cases (http.value_from_str s)) [
    | inl e ↦ ground (arith, insert_text-get_all http m n k s, t k, t n, eq_iff n k)
    | inr (v, e) ↦ ground (arith, insert_text-get_all http m n k s, t k)
  ]

  copy_header-fresh :
      (m : http.HeaderMap) (values : HeaderName → List http.HeaderValue) (n : HeaderName)
      → Table m values
      → values n ≡ []
      → Table (copy_header http req.headers m n) (λ k. if n == k then first_of k else values k)
  unfolding copy_header
  copy_header-fresh m values n t fresh k = elim (Option-cases (get http req.headers n)) [
    | inl e ↦ ground (arith, t k, t n, eq_iff n k)
    | inr (v, e) ↦ ground (arith, http.get_all-insert m n k v, t k, eq_iff n k)
  ]

  -- The headers by name: those that the client sends on, and those that describe the request.
  abbrev pub sent_on : HeaderName → List http.HeaderValue
  sent_on k =
      if codes "authorization" == k
      then first_of k
      else if codes "cookie" == k
      then first_of k
      else []

  abbrev pub with_proto : HeaderName → List http.HeaderValue
  with_proto k =
      if codes "x-forwarded-proto" == k
      then http.value_from_static (scheme_of tls) ∷ []
      else sent_on k

  abbrev pub asked_values : HeaderName → List http.HeaderValue
  asked_values k =
      if codes "x-auth-request-redirect" == k
      then text_values (scheme_of tls ++ codes "://" ++ host ++ path_q)
      else if codes "x-original-uri" == k
      then text_values path_q
      else if codes "x-forwarded-uri" == k
      then text_values path_q
      else if codes "x-forwarded-host" == k
      then text_values host
      else with_proto k

  sent_on-Table :
      Table
        (copy_header http req.headers
          (copy_header http req.headers http.empty_map (codes "cookie"))
          (codes "authorization"))
        sent_on
  unfolding list_beq
  sent_on-Table =
      copy_header-fresh (copy_header http req.headers http.empty_map (codes "cookie"))
        (λ k. if codes "cookie" == k then first_of k else []) (codes "authorization")
        (copy_header-fresh http.empty_map (λ k. []) (codes "cookie") http.get_all-empty_map refl)
        refl

  insert-Table :
      (m : http.HeaderMap) (values : HeaderName → List http.HeaderValue) (n : HeaderName)
      (v : http.HeaderValue)
      → Table m values
      → Table (http.insert m n v) (λ k. if n == k then v ∷ [] else values k)
  insert-Table m values n v t k = ground (arith, http.get_all-insert m n k v, t k)

  -- The subrequest to the authorization service has the client's first cookie and authorization
  -- headers, the scheme of the frontend, the host, the path and query under two names and the whole
  -- address, each of these four where it can be a header value, and no other header.
  pub build_auth_request-get_all :
      (k : HeaderName)
      → http.get_all (build_auth_request http req uri host tls).headers k ≡ asked_values k
  unfolding build_auth_request list_beq
  build_auth_request-get_all k =
      let m₂ =
        insert-Table _ sent_on (codes "x-forwarded-proto") (http.value_from_static (scheme_of tls))
          sent_on-Table in
      let m₃ = insert_text-fresh _ with_proto (codes "x-forwarded-host") host m₂ refl in
      let m₄ = insert_text-fresh _ _ (codes "x-forwarded-uri") path_q m₃ refl in
      let m₅ = insert_text-fresh _ _ (codes "x-original-uri") path_q m₄ refl in
      insert_text-fresh _ _ (codes "x-auth-request-redirect")
        (scheme_of tls ++ codes "://" ++ host ++ path_q) m₅ refl k
