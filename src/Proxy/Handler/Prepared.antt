-- ===== src/Proxy/Handler/Prepared.antt =====
-- The request that images/dataplane/src/proxy.rs sends to the endpoint.
use argon.Prelude.{
  ◌≡◌, sym, ap, ◌∙◌, subst, ◌⊎◌, inl, inr, Bool, some, [], ◌∷◌, ◌++◌, arith, Bool-cases,
  Option-cases, unwrap_or, nat_eq, list_eq,
}
use argon.Text.{Text, codes}
use argon.Prelude.Int.{cast_unsigned}
use argon.Rewrites.{HeaderName}
use argon.Cluster.{Counters}
use argon.Http.{Http, Request, Parts}
use argon.Proxy.Effects.{Clients, asked, Trace}
use argon.Proxy.Headers.Laws.{rules_values, apply_header_rewrites-get_all}
use argon.Proxy.Headers.{scheme_of}
use argon.Proxy.Upstream.{is_tls, version_of, authority_text, set_if, handle_req_upstream}
use argon.Proxy.Upstream.Sent.{sent_values, upstream_headers-get_all}
use argon.Proxy.Handler.{Selection, authorize, prepare, exchange, serve, attempts, is_tls_frontend}
use argon.Auth.{AuthConfigDex}
use argon.Decimal.{decimal_ℤ}
use argon.Http.{ok}
use argon.Proxy.Subrequest.{
  build_auth_request, ask, subrequest, is_skipped, cookie_check, perform_auth_if_needed,
}
use argon.Proxy.Forward.Same.{
  EachForwarded, EachForwarded-append, EachForwarded-map, IsSame, forward_to_upstream-IsSame,
}

module _ (http : Http) (counters : Counters) (clients : Clients http) where
  -- The address: the scheme of the protocol, the endpoint's name and port, and the client's path.
  abbrev pub address_of :
      Selection http counters → Request http → Parts http.Authority http.PathAndQuery
  address_of s req =
      let proto = s.cluster.backend_protocol in
      let parts = http.into_parts req.uri in
      record {
        scheme = some (scheme_of (is_tls proto));
        authority =
            set_if http
              (http.parse_authority (
                authority_text http s.selected.endpoint.address
                  (cast_unsigned 16 s.selected.endpoint.port) proto))
              parts.authority;
        path_and_query = some (unwrap_or parts.path_and_query (http.path_from_static (codes "/")));
      }

  pub record IsSent (s : Selection http counters) (req out : Request http) : Type 0 where
    pub method_kept : out.method ≡ req.method
    pub version : out.version ≡ version_of s.cluster.backend_protocol
    pub addressed : out.uri ≡ unwrap_or (http.from_parts (address_of s req)) req.uri
    pub header_values :
        (k : HeaderName)
        → http.get_all out.headers k
          ≡ rules_values http k s.cluster.request_headers
              (sent_values http req.headers s.host (is_tls_frontend http counters req) k)

  module _ (s : Selection http counters) (req : Request http) where
    prepared : Request http
    prepared = prepare http counters clients s req

    -- A request that is the prepared one but for the body.
    IsSame-IsSent : (out : Request http) → IsSame http prepared out → IsSent s req out
    unfolding prepare handle_req_upstream prepared
    IsSame-IsSent out same = record {
      method_kept = same.method;
      version = same.version;
      addressed = same.uri;
      header_values = λ k.
          ap (λ m. http.get_all m k) same.headers
          ∙ apply_header_rewrites-get_all http _ s.cluster.request_headers k
          ∙ ap (rules_values http k s.cluster.request_headers) (
              upstream_headers-get_all http req.headers s.host (is_tls_frontend http counters req)
                k);
    }

    exchange-IsSent :
        EachForwarded http (IsSent s req) (exchange http counters clients s prepared).0
    unfolding exchange
    exchange-IsSent =
        EachForwarded-map http (IsSame http prepared) (IsSent s req)
          (exchange http counters clients s prepared).0 IsSame-IsSent
          (forward_to_upstream-IsSame http clients s.cluster.backend_tls_insecure_skip_verify
            (cast_unsigned 64 s.cluster.timeout_ms) (attempts http counters clients s) prepared
            (s.selected.endpoint.address ++ codes ":" ++ decimal_ℤ s.selected.endpoint.port))

  -- The authorization makes one call at most, to its service.
  abbrev AsksOnly : Bool → Trace http → Type 0
  AsksOnly insecure t = (t ≡ []) ⊎ ((r : Request http) × (t ≡ asked insecure r ∷ []))

  subrequest-AsksOnly :
      (req : Request http) (auth : AuthConfigDex) (host : Text) (tls insecure : Bool)
      → AsksOnly insecure (subrequest http clients req auth host tls insecure).0
  unfolding subrequest ask
  subrequest-AsksOnly req auth host tls insecure = elim (Option-cases auth.url) [
    | inl none_given ↦ inl (ground arith)
    | inr (url, given) ↦ elim (Option-cases (http.parse_uri url)) [
      | inl bad ↦ inl (ground arith)
      | inr (uri, parsed) ↦ inr (build_auth_request http req uri host tls, ground arith)
    ]
  ]

  perform-AsksOnly :
      (req : Request http) (auth : AuthConfigDex) (host : Text) (tls insecure : Bool)
      → AsksOnly insecure (perform_auth_if_needed http clients req auth host tls insecure).0
  unfolding perform_auth_if_needed
  perform-AsksOnly req auth host tls insecure =
      elim (Bool-cases (is_skipped http clients req auth host tls insecure)) [
        | inl skipped ↦ inl (ground arith)
        | inr checked ↦ elim (Option-cases (cookie_check http clients req auth host tls insecure)) [
          | inl passed ↦
              subst (AsksOnly insecure) (ground arith)
                (subrequest-AsksOnly req auth host tls insecure)
          | inr (resp, sent) ↦ inl (ground arith)
        ]
      ]

  EachForwarded-of_AsksOnly :
      (P : Request http → Type 0) (insecure : Bool) (t : Trace http)
      → AsksOnly insecure t
      → EachForwarded http P t
  EachForwarded-of_AsksOnly P insecure t (inl empty) = subst (EachForwarded http P) (sym empty) tt
  EachForwarded-of_AsksOnly P insecure t (inr (r, one)) = subst (EachForwarded http P) (sym one) tt

  EachForwarded-same :
      (P : Request http → Type 0) (t t' : Trace http)
      → t' ≡ t
      → EachForwarded http P t
      → EachForwarded http P t'
  EachForwarded-same P t t' e h = subst (EachForwarded http P) (sym e) h

  -- The authorization forwards nothing.
  authorize-forwards :
      (P : Request http → Type 0) (s : Selection http counters) (req : Request http)
      → EachForwarded http P (authorize http counters clients s req).0
  unfolding authorize
  authorize-forwards P s req = elim (Option-cases s.cluster.auth) [
    | inl open_access ↦
        EachForwarded-same P [] (authorize http counters clients s req).0 (ground arith) tt
    | inr (auth, needed) ↦
        EachForwarded-same P
          (perform_auth_if_needed http clients req auth s.host (is_tls_frontend http counters req)
            s.cluster.backend_tls_insecure_skip_verify).0
          (authorize http counters clients s req).0 (ground arith)
          (EachForwarded-of_AsksOnly P s.cluster.backend_tls_insecure_skip_verify
            (perform_auth_if_needed http clients req auth s.host (is_tls_frontend http counters req)
              s.cluster.backend_tls_insecure_skip_verify).0
            (perform-AsksOnly req auth s.host (is_tls_frontend http counters req)
              s.cluster.backend_tls_insecure_skip_verify))
  ]

  -- If the authorization lets a request pass, then each request that serving it forwards, at
  -- whatever attempt, has the method of the passed request, the version of the backend's protocol,
  -- and an address of the protocol's scheme, the endpoint's name and port and the client's path,
  -- where these make one; and each header name has the values that the configured rewrites make of
  -- these: for x-forwarded-proto the scheme of the frontend; for x-forwarded-host the host if the
  -- client sent none; for host the host; none for the hop-by-hop names; and the client's values for
  -- all other names; where the host can be no header value, the two headers keep what the client
  -- sent.
  pub serve-IsSent :
      (s : Selection http counters) (req passed : Request http)
      → (authorize http counters clients s req).1 ≡ ok passed
      → EachForwarded http (IsSent s passed) (serve http counters clients s req).0
  unfolding serve prepared
  serve-IsSent s req passed e =
      EachForwarded-same (IsSent s passed)
        ((authorize http counters clients s req).0
          ++ (exchange http counters clients s (prepare http counters clients s passed)).0)
        (serve http counters clients s req).0 (ground arith)
        (EachForwarded-append http (IsSent s passed) (authorize http counters clients s req).0
          (exchange http counters clients s (prepare http counters clients s passed)).0
          (authorize-forwards (IsSent s passed) s req) (exchange-IsSent s passed))
