-- ===== src/Proxy/Handler/Safety.antt =====
-- What a forwarded request has passed in `proxy_handler` of images/dataplane/src/proxy.rs.
use argon.Prelude.{
  ◌≤◌, ◌<◌, ◌≡◌, ◌⊎◌, inl, inr, Bool, true, false, none, some, ◌++◌, arith, Bool-cases,
  Option-cases, nat_eq, any,
}
use argon.Text.{Text}
use argon.Auth.{AuthConfigDex}
use argon.Cluster.{Counters}
use argon.Http.{Http, Request, Response, ok, Result-cases}
use argon.Proxy.Effects.{Clients, Event, asked, forwarded, Trace}
use argon.Proxy.Subrequest.{
  build_auth_request, copy_response_headers, is_success, is_skipped, cookie_check, judge, ask,
  subrequest, perform_auth_if_needed,
}
use argon.Proxy.Handler.{Selection, is_tls_frontend, authorize, prepare, exchange, serve}

module _ (http : Http) where
  abbrev is_forward : Event http → Bool
  is_forward (asked b r) = false
  is_forward (forwarded b n r) = true

  abbrev pub forwards : Trace http → Bool
  forwards trace = any is_forward trace

  module _ (clients : Clients http) (req : Request http) (auth : AuthConfigDex) (host : Text)
      (tls insecure : Bool) where
    -- The service was asked and answered with success; the request then has the configured headers of
    -- the answer.
    pub record IsVouched (req' : Request http) : Type 0 where
      pub url : Text
      pub uri : http.Uri
      pub answer : Response http
      pub configured : auth.url ≡ some url
      pub parsed : http.parse_uri url ≡ some uri
      pub answered :
          clients.auth_call insecure (build_auth_request http req uri host tls) ≡ ok answer
      pub success : (200 ≤ answer.status) × (answer.status < 300)
      pub headers : req' ≡ record req {
        headers = copy_response_headers http answer.headers auth.response_headers req.headers;
      }

    judge-ok :
        (answer : Response http) (req' : Request http)
        → judge http clients req auth host tls insecure answer ≡ ok req'
        → (is_success http answer.status ≡ true)
          × (req' ≡ record req {
            headers = copy_response_headers http answer.headers auth.response_headers req.headers;
          })
    unfolding judge
    judge-ok answer req' e = (ground arith, ground arith)

    ask-ok :
        (url : Text) (uri : http.Uri) (req' : Request http)
        → auth.url ≡ some url
        → http.parse_uri url ≡ some uri
        → (ask http clients req auth host tls insecure url uri).1 ≡ ok req'
        → IsVouched req'
    unfolding ask is_success
    ask-ok url uri req' configured parsed e =
        elim (Result-cases
          (clients.auth_call insecure (build_auth_request http req uri host tls))) [
            | inl (answer, answered) ↦
                let (success, headers) = judge-ok answer req' (ground arith) in
                record {
                  url = url;
                  uri = uri;
                  answer = answer;
                  configured = configured;
                  parsed = parsed;
                  answered = answered;
                  success = (ground arith, ground arith);
                  headers = headers;
                }
            | inr (reason, unanswered) ↦ absurd (ground arith)
          ]

    subrequest-ok :
        (req' : Request http)
        → (subrequest http clients req auth host tls insecure).1 ≡ ok req'
        → IsVouched req'
    unfolding subrequest
    subrequest-ok req' e = elim (Option-cases auth.url) [
      | inl missing ↦ absurd (ground arith)
      | inr (url, configured) ↦ elim (Option-cases (http.parse_uri url)) [
        | inl invalid ↦ absurd (ground arith)
        | inr (uri, parsed) ↦ ask-ok url uri req' configured parsed (ground arith)
      ]
    ]

    perform_auth-ok :
        (req' : Request http)
        → (perform_auth_if_needed http clients req auth host tls insecure).1 ≡ ok req'
        → ((is_skipped http clients req auth host tls insecure ≡ true) × (req' ≡ req))
          ⊎ IsVouched req'
    unfolding perform_auth_if_needed
    perform_auth-ok req' e =
        elim (Bool-cases (is_skipped http clients req auth host tls insecure)) [
          | inl skipped ↦ inl (skipped, ground arith)
          | inr needed ↦
              elim (Option-cases (cookie_check http clients req auth host tls insecure)) [
                | inl passed ↦ inr (subrequest-ok req' (ground arith))
                | inr (resp, sent_away) ↦ absurd (ground arith)
              ]
        ]

    forwards-perform_auth :
        forwards (perform_auth_if_needed http clients req auth host tls insecure).0 ≡ false
    unfolding perform_auth_if_needed subrequest ask
    forwards-perform_auth = ground arith

  module _ (counters : Counters) (clients : Clients http) where
    abbrev Exempt : Selection http counters → Request http → AuthConfigDex → Type 0
    Exempt s req auth =
        is_skipped http clients req auth s.host (is_tls_frontend http counters req)
          s.cluster.backend_tls_insecure_skip_verify
        ≡ true

    abbrev Vouched : Selection http counters → Request http → AuthConfigDex → Request http → Type 0
    Vouched s req auth req' =
        IsVouched clients req auth s.host (is_tls_frontend http counters req)
          s.cluster.backend_tls_insecure_skip_verify req'

    -- The request may pass as `req'`: there is no authorization, the path is exempt, or the service
    -- Vouched for it.
    abbrev pub MayPass : Selection http counters → Request http → Request http → Type 0
    MayPass s req req' =
        ((s.cluster.auth ≡ none) × (req' ≡ req))
        ⊎ ((auth : AuthConfigDex) × (s.cluster.auth ≡ some auth)
            × ((Exempt s req auth × (req' ≡ req)) ⊎ Vouched s req auth req'))

    authorize-ok :
        (s : Selection http counters) (req req' : Request http)
        → (authorize http counters clients s req).1 ≡ ok req'
        → MayPass s req req'
    unfolding authorize
    authorize-ok s req req' e = elim (Option-cases s.cluster.auth) [
      | inl open_access ↦ inl (open_access, ground arith)
      | inr (auth, needed) ↦ inr (
        auth,
        needed,
        perform_auth-ok clients req auth s.host (is_tls_frontend http counters req)
            s.cluster.backend_tls_insecure_skip_verify req' (ground arith),
      )
    ]

    forwards-authorize :
        (s : Selection http counters) (req : Request http)
        → forwards (authorize http counters clients s req).0 ≡ false
    unfolding authorize
    forwards-authorize s req = elim (Option-cases s.cluster.auth) [
      | inl open_access ↦ ground arith
      | inr (auth, needed) ↦ ground (
        arith,
        forwards-perform_auth clients req auth s.host (is_tls_frontend http counters req)
            s.cluster.backend_tls_insecure_skip_verify,
      )
    ]

    -- If serving a request forwards anything, then the cluster has no authorization and the request
    -- goes on unchanged, or the path is one that authorization skips and the request goes on
    -- unchanged, or the authorization service was asked and answered with a status from 200 to 299
    -- and the request goes on with the configured headers of its answer; and the response is that
    -- of the exchange of this request.
    pub serve-MayPass :
        (s : Selection http counters) (req : Request http)
        → forwards (serve http counters clients s req).0 ≡ true
        → (req' : Request http) × MayPass s req req'
          × (serve http counters clients s req ≡ (
            (authorize http counters clients s req).0
                ++ (exchange http counters clients s (prepare http counters clients s req')).0,
            (exchange http counters clients s (prepare http counters clients s req')).1,
          ))
    unfolding serve
    serve-MayPass s req sent = elim (Result-cases (authorize http counters clients s req).1) [
      | inl (req', passed) ↦ (req', authorize-ok s req req' passed, ground arith)
      | inr (resp, refused) ↦ absurd (ground (arith, forwards-authorize s req))
    ]
