-- ===== src/Proxy/Handler/Via.antt =====
-- The client of each call that `proxy_handler` of images/dataplane/src/proxy.rs makes.
use argon.Prelude.{◌≡◌, inl, inr, Bool, true, ◌++◌, arith, Option-cases, nat_eq, list_eq}
use argon.Text.{Text, codes}
use argon.Prelude.Int.{cast_unsigned}
use argon.Decimal.{decimal_ℤ}
use argon.Auth.{AuthConfigDex}
use argon.Cluster.{Counters}
use argon.Http.{Http, Request, Result-cases}
use argon.Proxy.Effects.{Clients}
use argon.Proxy.Subrequest.{ask, subrequest, perform_auth_if_needed}
use argon.Proxy.Forward.{capture}
use argon.Proxy.Forward.Via.{all_via, all_via-append, forward_to_upstream-via}
use argon.Proxy.Handler.{Selection, is_tls_frontend, attempts, authorize, prepare, exchange, serve}

module _ (http : Http) (clients : Clients http) where
  perform_auth-via :
      (req : Request http) (auth : AuthConfigDex) (host : Text) (tls insecure : Bool)
      → all_via http insecure (perform_auth_if_needed http clients req auth host tls insecure).0
        ≡ true
  unfolding perform_auth_if_needed subrequest ask
  perform_auth-via req auth host tls insecure = ground arith

  module _ (counters : Counters) (s : Selection http counters) where
    abbrev insecure : Bool
    insecure = s.cluster.backend_tls_insecure_skip_verify

    authorize-via :
        (req : Request http)
        → all_via http insecure (authorize http counters clients s req).0 ≡ true
    unfolding authorize
    authorize-via req = elim (Option-cases s.cluster.auth) [
      | inl open_access ↦ ground arith
      | inr (auth, needed) ↦
          ground
            (arith, perform_auth-via req auth s.host (is_tls_frontend http counters req) insecure)
    ]

    exchange-via :
        (req : Request http) → all_via http insecure (exchange http counters clients s req).0 ≡ true
    unfolding exchange
    exchange-via req =
        forward_to_upstream-via http clients insecure (cast_unsigned 64 s.cluster.timeout_ms)
          (attempts http counters clients s) (capture http req)
          (s.selected.endpoint.address ++ codes ":" ++ decimal_ℤ s.selected.endpoint.port) req

    pub serve-via :
        (req : Request http) → all_via http insecure (serve http counters clients s req).0 ≡ true
    unfolding serve
    serve-via req = elim (Result-cases (authorize http counters clients s req).1) [
      | inl (req', passed) ↦ ground (
        arith,
        all_via-append http insecure (authorize http counters clients s req).0
            (exchange http counters clients s (prepare http counters clients s req')).0
            (authorize-via req) (exchange-via (prepare http counters clients s req')),
      )
      | inr (resp, refused) ↦ ground (arith, authorize-via req)
    ]
