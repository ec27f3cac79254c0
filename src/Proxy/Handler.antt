-- ===== src/Proxy/Handler.antt =====
-- images/dataplane/src/proxy.rs: `proxy_handler`. The route table is the one that the read lock gives.
-- What other requests do to the counters while this one waits is the parameter `meanwhile`.
pub mod Finish
pub mod Safety
pub mod Lookups
pub mod Selecting
pub mod Selected
pub mod Via
pub mod Outcome
pub mod Prepared
use argon.Prelude.{ℕ, Bool, false, none, some, [], ◌++◌, unwrap_or}
use argon.Text.{Text, codes}
use argon.Prelude.Int.{ℤ, pos, max_ℤ, cast_unsigned}
use argon.Decimal.{decimal_ℤ}
use argon.Atomics.{Address, Heap}
use argon.Config.{Endpoint}
use argon.Route.{RouteRule}
use argon.Cluster.{Counters, ClusterRule, SelectedEndpoint}
use argon.Table.{RouteTable}
use argon.Http.{Http, Request, Response, Result, ok, err, ◌>>=◌}
use argon.Proxy.Headers.{remove_hop_headers, apply_header_rewrites}
use argon.Proxy.Reply.{text}
use argon.Proxy.Effects.{Clients, Trace}
use argon.Proxy.Subrequest.{perform_auth_if_needed}
use argon.Proxy.Upstream.{handle_req_upstream}
use argon.Proxy.Forward.{capture, forward_to_upstream}
use argon.Proxy.Resolve.{extract_host, resolve_route, resolve_cluster, resolve_endpoint}
use argon.Proxy.Guard.{open_guard, drop_guard}

module _ (http : Http) (counters : Counters) where
  pub record Selection : Type 0 where
    pub host : Text
    pub cluster : ClusterRule counters
    pub selected : SelectedEndpoint

  abbrev pub is_tls_frontend : Request http → Bool
  is_tls_frontend req = unwrap_or req.frontend_tls false

  find_cluster :
      RouteTable counters
      → Request http
      → Result (Text × RouteRule × ClusterRule counters) (Response http)
  find_cluster table req = do
    host ← extract_host http req
    rule ← resolve_route http counters table host (http.uri_path req.uri)
    cluster ← resolve_cluster http counters table rule
    ok (host, rule, cluster)

  -- The part under the read lock: host, route, cluster and endpoint, or the first response that one of
  -- them gives. The loads of the least-connections policy give the values of `seen`.
  unfoldable pub select_upstream :
      (Address → ℕ)
      → Heap
      → RouteTable counters
      → Request http
      → Heap × Result Selection (Response http)
  unfolding find_cluster
  select_upstream seen h table req = elim (find_cluster table req) [
    | err resp ↦ (h, err resp)
    | ok (host, rule, cluster) ↦
        let (h', endpoint) = resolve_endpoint http counters seen h table rule in
        (
          h',
          do
            selected ← endpoint
            ok (record { host = host; cluster = cluster; selected = selected }),
        )
  ]

  module _ (clients : Clients http) where
    -- The request after the authorization, or the response that ends it.
    unfoldable pub authorize :
        Selection → Request http → Trace http × Result (Request http) (Response http)
    authorize s req = elim s.cluster.auth [
      | none ↦ ([], ok req)
      | some auth ↦
          perform_auth_if_needed http clients req auth s.host (is_tls_frontend req)
            s.cluster.backend_tls_insecure_skip_verify
    ]

    -- The request as it goes to the endpoint.
    unfoldable pub prepare : Selection → Request http → Request http
    prepare s req =
        let ready =
          handle_req_upstream http req s.host s.selected.endpoint.address
            (cast_unsigned 16 s.selected.endpoint.port) s.cluster.backend_protocol
            (is_tls_frontend req) in
        record ready {
          headers = apply_header_rewrites http ready.headers s.cluster.request_headers;
        }

    abbrev pub attempts : Selection → ℕ
    attempts s = cast_unsigned 64 (max_ℤ s.cluster.retries (pos 1))

    -- The forwarding and its response.
    unfoldable pub exchange : Selection → Request http → Trace http × Response http
    exchange s req =
        let ep = s.selected.endpoint in
        let (trace, result) =
          forward_to_upstream http clients s.cluster.backend_tls_insecure_skip_verify
            (cast_unsigned 64 s.cluster.timeout_ms) (attempts s) (capture http req)
            (ep.address ++ codes ":" ++ decimal_ℤ ep.port) req in
        (
          trace,
          elim result [
            | ok resp ↦ record resp { headers = remove_hop_headers http resp.headers }
            | err e ↦ text http 502 e
          ],
        )

    unfoldable pub serve : Selection → Request http → Trace http × Response http
    serve s req =
        let (trace, allowed) = authorize s req in
        elim allowed [
          | err resp ↦ (trace, resp)
          | ok req' ↦ let (trace', resp) = exchange s (prepare s req') in (trace ++ trace', resp)
        ]

    unfoldable pub proxy_handler :
        (Address → ℕ)
        → (Heap → Heap)
        → Heap
        → RouteTable counters
        → Request http
        → Heap × (Trace http × Response http)
    proxy_handler seen meanwhile h table req =
        let (h', selection) = select_upstream seen h table req in
        elim selection [
          | err resp ↦ (h', ([], resp))
          | ok s ↦
              let (h'', guard) = open_guard h' s.selected.counter in
              (drop_guard (meanwhile h'') guard, serve s req)
        ]
