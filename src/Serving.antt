-- ===== src/Serving.antt =====
-- images/dataplane/src: the parts together. A run of the manager (grpc.rs) publishes tables
-- (snapshot.rs), by one of which a request is routed and sent on (proxy.rs).
use mathlib.Core.Option.{some-injective}
use argon.Prelude.{
  ℕ, ◌≡◌, sym, ap, ap₂, ◌∙◌, subst, ◌⊎◌, inl, inr, true, some, ◌++◌, arith, list_eq, get_elem?, In,
}
use argon.Text.{Text, codes}
use argon.Atomics.{Heap, Address}
use argon.Config
use argon.Config.{Snapshot}
use argon.Route.{RouteRule}
use argon.Cluster.{Counters, ClusterRule, SelectedEndpoint}
use argon.Cluster.Policy.{pick_endpoint-own_counter}
use argon.Table.{RouteTable, new_table}
use argon.Table.Built.{Describes}
use argon.Table.Lookup.{last_cluster, get_cluster_rules-new_table}
use argon.Table.Routing.{IsBest, Misses, choose_route-IsBest}
use argon.Certs.{Tls}
use argon.Http.{Http, Request, Response, Result, ok, err}
use argon.Proxy.Effects.{Clients, Trace}
use argon.Proxy.Resolve.{extract_host}
use argon.Proxy.Handler.{Selection, select_upstream, authorize, prepare, exchange, proxy_handler}
use argon.Proxy.Handler.Finish.{finish, proxy_handler-finish}
use argon.Proxy.Handler.Selecting.{Selects, select_upstream-cases}
use argon.Proxy.Forward.Via.{all_via}
use argon.Proxy.Handler.Via.{serve-via}
use argon.Proxy.Handler.Safety.{forwards, MayPass, serve-MayPass}
use argon.Grpc.Connect.{Connector}
use argon.Grpc.Start.{start}
use argon.Grpc.Stream.{Manager, Reach}
use argon.Grpc.Stream.Publishing.{TableOf}
use argon.Grpc.Stream.History.{received, Reach-TableOf}

module _ (http : Http) (counters : Counters) (clients : Clients http) (req : Request http) where
  abbrev Served : Type 0
  Served = Trace http × Response http

  abbrev Outcome : Type 0
  Outcome = Heap × Result (Selection http counters) (Response http)

  abbrev path : Text
  path = http.uri_path req.uri

  -- The request was served by the snapshot: by the best of its routes, on an endpoint of the last
  -- cluster of the route's name, after the authorization of this cluster let it pass.
  pub record Follows (snap : Snapshot) (served : Served) : Type 0 where
    pub host : Text
    pub named : extract_host http req ≡ ok host
    pub rule : RouteRule
    pub routed :
        IsBest host snap.routes path rule
        ⊎ (Misses host snap.routes path × IsBest (codes "") snap.routes path rule)
    pub config : Config.Cluster
    pub chosen : last_cluster rule.cluster snap.clusters ≡ some config
    pub first_cell : Address
    pub cluster : ClusterRule counters
    pub described : Describes counters http.header_name first_cell config cluster
    pub selected : SelectedEndpoint
    pub index : ℕ
    pub listed : get_elem? config.endpoints index ≡ some selected.endpoint
    pub passed : Request http
    pub allowed :
        MayPass http counters clients
          (record { host = host; cluster = cluster; selected = selected })
          req
          passed
    -- Each call went to the client that checks certificates, unless the cluster leaves that out.
    pub verified : all_via http config.backend_tls_insecure_skip_verify served.0 ≡ true
    pub sent :
        let s : Selection http counters = record {
          host = host;
          cluster = cluster;
          selected = selected;
        } in
        served ≡ (
          (authorize http counters clients s req).0
              ++ (exchange http counters clients s (prepare http counters clients s passed)).0,
          (exchange http counters clients s (prepare http counters clients s passed)).1,
        )

  module _ (seen : Address → ℕ) (meanwhile : Heap → Heap) (h : Heap)
      (table : RouteTable counters) where
    abbrev answer : Outcome → Served
    answer t = (finish http counters clients meanwhile req t).1

    abbrev selection : Outcome
    selection = select_upstream http counters seen h table req

    -- A selection that ends with a reply forwards nothing.
    not-forwards :
        (t : Outcome) (resp : Response http)
        → t.1 ≡ err resp
        → ¬ (forwards http (answer t).0 ≡ true)
    not-forwards (h', err resp') resp e sent = absurd (ground arith)
    not-forwards (h', ok s) resp e sent = absurd (ground arith)

    Selects-of_forwards :
        forwards http (answer selection).0 ≡ true → Selects http counters seen h table req selection
    Selects-of_forwards sent = elim (select_upstream-cases http counters seen h table req) [
      | inl (resp, _, o) ↦ absurd (not-forwards selection resp (ap (λ (t : Outcome). t.1) o) sent)
      | inr (inl (host, _, _, o)) ↦
          absurd (not-forwards selection _ (ap (λ (t : Outcome). t.1) o) sent)
      | inr (inr (inl (host, rule, _, _, o))) ↦
          absurd (not-forwards selection _ (ap (λ (t : Outcome). t.1) o) sent)
      | inr (inr (inr (inl (host, rule, cluster, _, _, _, o)))) ↦
          absurd (not-forwards selection _ (ap (λ (t : Outcome). t.1) o) sent)
      | inr (inr (inr (inr selects))) ↦ selects
    ]

  -- A request that is served by the table of a snapshot.
  table-Follows :
      (seen : Address → ℕ) (meanwhile : Heap → Heap) (h built : Heap) (snap : Snapshot)
      → forwards http
          (answer seen meanwhile h
            (new_table counters http.header_name built snap).1
            (selection seen meanwhile h (new_table counters http.header_name built snap).1)).0
        ≡ true
      → Follows snap (
          answer seen meanwhile h
            (new_table counters http.header_name built snap).1
            (selection seen meanwhile h (new_table counters http.header_name built snap).1))
  table-Follows seen meanwhile h built snap sent =
      let table = (new_table counters http.header_name built snap).1 in
      let (host, rule, cluster, sel, (named, found), got, picked, o) =
        Selects-of_forwards seen meanwhile h table sent in
      elim (get_cluster_rules-new_table counters http.header_name built snap rule.cluster) [
        | inl (gone, missing) ↦ absurd (ground arith)
        | inr (config, cluster', chosen, got', described) ↦
            let agree : cluster' ≡ cluster = some-injective cluster' cluster (sym got' ∙ got) in
            let d : Describes counters http.header_name built.next config cluster =
              subst (Describes counters http.header_name built.next config) agree described in
            let (index, listed, _) =
              pick_endpoint-own_counter counters seen h cluster d.base sel d.wired picked in
            let (passed, allowed, sent') =
              serve-MayPass http counters clients
                (record { host = host; cluster = cluster; selected = sel }) req
                (ap (λ (t : Outcome). forwards http (answer seen meanwhile h table t).0) (sym o)
                  ∙ sent) in
            record {
              host = host;
              named = named;
              rule = rule;
              routed =
                  choose_route-IsBest counters http.header_name built snap host path rule found;
              config = config;
              chosen = chosen;
              first_cell = built.next;
              cluster = cluster;
              described = d;
              selected = sel;
              index = index;
              listed = subst (λ eps. get_elem? eps index ≡ some sel.endpoint) d.endpoints listed;
              passed = passed;
              allowed = allowed;
              verified =
                  ap₂ (λ flag (x : Served). all_via http flag x.0) (sym d.skip_verify)
                    (ap (answer seen meanwhile h table) o)
                  ∙ serve-via http clients counters
                      (record { host = host; cluster = cluster; selected = sel }) req;
              sent = ap (answer seen meanwhile h table) o ∙ sent';
            }
      ]

  -- The same for a table of the snapshot in a manager, with the handler as it is.
  pub TableOf-Follows :
      (tls : Tls) (m : Manager counters http.header_name tls) (snap : Snapshot)
      → TableOf counters http.header_name tls snap m
      → (seen : Address → ℕ) (meanwhile : Heap → Heap) (h : Heap)
      → forwards http (proxy_handler http counters clients seen meanwhile h m.route_table req).1.0
        ≡ true
      → Follows snap (proxy_handler http counters clients seen meanwhile h m.route_table req).1
  TableOf-Follows tls m snap (built, e) seen meanwhile h =
      let finished = λ (table : RouteTable counters).
        sym (proxy_handler-finish http counters clients meanwhile req seen h table) in
      let Good : Heap × Served → Type 0 = λ t. forwards http t.1.0 ≡ true → Follows snap t.1 in
      subst (λ t. Good (proxy_handler http counters clients seen meanwhile h t req)) (sym e)
        (subst Good (finished (new_table counters http.header_name built snap).1)
          (table-Follows seen meanwhile h built snap))

  -- Whatever the manager has received since its start, if the handler forwards anything for a
  -- request, then a received snapshot, or the empty one of the start, accounts for the response:
  -- the rule is a best one among the snapshot's routes of the host, or among those without a host
  -- where none of the host matches; the cluster is the last usable one of the rule's name in the
  -- snapshot, with its settings; the endpoint is one of that cluster; the authorization of the
  -- cluster let the request pass; each call went to the client that checks certificates, unless the
  -- cluster leaves that out; and the response is that of the exchange with the endpoint.
  pub proxy_handler-Follows :
      (tls : Tls) (connector : Connector) (begin : Heap) (m : Manager counters http.header_name tls)
      (run : Reach counters http.header_name tls
        (start counters http.header_name tls connector begin)
        m)
      (seen : Address → ℕ) (meanwhile : Heap → Heap) (h : Heap)
      → forwards http (proxy_handler http counters clients seen meanwhile h m.route_table req).1.0
        ≡ true
      → (snap : Snapshot) × In snap (received counters http.header_name tls run)
        × Follows snap (proxy_handler http counters clients seen meanwhile h m.route_table req).1
  proxy_handler-Follows tls connector begin m run seen meanwhile h sent =
      let (snap, known, table) =
        Reach-TableOf counters http.header_name tls connector begin m run in
      (snap, known, TableOf-Follows tls m snap table seen meanwhile h sent)
