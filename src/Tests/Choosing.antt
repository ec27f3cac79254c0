-- ===== src/Tests/Choosing.antt =====
-- A process with an open request to a cluster with least connections, and a second request to it.
use argon.Prelude.{list_beq, ℕ, ◌+◌, ◌≡◌, refl, true, none, some, [], ◌∷◌, arith, nat_eq, list_eq}
use argon.Text.{codes, to_ascii_lowercase, trim_end_matches, trim, is_whitespace}
use argon.Atomics.{Heap, Address}
use argon.Cluster.{ClusterRule, round_robin, least_conn}
use argon.Cluster.Wiring.{IsWired}
use argon.Table.{build_cluster, new_table, choose_route}
use argon.Http.{Request, ok, get}
use argon.Proxy.Guard.{open_guard}
use argon.Proxy.Resolve.{extract_host, host_of_header, clean_host}
use argon.Proxy.Handler.{Selection, select_upstream}
use argon.DataPlane.{marked, selection, Reach, next, selects, enters, with_heap}
use argon.DataPlane.Balanced.{Sees, IsPicked, selection-IsPicked}
use mathlib.Core.Option
use mathlib.Core.Quot
use argon.Config.{Snapshot}
use argon.Table.RouteSet.{shape, shape_for}
use argon.Grpc.Stream.History.{IsCurrent}
use argon.DataPlane.Served.{received}
use argon.DataPlane.Routed.{choose_route-routes}
use argon.Tests.Maps.{counters}
use argon.Tests.Network.{http}
use argon.Tests.Requests.{sample_request}
use argon.Tests.Samples.{web_site, endpoint_at, sample_cluster, sample_connector, tls, no_cells}
use argon.Tests.Serving.{with_table}
use argon.Tests.Running.{State, begun, connected_with, run}

abbrev after_web : Heap
after_web =
    (build_cluster counters http.header_name no_cells round_robin
      (sample_cluster (codes "Web") (codes "RoundRobin"))).0

abbrev api : ClusterRule counters
api =
    (build_cluster counters http.header_name after_web least_conn
      (sample_cluster (codes "api") (codes "LeastConn"))).1

abbrev api_request : Request http
api_request = record sample_request {
  uri = record { scheme = none; authority = none; path_and_query = some (codes "/api/x") };
}

abbrev choice : ℕ → Selection http counters
choice i = record {
  host = codes "shop.test";
  cluster = api;
  selected = record { endpoint = endpoint_at (80 + i); counter = some (4 + i) };
}

-- The first request has an open guard.
abbrev busy : State
busy =
    record (with_heap http counters tls (open_guard with_table.heap (some 6)).0
      (connected_with with_table)) { guards = (open_guard with_table.heap (some 6)).1 ∷ [] }

-- Both requests; the second one finds the last endpoint busy.
choices :
    (selection http counters tls
        (connected_with with_table)
        with_table.heap.cell
        (marked http counters tls true api_request)
      ≡ (with_table.heap, ok (choice 2)))
    × (selection http counters tls busy busy.process.manager.heap.cell
          (marked http counters tls true api_request)
        ≡ (busy.process.manager.heap, ok (choice 1)))
unfolding select_upstream extract_host host_of_header clean_host get list_beq
    argon.Proxy.Resolve.resolve_route argon.Proxy.Resolve.resolve_cluster
    argon.Proxy.Resolve.resolve_endpoint argon.Table.choose_route argon.Table.get_cluster_rules
    argon.Table.get_endpoint argon.Table.build_cluster argon.Route.match_host
    argon.Route.match_in_bucket argon.Route.rule_cmp argon.Route.rule_matches argon.HashMap.get
    argon.HashMap.insert new_table argon.Route.build_routes argon.HashMap.map_values
    argon.Route.parse argon.HashMap.modify to_ascii_lowercase trim_end_matches trim is_whitespace
    argon.Sort.sort_by argon.Sort.place argon.Text.len argon.Text.starts_with argon.Atomics.alloc
    argon.Atomics.fetch_add argon.Cluster.build_map argon.Cluster.parse_policy
    argon.Cluster.pick_endpoint argon.Cluster.pick_least_conn argon.Cluster.selected_at
    argon.Cluster.least_entry argon.Sort.best argon.Atomics.load argon.Cluster.counter_for_index
    argon.Cluster.from_endpoint argon.Sort.min_by_key open_guard
choices = (refl, refl)

busy-Reach : Reach http counters tls begun busy
busy-Reach =
    next {u = record (connected_with with_table) { selected = some 6 ∷ [] }}
      (next {u = connected_with with_table} run
        (selects with_table.heap.cell true api_request with_table.heap (choice 2) choices.0 refl))
      (enters [] (some 6) [] refl refl)

-- All counters are loaded in this state.
busy-Sees :
    Sees http counters tls sample_connector no_cells busy (λ a. busy) busy.process.manager.heap.cell
busy-Sees = record {
  reached = λ a. busy-Reach;
  same_table = λ a. refl;
  few = λ a. unfold open_guard in omega arith;
  loads = λ a. refl;
}

selection-IsPicked_example :
    (base : Address) × IsWired counters base api.endpoints api.least_conn_cursor
    × IsPicked http counters tls
        (λ a. busy)
        busy.process.manager.heap
        api
        base
        api.lb_policy
        busy.process.manager.heap
        (choice 1).selected
selection-IsPicked_example =
    selection-IsPicked http counters tls sample_connector no_cells busy (λ a. busy)
      busy.process.manager.heap.cell true api_request busy.process.manager.heap (choice 1)
      busy-Reach busy-Sees choices.1

choose_route-routes_example :
    (snap : Snapshot) × IsCurrent counters http.header_name tls snap
      (received http counters tls run)
      with_table
    × (Option.map shape (choose_route counters with_table.route_table web_site (codes "/api"))
        ≡ shape_for web_site (codes "/api") (Quot.mk snap.routes))
choose_route-routes_example =
    choose_route-routes http counters tls sample_connector no_cells (connected_with with_table) run
      web_site (codes "/api")
