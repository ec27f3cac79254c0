-- ===== src/Tests/InFlight.antt =====
-- A published table, a request that is selected for and enters.
use argon.Prelude.{list_beq, ◌%◌, ◌≡◌, refl, some, [], ◌∷◌, nat_eq, list_eq}
use argon.Text.{codes, to_ascii_lowercase, trim_end_matches, trim, is_whitespace}
use argon.Atomics.{Heap, Address, usize_mod}
use argon.Cluster.{ClusterRule, round_robin, counter_for_index, pick_least_conn}
use argon.Table.{build_cluster, new_table, get_cluster_rules}
use argon.Http.{ok, get}
use argon.Proxy.Guard.{open_guard}
use argon.Proxy.Guard.Counts.{in_flight}
use argon.Proxy.Resolve.{extract_host, host_of_header, clean_host}
use argon.Proxy.Handler.{Selection, select_upstream}
use argon.InFlight.{System, idle, Reach, here, next, publish, select, enter}
use argon.InFlight.Counted.{Reach-exact}
use argon.Tests.Maps.{counters}
use argon.Tests.Network.{http}
use argon.Tests.Requests.{sample_request}
use argon.Tests.Samples.{endpoint_at, sample_cluster, sample_snapshot, no_cells}

abbrev web : ClusterRule counters
web =
    (build_cluster counters http.header_name no_cells round_robin
      (sample_cluster (codes "Web") (codes "RoundRobin"))).1

abbrev chosen : Selection http counters
chosen = record {
  host = codes "shop.test";
  cluster = web;
  selected = record { endpoint = endpoint_at 80; counter = some 0 };
}

abbrev published : System http counters
published = record {
  heap = (new_table counters http.header_name no_cells sample_snapshot).0;
  table = (new_table counters http.header_name no_cells sample_snapshot).1;
  selected = [];
  guards = [];
}

abbrev turned : Heap
turned =
    (select_upstream http counters published.heap.cell published.heap published.table
      sample_request).0

chosen-select :
    select_upstream http counters published.heap.cell published.heap published.table sample_request
    ≡ (turned, ok chosen)
unfolding select_upstream extract_host host_of_header clean_host get list_beq
    argon.Proxy.Resolve.resolve_route argon.Proxy.Resolve.resolve_cluster
    argon.Proxy.Resolve.resolve_endpoint argon.Table.choose_route argon.Table.get_cluster_rules
    argon.Table.get_endpoint argon.Table.build_cluster argon.Route.match_host
    argon.Route.match_in_bucket argon.Route.rule_cmp argon.Route.rule_matches argon.HashMap.get
    argon.HashMap.insert new_table argon.Route.build_routes argon.HashMap.map_values
    argon.Route.parse argon.HashMap.modify to_ascii_lowercase trim_end_matches trim is_whitespace
    argon.Sort.sort_by argon.Sort.place argon.Text.len argon.Text.starts_with argon.Atomics.alloc
    argon.Atomics.fetch_add argon.Cluster.build_map argon.Cluster.parse_policy
    argon.Cluster.pick_endpoint argon.Cluster.pick_round_robin argon.Cluster.selected_at
    argon.Cluster.counter_for_index argon.Cluster.from_endpoint
chosen-select = refl

abbrev busy : System http counters
busy = record published {
  heap = (open_guard turned (some 0)).0;
  guards = (open_guard turned (some 0)).1 ∷ [];
}

busy-Reach : Reach http counters (idle http counters no_cells) busy
busy-Reach =
    next {u = record published { heap = turned; selected = some 0 ∷ [] }}
      (next {u = published} (next here (publish sample_snapshot refl refl))
        (select published.heap.cell sample_request turned chosen chosen-select refl))
      (enter [] (some 0) [] refl refl)

web-found : get_cluster_rules counters busy.table (codes "web") ≡ some web
unfolding get_cluster_rules new_table argon.HashMap.get argon.HashMap.insert build_cluster list_beq
    to_ascii_lowercase argon.Cluster.parse_policy
web-found = refl

Reach-exact_example :
    (a : Address) × (counter_for_index counters web 0 ≡ some a)
    × (busy.heap.cell a ≡ in_flight a busy.guards % usize_mod)
Reach-exact_example =
    Reach-exact http counters no_cells busy (codes "web") web 0 (endpoint_at 80) busy-Reach
      web-found (unfold build_cluster in refl)
