-- ===== src/Table.antt =====
-- images/dataplane/src/snapshot.rs: `RouteTable`, its construction from a snapshot and its lookups.
pub mod Routing
pub mod Reordered
pub mod RouteSet
pub mod Cells
pub mod Cases
pub mod Built
pub mod Lookup
use argon.Prelude.{ℕ, Option, none, some, List, [], ◌∷◌, map, or_else, unwrap_or, list_eq}
use argon.Text.{Text, codes, to_ascii_lowercase}
use argon.HashMap.{HashMap, get, insert}
use argon.Atomics.{Address, Heap, alloc}
use argon.Config
use argon.Config.{Snapshot}
use argon.Route.{RouteRule, build_routes, match_host}
use argon.Auth.{build_auth_runtime}
use argon.Rewrites.{HeaderName, build_header_rewrites}
use argon.Cluster.{
  LbPolicy, h1, SelectedEndpoint, Counters, ClusterRule, parse_policy, parse_protocol, build_map,
  pick_endpoint,
}

module _ (counters : Counters) where
  pub record RouteTable : Type 0 where
    pub version : Text
    pub routes_by_host : HashMap Text (List RouteRule)
    pub clusters : HashMap Text (ClusterRule counters)

  unfoldable pub default_table : RouteTable
  default_table = record { version = codes ""; routes_by_host = []; clusters = [] }

  module _ (header_name : Text → Option HeaderName) where
    -- The rule for a cluster with a known policy; its counters and its cursor are new cells.
    unfoldable pub build_cluster : Heap → LbPolicy → Config.Cluster → Heap × ClusterRule counters
    unfolding build_map alloc
    build_cluster h lb cluster =
        let (h', map) = build_map counters h cluster.endpoints in
        let (h'', cursor) = alloc h' 0 in
        (
          h'',
          record {
            name = codes "";
            lb_policy = lb;
            endpoints = cluster.endpoints;
            timeout_ms = cluster.timeout_ms;
            retries = cluster.retries;
            backend_protocol = unwrap_or (parse_protocol cluster.backend_protocol) h1;
            request_headers = build_header_rewrites header_name cluster.request_headers;
            backend_tls_insecure_skip_verify = cluster.backend_tls_insecure_skip_verify;
            rr_cursor = cursor;
            least_conn_cursor = map;
            auth = build_auth_runtime cluster.auth;
          },
        )

    -- One round of the loop over `snapshot.clusters`.
    pub push_cluster :
        Heap × HashMap Text (ClusterRule counters)
        → Config.Cluster
        → Heap × HashMap Text (ClusterRule counters)
    unfolding build_cluster
    push_cluster (h, clusters) cluster = elim (parse_policy cluster.lb_policy) [
      | none ↦ (h, clusters)
      | some lb ↦
          let (h', rule) = build_cluster h lb cluster in
          (h', insert clusters (to_ascii_lowercase cluster.name) rule)
    ]

    fill_clusters :
        Heap × HashMap Text (ClusterRule counters)
        → List Config.Cluster
        → Heap × HashMap Text (ClusterRule counters)
    fill_clusters s [] = s
    fill_clusters s (c ∷ cs) = fill_clusters (push_cluster s c) cs

    unfoldable pub new_table : Heap → Snapshot → Heap × RouteTable
    unfolding fill_clusters push_cluster
    new_table h snapshot =
        let (h', clusters) = fill_clusters (h, []) snapshot.clusters in
        (
          h',
          record {
            version = snapshot.version;
            routes_by_host = build_routes snapshot.routes;
            clusters = clusters;
          },
        )

  unfoldable pub choose_route : RouteTable → Text → Text → Option RouteRule
  choose_route table host path =
      or_else (match_host table.routes_by_host host path)
        (match_host table.routes_by_host (codes "") path)

  unfoldable pub get_endpoint :
      (Address → ℕ) → Heap → RouteTable → Text → Heap × Option SelectedEndpoint
  unfolding pick_endpoint
  get_endpoint seen h table cluster_name = elim (get table.clusters cluster_name) [
    | none ↦ (h, none)
    | some cluster ↦ pick_endpoint counters seen h cluster
  ]

  unfoldable pub get_cluster_rules : RouteTable → Text → Option (ClusterRule counters)
  get_cluster_rules table cluster_name = get table.clusters cluster_name
