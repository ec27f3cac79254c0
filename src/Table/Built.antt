-- ===== src/Table/Built.antt =====
-- The clusters and the heap of a new table of images/dataplane/src/snapshot.rs.
use argon.Prelude.{
  ◌+◌, ◌≤◌, ◌≡◌, refl, ◌&&◌, Option, none, some, List, [], ◌∷◌, arith, ltb, leb, if◌then◌else◌,
  unwrap_or, nat_eq, list_eq, length,
}
use argon.Text.{Text}
use argon.HashMap.{HashMap}
use argon.Atomics.{Heap, Address, alloc}
use argon.Config
use argon.Config.{Snapshot}
use argon.Auth.{build_auth_runtime}
use argon.Rewrites.{HeaderName, build_header_rewrites}
use argon.Cluster.{LbPolicy, h1, Counters, ClusterRule, parse_policy, parse_protocol}
use argon.Cluster.Wiring.{IsWired, build_map-IsWired, build_map-heap}
use argon.Table.{build_cluster, push_cluster, fill_clusters, new_table}

module _ (counters : Counters) (header_name : Text → Option HeaderName) where
  -- The rule carries the settings of the cluster, with counters and a cursor in new cells.
  pub record Describes (start : Address) (c : Config.Cluster) (rule : ClusterRule counters)
      : Type 0 where
    pub policy : parse_policy c.lb_policy ≡ some rule.lb_policy
    pub endpoints : rule.endpoints ≡ c.endpoints
    pub timeout_ms : rule.timeout_ms ≡ c.timeout_ms
    pub retries : rule.retries ≡ c.retries
    pub protocol : rule.backend_protocol ≡ unwrap_or (parse_protocol c.backend_protocol) h1
    pub headers : rule.request_headers ≡ build_header_rewrites header_name c.request_headers
    pub skip_verify : rule.backend_tls_insecure_skip_verify ≡ c.backend_tls_insecure_skip_verify
    pub auth : rule.auth ≡ build_auth_runtime c.auth
    pub base : Address
    pub fresh : start ≤ base
    pub wired : IsWired counters base rule.endpoints rule.least_conn_cursor
    pub cursor : rule.rr_cursor ≡ base + length rule.endpoints

  pub build_cluster-Describes :
      (h : Heap) (lb : LbPolicy) (c : Config.Cluster)
      → parse_policy c.lb_policy ≡ some lb
      → Describes h.next c (build_cluster counters header_name h lb c).1
  unfolding build_cluster
  build_cluster-Describes h lb c e = record {
    policy = e;
    endpoints = refl;
    timeout_ms = refl;
    retries = refl;
    protocol = refl;
    headers = refl;
    skip_verify = refl;
    auth = refl;
    base = h.next;
    fresh = omega arith;
    wired = build_map-IsWired counters h c.endpoints;
    cursor = (build_map-heap counters h c.endpoints).0;
  }

  -- New cells start at 0 and no other cell changes.
  abbrev pub Extends : Heap → Heap → Type 0
  Extends h h' =
      (h.next ≤ h'.next)
      × ((a : Address) → h'.cell a ≡ (if leb h.next a && ltb a h'.next then 0 else h.cell a))

  build_cluster-Extends :
      (h : Heap) (lb : LbPolicy) (c : Config.Cluster)
      → Extends h (build_cluster counters header_name h lb c).0
  unfolding build_cluster alloc
  build_cluster-Extends h lb c =
      let (next, cells) = build_map-heap counters h c.endpoints in
      (omega arith, λ a. ground (arith, cells a))

  Extends-trans : (h h' h'' : Heap) → Extends h h' → Extends h' h'' → Extends h h''
  Extends-trans h h' h'' (le, cells) (le', cells') =
      (omega arith, λ a. ground (arith, cells a, cells' a))

  abbrev Filled : Type 0
  Filled = Heap × HashMap Text (ClusterRule counters)

  pub push_cluster-Extends :
      (s : Filled) (c : Config.Cluster) → Extends s.0 (push_cluster counters header_name s c).0
  unfolding push_cluster
  push_cluster-Extends (h, clusters) c = by_policy (parse_policy c.lb_policy) refl
    where
      by_policy :
          (o : Option LbPolicy)
          → parse_policy c.lb_policy ≡ o
          → Extends h (push_cluster counters header_name (h, clusters) c).0
      by_policy none e = rw (e, push_cluster) (omega arith, λ a. ground arith)
      by_policy (some lb) e = rw (e, push_cluster) (build_cluster-Extends h lb c)

  fill_clusters-Extends :
      (s : Filled) (cs : List Config.Cluster)
      → Extends s.0 (fill_clusters counters header_name s cs).0
  unfolding fill_clusters
  fill_clusters-Extends s [] = (omega arith, λ a. ground arith)
  fill_clusters-Extends s (c ∷ cs) =
      Extends-trans s.0 (push_cluster counters header_name s c).0
        (fill_clusters counters header_name s (c ∷ cs)).0 (push_cluster-Extends s c)
        (fill_clusters-Extends (push_cluster counters header_name s c) cs)

  pub Describes-weaken :
      (start start' : Address) (c : Config.Cluster) (rule : ClusterRule counters)
      → start ≤ start'
      → Describes start' c rule
      → Describes start c rule
  Describes-weaken start start' c rule le d = record {
    policy = d.policy;
    endpoints = d.endpoints;
    timeout_ms = d.timeout_ms;
    retries = d.retries;
    protocol = d.protocol;
    headers = d.headers;
    skip_verify = d.skip_verify;
    auth = d.auth;
    base = d.base;
    fresh = omega arith;
    wired = d.wired;
    cursor = d.cursor;
  }

  -- Building a table changes no cell that is in use: the new cells hold 0, and all others keep
  -- their values, so the counters of requests in flight stay right.
  pub new_table-Extends :
      (h : Heap) (snapshot : Snapshot) → Extends h (new_table counters header_name h snapshot).0
  unfolding new_table
  new_table-Extends h snapshot = fill_clusters-Extends (h, []) snapshot.clusters
