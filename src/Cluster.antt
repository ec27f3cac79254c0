-- ===== src/Cluster.antt =====
-- images/dataplane/src/snapshot.rs: clusters and the choice of an endpoint (`LBPolicy`,
-- `BackendProtocol`, `EndpointKey`, `ClusterRule`, `round_robin`, `least_conn`).
-- `least_conn_cursor` is a `DashMap` of the dashmap crate: `Counters` says what the code relies on.
pub mod Wiring
pub mod Balance
pub mod Policy
pub mod Cursor
pub mod Rounds
use argon.Prelude.{
  ℕ, suc, ◌%◌, ◌≡◌, ◌≢◌, ◌↔◌, Bool, Option, none, some, List, [], ◌∷◌, if◌then◌else◌, ◌==◌, nat_eq,
  list_eq, length, get_elem?, In,
}
use argon.Text.{Text, codes}
use argon.Prelude.Int.{ℤ}
use argon.Atomics.{Heap, Address, alloc, load, fetch_add}
use argon.Sort.{min_by_key}
use argon.Config.{Endpoint}
use argon.Auth.{AuthConfigDex}
use argon.Rewrites.{HeaderRewriteRule}

pub data LbPolicy : Type 0 where
  round_robin least_conn : LbPolicy

unfoldable pub parse_policy : Text → Option LbPolicy
parse_policy s =
    if s == codes "RoundRobin"
    then some round_robin
    else if s == codes "LeastConn"
    then some least_conn
    else none

pub data BackendProtocol : Type 0 where
  h1 h2 h1_ssl h2_ssl : BackendProtocol

unfoldable pub parse_protocol : Text → Option BackendProtocol
parse_protocol s =
    if s == codes "h1"
    then some h1
    else if s == codes "h2"
    then some h2
    else if s == codes "h1-ssl"
    then some h1_ssl
    else if s == codes "h2-ssl"
    then some h2_ssl
    else none

pub record EndpointKey : Type 0 where
  pub address : Text
  pub port : ℤ
  pub index : ℕ

pub record SelectedEndpoint : Type 0 where
  pub endpoint : Endpoint
  pub counter : Option Address

unfoldable pub from_endpoint : ℕ → Endpoint → EndpointKey
from_endpoint index ep = record { address = ep.address; port = ep.port; index = index }

-- The operations of the `DashMap` from keys to counters, with their documented behaviour: a new map is
-- empty, an insertion replaces the value of its key, and the iteration visits the entries in some order.
pub record Counters : Type 1 where
  pub Map : Type 0
  pub with_capacity : ℕ → Map
  pub insert : Map → EndpointKey → Address → Map
  pub get : Map → EndpointKey → Option Address
  pub iter : Map → List (EndpointKey × Address)
  pub get-with_capacity : (n : ℕ) (k : EndpointKey) → get (with_capacity n) k ≡ none
  pub get-insert_self : (m : Map) (k : EndpointKey) (a : Address) → get (insert m k a) k ≡ some a
  pub get-insert_ne :
      (m : Map) (k j : EndpointKey) (a : Address) → k ≢ j → get (insert m k a) j ≡ get m j
  pub In-iter_iff :
      (m : Map) (k : EndpointKey) (a : Address) → In (k, a) (iter m) ↔ (get m k ≡ some a)

module _ (counters : Counters) where
  pub record ClusterRule : Type 0 where
    pub name : Text
    pub lb_policy : LbPolicy
    pub endpoints : List Endpoint
    pub timeout_ms : ℤ
    pub retries : ℤ
    pub backend_protocol : BackendProtocol
    pub request_headers : List HeaderRewriteRule
    pub backend_tls_insecure_skip_verify : Bool
    pub rr_cursor : Address
    pub least_conn_cursor : counters.Map
    pub auth : Option AuthConfigDex

  -- The loop of `build_map` from an index on: a counter that starts at 0 for each endpoint.
  build_map_from : Heap → counters.Map → ℕ → List Endpoint → Heap × counters.Map
  build_map_from h m index [] = (h, m)
  build_map_from h m index (ep ∷ eps) =
      build_map_from (alloc h 0).0 (counters.insert m (from_endpoint index ep) (alloc h 0).1)
        (suc index) eps

  unfoldable pub build_map : Heap → List Endpoint → Heap × counters.Map
  unfolding build_map_from alloc from_endpoint
  build_map h eps = build_map_from h (counters.with_capacity (length eps)) 0 eps

  unfoldable pub counter_for_index : ClusterRule → ℕ → Option Address
  counter_for_index cluster idx = elim (get_elem? cluster.endpoints idx) [
    | none ↦ none
    | some ep ↦ counters.get cluster.least_conn_cursor (from_endpoint idx ep)
  ]

  -- `endpoints[idx]` with its counter. Out of range the source panics; here that is `none`.
  unfoldable pub selected_at : ClusterRule → ℕ → Option SelectedEndpoint
  unfolding counter_for_index
  selected_at cluster idx = elim (get_elem? cluster.endpoints idx) [
    | none ↦ none
    | some ep ↦ some (record { endpoint = ep; counter = counter_for_index cluster idx })
  ]

  unfoldable pub pick_round_robin : Heap → ClusterRule → Heap × Option SelectedEndpoint
  unfolding fetch_add
  pick_round_robin h cluster =
      if length cluster.endpoints == 0
      then (h, none)
      else let (h', cursor) = fetch_add h cluster.rr_cursor 1 in
        (h', selected_at cluster (cursor % length cluster.endpoints))

  -- The entry with the least value, the first of them in the order of the iteration. Each counter is
  -- loaded once, and other requests count between the loads: `seen` has the values that they give.
  unfoldable pub least_entry : (Address → ℕ) → ClusterRule → Option (EndpointKey × Address)
  least_entry seen cluster =
      min_by_key (λ entry. seen entry.1) (counters.iter cluster.least_conn_cursor)

  -- The heap is the one behind the loads.
  unfoldable pub pick_least_conn :
      (Address → ℕ) → Heap → ClusterRule → Heap × Option SelectedEndpoint
  pick_least_conn seen h cluster =
      if length cluster.endpoints == 0 then (h, none) else elim (least_entry seen cluster) [
        | none ↦ pick_round_robin h cluster
        | some entry ↦ elim (get_elem? cluster.endpoints entry.0.index) [
          | none ↦ pick_round_robin h cluster
          | some ep ↦ (h, some (record { endpoint = ep; counter = some entry.1 }))
        ]
      ]

  unfoldable pub pick_endpoint : (Address → ℕ) → Heap → ClusterRule → Heap × Option SelectedEndpoint
  pick_endpoint seen h cluster = elim cluster.lb_policy [
    | round_robin ↦ pick_round_robin h cluster
    | least_conn ↦ pick_least_conn seen h cluster
  ]
