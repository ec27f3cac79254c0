-- ===== src/Cluster/Cursor.antt =====
-- What a selection of images/dataplane/src/snapshot.rs changes on the heap.
use argon.Prelude.{
  ℕ, ◌≡◌, ◌⊎◌, inl, inr, arith, Bool-cases, Option-cases, ◌==◌, nat_eq, length, get_elem?,
}
use argon.Atomics.{Address, Heap, fetch_add}
use argon.Cluster.{
  Counters, ClusterRule, pick_round_robin, least_entry, pick_least_conn, pick_endpoint,
}
use argon.Cluster.Policy.{policy_cases}

module _ (counters : Counters) (h : Heap) (cluster : ClusterRule counters) where
  -- Nothing, or the cursor of the cluster by one.
  abbrev pub IsTurned : Heap → Type 0
  IsTurned h' = (h' ≡ h) ⊎ (h' ≡ (fetch_add h cluster.rr_cursor 1).0)

  pick_round_robin-IsTurned : IsTurned (pick_round_robin counters h cluster).0
  unfolding pick_round_robin
  pick_round_robin-IsTurned = elim (Bool-cases (length cluster.endpoints == 0)) [
    | inl empty ↦ inl (ground arith)
    | inr busy ↦ inr (ground arith)
  ]

  module _ (seen : Address → ℕ) where
    pick_least_conn-IsTurned : IsTurned (pick_least_conn counters seen h cluster).0
    unfolding pick_least_conn
    pick_least_conn-IsTurned = elim (Bool-cases (length cluster.endpoints == 0)) [
      | inl empty ↦ inl (ground arith)
      | inr busy ↦ elim (Option-cases (least_entry counters seen cluster)) [
        | inl e ↦ rw (busy, e) pick_round_robin-IsTurned
        | inr (entry, e) ↦ elim (Option-cases (get_elem? cluster.endpoints entry.0.index)) [
          | inl missing ↦ rw (busy, e, missing) pick_round_robin-IsTurned
          | inr (ep, at) ↦ inl (ground arith)
        ]
      ]
    ]

    pub pick_endpoint-IsTurned : IsTurned (pick_endpoint counters seen h cluster).0
    pick_endpoint-IsTurned = elim (policy_cases counters seen h cluster) [
      | inl p ↦ rw p pick_round_robin-IsTurned
      | inr p ↦ rw p pick_least_conn-IsTurned
    ]
