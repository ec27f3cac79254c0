-- ===== src/Cluster/Policy.antt =====
-- `pick_endpoint` of images/dataplane/src/snapshot.rs, whatever the policy.
use argon.Prelude.{
  ℕ, ◌+◌, ◌<◌, ◌≡◌, refl, ap, ◌∙◌, ◌↔◌, ◌⊎◌, inl, inr, Option, none, some, List, [], ◌∷◌, arith,
  Option-cases, nat_eq, list_eq, length, get_elem?,
}
use argon.Atomics.{Heap, Address}
use argon.Config.{Endpoint}
use argon.Cluster.{
  LbPolicy, round_robin, least_conn, SelectedEndpoint, Counters, ClusterRule, counter_for_index,
  pick_round_robin, least_entry, pick_least_conn, pick_endpoint,
}
use argon.Cluster.Wiring.{IsWired}
use argon.Cluster.Balance.{nonzero, turn, pick_round_robin-turn, pick_least_conn-IsLeast}

module _ (counters : Counters) where
  pub policy_cases :
      (seen : Address → ℕ) (h : Heap) (cluster : ClusterRule counters)
      → (pick_endpoint counters seen h cluster ≡ pick_round_robin counters h cluster)
        ⊎ (pick_endpoint counters seen h cluster ≡ pick_least_conn counters seen h cluster)
  unfolding pick_endpoint
  policy_cases seen h cluster = by_policy cluster.lb_policy refl
    where
      by_policy :
          (p : LbPolicy)
          → cluster.lb_policy ≡ p
          → (pick_endpoint counters seen h cluster ≡ pick_round_robin counters h cluster)
            ⊎ (pick_endpoint counters seen h cluster ≡ pick_least_conn counters seen h cluster)
      by_policy round_robin e = inl (ground arith)
      by_policy least_conn e = inr (ground arith)

  pick_least_conn-some :
      (seen : Address → ℕ) (h : Heap) (cluster : ClusterRule counters)
      → 0 < length cluster.endpoints
      → (sel : SelectedEndpoint) × ((pick_least_conn counters seen h cluster).1 ≡ some sel)
  unfolding pick_least_conn
  pick_least_conn-some seen h cluster some_endpoint =
      let busy = nonzero (length cluster.endpoints) some_endpoint in
      let (ep, at, fallback) = pick_round_robin-turn counters h cluster some_endpoint in
      let next : SelectedEndpoint = record {
        endpoint = ep;
        counter = counter_for_index counters cluster (turn counters h cluster);
      } in
      elim (Option-cases (least_entry counters seen cluster)) [
        | inl e ↦ (next, rw busy (ground (arith, fallback)))
        | inr (entry, e) ↦ elim (Option-cases (get_elem? cluster.endpoints entry.0.index)) [
          | inl gone ↦ (next, rw busy (ground (arith, fallback)))
          | inr (ep', at') ↦
              (record { endpoint = ep'; counter = some entry.1 }, rw busy (ground arith))
        ]
      ]

  empty_of_length : (eps : List Endpoint) → (length eps ≡ 0) ⊎ (0 < length eps)
  empty_of_length [] = inl refl
  empty_of_length (x ∷ eps) = inr (omega arith)

  nil_of_length : (eps : List Endpoint) → length eps ≡ 0 → eps ≡ []
  nil_of_length [] e = refl
  nil_of_length (x ∷ eps) e = absurd (omega arith)

  pick_endpoint-empty :
      (seen : Address → ℕ) (h : Heap) (cluster : ClusterRule counters)
      → length cluster.endpoints ≡ 0
      → (pick_endpoint counters seen h cluster).1 ≡ none
  unfolding pick_round_robin pick_least_conn
  pick_endpoint-empty seen h cluster e = elim (policy_cases seen h cluster) [
    | inl p ↦ rw p (ground arith)
    | inr p ↦ rw p (ground arith)
  ]

  pick_endpoint-some :
      (seen : Address → ℕ) (h : Heap) (cluster : ClusterRule counters)
      → 0 < length cluster.endpoints
      → (sel : SelectedEndpoint) × ((pick_endpoint counters seen h cluster).1 ≡ some sel)
  pick_endpoint-some seen h cluster some_endpoint = elim (policy_cases seen h cluster) [
    | inl p ↦
        let (ep, at, picked) = pick_round_robin-turn counters h cluster some_endpoint in
        (_, ap (λ (r : Heap × Option SelectedEndpoint). r.1) (p ∙ picked))
    | inr p ↦ rw p (pick_least_conn-some seen h cluster some_endpoint)
  ]

  -- Either policy selects no endpoint if and only if the cluster has none.
  pub pick_endpoint-none_iff :
      (seen : Address → ℕ) (h : Heap) (cluster : ClusterRule counters)
      → ((pick_endpoint counters seen h cluster).1 ≡ none) ↔ (cluster.endpoints ≡ [])
  pick_endpoint-none_iff seen h cluster = (
    λ e. elim (empty_of_length cluster.endpoints) [
      | inl empty ↦ nil_of_length cluster.endpoints empty
      | inr busy ↦
          let (sel, picked) = pick_endpoint-some seen h cluster busy in absurd (ground arith)
    ],
    λ e. pick_endpoint-empty seen h cluster (ap length e),
  )

  -- Whatever the policy, the counter that a selection carries is the one of the selected endpoint's
  -- index, for a cluster whose counters stand in consecutive cells.
  pub pick_endpoint-own_counter :
      (seen : Address → ℕ) (h : Heap) (cluster : ClusterRule counters) (base : Address)
      (sel : SelectedEndpoint)
      → IsWired counters base cluster.endpoints cluster.least_conn_cursor
      → (pick_endpoint counters seen h cluster).1 ≡ some sel
      → (i : ℕ) × (get_elem? cluster.endpoints i ≡ some sel.endpoint)
        × (sel.counter ≡ some (base + i))
  unfolding counter_for_index
  pick_endpoint-own_counter seen h cluster base sel w e = elim (empty_of_length cluster.endpoints) [
    | inl empty ↦ absurd (ground (arith, pick_endpoint-empty seen h cluster empty))
    | inr busy ↦ elim (policy_cases seen h cluster) [
      | inl p ↦
          let (ep, at, picked) = pick_round_robin-turn counters h cluster busy in
          (
            turn counters h cluster,
            ground arith,
            ground (arith, w.counted (turn counters h cluster) ep at),
          )
      | inr p ↦
          let (i, ep, at, picked, _) =
            pick_least_conn-IsLeast counters seen h cluster base w busy in
          (i, ground arith, ground arith)
    ]
  ]
