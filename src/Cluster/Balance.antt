-- ===== src/Cluster/Balance.antt =====
-- What `round_robin` and `least_conn` of images/dataplane/src/snapshot.rs select, and on which counter.
use argon.Prelude.{
  ℕ, ◌+◌, ◌%◌, ◌≤◌, ◌<◌, compare, ◌≡◌, ap, subst, inl, inr, false, Option, some, arith,
  Option-cases, ◌==◌, nat_eq, length, get_elem?, get_elem?_of_lt, In,
}
use native.Mathlib.Nat.{mod-lt}
use argon.Atomics.{Heap, Address, load, store, fetch_add, usize_mod}
use argon.Sort.{IsOrder, min_by_key}
use argon.Sort.Best.{In-of_best, best-le, best-eq-none}
use argon.Config.{Endpoint}
use argon.Cluster.{
  EndpointKey, SelectedEndpoint, from_endpoint, Counters, ClusterRule, counter_for_index,
  selected_at, pick_round_robin, least_entry, pick_least_conn,
}
use argon.Cluster.Wiring.{IsWired}

-- Comparison by a number is a total preorder.
key-IsOrder : {A : Type 0} (f : A → ℕ) → IsOrder (λ a b. compare (f a) (f b))
key-IsOrder f = record { total = λ a b h. ground arith; trans = λ a b c h k. ground arith }

mod_lt : (c n : ℕ) → 0 < n → c % n < n
mod_lt c n h = mod-lt c h

pub nonzero : (n : ℕ) → 0 < n → (n == 0) ≡ false
nonzero n h = ground arith

module _ (counters : Counters) where
  selected_at_lem :
      (cluster : ClusterRule counters) (idx : ℕ) (ep : Endpoint)
      → get_elem? cluster.endpoints idx ≡ some ep
      → selected_at counters cluster idx
        ≡ some (record { endpoint = ep; counter = counter_for_index counters cluster idx })
  unfolding selected_at
  selected_at_lem cluster idx ep e = rw (e, selected_at)

  -- The endpoint whose turn it is: the cursor modulo the number of endpoints.
  abbrev pub turn : Heap → ClusterRule counters → ℕ
  turn h cluster = load h cluster.rr_cursor % length cluster.endpoints

  -- For a cluster with an endpoint, round robin selects the endpoint at the cursor modulo the
  -- number of endpoints, an index in range, with the counter of that index, and moves the cursor
  -- alone by one, modulo 2 ^ 64.
  pub pick_round_robin-turn :
      (h : Heap) (cluster : ClusterRule counters)
      → 0 < length cluster.endpoints
      → (ep : Endpoint) × (get_elem? cluster.endpoints (turn h cluster) ≡ some ep)
        × (pick_round_robin counters h cluster ≡ (
          record h {
            cell = store h.cell cluster.rr_cursor ((h.cell cluster.rr_cursor + 1) % usize_mod);
          },
          some (record {
            endpoint = ep;
            counter = counter_for_index counters cluster (turn h cluster);
          }),
        ))
  unfolding pick_round_robin load fetch_add
  pick_round_robin-turn h cluster some_endpoint =
      let (ep, at) =
        get_elem?_of_lt cluster.endpoints (turn h cluster)
          (mod_lt (h.cell cluster.rr_cursor) (length cluster.endpoints) some_endpoint) in
      (
        ep,
        at,
        rw (nonzero (length cluster.endpoints) some_endpoint) (
            ap (λ (o : Option SelectedEndpoint). ((fetch_add h cluster.rr_cursor 1).0, o))
              (selected_at_lem cluster (turn h cluster) ep at)),
      )

  least_entry_of_In :
      (seen : Address → ℕ) (cluster : ClusterRule counters) (k : EndpointKey) (a : Address)
      → counters.get cluster.least_conn_cursor k ≡ some a
      → (entry : EndpointKey × Address) × (least_entry counters seen cluster ≡ some entry)
        × (counters.get cluster.least_conn_cursor entry.0 ≡ some entry.1)
  unfolding least_entry min_by_key
  least_entry_of_In seen cluster k a e =
      let entries = counters.iter cluster.least_conn_cursor in
      let present = (counters.In-iter_iff cluster.least_conn_cursor k a).1 e in
      elim (Option-cases (least_entry counters seen cluster)) [
        | inl gone ↦ absurd (subst (In (k, a)) (best-eq-none _ entries gone) present)
        | inr (entry, got) ↦ (
          entry,
          got,
          (counters.In-iter_iff cluster.least_conn_cursor entry.0 entry.1).0
              (In-of_best _ entries entry got),
        )
      ]

  least_entry-le :
      (seen : Address → ℕ) (cluster : ClusterRule counters) (entry : EndpointKey × Address)
      (k : EndpointKey) (a : Address)
      → least_entry counters seen cluster ≡ some entry
      → counters.get cluster.least_conn_cursor k ≡ some a
      → seen entry.1 ≤ seen a
  unfolding least_entry min_by_key
  least_entry-le seen cluster entry k a e got =
      let below =
        best-le _ (key-IsOrder (λ (x : EndpointKey × Address). seen x.1))
          (counters.iter cluster.least_conn_cursor) entry (k, a) e
          ((counters.In-iter_iff cluster.least_conn_cursor k a).1 got) in
      ground arith

  -- For a cluster with an endpoint, whose counters stand in consecutive cells, the least-
  -- connections policy selects an endpoint of the cluster with its own counter, changes nothing,
  -- and the loads give no smaller value for an endpoint of the cluster.
  pub pick_least_conn-IsLeast :
      (seen : Address → ℕ) (h : Heap) (cluster : ClusterRule counters) (base : Address)
      → IsWired counters base cluster.endpoints cluster.least_conn_cursor
      → 0 < length cluster.endpoints
      → (i : ℕ) × (ep : Endpoint) × (get_elem? cluster.endpoints i ≡ some ep)
        × (pick_least_conn counters seen h cluster
            ≡ (h, some (record { endpoint = ep; counter = some (base + i) })))
        × ((j : ℕ) → j < length cluster.endpoints → seen (base + i) ≤ seen (base + j))
  unfolding pick_least_conn
  pick_least_conn-IsLeast seen h cluster base w some_endpoint =
      let (first, at_first) = get_elem?_of_lt cluster.endpoints 0 some_endpoint in
      let (entry, least, got) =
        least_entry_of_In seen cluster (from_endpoint 0 first) (base + 0)
          (w.counted 0 first at_first) in
      let (ep, at, cell) = w.made entry.0 entry.1 got in
      (
        entry.0.index,
        ep,
        at,
        rw (nonzero (length cluster.endpoints) some_endpoint) (ground arith),
        λ j lt.
            let (other, at_j) = get_elem?_of_lt cluster.endpoints j lt in
            subst (λ a. seen a ≤ seen (base + j)) cell
              (least_entry-le seen cluster entry (from_endpoint j other) (base + j) least
                (w.counted j other at_j)),
      )
