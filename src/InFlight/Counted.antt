-- ===== src/InFlight/Counted.antt =====
-- The counters of the endpoints of images/dataplane/src while requests and new tables come in any order.
use argon.Prelude.{
  ℕ, ◌+◌, ◌%◌, ◌<◌, ◌≡◌, ◌∙◌, subst, Bool, true, some, arith, nat_eq, list_eq, length, get_elem?,
  lt-length_of_get_elem?,
}
use argon.Text.{Text}
use argon.HashMap.{get}
use argon.Atomics.{Heap, Address, usize_mod}
use argon.Config.{Endpoint}
use argon.Cluster.{Counters, ClusterRule, counter_for_index}
use argon.Table.{default_table, get_cluster_rules}
use argon.Http.{Http}
use argon.Cluster.Wiring.{IsWired}
use argon.Proxy.Guard.Fewest.{in_flight_mod}
use argon.Proxy.Guard.Counts.{in_flight}
use argon.InFlight.{System, idle, Reach, here, next}
use argon.InFlight.Steps.{Good, Step-Good}

module _ (http : Http) (counters : Counters) where
  abbrev State : Type 0
  State = System http counters

  Reach-Good :
      (h : Heap) (s : State)
      → Reach http counters (idle http counters h) s
      → (c : Address → Bool) × Good http counters c s
  unfolding default_table get
  Reach-Good h s here = (
    λ a. true,
    (
      record { counters = tt; exact = λ a lt counter. absurd (ground arith) },
      tt,
      λ name rule e. unfold get in absurd (ground arith),
    ),
  )
  Reach-Good h s (next {u} r step) =
      let (c, good) = Reach-Good h u r in Step-Good http counters c u s good step

  -- In every state that selections, guards and new tables reach from the start, which has no
  -- cluster and no request, in any order that the lock of the table allows: each endpoint of a
  -- cluster that the table finds has a counter, and the counter holds the number of open guards on
  -- it, modulo 2 ^ 64.
  pub Reach-exact :
      (h : Heap) (s : State) (name : Text) (cluster : ClusterRule counters) (i : ℕ) (ep : Endpoint)
      → Reach http counters (idle http counters h) s
      → get_cluster_rules counters s.table name ≡ some cluster
      → get_elem? cluster.endpoints i ≡ some ep
      → (a : Address) × (counter_for_index counters cluster i ≡ some a)
        × (s.heap.cell a ≡ in_flight a s.guards % usize_mod)
  unfolding get_cluster_rules counter_for_index
  Reach-exact h s name cluster i ep r found at =
      let (c, (exact, _, all)) = Reach-Good h s r in
      let apart = all name cluster found in
      let short = lt-length_of_get_elem? cluster.endpoints i ep at in
      (
        apart.base + i,
        ground (arith, apart.wired.counted i ep at),
        exact.exact (apart.base + i) (omega (arith, apart.there, short))
            (apart.plain (apart.base + i) (omega arith) (omega (arith, short))),
      )

  -- The counters of a cluster that the table finds stand in consecutive cells.
  pub Reach-IsWired :
      (h : Heap) (s : State) (name : Text) (cluster : ClusterRule counters)
      → Reach http counters (idle http counters h) s
      → get_cluster_rules counters s.table name ≡ some cluster
      → (base : Address) × IsWired counters base cluster.endpoints cluster.least_conn_cursor
  unfolding get_cluster_rules
  Reach-IsWired h s name cluster r found =
      let (c, (exact, _, all)) = Reach-Good h s r in
      let apart = all name cluster found in (apart.base, apart.wired)

  -- The counter of an endpoint, by its cell, holds the number of open guards on it.
  pub Reach-cell :
      (h : Heap) (s : State) (name : Text) (cluster : ClusterRule counters) (base : Address) (i : ℕ)
      (ep : Endpoint)
      → Reach http counters (idle http counters h) s
      → get_cluster_rules counters s.table name ≡ some cluster
      → IsWired counters base cluster.endpoints cluster.least_conn_cursor
      → get_elem? cluster.endpoints i ≡ some ep
      → length s.guards < usize_mod
      → s.heap.cell (base + i) ≡ in_flight (base + i) s.guards
  unfolding counter_for_index
  Reach-cell h s name cluster base i ep r found wired at few =
      let (a, counter, exact) = Reach-exact h s name cluster i ep r found at in
      let same : a ≡ base + i = ground (arith, wired.counted i ep at) in
      subst (λ b. s.heap.cell b ≡ in_flight b s.guards) same (exact ∙ in_flight_mod a s.guards few)
