-- ===== src/DataPlane/Balanced.antt =====
-- Which endpoint of images/dataplane/src a request to a running process is sent to.
use argon.Prelude.{
  ℕ, ◌+◌, ◌%◌, ◌≤◌, ◌<◌, ◌≡◌, refl, ap, ◌∙◌, Bool, Option, none, some, List, [], ◌∷◌, arith, nat_eq,
  list_eq, length, get_elem?, get_elem?_of_lt,
}
use argon.Atomics.{Heap, Address, usize_mod, store}
use argon.Config.{Endpoint}
use argon.Cluster.{
  Counters, LbPolicy, round_robin, least_conn, ClusterRule, SelectedEndpoint, pick_endpoint,
  pick_round_robin, pick_least_conn, counter_for_index,
}
use argon.Cluster.Wiring.{IsWired}
use argon.Cluster.Balance.{turn, pick_round_robin-turn, pick_least_conn-IsLeast}
use argon.Cluster.Policy.{pick_endpoint-none_iff}
use argon.Certs.{Tls}
use argon.Http.{Http, Request, ok}
use argon.Grpc.Connect.{Connector}
use argon.Table.{get_cluster_rules}
use argon.Proxy.Guard.Counts.{in_flight}
use argon.Proxy.Handler.{Selection}
use argon.Proxy.Handler.Selected.{select_upstream-IsSelected}
use argon.InFlight.Counted.{Reach-IsWired, Reach-cell}
use argon.DataPlane.{DataPlane, launched, marked, selection, Reach}
use argon.DataPlane.View.{view, Reach-view}

busy_of_some :
    {A : Type 0} (eps : List Endpoint) (o : Option A) (a : A)
    → (eps ≡ [] → o ≡ none)
    → o ≡ some a
    → 0 < length eps
busy_of_some [] o a empty e = absurd (ground (arith, empty refl))
busy_of_some (x ∷ eps) o a empty e = omega arith

module _ (http : Http) (counters : Counters) (tls : Tls) where
  abbrev State : Type 0
  State = DataPlane http counters tls

  -- Each load sees the counter as it is in some state of the process, one of its own for each counter,
  -- where the table is the one of the selection and fewer than 2 ^ 64 guards are open.
  pub record Sees (c : Connector) (begin : Heap) (d : State) (moment : Address → State)
      (seen : Address → ℕ) : Type 0 where
    pub reached :
        (a : Address) → Reach http counters tls (launched http counters tls c begin) (moment a)
    pub same_table :
        (a : Address) → (moment a).process.manager.route_table ≡ d.process.manager.route_table
    pub few : (a : Address) → length (moment a).guards < usize_mod
    pub loads : (a : Address) → seen a ≡ (moment a).process.manager.heap.cell a

  module _ (moment : Address → State) (h : Heap) (cluster : ClusterRule counters) where
    -- The open guards on an endpoint at the load of its counter.
    abbrev pub guards_seen : Address → ℕ
    guards_seen a = in_flight a (moment a).guards

    -- Round robin: the index is the cursor's, which moves on. Least connections: the counter of no
    -- endpoint had fewer open guards at its load than that of the index at its own, and nothing
    -- changes.
    abbrev pub IsDue : LbPolicy → Address → ℕ → Heap → Type 0
    IsDue round_robin base i h' =
        (i ≡ turn counters h cluster)
        × (h' ≡ record h {
          cell = store h.cell cluster.rr_cursor ((h.cell cluster.rr_cursor + 1) % usize_mod);
        })
    IsDue least_conn base i h' =
        (h' ≡ h)
        × ((j : ℕ) → j < length cluster.endpoints → guards_seen (base + i) ≤ guards_seen (base + j))

    -- The endpoint of an index that is due, with the counter of the index.
    abbrev pub IsPicked : Address → LbPolicy → Heap → SelectedEndpoint → Type 0
    IsPicked base policy h' sel =
        (i : ℕ) × (get_elem? cluster.endpoints i ≡ some sel.endpoint)
        × (sel.counter ≡ some (base + i))
        × IsDue policy base i h'

    pick_endpoint-IsPicked :
        (seen : Address → ℕ) (base : Address) (policy : LbPolicy) (h' : Heap)
        (sel : SelectedEndpoint)
        → cluster.lb_policy ≡ policy
        → IsWired counters base cluster.endpoints cluster.least_conn_cursor
        → 0 < length cluster.endpoints
        → ((i : ℕ) (ep : Endpoint)
            → get_elem? cluster.endpoints i ≡ some ep
            → seen (base + i) ≡ guards_seen (base + i))
        → pick_endpoint counters seen h cluster ≡ (h', some sel)
        → IsPicked base policy h' sel
    unfolding pick_endpoint counter_for_index
    pick_endpoint-IsPicked seen base round_robin h' sel policy w busy counts e =
        let (ep, at, picked) = pick_round_robin-turn counters h cluster busy in
        let rr : pick_endpoint counters seen h cluster ≡ pick_round_robin counters h cluster =
          ground arith in
        (
          turn counters h cluster,
          ground arith,
          ground (arith, w.counted (turn counters h cluster) ep at),
          (refl, ground arith),
        )
    pick_endpoint-IsPicked seen base least_conn h' sel policy w busy counts e =
        let (i, ep, at, picked, least) =
          pick_least_conn-IsLeast counters seen h cluster base w busy in
        let lc : pick_endpoint counters seen h cluster ≡ pick_least_conn counters seen h cluster =
          ground arith in
        (
          i,
          ground arith,
          ground arith,
          (
            ground arith,
            λ j lt.
                let (other, at_j) = get_elem?_of_lt cluster.endpoints j lt in
                omega (arith, least j lt, counts i ep at, counts j other at_j),
          ),
        )

  -- In every state that the process reaches from its launch, a request that selects an endpoint
  -- gets one by the policy of its cluster, with the counter of that endpoint: by round robin the
  -- one at the cursor modulo the number of endpoints, and the cursor alone moves by one, modulo 2 ^
  -- 64. By least connections each counter is loaded in a state of its own, which the process also
  -- reaches, with the same table and fewer than 2 ^ 64 open guards: then the counter of no endpoint
  -- has fewer open guards in the state of its load than the counter of the selected one in the
  -- state of its own, and nothing changes.
  pub selection-IsPicked :
      (c : Connector) (begin : Heap) (d : State) (moment : Address → State) (seen : Address → ℕ)
      (on_tls : Bool) (req : Request http) (h' : Heap) (sel : Selection http counters)
      → Reach http counters tls (launched http counters tls c begin) d
      → Sees c begin d moment seen
      → selection http counters tls d seen (marked http counters tls on_tls req) ≡ (h', ok sel)
      → (base : Address) × IsWired counters base sel.cluster.endpoints sel.cluster.least_conn_cursor
        × IsPicked moment d.process.manager.heap sel.cluster base sel.cluster.lb_policy h'
            sel.selected
  selection-IsPicked c begin d moment seen on_tls req h' sel run sees e =
      let m = d.process.manager in
      let is =
        select_upstream-IsSelected http counters seen m.heap m.route_table
          (marked http counters tls on_tls req) h' sel e in
      let busy =
        busy_of_some sel.cluster.endpoints (pick_endpoint counters seen m.heap sel.cluster).1
          sel.selected (pick_endpoint-none_iff counters seen m.heap sel.cluster).1
          (ap (λ (r : Heap × Option SelectedEndpoint). r.1) is.picked) in
      let (base, wired) =
        Reach-IsWired http counters begin (view http counters tls d) is.rule.cluster sel.cluster
          (Reach-view http counters tls c begin d run) is.found in
      (
        base,
        wired,
        pick_endpoint-IsPicked moment m.heap sel.cluster seen base sel.cluster.lb_policy h'
            sel.selected refl wired busy
            (λ i ep at.
              let u = moment (base + i) in
              sees.loads (base + i)
              ∙ Reach-cell http counters begin (view http counters tls u) is.rule.cluster
                  sel.cluster base i ep
                  (Reach-view http counters tls c begin u (sees.reached (base + i)))
                  (ap (λ t. get_cluster_rules counters t is.rule.cluster)
                      (sees.same_table (base + i))
                    ∙ is.found)
                  wired at (sees.few (base + i)))
            is.picked,
      )
