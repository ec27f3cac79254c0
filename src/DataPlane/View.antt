-- ===== src/DataPlane/View.antt =====
-- The counters, the table and the requests of a data plane of images/dataplane/src, without the rest.
use argon.Prelude.{◌≡◌, sym, ap, subst, ◌⊎◌, inl, inr, true, some, [], arith, nat_eq, list_eq}
use argon.Atomics.{Heap}
use argon.Cluster.{Counters}
use argon.Certs.{Tls}
use argon.Http.{Http}
use argon.InFlight
use argon.InFlight.{System, idle}
use argon.Grpc.Connect.{Connector}
use argon.Grpc.Stream
use argon.Grpc.Stream.Storing.{stores, step-Stores}
use argon.Grpc.Stream.{cancel}
use argon.Process
use argon.Process.{launch, manager, proceed, signal}
use argon.Process.Managing.{Manages, step-Manages}
use argon.Grpc.Start.{start}
use argon.DataPlane.{
  Main, DataPlane, launched, stores_table, Step, proceeds, refuses, selects, enters, leaves, Reach,
  here, next,
}

module _ (http : Http) (counters : Counters) (tls : Tls) where
  abbrev State : Type 0
  State = DataPlane http counters tls

  abbrev pub view : State → System http counters
  view d = record {
    heap = d.process.manager.heap;
    table = d.process.manager.route_table;
    selected = d.selected;
    guards = d.guards;
  }

  abbrev Moves : State → State → Type 0
  Moves d d' = (view d' ≡ view d) ⊎ InFlight.Step http counters (view d) (view d')

  manager-Moves :
      (e : Stream.Event) (p : Main http counters tls) (d : State)
      → (stores counters http.header_name tls e d.process.manager.phase ≡ true → d.selected ≡ [])
      → Stream.step counters http.header_name tls e d.process.manager ≡ some p.manager
      → Moves d (record d { process = p })
  manager-Moves e p d nobody s =
      elim (step-Stores counters http.header_name tls e d.process.manager p.manager s) [
        | inl (h, t) ↦ inl (ground arith)
        | inr (snap, st, h, t) ↦ inr (InFlight.publish snap (nobody st) (ground arith))
      ]

  same-Moves :
      (p : Main http counters tls) (d : State)
      → p.manager ≡ d.process.manager
      → Moves d (record d { process = p })
  same-Moves p d same = inl (ap (λ m. view (record d { process = record p { manager = m } })) same)

  process-Moves :
      (e : Process.Event) (p : Main http counters tls) (d : State)
      → (stores_table http counters tls e d.process ≡ true → d.selected ≡ [])
      → Manages counters http.header_name tls e d.process p
      → Moves d (record d { process = p })
  process-Moves (manager e) p d nobody s = manager-Moves e p d nobody s
  process-Moves proceed p d nobody (inl same) = same-Moves p d same
  process-Moves proceed p d nobody (inr s) =
      manager-Moves cancel p d (λ st. absurd (ground arith)) s
  process-Moves signal p d nobody same = same-Moves p d same
  process-Moves (Process.Event.http e) p d nobody same = same-Moves p d same
  process-Moves (Process.Event.https e) p d nobody same = same-Moves p d same

  Step-Moves : (d d' : State) → Step http counters tls d d' → Moves d d'
  Step-Moves d d' (proceeds e p nobody s same) =
      subst (Moves d) (sym same)
        (process-Moves e p d nobody (step-Manages counters http.header_name tls e d.process p s))
  Step-Moves d d' (refuses seen on_tls req h resp s same) =
      inr (InFlight.refuse seen _ h resp s (ap view same))
  Step-Moves d d' (selects seen on_tls req h sel s same) =
      inr (InFlight.select seen _ h sel s (ap view same))
  Step-Moves d d' (enters before counter after at same) =
      inr (InFlight.enter before counter after at (ap view same))
  Step-Moves d d' (leaves before guard after at same) =
      inr (InFlight.leave before guard after at (ap view same))

  -- Every state that the process reaches from its launch, with its connections, shutdown and
  -- control plane, is one of the requests and tables alone: its heap, its table, and its selections
  -- and guards are reached by selections, guards and new tables in an order that the lock of the
  -- table allows.
  pub Reach-view :
      (c : Connector) (h : Heap) (d : State)
      → Reach http counters tls (launched http counters tls c h) d
      → InFlight.Reach http counters (idle http counters h) (view d)
  unfolding launch start
  Reach-view c h d here = InFlight.here
  Reach-view c h d (next {u} r s) = elim (Step-Moves u d s) [
    | inl same ↦
        subst (InFlight.Reach http counters (idle http counters h)) (sym same) (Reach-view c h u r)
    | inr moved ↦ InFlight.next (Reach-view c h u r) moved
  ]
