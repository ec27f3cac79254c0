-- ===== src/DataPlane/Ending.antt =====
-- How a process of images/dataplane/src comes to its end, with its requests.
use argon.Prelude.{◌≡◌, refl, true, Option, List, [], ◌∷◌, nat_eq, list_eq}
use argon.Atomics.{Heap, Address}
use argon.Cluster.{Counters}
use argon.Certs.{Tls}
use argon.Http.{Http}
use argon.Grpc.Connect.{Connector}
use argon.Proxy.Guard.{ActiveConnGuard, open_guard, drop_guard}
use argon.Process
use argon.Process.{exited}
use argon.Process.Parts.{IsOrdered}
use argon.Process.Exit.{IsOrdered-Exits}
use argon.DataPlane.{
  Main, DataPlane, launched, with_heap, Step, proceeds, enters, leaves, Reach, Reach-trans, here,
  next,
}
use argon.DataPlane.Ordered.{IsOrdered-heap, launched-IsOrdered}

module _ (http : Http) (counters : Counters) (tls : Tls) where
  abbrev State : Type 0
  State = DataPlane http counters tls

  -- Some steps end `main`, and then no request holds the lock or a guard.
  abbrev pub Ends : State → Type 0
  Ends d =
      (d' : State) × Reach http counters tls d d'
      × (d'.process.stage ≡ exited)
      × (d'.selected ≡ [])
      × (d'.guards ≡ [])

  Ends-first : (d u : State) → Step http counters tls d u → Ends u → Ends d
  Ends-first d u s (v, r, over, free, idle) =
      (v, Reach-trans http counters tls (next here s) r, over, free, idle)

  -- The steps of the process alone, when no request is there.
  process-Reach :
      (d : State) (q : Main http counters tls)
      → d.selected ≡ []
      → Process.Reach counters http.header_name tls d.process q
      → Reach http counters tls d (record d { process = q })
  process-Reach d q free Process.here = here
  process-Reach d q free (Process.next {q = p} e r s) =
      next (process-Reach d p free r) (proceeds e q (λ stored. free) s refl)

  quiet-Ends :
      (d : State)
      → IsOrdered counters http.header_name tls d.process.stage d.process
      → d.process.cancelled ≡ true
      → d.selected ≡ []
      → d.guards ≡ []
      → Ends d
  quiet-Ends d ordered told free idle =
      let (q, r, over) = IsOrdered-Exits counters http.header_name tls d.process ordered told in
      (record d { process = q }, process-Reach d q free r, over, free, idle)

  -- The open guards are dropped one after the other.
  guards-Ends :
      (guards : List ActiveConnGuard) (d : State)
      → d.guards ≡ guards
      → IsOrdered counters http.header_name tls d.process.stage d.process
      → d.process.cancelled ≡ true
      → d.selected ≡ []
      → Ends d
  guards-Ends [] d at ordered told free = quiet-Ends d ordered told free at
  guards-Ends (g ∷ gs) d at ordered told free =
      let h = drop_guard d.process.manager.heap g in
      let u = record (with_heap http counters tls h d) { guards = gs } in
      Ends-first d u (leaves [] g gs at refl) (
        guards-Ends gs u refl (IsOrdered-heap http counters tls d.process.stage d h ordered) told
          free)

  -- The selected requests open their guards and give the lock back.
  selected-Ends :
      (selected : List (Option Address)) (d : State)
      → d.selected ≡ selected
      → IsOrdered counters http.header_name tls d.process.stage d.process
      → d.process.cancelled ≡ true
      → Ends d
  selected-Ends [] d at ordered told = guards-Ends d.guards d refl ordered told at
  selected-Ends (a ∷ as') d at ordered told =
      let (h, g) = open_guard d.process.manager.heap a in
      let u = record (with_heap http counters tls h d) { selected = as'; guards = g ∷ d.guards } in
      Ends-first d u (enters [] a as' at refl) (
        selected-Ends as' u refl (IsOrdered-heap http counters tls d.process.stage d h ordered)
          told)

  -- From every state that the process reaches from its launch with a cancelled token, with requests
  -- in flight or without, some events lead to the end of `main` with no request that holds the lock
  -- of the table and none that holds a guard: nothing that has happened makes the shutdown
  -- impossible.
  pub launched-Ends :
      (c : Connector) (h : Heap) (d : State)
      → Reach http counters tls (launched http counters tls c h) d
      → d.process.cancelled ≡ true
      → Ends d
  launched-Ends c h d r told =
      selected-Ends d.selected d refl (launched-IsOrdered http counters tls c h d r) told
