-- ===== src/DataPlane/Ordered.antt =====
-- What is over at each stage of `main` of images/dataplane/src/main.rs, with requests in flight.
use argon.Prelude.{◌≡◌, sym, ap, subst, nat_eq, list_eq}
use argon.Atomics.{Heap}
use argon.Cluster.{Counters}
use argon.Certs.{Tls}
use argon.Http.{Http}
use argon.Grpc.Connect.{Connector}
use argon.Process.{Stage, waiting, joining_http, joining_https, stopping, joining_manager, exited}
use argon.Process.Parts.{IsOrdered, Good}
use argon.Process.Order.{step-Good, launch-Good}
use argon.DataPlane.{
  Main, DataPlane, launched, with_heap, Step, proceeds, refuses, selects, enters, leaves, Reach,
  here, next,
}

module _ (http : Http) (counters : Counters) (tls : Tls) where
  abbrev State : Type 0
  State = DataPlane http counters tls

  abbrev IsGood : Main http counters tls → Type 0
  IsGood p = Good counters http.header_name tls p

  -- Requests change the heap alone.
  pub IsOrdered-heap :
      (s : Stage) (d : State) (h : Heap)
      → IsOrdered counters http.header_name tls s d.process
      → IsOrdered counters http.header_name tls s (with_heap http counters tls h d).process
  IsOrdered-heap waiting d h o = o
  IsOrdered-heap joining_http d h o = o
  IsOrdered-heap joining_https d h o = o
  IsOrdered-heap stopping d h o = o
  IsOrdered-heap joining_manager d h o = o
  IsOrdered-heap exited d h o = o

  IsGood-heap :
      (d d' : State) (h : Heap)
      → d'.process ≡ (with_heap http counters tls h d).process
      → IsGood d.process
      → IsGood d'.process
  IsGood-heap d d' h same (t, t', o) =
      subst IsGood (sym same) (t, t', IsOrdered-heap d.process.stage d h o)

  Step-IsGood : (d d' : State) → Step http counters tls d d' → IsGood d.process → IsGood d'.process
  Step-IsGood d d' (proceeds e p nobody s same) g =
      subst (λ (x : State). IsGood x.process) (sym same)
        (step-Good counters http.header_name tls e d.process p g s)
  Step-IsGood d d' (refuses seen on_tls req h resp s same) g =
      IsGood-heap d d' h (ap (λ (x : State). x.process) same) g
  Step-IsGood d d' (selects seen on_tls req h sel s same) g =
      IsGood-heap d d' h (ap (λ (x : State). x.process) same) g
  Step-IsGood d d' (enters before counter after at same) g =
      IsGood-heap d d' _ (ap (λ (x : State). x.process) same) g
  Step-IsGood d d' (leaves before guard after at same) g =
      IsGood-heap d d' _ (ap (λ (x : State). x.process) same) g

  Reach-IsGood :
      (c : Connector) (h : Heap) (d : State)
      → Reach http counters tls (launched http counters tls c h) d
      → IsGood d.process
  Reach-IsGood c h d here = launch-Good counters http.header_name tls c h
  Reach-IsGood c h d (next {u} r s) = Step-IsGood u d s (Reach-IsGood c h u r)

  -- In every state that the process reaches from its launch, with requests in flight or without,
  -- what `main` has waited for is over: the HTTP listener has returned without a connection before
  -- `main` joins the HTTPS listener, and that one too before `main` stops the manager; the manager
  -- is cancelled only then; and both its tasks are over when `main` has ended.
  pub launched-IsOrdered :
      (c : Connector) (h : Heap) (d : State)
      → Reach http counters tls (launched http counters tls c h) d
      → IsOrdered counters http.header_name tls d.process.stage d.process
  launched-IsOrdered c h d r = (Reach-IsGood c h d r).2
