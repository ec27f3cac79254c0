-- ===== src/DataPlane/Kept.antt =====
-- What every state of a process of images/dataplane/src keeps of its manager.
use argon.Prelude.{◌≡◌, sym, ap, subst, inl, inr, some, nat_eq, list_eq}
use argon.Atomics.{Heap}
use argon.Cluster.{Counters}
use argon.Certs.{Tls}
use argon.Http.{Http}
use argon.Grpc.Connect.{Connector}
use argon.Grpc.Start.{start}
use argon.Grpc.Stream
use argon.Grpc.Stream.{Manager, cancel}
use argon.Process
use argon.Process.{launch}
use argon.Process.Managing.{Manages, step-Manages}
use argon.DataPlane.{
  Main, DataPlane, launched, with_heap, Step, proceeds, refuses, selects, enters, leaves, Reach,
  here, next,
}

-- A predicate that the steps of the manager keep, and that is not about the heap, which requests change.
module _ (http : Http) (counters : Counters) (tls : Tls)
    (Holds : Manager counters http.header_name tls → Type 0)
    (any_heap : (m : Manager counters http.header_name tls) (h : Heap)
      → Holds m
      → Holds (record m { heap = h }))
    (any_step : (e : Stream.Event) (m o : Manager counters http.header_name tls)
      → Holds m
      → Stream.step counters http.header_name tls e m ≡ some o
      → Holds o) where
  abbrev State : Type 0
  State = DataPlane http counters tls

  process-Holds :
      (e : Process.Event) (p q : Main http counters tls)
      → Holds p.manager
      → Manages counters http.header_name tls e p q
      → Holds q.manager
  process-Holds (Process.Event.manager e) p q k s = any_step e p.manager q.manager k s
  process-Holds Process.Event.proceed p q k (inl same) = subst Holds (sym same) k
  process-Holds Process.Event.proceed p q k (inr s) = any_step cancel p.manager q.manager k s
  process-Holds Process.Event.signal p q k same = subst Holds (sym same) k
  process-Holds (Process.Event.http e) p q k same = subst Holds (sym same) k
  process-Holds (Process.Event.https e) p q k same = subst Holds (sym same) k

  heap-Holds :
      (d d' : State) (h : Heap)
      → d'.process ≡ (with_heap http counters tls h d).process
      → Holds d.process.manager
      → Holds d'.process.manager
  heap-Holds d d' h same k =
      subst (λ (p : Main http counters tls). Holds p.manager) (sym same)
        (any_heap d.process.manager h k)

  Step-Holds :
      (d d' : State)
      → Step http counters tls d d'
      → Holds d.process.manager
      → Holds d'.process.manager
  Step-Holds d d' (proceeds e p nobody s same) k =
      subst (λ (x : State). Holds x.process.manager) (sym same)
        (process-Holds e d.process p k (step-Manages counters http.header_name tls e d.process p s))
  Step-Holds d d' (refuses seen on_tls req h resp s same) k =
      heap-Holds d d' h (ap (λ (x : State). x.process) same) k
  Step-Holds d d' (selects seen on_tls req h sel s same) k =
      heap-Holds d d' h (ap (λ (x : State). x.process) same) k
  Step-Holds d d' (enters before counter after at same) k =
      heap-Holds d d' _ (ap (λ (x : State). x.process) same) k
  Step-Holds d d' (leaves before guard after at same) k =
      heap-Holds d d' _ (ap (λ (x : State). x.process) same) k

  pub Reach-Holds :
      (c : Connector) (h : Heap) (d : State)
      → Holds (start counters http.header_name tls c h)
      → Reach http counters tls (launched http counters tls c h) d
      → Holds d.process.manager
  unfolding launch
  Reach-Holds c h d k here = k
  Reach-Holds c h d k (next {u} r s) = Step-Holds u d s (Reach-Holds c h u k r)
