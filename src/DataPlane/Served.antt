-- ===== src/DataPlane/Served.antt =====
-- images/dataplane/src: which snapshot a request of a running process is served by, whatever the
-- control plane, the other requests and the shutdown did before.
use argon.Prelude.{
  ℕ, ◌≡◌, sym, ap, subst, inl, inr, Bool, true, some, List, [], ◌∷◌, nat_eq, list_eq,
}
use argon.Atomics.{Address, Heap}
use argon.Config.{Snapshot, default_snapshot}
use argon.Cluster.{Counters}
use argon.Certs.{Tls}
use argon.Http.{Http, Request}
use argon.Proxy.Effects.{Clients}
use argon.Proxy.Handler.Safety.{forwards}
use argon.Serving.{Follows, TableOf-Follows}
use argon.Listener.{service}
use argon.Grpc.Connect.{Connector}
use argon.Grpc.Stream
use argon.Grpc.Stream.{
  Phase, loop_start, connecting, opening, streaming, publish_table, publish_certs, stopped, Manager,
  cancel,
}
use argon.Grpc.Stream.Publishing.{Agrees, step-Agrees}
use argon.Grpc.Stream.History.{message_of, IsCurrent, Knows, step-Knows, start-Agrees, start-Knows}
use argon.Grpc.Stream.Certified.{KnowsCerts, step-KnowsCerts, start-KnowsCerts}
use argon.Process
use argon.Process.{launch}
use argon.Process.Managing.{Manages, step-Manages}
use argon.Grpc.Start.{start}
use argon.DataPlane.{
  Main, DataPlane, launched, marked, with_heap, Step, proceeds, refuses, selects, enters, leaves,
  Reach, here, next,
}

module _ (http : Http) (counters : Counters) (tls : Tls) where
  abbrev State : Type 0
  State = DataPlane http counters tls

  abbrev message_in : Process.Event → List Snapshot → List Snapshot
  message_in (Process.Event.manager e) snaps = message_of counters http.header_name tls e snaps
  message_in e snaps = snaps

  abbrev message_by : {d d' : State} → Step http counters tls d d' → List Snapshot → List Snapshot
  message_by (proceeds e p nobody s same) snaps = message_in e snaps
  message_by t snaps = snaps

  -- The messages of a run, the latest first, behind which stands the snapshot of the start.
  abbrev pub received : {d d' : State} → Reach http counters tls d d' → List Snapshot
  received here = default_snapshot ∷ []
  received (next r s) = message_by s (received r)

  -- What the manager knows of the messages, whatever the heap is.
  abbrev pub Informed : List Snapshot → Manager counters http.header_name tls → Type 0
  Informed snaps m =
      Agrees counters http.header_name tls m.phase m
      × Knows counters http.header_name tls snaps m
      × KnowsCerts counters http.header_name tls snaps m

  Agrees-heap :
      (p : Phase) (m : Manager counters http.header_name tls) (h : Heap)
      → Agrees counters http.header_name tls p m
      → Agrees counters http.header_name tls p (record m { heap = h })
  Agrees-heap loop_start m h a = a
  Agrees-heap (connecting config) m h a = a
  Agrees-heap (opening request) m h a = a
  Agrees-heap (streaming got) m h a = a
  Agrees-heap (publish_table snap) m h a = a
  Agrees-heap (publish_certs snap) m h a = a
  Agrees-heap stopped m h a = a

  -- Requests change the heap alone.
  with_heap-Informed :
      (snaps : List Snapshot) (d d' : State) (h : Heap)
      → d'.process ≡ (with_heap http counters tls h d).process
      → Informed snaps d.process.manager
      → Informed snaps d'.process.manager
  with_heap-Informed snaps d d' h same (a, k, c) =
      subst (λ (p : Main http counters tls). Informed snaps p.manager) (sym same)
        (Agrees-heap d.process.manager.phase d.process.manager h a, k, c)

  manager-Informed :
      (e : Stream.Event) (snaps : List Snapshot) (m o : Manager counters http.header_name tls)
      → Stream.step counters http.header_name tls e m ≡ some o
      → Informed snaps m
      → Informed (message_of counters http.header_name tls e snaps) o
  manager-Informed e snaps m o s (a, k, c) = (
    step-Agrees counters http.header_name tls e m o a s,
    step-Knows counters http.header_name tls e snaps m o a k s,
    step-KnowsCerts counters http.header_name tls e snaps m o a k c s,
  )

  process-Informed :
      (e : Process.Event) (snaps : List Snapshot) (p q : Main http counters tls)
      → Manages counters http.header_name tls e p q
      → Informed snaps p.manager
      → Informed (message_in e snaps) q.manager
  process-Informed (Process.Event.manager e) snaps p q s i =
      manager-Informed e snaps p.manager q.manager s i
  process-Informed Process.Event.proceed snaps p q (inl same) i =
      subst (Informed snaps) (sym same) i
  process-Informed Process.Event.proceed snaps p q (inr s) i =
      manager-Informed cancel snaps p.manager q.manager s i
  process-Informed Process.Event.signal snaps p q same i = subst (Informed snaps) (sym same) i
  process-Informed (Process.Event.http e) snaps p q same i = subst (Informed snaps) (sym same) i
  process-Informed (Process.Event.https e) snaps p q same i = subst (Informed snaps) (sym same) i

  Step-Informed :
      (snaps : List Snapshot) (d d' : State) (s : Step http counters tls d d')
      → Informed snaps d.process.manager
      → Informed (message_by s snaps) d'.process.manager
  Step-Informed snaps d d' (proceeds e p nobody s same) i =
      subst (λ (x : State). Informed (message_in e snaps) x.process.manager) (sym same)
        (process-Informed e snaps d.process p
          (step-Manages counters http.header_name tls e d.process p s) i)
  Step-Informed snaps d d' (refuses seen on_tls req h resp s same) i =
      with_heap-Informed snaps d d' h (ap (λ (x : State). x.process) same) i
  Step-Informed snaps d d' (selects seen on_tls req h sel s same) i =
      with_heap-Informed snaps d d' h (ap (λ (x : State). x.process) same) i
  Step-Informed snaps d d' (enters before counter after at same) i =
      with_heap-Informed snaps d d' _ (ap (λ (x : State). x.process) same) i
  Step-Informed snaps d d' (leaves before guard after at same) i =
      with_heap-Informed snaps d d' _ (ap (λ (x : State). x.process) same) i

  pub Reach-Informed :
      (c : Connector) (h : Heap) (d : State)
      (r : Reach http counters tls (launched http counters tls c h) d)
      → Informed (received r) d.process.manager
  unfolding launch start
  Reach-Informed c h d here = (
    start-Agrees counters http.header_name tls c h,
    start-Knows counters http.header_name tls c h,
    start-KnowsCerts counters http.header_name tls c h,
  )
  Reach-Informed c h d (next {u} r s) = Step-Informed (received r) u d s (Reach-Informed c h u r)

  -- In every state that the process reaches from its launch with its connections, requests,
  -- shutdown and control plane in any order, if the service of a connection forwards anything for a
  -- request, then the last received snapshot accounts for the response, or the one before while the
  -- table of the last is not stored, or the empty one of the start: the rule is a best one among
  -- the snapshot's routes of the host, or among those without a host where none of the host
  -- matches; the cluster is the last usable one of the rule's name in the snapshot, with its
  -- settings; the endpoint is one of that cluster; the authorization of the cluster let the request
  -- pass; each call went to the client that checks certificates, unless the cluster leaves that
  -- out; and the response is that of the exchange with the endpoint.
  pub service-Follows :
      (clients : Clients http) (c : Connector) (begin : Heap) (d : State)
      (run : Reach http counters tls (launched http counters tls c begin) d) (on_tls : Bool)
      (req : Request http) (seen : Address → ℕ) (meanwhile : Heap → Heap)
      → let m = d.process.manager in
        let answer =
          (service http counters clients on_tls seen meanwhile m.heap m.route_table req).1 in
        forwards http answer.0 ≡ true
        → (snap : Snapshot) × IsCurrent counters http.header_name tls snap (received run) m
          × Follows http counters clients (marked http counters tls on_tls req) snap answer
  unfolding service
  service-Follows clients c begin d run on_tls req seen meanwhile sent =
      let m = d.process.manager in
      let (snap, current, table) = (Reach-Informed c begin d run).1.1 in
      (
        snap,
        current,
        TableOf-Follows http counters clients (marked http counters tls on_tls req) tls m snap table
            seen meanwhile m.heap sent,
      )
