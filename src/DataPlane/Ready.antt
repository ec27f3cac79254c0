-- ===== src/DataPlane/Ready.antt =====
-- images/dataplane/src/main.rs: what a probe of the admin port learns of a running process.
use argon.Prelude.{
  list_beq, ◌≡◌, refl, ap, ◌∙◌, inl, inr, Bool, true, false, ◌||◌, arith, if◌then◌else◌, nat_eq,
  list_eq,
}
use argon.Text.{codes}
use argon.Atomics.{Heap}
use argon.Cluster.{Counters}
use argon.Certs.{Tls}
use argon.Http.{Http, Request}
use argon.Admin.{echo}
use argon.Grpc.Connect.{Connector}
use argon.Grpc.Stream.{cancel}
use argon.Grpc.Stream.Opening.{opens, step-Raises}
use argon.Process
use argon.Process.{launch}
use argon.Process.Managing.{Manages, step-Manages}
use argon.Grpc.Start.{start, is_ready}
use argon.DataPlane.{
  Main, DataPlane, launched, Step, proceeds, refuses, selects, enters, leaves, Reach, here, next,
}

module _ (http : Http) (counters : Counters) (tls : Tls) where
  abbrev State : Type 0
  State = DataPlane http counters tls

  abbrev opens_in : Process.Event → Bool
  opens_in (Process.Event.manager e) = opens counters http.header_name tls e
  opens_in e = false

  abbrev opens_by : {d d' : State} → Step http counters tls d d' → Bool
  opens_by (proceeds e p nobody s same) = opens_in e
  opens_by t = false

  -- The run has an event at which the control plane accepts a watch.
  abbrev pub opened : {d d' : State} → Reach http counters tls d d' → Bool
  opened here = false
  opened (next r s) = opens_by s || opened r

  process-Raises :
      (e : Process.Event) (p q : Main http counters tls)
      → Manages counters http.header_name tls e p q
      → q.manager.ready ≡ (opens_in e || p.manager.ready)
  process-Raises (Process.Event.manager e) p q s =
      step-Raises counters http.header_name tls e p.manager q.manager s
  process-Raises Process.Event.proceed p q (inl same) = ground arith
  process-Raises Process.Event.proceed p q (inr s) =
      step-Raises counters http.header_name tls cancel p.manager q.manager s
  process-Raises Process.Event.signal p q same = ground arith
  process-Raises (Process.Event.http e) p q same = ground arith
  process-Raises (Process.Event.https e) p q same = ground arith

  Step-ready :
      (d d' : State) (s : Step http counters tls d d')
      → d'.process.manager.ready ≡ (opens_by s || d.process.manager.ready)
  Step-ready d d' (proceeds e p nobody s same) =
      ap (λ (x : State). x.process.manager.ready) same
      ∙ process-Raises e d.process p (step-Manages counters http.header_name tls e d.process p s)
  Step-ready d d' (refuses seen on_tls req h resp s same) =
      ap (λ (x : State). x.process.manager.ready) same
  Step-ready d d' (selects seen on_tls req h sel s same) =
      ap (λ (x : State). x.process.manager.ready) same
  Step-ready d d' (enters before counter after at same) =
      ap (λ (x : State). x.process.manager.ready) same
  Step-ready d d' (leaves before guard after at same) =
      ap (λ (x : State). x.process.manager.ready) same

  Reach-ready :
      (c : Connector) (h : Heap) (d : State)
      (run : Reach http counters tls (launched http counters tls c h) d)
      → d.process.manager.ready ≡ opened run
  unfolding launch start
  Reach-ready c h d here = refl
  Reach-ready c h d (next {u} r s) =
      Step-ready u d s ∙ ap (λ (b : Bool). opens_by s || b) (Reach-ready c h u r)

  readyz-status :
      (req : Request http) (ready : Bool)
      → req.method ≡ codes "GET"
      → http.uri_path req.uri ≡ codes "/readyz"
      → (echo http req ready).status ≡ (if ready then 200 else 503)
  unfolding echo list_beq
  readyz-status req true get path = rw (get, path) refl
  readyz-status req false get path = rw (get, path) refl

  -- In every state that the process reaches from its launch, a GET of /readyz is answered with 200
  -- if the control plane has accepted a watch since the launch, and with 503 if it has not: what is
  -- lost later changes nothing.
  pub Reach-probe :
      (c : Connector) (h : Heap) (d : State)
      (run : Reach http counters tls (launched http counters tls c h) d) (req : Request http)
      → req.method ≡ codes "GET"
      → http.uri_path req.uri ≡ codes "/readyz"
      → (echo http req (is_ready counters http.header_name tls d.process.manager)).status
        ≡ (if opened run then 200 else 503)
  unfolding is_ready
  Reach-probe c h d run req get path =
      readyz-status req d.process.manager.ready get path
      ∙ ap (λ (b : Bool). if b then 200 else 503) (Reach-ready c h d run)
