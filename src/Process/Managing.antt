-- ===== src/Process/Managing.antt =====
-- The manager within a process of images/dataplane/src/main.rs: which events reach it.
use mathlib.Core.Option
use mathlib.Core.Option.{some-injective}
use argon.Prelude.{
  ◌≡◌, refl, sym, ap, ◌∙◌, ◌⊎◌, inl, inr, true, false, Option, none, some, arith, nat_eq, list_eq,
}
use argon.Text.{Text}
use argon.Rewrites.{HeaderName}
use argon.Cluster.{Counters}
use argon.Certs.{Tls}
use argon.Listener
use argon.Grpc.Stream
use argon.Grpc.Stream.{cancel}
use argon.Process.{
  Stage, waiting, joining_http, joining_https, stopping, joining_manager, exited, Event, signal,
  proceed, http, https, manager, Process, step_running, step_main, step,
}

module _ (counters : Counters) (header_name : Text → Option HeaderName) (tls : Tls) where
  abbrev State : Type 0
  State = Process counters header_name tls

  -- What an event does to the manager: a step of its own, or the shutdown, or nothing.
  abbrev pub Manages : Event → State → State → Type 0
  Manages (manager e) p q = Stream.step counters header_name tls e p.manager ≡ some q.manager
  Manages proceed p q =
      (q.manager ≡ p.manager)
      ⊎ (Stream.step counters header_name tls cancel p.manager ≡ some q.manager)
  Manages e p q = q.manager ≡ p.manager

  manager-Manages :
      (e : Stream.Event) (p q : State)
      → Option.map
          (λ m. record p { manager = m })
          (Stream.step counters header_name tls e p.manager)
        ≡ some q
      → Stream.step counters header_name tls e p.manager ≡ some q.manager
  manager-Manages e p q s = ground arith

  listener-Manages :
      (set : Listener.Listener → State) (o : Option Listener.Listener) (p q : State)
      → ((l : Listener.Listener) → (set l).manager ≡ p.manager)
      → Option.map set o ≡ some q
      → q.manager ≡ p.manager
  listener-Manages set none p q h s = absurd (ground arith)
  listener-Manages set (some l) p q h s =
      sym (ap (λ (r : State). r.manager) (some-injective _ q s)) ∙ h l

  main-Manages :
      (s : Stage) (p q : State)
      → step_main counters header_name tls s p ≡ some q
      → Manages proceed p q
  unfolding step
  main-Manages waiting p q e = inl (ground arith)
  main-Manages joining_http p q e = inl (ground arith)
  main-Manages joining_https p q e = inl (ground arith)
  main-Manages stopping p q e = inr (ground arith)
  main-Manages joining_manager p q e = inl (ground arith)
  main-Manages exited p q e = inl (ground arith)

  running-Manages :
      (e : Event) (p q : State) → step_running counters header_name tls e p ≡ some q → Manages e p q
  unfolding step
  running-Manages signal p q s = ground arith
  running-Manages proceed p q s = main-Manages p.stage p q s
  running-Manages (http e) p q s =
      listener-Manages _ (Listener.step false p.cancelled e p.http_listener) p q (λ l. refl) s
  running-Manages (https e) p q s =
      listener-Manages _ (Listener.step true p.cancelled e p.https_listener) p q (λ l. refl) s
  running-Manages (manager cancel) p q s = absurd (ground arith)
  running-Manages (manager e) p q s = manager-Manages e p q s

  pub step-Manages :
      (e : Event) (p q : State) → step counters header_name tls e p ≡ some q → Manages e p q
  unfolding step
  step-Manages e p q s = by_stage p.stage refl s
    where
      by_stage :
          (t : Stage)
          → p.stage ≡ t
          → Path
              (Option State)
              (elim t [ exited ↦ none | u ↦ step_running counters header_name tls e p ])
              (some q)
          → Manages e p q
      by_stage exited at h = absurd (ground arith)
      by_stage u at h = running-Manages e p q h
