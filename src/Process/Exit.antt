-- ===== src/Process/Exit.antt =====
-- How `main` of images/dataplane/src/main.rs comes to its end once the token is cancelled.
use mathlib.Core.Option.{some-injective}
use argon.Prelude.{
  ◌≡◌, refl, sym, ◌∙◌, subst, ◌≢◌, inl, inr, true, false, Option, some, List, [], ◌∷◌, arith,
  Option-cases, list_eq,
}
use argon.Text.{Text}
use argon.Atomics.{Heap}
use argon.Rewrites.{HeaderName}
use argon.Cluster.{Counters}
use argon.Certs.{Tls}
use argon.Grpc.Connect.{Connector}
use argon.Listener
use argon.Listener.{Listener, is_over}
use argon.Listener.Ending.{listener-Returns}
use argon.Grpc.Stream
use argon.Grpc.Stream.{
  Manager, loop_start, connecting, opening, streaming, publish_table, publish_certs, stopped,
  checked, connect_failed, watch_failed, cancel_noticed, write, watcher_stopped,
}
use argon.Process.{
  Stage, waiting, joining_http, joining_https, stopping, joining_manager, exited, Event, proceed,
  http, https, Process, launch, step_running, step, Reach, here,
}
use argon.Process.Stopping.{Exits, Exits-next, Exits-of_Ready}
use argon.Process.Parts.{IsOrdered}
use argon.Process.Order.{Reach-IsOrdered}

module _ (counters : Counters) (header_name : Text → Option HeaderName) (tls : Tls) where
  abbrev State : Type 0
  State = Process counters header_name tls

  step-running :
      (e : Event) (p : State)
      → p.stage ≢ exited
      → step counters header_name tls e p ≡ step_running counters header_name tls e p
  unfolding step
  step-running e p running = by_stage p.stage refl
    where
      by_stage :
          (s : Stage)
          → p.stage ≡ s
          → step counters header_name tls e p ≡ step_running counters header_name tls e p
      by_stage exited at = absurd (running at)
      by_stage s at = ground arith

  -- A run of a listener is a run of the process.
  lift-http :
      (es : List Listener.Event) (p : State) (l : Listener)
      → p.cancelled ≡ true
      → p.stage ≢ exited
      → Listener.run false true es p.http_listener ≡ some l
      → Exits counters header_name tls (record p { http_listener = l })
      → Exits counters header_name tls p
  unfolding step Listener.run
  lift-http [] p l told running r rest =
      subst (λ x. Exits counters header_name tls (record p { http_listener = x }))
        (sym (some-injective p.http_listener l r)) rest
  lift-http (e ∷ es) p l told running r rest =
      elim (Option-cases (Listener.step false true e p.http_listener)) [
        | inl stuck ↦ absurd (ground arith)
        | inr (n, moved) ↦
            Exits-next counters header_name tls (http e) p (record p { http_listener = n })
              (step-running (http e) p running ∙ ground arith)
              (lift-http es (record p { http_listener = n }) l told running (ground arith) rest)
      ]

  lift-https :
      (es : List Listener.Event) (p : State) (l : Listener)
      → p.cancelled ≡ true
      → p.stage ≢ exited
      → Listener.run true true es p.https_listener ≡ some l
      → Exits counters header_name tls (record p { https_listener = l })
      → Exits counters header_name tls p
  unfolding step Listener.run
  lift-https [] p l told running r rest =
      subst (λ x. Exits counters header_name tls (record p { https_listener = x }))
        (sym (some-injective p.https_listener l r)) rest
  lift-https (e ∷ es) p l told running r rest =
      elim (Option-cases (Listener.step true true e p.https_listener)) [
        | inl stuck ↦ absurd (ground arith)
        | inr (n, moved) ↦
            Exits-next counters header_name tls (https e) p (record p { https_listener = n })
              (step-running (https e) p running ∙ ground arith)
              (lift-https es (record p { https_listener = n }) l told running (ground arith) rest)
      ]

  abbrev at_stage : State → Stage → State
  at_stage p s = record p { stage = s }

  -- The stages of `main`, from the last one back, once the listeners have returned.
  module _ (p : State) (told : p.cancelled ≡ true) (http_over : is_over p.http_listener ≡ true)
      (https_over : is_over p.https_listener ≡ true) where
    Exits-stopping : Exits counters header_name tls (at_stage p stopping)
    unfolding step Stream.step
    Exits-stopping =
        let stopped_now : State = record p {
          stage = joining_manager;
          manager = record p.manager { cancelled = true };
        } in
        Exits-next counters header_name tls proceed (at_stage p stopping) stopped_now refl
          (Exits-of_Ready counters header_name tls stopped_now (refl, refl))

    Exits-joining_https : Exits counters header_name tls (at_stage p joining_https)
    unfolding step
    Exits-joining_https =
        Exits-next counters header_name tls proceed (at_stage p joining_https) (at_stage p stopping)
          (rw https_over refl) Exits-stopping

    Exits-joining_http : Exits counters header_name tls (at_stage p joining_http)
    unfolding step
    Exits-joining_http =
        Exits-next counters header_name tls proceed (at_stage p joining_http)
          (at_stage p joining_https) (rw http_over refl) Exits-joining_https

    Exits-waiting : Exits counters header_name tls (at_stage p waiting)
    unfolding step
    Exits-waiting =
        Exits-next counters header_name tls proceed (at_stage p waiting) (at_stage p joining_http)
          (rw told refl) Exits-joining_http

    Exits-quiet :
        (s : Stage)
        → ((s ≡ joining_manager) → p.manager.cancelled ≡ true)
        → Exits counters header_name tls (at_stage p s)
    Exits-quiet waiting cut = Exits-waiting
    Exits-quiet joining_http cut = Exits-joining_http
    Exits-quiet joining_https cut = Exits-joining_https
    Exits-quiet stopping cut = Exits-stopping
    Exits-quiet joining_manager cut =
        Exits-of_Ready counters header_name tls (at_stage p joining_manager) (refl, cut refl)
    Exits-quiet exited cut = (at_stage p exited, here, refl)

  pub IsOrdered-Exits :
      (p : State)
      → IsOrdered counters header_name tls p.stage p
      → p.cancelled ≡ true
      → Exits counters header_name tls p
  IsOrdered-Exits p ordered told = by_stage p.stage refl ordered
    where
      quiet :
          (s : Stage)
          → p.stage ≡ s
          → s ≢ exited
          → (s ≡ joining_manager → p.manager.cancelled ≡ true)
          → Exits counters header_name tls p
      quiet s at running cut =
          let (es, l, ran, over) = listener-Returns false p.http_listener in
          let (es', l', ran', over') = listener-Returns true p.https_listener in
          lift-http es p l told (λ e. running (sym at ∙ e)) ran
            (lift-https es' (record p { http_listener = l }) l' told (λ e. running (sym at ∙ e))
              ran'
              (subst
                (λ x.
                  Exits counters header_name tls
                    (record p { stage = x; http_listener = l; https_listener = l' }))
                (sym at)
                (Exits-quiet (record p { http_listener = l; https_listener = l' }) told over over' s
                  cut)))

      by_stage :
          (s : Stage)
          → p.stage ≡ s
          → IsOrdered counters header_name tls s p
          → Exits counters header_name tls p
      by_stage exited at h = (p, here, at)
      by_stage joining_manager at h = quiet joining_manager at (λ e. ground arith) (λ e. h.0)
      by_stage s at h = quiet s at (λ e. ground arith) (λ e. absurd (ground arith))

  -- From every state that the process reaches from its launch with a cancelled token, some events
  -- lead to the end of `main`: nothing that has happened makes the shutdown impossible.
  pub Reach-Exits :
      (c : Connector) (h : Heap) (p : State)
      → Reach counters header_name tls (launch counters header_name tls c h) p
      → p.cancelled ≡ true
      → Exits counters header_name tls p
  Reach-Exits c h p r told =
      IsOrdered-Exits p (Reach-IsOrdered counters header_name tls c h p r) told
