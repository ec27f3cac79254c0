-- ===== src/Process/Order.antt =====
-- The order in which `main` of images/dataplane/src/main.rs shuts down.
use mathlib.Core.Option.{some-injective}
use argon.Prelude.{◌≡◌, refl, subst, ◌≢◌, inl, inr, true, Option, some, arith, Bool-cases, list_eq}
use argon.Text.{Text}
use argon.Atomics.{Heap}
use argon.Rewrites.{HeaderName}
use argon.Cluster.{Counters}
use argon.Certs.{Tls}
use argon.Grpc.Connect.{Connector}
use argon.Listener.Tidy.{IsTidy, IsOver-IsTidy}
use argon.Listener.{is_over}
use argon.Grpc.Stream
use argon.Grpc.Stream.{Manager, cancel, stopped}
use argon.Grpc.Start.{start}
use argon.Process.{
  Stage, waiting, joining_http, joining_https, stopping, joining_manager, exited, Event, signal,
  proceed, http, https, manager, Process, launch, step_main, step_running, manager_is_over, step,
  Reach, here, next,
}
use argon.Process.Parts.{IsOrdered, Good, Later-IsOrdered, http-Good, https-Good, manager-Good}

module _ (counters : Counters) (header_name : Text → Option HeaderName) (tls : Tls) where
  main-Good :
      (s : Stage) (p q : Process counters header_name tls)
      → IsTidy p.http_listener
      → IsTidy p.https_listener
      → IsOrdered counters header_name tls s p
      → step_main counters header_name tls s p ≡ some q
      → Good counters header_name tls q
  unfolding step Stream.step
  main-Good waiting p q t t' h e = elim (Bool-cases p.cancelled) [
    | inl now ↦
        subst (Good counters header_name tls)
          (some-injective (record p { stage = joining_http }) q (ground arith)) (t, t', h)
    | inr later ↦ absurd (ground arith)
  ]
  main-Good joining_http p q t t' h e = elim (Bool-cases (is_over p.http_listener)) [
    | inl over ↦
        subst (Good counters header_name tls)
          (some-injective (record p { stage = joining_https }) q (ground arith))
          (t, t', (h, IsOver-IsTidy p.http_listener t over))
    | inr later ↦ absurd (ground arith)
  ]
  main-Good joining_https p q t t' (h, a) e = elim (Bool-cases (is_over p.https_listener)) [
    | inl over ↦
        subst (Good counters header_name tls)
          (some-injective (record p { stage = stopping }) q (ground arith))
          (t, t', (h, a, IsOver-IsTidy p.https_listener t' over))
    | inr later ↦ absurd (ground arith)
  ]
  main-Good stopping p q t t' (h, a, b) e =
      subst (Good counters header_name tls)
        (some-injective
          (record p { stage = joining_manager; manager = record p.manager { cancelled = true } }) q
          e)
        (t, t', (refl, a, b))
  main-Good joining_manager p q t t' (h, a, b) e =
      elim (Bool-cases (manager_is_over counters header_name tls p.manager)) [
        | inl over ↦
            subst (Good counters header_name tls)
              (some-injective (record p { stage = exited }) q (ground arith))
              (t, t', (h, a, b, over))
        | inr later ↦ absurd (ground arith)
      ]
  main-Good exited p q t t' h e = absurd (ground arith)

  running-Good :
      (e : Event) (p q : Process counters header_name tls)
      → p.stage ≢ exited
      → Good counters header_name tls p
      → step_running counters header_name tls e p ≡ some q
      → Good counters header_name tls q
  unfolding step
  running-Good signal p q running (t, t', h) s =
      subst (Good counters header_name tls) (some-injective (record p { cancelled = true }) q s) (
        t,
        t',
        Later-IsOrdered counters header_name tls p.stage p (record p { cancelled = true }) running
            (λ over. over, λ over. over, refl) h,
      )
  running-Good proceed p q running (t, t', h) s = main-Good p.stage p q t t' h s
  running-Good (http e) p q running h s = http-Good counters header_name tls e p q running h s
  running-Good (https e) p q running h s = https-Good counters header_name tls e p q running h s
  running-Good (manager e) p q running h s = manager-Good counters header_name tls e p q running h s

  pub step-Good :
      (e : Event) (p q : Process counters header_name tls)
      → Good counters header_name tls p
      → step counters header_name tls e p ≡ some q
      → Good counters header_name tls q
  unfolding step
  step-Good e p q h s = by_stage p.stage refl
    where
      by_stage : (stage : Stage) → p.stage ≡ stage → Good counters header_name tls q
      by_stage exited at = absurd (ground arith)
      by_stage stage at = running-Good e p q (λ over. ground arith) h (ground arith)

  pub launch-Good :
      (c : Connector) (h : Heap)
      → Good counters header_name tls (launch counters header_name tls c h)
  unfolding launch start
  launch-Good c h = (inr refl, inr refl, refl)

  Reach-Good :
      (c : Connector) (h : Heap) (p : Process counters header_name tls)
      → Reach counters header_name tls (launch counters header_name tls c h) p
      → Good counters header_name tls p
  unfolding launch start
  Reach-Good c h p here = launch-Good c h
  Reach-Good c h p (next {q} e r s) = step-Good e q p (Reach-Good c h q r) s

  -- In every state that the process reaches from its launch, what `main` has waited for is over:
  -- the HTTP listener has returned without a connection before `main` joins the HTTPS listener, and
  -- that one too before `main` stops the manager; the manager is cancelled only then; and both its
  -- tasks are over when `main` has ended.
  pub Reach-IsOrdered :
      (c : Connector) (h : Heap) (p : Process counters header_name tls)
      → Reach counters header_name tls (launch counters header_name tls c h) p
      → IsOrdered counters header_name tls p.stage p
  Reach-IsOrdered c h p r = (Reach-Good c h p r).2
