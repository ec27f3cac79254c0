-- ===== src/Process/Parts.antt =====
-- What the steps of the listeners and the manager leave of a process of images/dataplane/src/main.rs.
use mathlib.Core.Option
use mathlib.Core.Option.{some-injective}
use argon.Prelude.{
  ◌≡◌, refl, ◌∙◌, subst, ◌≢◌, inl, inr, true, false, Option, some, arith, Option-cases, list_eq,
}
use argon.Text.{Text}
use argon.Rewrites.{HeaderName}
use argon.Cluster.{Counters}
use argon.Certs.{Tls}
use argon.Listener
use argon.Listener.Tidy.{IsTidy, step-IsTidy, IsOver, step-IsOver}
use argon.Listener.{Listener, is_over}
use argon.Grpc.Stream
use argon.Grpc.Stream.{Manager, cancel, stopped}
use argon.Grpc.Stream.Cancelling.{step-cancelled}
use argon.Process.{
  Stage, waiting, joining_http, joining_https, stopping, joining_manager, exited, http, https,
  manager, Process, step_running, manager_is_over, step,
}

module _ (counters : Counters) (header_name : Text → Option HeaderName) (tls : Tls) where
  -- What is over at each stage of `main`.
  abbrev pub IsOrdered : Stage → Process counters header_name tls → Type 0
  IsOrdered waiting p = p.manager.cancelled ≡ false
  IsOrdered joining_http p = p.manager.cancelled ≡ false
  IsOrdered joining_https p = (p.manager.cancelled ≡ false) × IsOver p.http_listener
  IsOrdered stopping p =
      (p.manager.cancelled ≡ false) × IsOver p.http_listener × IsOver p.https_listener
  IsOrdered joining_manager p =
      (p.manager.cancelled ≡ true) × IsOver p.http_listener × IsOver p.https_listener
  IsOrdered exited p =
      (p.manager.cancelled ≡ true)
      × IsOver p.http_listener
      × IsOver p.https_listener
      × (manager_is_over counters header_name tls p.manager ≡ true)

  abbrev pub Good : Process counters header_name tls → Type 0
  Good p = IsTidy p.http_listener × IsTidy p.https_listener × IsOrdered p.stage p

  -- A change that keeps what is over.
  abbrev pub Later : Process counters header_name tls → Process counters header_name tls → Type 0
  Later p q =
      (IsOver p.http_listener → IsOver q.http_listener)
      × (IsOver p.https_listener → IsOver q.https_listener)
      × (q.manager.cancelled ≡ p.manager.cancelled)

  pub Later-IsOrdered :
      (s : Stage) (p q : Process counters header_name tls)
      → s ≢ exited
      → Later p q
      → IsOrdered s p
      → IsOrdered s q
  Later-IsOrdered waiting p q running (f, g, c) h = c ∙ h
  Later-IsOrdered joining_http p q running (f, g, c) h = c ∙ h
  Later-IsOrdered joining_https p q running (f, g, c) (h, a) = (c ∙ h, f a)
  Later-IsOrdered stopping p q running (f, g, c) (h, a, b) = (c ∙ h, f a, g b)
  Later-IsOrdered joining_manager p q running (f, g, c) (h, a, b) = (c ∙ h, f a, g b)
  Later-IsOrdered exited p q running l h = absurd (running refl)

  pub http-Good :
      (e : Listener.Event) (p q : Process counters header_name tls)
      → p.stage ≢ exited
      → Good p
      → step_running counters header_name tls (http e) p ≡ some q
      → Good q
  unfolding step
  http-Good e p q running (t, t', h) s =
      elim (Option-cases (Listener.step false p.cancelled e p.http_listener)) [
        | inl stuck ↦ absurd (ground arith)
        | inr (l, moved) ↦
            subst Good (some-injective (record p { http_listener = l }) q (ground arith)) (
              step-IsTidy false p.cancelled e p.http_listener l t moved,
              t',
              Later-IsOrdered p.stage p (record p { http_listener = l }) running
                  (
                    λ over. step-IsOver false p.cancelled e p.http_listener l over moved,
                    λ over. over,
                    refl,
                  )
                  h,
            )
      ]

  pub https-Good :
      (e : Listener.Event) (p q : Process counters header_name tls)
      → p.stage ≢ exited
      → Good p
      → step_running counters header_name tls (https e) p ≡ some q
      → Good q
  unfolding step
  https-Good e p q running (t, t', h) s =
      elim (Option-cases (Listener.step true p.cancelled e p.https_listener)) [
        | inl stuck ↦ absurd (ground arith)
        | inr (l, moved) ↦
            subst Good (some-injective (record p { https_listener = l }) q (ground arith)) (
              t,
              step-IsTidy true p.cancelled e p.https_listener l t' moved,
              Later-IsOrdered p.stage p (record p { https_listener = l }) running
                  (
                    λ over. over,
                    λ over. step-IsOver true p.cancelled e p.https_listener l over moved,
                    refl,
                  )
                  h,
            )
      ]

  moved-Good :
      (e : Stream.Event) (p q : Process counters header_name tls)
      → p.stage ≢ exited
      → Good p
      → e ≢ cancel
      → Option.map
          (λ m. record p { manager = m })
          (Stream.step counters header_name tls e p.manager)
        ≡ some q
      → Good q
  moved-Good e p q running (t, t', h) apart s =
      elim (Option-cases (Stream.step counters header_name tls e p.manager)) [
        | inl stuck ↦ absurd (ground arith)
        | inr (m, moved) ↦ subst Good (some-injective (record p { manager = m }) q (ground arith)) (
          t,
          t',
          Later-IsOrdered p.stage p (record p { manager = m }) running
              (
                λ over. over,
                λ over. over,
                step-cancelled counters header_name tls e p.manager m apart moved,
              )
              h,
        )
      ]

  pub manager-Good :
      (e : Stream.Event) (p q : Process counters header_name tls)
      → p.stage ≢ exited
      → Good p
      → step_running counters header_name tls (manager e) p ≡ some q
      → Good q
  unfolding step
  manager-Good cancel p q running h s = absurd (ground arith)
  manager-Good e p q running h s = moved-Good e p q running h (λ c. ground arith) s
