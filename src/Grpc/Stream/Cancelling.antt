-- ===== src/Grpc/Stream/Cancelling.antt =====
-- The token of the manager of images/dataplane/src/grpc.rs.
use argon.Prelude.{◌≡◌, refl, ◌≢◌, Option, some, arith, list_eq}
use argon.Text.{Text}
use argon.Rewrites.{HeaderName}
use argon.Cluster.{Counters}
use argon.Certs.{Tls}
use argon.Grpc.Stream.{
  Phase, loop_start, connecting, opening, streaming, publish_table, publish_certs, stopped, Event,
  cancel, file_read, watcher_stopped, Manager, step_loop, step,
}

module _ (counters : Counters) (header_name : Text → Option HeaderName) (tls : Tls) where
  loop-cancelled :
      (p : Phase) (e : Event) (m o : Manager counters header_name tls)
      → step_loop counters header_name tls p e m ≡ some o
      → o.cancelled ≡ m.cancelled
  unfolding step
  loop-cancelled loop_start e m o s = ground arith
  loop-cancelled (connecting config) e m o s = ground arith
  loop-cancelled (opening request) e m o s = ground arith
  loop-cancelled (streaming got) e m o s = ground arith
  loop-cancelled (publish_table snap) e m o s = ground arith
  loop-cancelled (publish_certs snap) e m o s = ground arith
  loop-cancelled stopped e m o s = ground arith

  -- Only `shutdown` cancels it.
  pub step-cancelled :
      (e : Event) (m o : Manager counters header_name tls)
      → e ≢ cancel
      → step counters header_name tls e m ≡ some o
      → o.cancelled ≡ m.cancelled
  unfolding step
  step-cancelled cancel m o other s = absurd (other refl)
  step-cancelled (file_read waiting content) m o other s = ground arith
  step-cancelled watcher_stopped m o other s = ground arith
  step-cancelled e m o other s = loop-cancelled m.phase e m o s
