-- ===== src/Grpc/Stream/Opening.antt =====
-- What makes the manager of images/dataplane/src/grpc.rs ready.
use argon.Prelude.{◌≡◌, Bool, true, false, ◌||◌, Option, some, arith, nat_eq, list_eq}
use argon.Text.{Text}
use argon.Rewrites.{HeaderName}
use argon.Cluster.{Counters}
use argon.Certs.{Tls}
use argon.Grpc.Stream.{
  Phase, loop_start, connecting, opening, streaming, publish_table, publish_certs, stopped, Event,
  watch_opened, write, cancel, file_read, watcher_stopped, Manager, step_loop, step,
}

module _ (counters : Counters) (header_name : Text → Option HeaderName) (tls : Tls) where
  abbrev pub opens : Event → Bool
  opens watch_opened = true
  opens e = false

  -- The flag is set when a watch is opened, and never cleared.
  abbrev Raises :
      Event → Manager counters header_name tls → Manager counters header_name tls → Type 0
  Raises e m o = o.ready ≡ (opens e || m.ready)

  loop-Raises :
      (p : Phase) (e : Event) (m o : Manager counters header_name tls)
      → step_loop counters header_name tls p e m ≡ some o
      → Raises e m o
  unfolding step
  loop-Raises loop_start watch_opened m o s = absurd (ground arith)
  loop-Raises loop_start e m o s = ground arith
  loop-Raises (connecting config) watch_opened m o s = absurd (ground arith)
  loop-Raises (connecting config) e m o s = ground arith
  loop-Raises (opening request) watch_opened m o s = ground arith
  loop-Raises (opening request) e m o s = ground arith
  loop-Raises (streaming got) watch_opened m o s = absurd (ground arith)
  loop-Raises (streaming got) e m o s = ground arith
  loop-Raises (publish_table snap) watch_opened m o s = absurd (ground arith)
  loop-Raises (publish_table snap) write m o s = ground arith
  loop-Raises (publish_table snap) e m o s = absurd (ground arith)
  loop-Raises (publish_certs snap) watch_opened m o s = absurd (ground arith)
  loop-Raises (publish_certs snap) write m o s = ground arith
  loop-Raises (publish_certs snap) e m o s = absurd (ground arith)
  loop-Raises stopped e m o s = absurd (ground arith)

  pub step-Raises :
      (e : Event) (m o : Manager counters header_name tls)
      → step counters header_name tls e m ≡ some o
      → o.ready ≡ (opens e || m.ready)
  unfolding step
  step-Raises cancel m o s = ground arith
  step-Raises (file_read waiting content) m o s = ground arith
  step-Raises watcher_stopped m o s = ground arith
  step-Raises e m o s = loop-Raises m.phase e m o s
