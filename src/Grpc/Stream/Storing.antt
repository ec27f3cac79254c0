-- ===== src/Grpc/Stream/Storing.antt =====
-- Which step of images/dataplane/src/grpc.rs stores a table, under the write lock.
use argon.Prelude.{
  ◌≡◌, refl, ◌⊎◌, inl, inr, Bool, true, false, Option, some, arith, nat_eq, list_eq,
}
use argon.Text.{Text}
use argon.Config.{Snapshot}
use argon.Rewrites.{HeaderName}
use argon.Cluster.{Counters}
use argon.Table.{new_table}
use argon.Certs.{Tls}
use argon.Grpc.Stream.{
  Phase, loop_start, connecting, opening, streaming, publish_table, publish_certs, stopped, Event,
  checked, connected, write, cancel, file_read, watcher_stopped, Manager, step_loop, step,
}

module _ (counters : Counters) (header_name : Text → Option HeaderName) (tls : Tls) where
  -- The event, in the phase, stores a table.
  abbrev pub stores : Event → Phase → Bool
  stores write (publish_table snap) = true
  stores e p = false

  -- The step leaves the table and the heap, or it is the one that stores a snapshot's table.
  abbrev pub Stores :
      Phase → Event → Manager counters header_name tls → Manager counters header_name tls → Type 0
  Stores p e m o =
      ((o.heap ≡ m.heap) × (o.route_table ≡ m.route_table))
      ⊎ ((snap : Snapshot) × (stores e p ≡ true)
          × (o.heap ≡ (new_table counters header_name m.heap snap).0)
          × (o.route_table ≡ (new_table counters header_name m.heap snap).1))

  loop-Stores :
      (p : Phase) (e : Event) (m o : Manager counters header_name tls)
      → step_loop counters header_name tls p e m ≡ some o
      → Stores p e m o
  unfolding step
  loop-Stores loop_start checked m o s = inl (ground arith)
  loop-Stores loop_start e m o s = inl (ground arith)
  loop-Stores (connecting config) connected m o s = inl (ground arith)
  loop-Stores (connecting config) e m o s = inl (ground arith)
  loop-Stores (opening request) connected m o s = inl (ground arith)
  loop-Stores (opening request) e m o s = inl (ground arith)
  loop-Stores (streaming got) connected m o s = inl (ground arith)
  loop-Stores (streaming got) e m o s = inl (ground arith)
  loop-Stores (publish_table snap) write m o s = inr (snap, refl, ground arith, ground arith)
  loop-Stores (publish_table snap) e m o s = inl (ground arith)
  loop-Stores (publish_certs snap) write m o s = inl (ground arith)
  loop-Stores (publish_certs snap) e m o s = inl (ground arith)
  loop-Stores stopped e m o s = inl (ground arith)

  pub step-Stores :
      (e : Event) (m o : Manager counters header_name tls)
      → step counters header_name tls e m ≡ some o
      → Stores m.phase e m o
  unfolding step
  step-Stores cancel m o s = inl (ground arith)
  step-Stores (file_read waiting content) m o s = inl (ground arith)
  step-Stores watcher_stopped m o s = inl (ground arith)
  step-Stores e m o s = loop-Stores m.phase e m o s
