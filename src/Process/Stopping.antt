-- ===== src/Process/Stopping.antt =====
-- How `main` of images/dataplane/src/main.rs ends once it has stopped the manager.
use argon.Prelude.{
  ◌≡◌, refl, inl, inr, Bool, true, false, Option, none, some, arith, Bool-cases, list_eq,
}
use argon.Text.{Text}
use argon.Config.{Snapshot}
use argon.Rewrites.{HeaderName}
use argon.Cluster.{Counters}
use argon.Certs.{Tls}
use argon.Grpc.Stream
use argon.Grpc.Stream.{
  Manager, loop_start, connecting, opening, streaming, publish_table, publish_certs, stopped,
  checked, connect_failed, watch_failed, cancel_noticed, write, watcher_stopped, file_read,
}
use argon.Grpc.Watcher.{WatchedFile, ca_file, client_file, key_file, read_file}
use argon.Process.{
  joining_manager, exited, Event, proceed, manager, Process, step, Reach, here, next,
}

module _ (counters : Counters) (header_name : Text → Option HeaderName) (tls : Tls) where
  abbrev State : Type 0
  State = Process counters header_name tls

  Reach-trans :
      (p q r : State)
      → Reach counters header_name tls p q
      → Reach counters header_name tls q r
      → Reach counters header_name tls p r
  Reach-trans p q r a here = a
  Reach-trans p q r a (next {q = m} e b s) = next e (Reach-trans p q m a b) s

  -- Some steps end the process.
  abbrev pub Exits : State → Type 0
  Exits p = (q : State) × Reach counters header_name tls p q × (q.stage ≡ exited)

  Exits-after : (p q : State) → Reach counters header_name tls p q → Exits q → Exits p
  Exits-after p q a (r, b, done) = (r, Reach-trans p q r a b, done)

  pub Exits-next :
      (e : Event) (p q : State) → step counters header_name tls e p ≡ some q → Exits q → Exits p
  Exits-next e p q s = Exits-after p q (next e here s)

  -- The manager at its last stage.
  abbrev pub Ready : State → Type 0
  Ready p = (p.stage ≡ joining_manager) × (p.manager.cancelled ≡ true)

  -- The watcher sleeps, or it has a file to read before it does.
  Exits-resting :
      (p : State)
      → Ready p
      → p.manager.phase ≡ stopped
      → p.manager.watching ≡ true
      → p.manager.files.reading ≡ ca_file
      → Exits p
  unfolding step Stream.step
  Exits-resting p (at, told) over watches rests =
      let q = record p { manager = record p.manager { watching = false } } in
      Exits-next (manager watcher_stopped) p q (ground arith)
        (Exits-next proceed q (record q { stage = exited }) (ground arith) (_, here, refl))

  abbrev read_none : State → State
  read_none p = record p {
    manager = record p.manager { files = read_file false none p.manager.files };
  }

  Exits-reading : (p : State) → Ready p → p.manager.watching ≡ true → Exits (read_none p) → Exits p
  unfolding step Stream.step
  Exits-reading p (at, told) watches =
      Exits-next (manager (file_read false none)) p (read_none p) (ground arith)

  Exits-key_file :
      (p : State)
      → Ready p
      → p.manager.phase ≡ stopped
      → p.manager.watching ≡ true
      → p.manager.files.reading ≡ key_file
      → Exits p
  unfolding read_file
  Exits-key_file p ready over watches reads =
      Exits-reading p ready watches (Exits-resting (read_none p) ready over watches (ground arith))

  Exits-watching :
      (f : WatchedFile) (p : State)
      → Ready p
      → p.manager.phase ≡ stopped
      → p.manager.watching ≡ true
      → p.manager.files.reading ≡ f
      → Exits p
  unfolding read_file
  Exits-watching ca_file p ready over watches reads = Exits-resting p ready over watches reads
  Exits-watching key_file p ready over watches reads = Exits-key_file p ready over watches reads
  Exits-watching client_file p ready over watches reads =
      Exits-reading p ready watches (Exits-key_file (read_none p) ready over watches (ground arith))

  Exits-stopped : (p : State) → Ready p → p.manager.phase ≡ stopped → Exits p
  unfolding step Stream.step
  Exits-stopped p (at, told) over = elim (Bool-cases p.manager.watching) [
    | inl watches ↦ Exits-watching p.manager.files.reading p (at, told) over watches refl
    | inr gone ↦ Exits-next proceed p (record p { stage = exited }) (ground arith) (_, here, refl)
  ]

  Exits-loop_start : (p : State) → Ready p → p.manager.phase ≡ loop_start → Exits p
  unfolding step Stream.step
  Exits-loop_start p (at, told) phase =
      Exits-next (manager checked) p (record p { manager = record p.manager { phase = stopped } })
        (ground arith)
        (Exits-stopped (record p { manager = record p.manager { phase = stopped } }) (at, told)
          refl)

  Exits-streaming : (got : Bool) (p : State) → Ready p → p.manager.phase ≡ streaming got → Exits p
  unfolding step Stream.step
  Exits-streaming got p (at, told) phase =
      let gone = record (Stream.left counters header_name tls p.manager) { phase = stopped } in
      Exits-next (manager cancel_noticed) p (record p { manager = gone }) (ground arith)
        (Exits-stopped (record p { manager = gone }) (at, told) refl)

  Exits-publish_certs :
      (snap : Snapshot) (p : State) → Ready p → p.manager.phase ≡ publish_certs snap → Exits p
  unfolding step Stream.step
  Exits-publish_certs snap p (at, told) phase =
      let written = Stream.store_certs counters header_name tls snap p.manager in
      Exits-next (manager write) p (record p { manager = written }) (ground arith)
        (Exits-streaming true (record p { manager = written }) (at, told) refl)

  Exits-publish_table :
      (snap : Snapshot) (p : State) → Ready p → p.manager.phase ≡ publish_table snap → Exits p
  unfolding step Stream.step
  Exits-publish_table snap p (at, told) phase =
      let written = Stream.store_table counters header_name tls snap p.manager in
      Exits-next (manager write) p (record p { manager = written }) (ground arith)
        (Exits-publish_certs snap (record p { manager = written }) (at, told) refl)

  pub Exits-of_Ready : (p : State) → Ready p → Exits p
  unfolding step Stream.step
  Exits-of_Ready p ready = by_phase p.manager.phase refl
    where
      waited : State
      waited = record p { manager = Stream.wait counters header_name tls p.manager }

      by_phase : (q : Stream.Phase) → p.manager.phase ≡ q → Exits p
      by_phase loop_start at = Exits-loop_start p ready at
      by_phase (connecting config) at =
          Exits-next (manager connect_failed) p waited (ground arith)
            (Exits-loop_start waited ready (ground arith))
      by_phase (opening request) at =
          Exits-next (manager watch_failed) p waited (ground arith)
            (Exits-loop_start waited ready (ground arith))
      by_phase (streaming got) at = Exits-streaming got p ready at
      by_phase (publish_table snap) at = Exits-publish_table snap p ready at
      by_phase (publish_certs snap) at = Exits-publish_certs snap p ready at
      by_phase stopped at = Exits-stopped p ready at
