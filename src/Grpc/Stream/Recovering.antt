-- ===== src/Grpc/Stream/Recovering.antt =====
-- What images/dataplane/src/grpc.rs can still do after failures.
use argon.Prelude.{◌≡◌, refl, ◌∙◌, ◌≢◌, Bool, true, false, Option, some, arith, nat_eq, list_eq}
use argon.Text.{Text}
use argon.Atomics.{Heap}
use argon.Config.{WatchRequest, Snapshot}
use argon.Rewrites.{HeaderName}
use argon.Cluster.{Counters}
use argon.Certs.{Tls}
use argon.Http.{ok}
use argon.Grpc.Watcher.{take_neither}
use argon.Grpc.Stream.Reading.{
  Disk, content, read_next, read_all, connect_fut-same, SameContents-read_all, SameContents-left,
}
use argon.Grpc.Connect.{ClientTls, Connector, connect_fut}
use argon.Grpc.Start.{start}
use argon.Grpc.Stream.Publishing.{TableOf, CertsOf}
use argon.Grpc.Stream.{
  Phase, loop_start, connecting, opening, streaming, publish_table, publish_certs, stopped, Event,
  stream_ended, backoff_start, watch_request, checked, connected, watch_opened, message, write,
  cancel, file_read, watcher_stopped, wait, left, store_table, store_certs, Manager, step_loop,
  step, Reach, here, next,
}

module _ (counters : Counters) (header_name : Text → Option HeaderName) (tls : Tls) where
  abbrev State : Type 0
  State = Manager counters header_name tls

  -- Without a cancellation the loop and the watcher run.
  abbrev IsAlive : State → Type 0
  IsAlive m = m.cancelled ≡ false → (m.phase ≢ stopped) × (m.watching ≡ true)

  loop-IsAlive :
      (p : Phase) (e : Event) (m o : State)
      → m.phase ≡ p
      → IsAlive m
      → step_loop counters header_name tls p e m ≡ some o
      → IsAlive o
  unfolding step
  loop-IsAlive loop_start e m o at h s on =
      let old = h (ground arith) in (λ over. absurd (ground (arith, on, over)), ground (arith, old))
  loop-IsAlive (streaming got) e m o at h s on =
      let old = h (ground arith) in (λ over. absurd (ground (arith, on, over)), ground (arith, old))
  loop-IsAlive p e m o at h s on =
      let old = h (ground arith) in (λ over. absurd (ground (arith, on, over)), ground (arith, old))

  step-IsAlive :
      (e : Event) (m o : State) → IsAlive m → step counters header_name tls e m ≡ some o → IsAlive o
  unfolding step
  step-IsAlive cancel m o h s on = absurd (ground arith)
  step-IsAlive (file_read waiting content) m o h s on =
      let old = h (ground arith) in (λ over. old.0 (ground arith), ground (arith, old))
  step-IsAlive watcher_stopped m o h s on = absurd (ground arith)
  step-IsAlive e m o h s on = loop-IsAlive m.phase e m o refl h s on

  Reach-IsAlive :
      (c : Connector) (h : Heap) (m : State)
      → Reach counters header_name tls (start counters header_name tls c h) m
      → IsAlive m
  unfolding start
  Reach-IsAlive c h m here = λ on. (λ over. absurd (ground arith), refl)
  Reach-IsAlive c h m (next {n} e r s) = step-IsAlive e n m (Reach-IsAlive c h n r) s

  Reach-first :
      (e : Event) (m n o : State)
      → step counters header_name tls e m ≡ some n
      → Reach counters header_name tls n o
      → Reach counters header_name tls m o
  Reach-first e m n o s here = next e here s
  Reach-first e m n o s (next {n = k} e' r s') = next e' (Reach-first e m n k s r) s'

  -- Some events publish the snapshot.
  pub record Publishes (snap : Snapshot) (m : State) : Type 0 where
    pub after : State
    pub reached : Reach counters header_name tls m after
    pub stored : after.snapshot ≡ snap
    pub table : TableOf counters header_name tls snap after
    pub certs : CertsOf counters header_name tls snap after
    pub up : after.ready ≡ true

  Publishes-first :
      (e : Event) (snap : Snapshot) (m n : State)
      → step counters header_name tls e m ≡ some n
      → Publishes snap n
      → Publishes snap m
  Publishes-first e snap m n s p = record {
    after = p.after;
    reached = Reach-first e m n p.after s p.reached;
    stored = p.stored;
    table = p.table;
    certs = p.certs;
    up = p.up;
  }

  module _ (snap : Snapshot) where
    Publishes-streaming :
        (got : Bool) (m : State) → m.phase ≡ streaming got → m.ready ≡ true → Publishes snap m
    unfolding step
    Publishes-streaming got m at ready =
        let m₁ = record (left counters header_name tls m) {
          phase = publish_table snap;
          snapshot = snap;
        } in
        let m₂ = store_table counters header_name tls snap m₁ in
        let m₃ = store_certs counters header_name tls snap m₂ in
        Publishes-first (message snap) snap m m₁ (ground arith) (
          Publishes-first write snap m₁ m₂ refl (
            Publishes-first write snap m₂ m₃ refl (record {
              after = m₃;
              reached = here;
              stored = refl;
              table = (m.heap, refl);
              certs = refl;
              up = ready;
            })))

    Publishes-opening : (m : State) (r : WatchRequest) → m.phase ≡ opening r → Publishes snap m
    unfolding step
    Publishes-opening m r at =
        let n = record m { phase = streaming false; ready = true } in
        Publishes-first watch_opened snap m n (ground arith) (Publishes-streaming false n refl refl)

    Publishes-connecting :
        (m : State) (config : ClientTls) → m.phase ≡ connecting config → Publishes snap m
    unfolding step
    Publishes-connecting m config at =
        let n = record m {
          phase = opening (watch_request counters header_name tls m.connector);
          backoff_ms = backoff_start;
        } in
        Publishes-first connected snap m n (ground arith) (Publishes-opening n _ refl)

    -- The files on the disk let `connect_fut` come to the connection.
    abbrev pub CanDial : Disk → State → Type 0
    CanDial disk m =
        (config : ClientTls) × (connect_fut m.connector (read_all disk m.files) ≡ ok config)

    -- The notifications make no difference to what is dialled.
    CanDial-left :
        (disk : Disk) (m : State) → CanDial disk m → CanDial disk (left counters header_name tls m)
    CanDial-left disk m (config, dials) = (
      config,
      connect_fut-same m.connector (read_all disk (take_neither m.files)) (read_all disk m.files)
            (SameContents-read_all disk (take_neither m.files) m.files (SameContents-left m.files))
          ∙ dials,
    )

    abbrev reads : Disk → State → State
    reads disk m = record m { files = read_next disk m.files }

    Publishes-loop_start :
        (disk : Disk) (m : State)
        → m.phase ≡ loop_start
        → m.cancelled ≡ false
        → m.watching ≡ true
        → CanDial disk m
        → Publishes snap m
    unfolding step
    Publishes-loop_start disk m at on watching (config, dials) =
        let m₁ = reads disk m in
        let m₂ = reads disk m₁ in
        let m₃ = reads disk m₂ in
        let m₄ = record m₃ { phase = connecting config } in
        Publishes-first (file_read false (content disk m.files.reading)) snap m m₁ (ground arith) (
          Publishes-first (file_read false (content disk m₁.files.reading)) snap m₁ m₂
            (ground arith)
            (Publishes-first (file_read false (content disk m₂.files.reading)) snap m₂ m₃
              (ground arith)
              (Publishes-first checked snap m₃ m₄ (ground arith)
                (Publishes-connecting m₄ config refl))))

    Publishes-ended :
        (disk : Disk) (got : Bool) (m : State)
        → m.phase ≡ streaming got
        → m.cancelled ≡ false
        → m.watching ≡ true
        → CanDial disk m
        → Publishes snap m
    unfolding step
    Publishes-ended disk got m at on watching dials =
        let n = wait counters header_name tls (left counters header_name tls m) in
        Publishes-first stream_ended snap m n (ground arith)
          (Publishes-loop_start disk n refl on watching (CanDial-left disk m dials))

    Publishes-writing :
        (disk : Disk) (s : Snapshot) (m : State)
        → m.phase ≡ publish_certs s
        → m.cancelled ≡ false
        → m.watching ≡ true
        → CanDial disk m
        → Publishes snap m
    unfolding step
    Publishes-writing disk s m at on watching dials =
        let n = store_certs counters header_name tls s m in
        Publishes-first write snap m n (ground arith)
          (Publishes-ended disk true n refl on watching dials)

    Publishes-of_phase :
        (p : Phase) (disk : Disk) (m : State)
        → m.phase ≡ p
        → p ≢ stopped
        → m.cancelled ≡ false
        → m.watching ≡ true
        → CanDial disk m
        → Publishes snap m
    unfolding step
    Publishes-of_phase loop_start disk m at runs on watching dials =
        Publishes-loop_start disk m at on watching dials
    Publishes-of_phase (connecting config) disk m at runs on watching dials =
        Publishes-connecting m config at
    Publishes-of_phase (opening r) disk m at runs on watching dials = Publishes-opening m r at
    Publishes-of_phase (streaming got) disk m at runs on watching dials =
        Publishes-ended disk got m at on watching dials
    Publishes-of_phase (publish_table s) disk m at runs on watching dials =
        let n = store_table counters header_name tls s m in
        Publishes-first write snap m n (ground arith)
          (Publishes-writing disk s n refl on watching dials)
    Publishes-of_phase (publish_certs s) disk m at runs on watching dials =
        Publishes-writing disk s m at on watching dials
    Publishes-of_phase stopped disk m at runs on watching dials = absurd (runs refl)

    -- From every state that the manager reaches from its start without a cancellation, whatever has
    -- failed, and for files on the disk that let it come to a connection, some events lead to a
    -- state with any given snapshot stored, its table and its certificates published, and the
    -- manager ready.
    pub Reach-Publishes :
        (c : Connector) (h : Heap) (m : State) (disk : Disk)
        → Reach counters header_name tls (start counters header_name tls c h) m
        → m.cancelled ≡ false
        → CanDial disk m
        → Publishes snap m
    Reach-Publishes c h m disk r on dials =
        let (runs, watching) = Reach-IsAlive c h m r on in
        Publishes-of_phase m.phase disk m refl runs on watching dials
