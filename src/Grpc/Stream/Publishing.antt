-- ===== src/Grpc/Stream/Publishing.antt =====
-- What the shared state of images/dataplane/src/grpc.rs holds while snapshots arrive.
use mathlib.Core.Option.{some-injective}
use argon.Prelude.{
  ◌≡◌, refl, sym, ap, ◌∙◌, subst, inl, inr, Bool, true, false, not, ◌&&◌, ◌||◌, Option, some, arith,
  Bool-cases, list_eq,
}
use argon.Text.{Text}
use argon.Atomics.{Heap}
use argon.Config.{Snapshot}
use argon.Rewrites.{HeaderName}
use argon.Cluster.{Counters}
use argon.Table.{new_table}
use argon.Grpc.Watcher.{Files, is_resting, read_file}
use argon.Certs.{Tls, certificates_from_snap}
use argon.Grpc.Stream.{
  Phase, loop_start, connecting, opening, streaming, publish_table, publish_certs, stopped, Event,
  checked, connected, watch_opened, message, write, cancel, file_read, watcher_stopped, Manager,
  is_streaming, step_loop, step, store_table, store_certs, Reach, here, next,
}

module _ (counters : Counters) (header_name : Text → Option HeaderName) (tls : Tls) where
  -- The table is the one that `RouteTable::new` makes of the snapshot, on the heap of that moment.
  abbrev pub TableOf : Snapshot → Manager counters header_name tls → Type 0
  TableOf snap m = (h : Heap) × (m.route_table ≡ (new_table counters header_name h snap).1)

  abbrev pub CertsOf : Snapshot → Manager counters header_name tls → Type 0
  CertsOf snap m = m.sni ≡ certificates_from_snap tls snap

  -- How much of the state agrees with the stored snapshot, in each phase.
  abbrev pub Agrees : Phase → Manager counters header_name tls → Type 0
  Agrees (publish_table snap) m = m.snapshot ≡ snap
  Agrees (publish_certs snap) m = (m.snapshot ≡ snap) × TableOf snap m
  Agrees _ m = TableOf m.snapshot m × CertsOf m.snapshot m

  Agrees-of_some :
      (x o : Manager counters header_name tls)
      → Agrees x.phase x
      → some x ≡ some o
      → Agrees o.phase o
  Agrees-of_some x o a s = subst (λ y. Agrees y.phase y) (some-injective x o s) a

  loop-Agrees :
      (p : Phase) (e : Event) (m o : Manager counters header_name tls)
      → Agrees p m
      → step_loop counters header_name tls p e m ≡ some o
      → Agrees o.phase o
  unfolding step store_table store_certs
  loop-Agrees loop_start checked m o h s = ground arith
  loop-Agrees loop_start _ m o h s = ground arith
  loop-Agrees (connecting config) connected m o h s = ground arith
  loop-Agrees (connecting config) _ m o h s = ground arith
  loop-Agrees (opening request) watch_opened m o h s = ground arith
  loop-Agrees (opening request) _ m o h s = ground arith
  loop-Agrees (streaming got) (message snap) m o h s = Agrees-of_some _ o refl s
  loop-Agrees (streaming got) _ m o h s = ground arith
  loop-Agrees (publish_table snap) write m o h s = Agrees-of_some _ o (h, (m.heap, refl)) s
  loop-Agrees (publish_table snap) _ m o h s = ground arith
  loop-Agrees (publish_certs snap) write m o h s =
      Agrees-of_some _ o
        (subst (λ t. TableOf t m) (sym h.0) h.1, ap (certificates_from_snap tls) (sym h.0)) s
  loop-Agrees (publish_certs snap) _ m o h s = ground arith
  loop-Agrees stopped e m o h s = ground arith

  -- The watcher and the shutdown leave the published state as it is.
  Agrees-apart :
      (p : Phase) (m : Manager counters header_name tls) (c w : Bool) (f : Files)
      → Agrees p m
      → Agrees p (record m { cancelled = c; watching = w; files = f })
  Agrees-apart loop_start m c w f h = h
  Agrees-apart (connecting config) m c w f h = h
  Agrees-apart (opening request) m c w f h = h
  Agrees-apart (streaming got) m c w f h = h
  Agrees-apart (publish_table snap) m c w f h = h
  Agrees-apart (publish_certs snap) m c w f h = h
  Agrees-apart stopped m c w f h = h

  pub step-Agrees :
      (e : Event) (m o : Manager counters header_name tls)
      → Agrees m.phase m
      → step counters header_name tls e m ≡ some o
      → Agrees o.phase o
  unfolding step
  step-Agrees cancel m o h s =
      Agrees-of_some _ o (Agrees-apart m.phase m true m.watching m.files h) s
  step-Agrees (file_read waiting content) m o h s =
      elim (Bool-cases (m.watching && (not waiting || is_streaming m.phase))) [
        | inl w ↦
            Agrees-of_some _ o
              (Agrees-apart m.phase m m.cancelled m.watching (read_file waiting content m.files) h)
              (sym (rw (w) refl) ∙ s)
        | inr w ↦ absurd (ground (arith, w, s))
      ]
  step-Agrees watcher_stopped m o h s =
      elim (Bool-cases (m.watching && m.cancelled && is_resting m.files.reading)) [
        | inl w ↦
            Agrees-of_some _ o (Agrees-apart m.phase m m.cancelled false m.files h)
              (sym (rw (w) refl) ∙ s)
        | inr w ↦ absurd (ground (arith, w, s))
      ]
  step-Agrees e m o h s = loop-Agrees m.phase e m o h s

  -- In every state that the manager reaches, the published table and certificates are those of the
  -- stored snapshot, except between the three writes of a message, where the parts written so far
  -- are; this holds if it held at the start.
  pub Reach-Agrees :
      (m o : Manager counters header_name tls)
      → Agrees m.phase m
      → Reach counters header_name tls m o
      → Agrees o.phase o
  Reach-Agrees m o h here = h
  Reach-Agrees m o h (next {n} e r s) = step-Agrees e n o (Reach-Agrees m n h r) s
