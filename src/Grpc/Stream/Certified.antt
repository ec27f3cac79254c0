-- ===== src/Grpc/Stream/Certified.antt =====
-- The snapshot of the certificates that images/dataplane/src/grpc.rs has published, over a run.
use mathlib.Core.Option.{some-injective}
use argon.Prelude.{
  ◌≡◌, refl, sym, ap, ◌∙◌, subst, ◌≢◌, ◌⊎◌, inl, inr, Option, some, List, [], ◌∷◌, arith, nat_eq,
  list_eq,
}
use argon.Text.{Text}
use argon.Atomics.{Heap}
use argon.Config.{Snapshot, default_snapshot}
use argon.Rewrites.{HeaderName}
use argon.Cluster.{Counters}
use argon.Certs.{Tls}
use argon.Grpc.Connect.{Connector}
use argon.Grpc.Start.{start}
use argon.Grpc.Stream.Publishing.{CertsOf, Agrees}
use argon.Grpc.Stream.History.{message_of, IsLatest, Knows, start-Agrees}
use argon.Grpc.Stream.{
  Phase, streaming, publish_table, publish_certs, Event, message, write, cancel, file_read,
  watcher_stopped, Manager, step_loop, step,
}

module _ (counters : Counters) (header_name : Text → Option HeaderName) (tls : Tls) where
  abbrev State : Type 0
  State = Manager counters header_name tls

  -- A message whose certificates are not stored yet.
  abbrev pub IsWriting : Snapshot → State → Type 0
  IsWriting new m = (m.phase ≡ publish_table new) ⊎ (m.phase ≡ publish_certs new)

  -- A snapshot is the last one received, or the one before while the certificates of the last are not
  -- stored.
  abbrev pub IsCertified : Snapshot → List Snapshot → State → Type 0
  IsCertified snap snaps m =
      IsLatest counters header_name tls snap snaps
      ⊎ ((new : Snapshot) × IsWriting new m
          × ((earlier : List Snapshot) × (snaps ≡ new ∷ snap ∷ earlier)))

  abbrev pub KnowsCerts : List Snapshot → State → Type 0
  KnowsCerts snaps m =
      (snap : Snapshot) × IsCertified snap snaps m × CertsOf counters header_name tls snap m

  -- A step that stores no certificates and ends no message.
  KnowsCerts-same :
      (snaps : List Snapshot) (m o : State)
      → o.sni ≡ m.sni
      → ((new : Snapshot) → IsWriting new m → IsWriting new o)
      → KnowsCerts snaps m
      → KnowsCerts snaps o
  KnowsCerts-same snaps m o same later (snap, inl last, certs) = (snap, inl last, same ∙ certs)
  KnowsCerts-same snaps m o same later (snap, inr (new, writing, before), certs) =
      (snap, inr (new, later new writing, before), same ∙ certs)

  -- The phase is that of no message.
  none_written :
      (p : Phase) (m : State)
      → m.phase ≡ p
      → ((s : Snapshot) → p ≢ publish_table s)
      → ((s : Snapshot) → p ≢ publish_certs s)
      → (new : Snapshot) → IsWriting new m
      → ⊥
  none_written p m at f g new (inl t) = f new (sym at ∙ t)
  none_written p m at f g new (inr c) = g new (sym at ∙ c)

  phase_kept :
      (m o : State) (new : Snapshot) → o.phase ≡ m.phase → IsWriting new m → IsWriting new o
  phase_kept m o new same (inl t) = inl (same ∙ t)
  phase_kept m o new same (inr c) = inr (same ∙ c)

  loop-KnowsCerts :
      (p : Phase) (e : Event) (snaps : List Snapshot) (m o : State)
      → m.phase ≡ p
      → Agrees counters header_name tls p m
      → Knows counters header_name tls snaps m
      → KnowsCerts snaps m
      → step_loop counters header_name tls p e m ≡ some o
      → KnowsCerts (message_of counters header_name tls e snaps) o
  unfolding step
  loop-KnowsCerts (streaming got) (message new) snaps m o at a k (snap, c, certs) s =
      subst (KnowsCerts (new ∷ snaps)) (some-injective _ o s)
        (snap, inr (new, inl refl, streamed c), certs)
    where
      streamed :
          IsCertified snap snaps m
          → (earlier : List Snapshot) × (new ∷ snaps ≡ new ∷ snap ∷ earlier)
      streamed (inl (earlier, e)) = (earlier, ap (λ (l : List Snapshot). new ∷ l) e)
      streamed (inr (old, writing, before)) = absurd (
          none_written (streaming got) m at (λ x q. ground arith) (λ x q. ground arith) old writing)
  loop-KnowsCerts (streaming got) e snaps m o at a k h s =
      KnowsCerts-same snaps m o (ground arith)
        (λ new w.
          absurd
            (none_written (streaming got) m at (λ x q. ground arith) (λ x q. ground arith) new w))
        h
  loop-KnowsCerts (publish_table new) write snaps m o at a k h s =
      KnowsCerts-same snaps m o (ground arith) written h
    where
      written : (x : Snapshot) → IsWriting x m → IsWriting x o
      written x (inl t) = inr (ground (arith, at, t))
      written x (inr c) = absurd (ground (arith, at, c))
  loop-KnowsCerts (publish_table new) (message x) snaps m o at a k h s = absurd (ground arith)
  loop-KnowsCerts (publish_table new) e snaps m o at a k h s = absurd (ground arith)
  loop-KnowsCerts (publish_certs new) write snaps m o at (a, t) ((earlier, latest), k) h s =
      subst (KnowsCerts snaps) (some-injective _ o s) (
        new,
        inl (subst (λ x. IsLatest counters header_name tls x snaps) a (earlier, latest)),
        refl,
      )
  loop-KnowsCerts (publish_certs new) (message x) snaps m o at a k h s = absurd (ground arith)
  loop-KnowsCerts (publish_certs new) e snaps m o at a k h s = absurd (ground arith)
  loop-KnowsCerts p (message x) snaps m o at a k h s = absurd (ground arith)
  loop-KnowsCerts p e snaps m o at a k h s =
      KnowsCerts-same snaps m o (ground arith)
        (λ new w. absurd (none_written p m at (λ x q. ground arith) (λ x q. ground arith) new w)) h

  pub step-KnowsCerts :
      (e : Event) (snaps : List Snapshot) (m o : State)
      → Agrees counters header_name tls m.phase m
      → Knows counters header_name tls snaps m
      → KnowsCerts snaps m
      → step counters header_name tls e m ≡ some o
      → KnowsCerts (message_of counters header_name tls e snaps) o
  unfolding step
  step-KnowsCerts cancel snaps m o a k h s =
      KnowsCerts-same snaps m o (ground arith) (λ new w. phase_kept m o new (ground arith) w) h
  step-KnowsCerts (file_read waiting content) snaps m o a k h s =
      KnowsCerts-same snaps m o (ground arith) (λ new w. phase_kept m o new (ground arith) w) h
  step-KnowsCerts watcher_stopped snaps m o a k h s =
      KnowsCerts-same snaps m o (ground arith) (λ new w. phase_kept m o new (ground arith) w) h
  step-KnowsCerts e snaps m o a k h s = loop-KnowsCerts m.phase e snaps m o refl a k h s

  pub start-KnowsCerts :
      (c : Connector) (h : Heap)
      → KnowsCerts (default_snapshot ∷ []) (start counters header_name tls c h)
  unfolding start
  start-KnowsCerts c h =
      (default_snapshot, inl ([], refl), (start-Agrees counters header_name tls c h).1)
