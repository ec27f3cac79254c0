-- ===== src/Grpc/Stream/History.antt =====
-- The snapshots that a run of the manager of images/dataplane/src/grpc.rs has received.
use mathlib.Core.Option.{some-injective}
use argon.Prelude.{
  ◌≡◌, refl, sym, ap, ◌∙◌, subst, ◌⊎◌, inl, inr, Bool, true, false, Option, some, List, [], ◌∷◌,
  arith, list_eq, In,
}
use argon.Text.{Text}
use argon.Atomics.{Heap}
use argon.Config.{Snapshot, default_snapshot}
use argon.Rewrites.{HeaderName}
use argon.Cluster.{Counters}
use argon.HashMap.{map_values}
use argon.Table.{new_table, default_table}
use argon.Route.{build_routes}
use argon.Grpc.Connect.{Connector}
use argon.Certs.{Tls, certificates_from_snap}
use argon.Grpc.Stream.{
  Phase, loop_start, connecting, opening, streaming, publish_table, publish_certs, stopped, Event,
  message, write, cancel, file_read, watcher_stopped, Manager, step_loop, step, Reach, here, next,
}
use argon.Grpc.Stream.Publishing.{TableOf, Agrees, Reach-Agrees}
use argon.Grpc.Start.{start}

module _ (counters : Counters) (header_name : Text → Option HeaderName) (tls : Tls) where
  abbrev pub message_of : Event → List Snapshot → List Snapshot
  message_of (message snap) snaps = snap ∷ snaps
  message_of e snaps = snaps

  abbrev is_publishing : Phase → Bool
  is_publishing (publish_table snap) = true
  is_publishing p = false

  -- The messages of a run, the latest first, behind which stands the snapshot of the start.
  abbrev pub received :
      {m o : Manager counters header_name tls} → Reach counters header_name tls m o → List Snapshot
  received here = default_snapshot ∷ []
  received (next e r s) = message_of e (received r)

  pub start-Agrees :
      (c : Connector) (h : Heap)
      → Agrees counters header_name tls loop_start (start counters header_name tls c h)
  unfolding start new_table certificates_from_snap build_routes default_table map_values
  start-Agrees c h = ((h, refl), refl)

  -- The snapshot is the last one received.
  abbrev pub IsLatest : Snapshot → List Snapshot → Type 0
  IsLatest snap snaps = (earlier : List Snapshot) × (snaps ≡ snap ∷ earlier)

  -- A snapshot is the last one received, or the one before while the table of the last is not stored.
  abbrev pub IsCurrent : Snapshot → List Snapshot → Manager counters header_name tls → Type 0
  IsCurrent snap snaps m =
      IsLatest snap snaps
      ⊎ ((new : Snapshot) × (m.phase ≡ publish_table new)
          × ((earlier : List Snapshot) × (snaps ≡ new ∷ snap ∷ earlier)))

  -- The stored snapshot is the last one received, and the one of the table is the current one.
  abbrev pub Knows : List Snapshot → Manager counters header_name tls → Type 0
  Knows snaps m =
      IsLatest m.snapshot snaps
      × ((snap : Snapshot) × IsCurrent snap snaps m × TableOf counters header_name tls snap m)

  IsCurrent-same :
      (snap : Snapshot) (snaps : List Snapshot) (m o : Manager counters header_name tls)
      → o.phase ≡ m.phase
      → IsCurrent snap snaps m
      → IsCurrent snap snaps o
  IsCurrent-same snap snaps m o same (inl last) = inl last
  IsCurrent-same snap snaps m o same (inr (new, at, before)) = inr (new, same ∙ at, before)

  -- The change keeps the snapshot and the table, and the phase where the table is not stored yet.
  abbrev Keeps :
      Phase → Manager counters header_name tls → Manager counters header_name tls → Type 0
  Keeps p m o =
      (o.snapshot ≡ m.snapshot)
      × (o.route_table ≡ m.route_table)
      × ((o.phase ≡ p) ⊎ (is_publishing p ≡ false))

  Knows-same :
      (p : Phase) (snaps : List Snapshot) (m o : Manager counters header_name tls)
      → m.phase ≡ p
      → Keeps p m o
      → Knows snaps m
      → Knows snaps o
  Knows-same p snaps m o at (s, t, moved) (i, (snap, current, (h, e))) =
      (subst (λ x. IsLatest x snaps) (sym s) i, (snap, later moved current, (h, t ∙ e)))
    where
      later :
          (o.phase ≡ p) ⊎ (is_publishing p ≡ false)
          → IsCurrent snap snaps m
          → IsCurrent snap snaps o
      later (inl same) c = IsCurrent-same snap snaps m o (same ∙ sym at) c
      later (inr free) (inl last) = inl last
      later (inr free) (inr (new, publishing, before)) = absurd (ground (arith, at, publishing))

  loop-Knows :
      (p : Phase) (e : Event) (snaps : List Snapshot) (m o : Manager counters header_name tls)
      → m.phase ≡ p
      → Agrees counters header_name tls p m
      → Knows snaps m
      → step_loop counters header_name tls p e m ≡ some o
      → Knows (message_of e snaps) o
  unfolding step
  loop-Knows loop_start (message snap) snaps m o at a k s = absurd (ground arith)
  loop-Knows loop_start e snaps m o at a k s = Knows-same loop_start snaps m o at (ground arith) k
  loop-Knows (connecting config) (message snap) snaps m o at a k s = absurd (ground arith)
  loop-Knows (connecting config) e snaps m o at a k s =
      Knows-same (connecting config) snaps m o at (ground arith) k
  loop-Knows (opening request) (message snap) snaps m o at a k s = absurd (ground arith)
  loop-Knows (opening request) e snaps m o at a k s =
      Knows-same (opening request) snaps m o at (ground arith) k
  loop-Knows (streaming got) (message snap) snaps m o at a (i, (source, c, t)) s =
      subst (Knows (snap ∷ snaps)) (some-injective _ o s)
        ((snaps, refl), (source, inr (snap, refl, streamed c), t))
    where
      streamed :
          IsCurrent source snaps m
          → (earlier : List Snapshot) × (snap ∷ snaps ≡ snap ∷ source ∷ earlier)
      streamed (inl (earlier, e)) = (earlier, ap (λ (l : List Snapshot). snap ∷ l) e)
      streamed (inr (new, publishing, before)) = absurd (ground (arith, at, publishing))
  loop-Knows (streaming got) e snaps m o at a k s =
      Knows-same (streaming got) snaps m o at (ground arith) k
  loop-Knows (publish_table snap) write snaps m o at a ((earlier, i), k) s =
      subst (Knows snaps) (some-injective _ o s)
        ((earlier, i), (snap, inl (subst (λ x. IsLatest x snaps) a (earlier, i)), (m.heap, refl)))
  loop-Knows (publish_table snap) (message snap') snaps m o at a k s = absurd (ground arith)
  loop-Knows (publish_table snap) e snaps m o at a k s = absurd (ground arith)
  loop-Knows (publish_certs snap) write snaps m o at a k s =
      Knows-same (publish_certs snap) snaps m o at (ground arith) k
  loop-Knows (publish_certs snap) (message snap') snaps m o at a k s = absurd (ground arith)
  loop-Knows (publish_certs snap) e snaps m o at a k s = absurd (ground arith)
  loop-Knows stopped (message snap) snaps m o at a k s = absurd (ground arith)
  loop-Knows stopped e snaps m o at a k s = Knows-same stopped snaps m o at (ground arith) k

  pub step-Knows :
      (e : Event) (snaps : List Snapshot) (m o : Manager counters header_name tls)
      → Agrees counters header_name tls m.phase m
      → Knows snaps m
      → step counters header_name tls e m ≡ some o
      → Knows (message_of e snaps) o
  unfolding step
  step-Knows cancel snaps m o a k s = Knows-same m.phase snaps m o refl (ground arith) k
  step-Knows (file_read waiting content) snaps m o a k s =
      Knows-same m.phase snaps m o refl (ground arith) k
  step-Knows watcher_stopped snaps m o a k s = Knows-same m.phase snaps m o refl (ground arith) k
  step-Knows e snaps m o a k s = loop-Knows m.phase e snaps m o refl a k s

  Agrees-from_start :
      (c : Connector) (h : Heap) (o : Manager counters header_name tls)
      → Reach counters header_name tls (start counters header_name tls c h) o
      → Agrees counters header_name tls o.phase o
  unfolding start
  Agrees-from_start c h o r =
      Reach-Agrees counters header_name tls (start counters header_name tls c h) o
        (start-Agrees c h) r

  pub start-Knows :
      (c : Connector) (h : Heap)
      → Knows (default_snapshot ∷ []) (start counters header_name tls c h)
  unfolding start
  start-Knows c h = (([], refl), (default_snapshot, inl ([], refl), (start-Agrees c h).0))

  Reach-Knows :
      (c : Connector) (h : Heap) (o : Manager counters header_name tls)
      (r : Reach counters header_name tls (start counters header_name tls c h) o)
      → Knows (received r) o
  unfolding start
  Reach-Knows c h o here = start-Knows c h
  Reach-Knows c h o (next {n} e r s) =
      step-Knows e (received r) n o (Agrees-from_start c h n r) (Reach-Knows c h n r) s

  In-of_IsCurrent :
      (snap : Snapshot) (snaps : List Snapshot) (m : Manager counters header_name tls)
      → IsCurrent snap snaps m
      → In snap snaps
  In-of_IsCurrent snap snaps m (inl (earlier, e)) = subst (In snap) (sym e) (inl refl)
  In-of_IsCurrent snap snaps m (inr (new, at, (earlier, e))) =
      subst (In snap) (sym e) (inr (inl refl))

  -- In every state of a run from the start, the table is the one of a snapshot that was received.
  pub Reach-TableOf :
      (c : Connector) (h : Heap) (o : Manager counters header_name tls)
      (r : Reach counters header_name tls (start counters header_name tls c h) o)
      → (snap : Snapshot) × In snap (received r) × TableOf counters header_name tls snap o
  Reach-TableOf c h o r =
      let (snap, current, table) = (Reach-Knows c h o r).1 in
      (snap, In-of_IsCurrent snap (received r) o current, table)

  -- In every state that the manager reaches from its start, the stored snapshot is the last one
  -- received, or the empty one if there is none, and the published table and certificates are those
  -- of the stored snapshot, except between the three writes of a message, where the parts written
  -- so far are.
  pub Reach-IsLatest :
      (c : Connector) (h : Heap) (o : Manager counters header_name tls)
      (r : Reach counters header_name tls (start counters header_name tls c h) o)
      → IsLatest o.snapshot (received r) × Agrees counters header_name tls o.phase o
  Reach-IsLatest c h o r = ((Reach-Knows c h o r).0, Agrees-from_start c h o r)
