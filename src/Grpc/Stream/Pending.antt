-- ===== src/Grpc/Stream/Pending.antt =====
-- The permit of images/dataplane/src/grpc.rs for the CA that was loaded before the first stream.
use mathlib.Core.Option.{some-injective}
use argon.Prelude.{
  list_beq, ℕ, ◌≡◌, refl, subst, ◌≢◌, ◌⊎◌, inl, inr, Bool, true, false, Option, none, some, List,
  [], ◌∷◌, arith, nat_eq, list_eq,
}
use argon.Text.{Text}
use argon.Atomics.{Heap}
use argon.Rewrites.{HeaderName}
use argon.Cluster.{Counters}
use argon.Certs.{Tls}
use argon.Http.{Result-cases}
use argon.Grpc.Watcher.{
  WatchedFile, ca_file, client_file, key_file, is_nil, is_notified, take_ca, try_load_and_store,
  read_file,
}
use argon.Grpc.Connect.{Connector, connect_fut}
use argon.Grpc.Start.{start}
use argon.Grpc.Stream.Progress.{try_load_and_store-keeps}
use argon.Grpc.Stream.Dialling.{connect_fut-IsMutual}
use argon.Grpc.Stream.Rotating.{connect_fut-files}
use argon.Grpc.Stream.{
  Phase, loop_start, streaming, stopped, Event, checked, ca_notified, cancel, file_read,
  watcher_stopped, wait, Manager, step_loop, step, Reach, here, next,
}

-- The first content is reported.
try_load_and_store-first :
    (new : Option (List ℕ)) (target : List ℕ)
    → is_nil target ≡ true
    → (is_nil (try_load_and_store new target).0 ≡ true) ⊎ ((try_load_and_store new target).1 ≡ true)
unfolding try_load_and_store list_beq
try_load_and_store-first none target h = inl h
try_load_and_store-first (some []) target h = inl h
try_load_and_store-first (some (b ∷ bytes)) [] h = inr refl
try_load_and_store-first (some (b ∷ bytes)) (c ∷ target) h = absurd (ground arith)

-- The loop has dialled and has not come back.
abbrev pub is_dialled : Phase → Bool
is_dialled loop_start = false
is_dialled stopped = false
is_dialled p = true

module _ (counters : Counters) (header_name : Text → Option HeaderName) (tls : Tls) where
  abbrev State : Type 0
  State = Manager counters header_name tls

  -- The run has an event at which the loop takes the permit for the CA.
  abbrev pub taken : {m o : State} → Reach counters header_name tls m o → Bool
  taken here = false
  taken (next ca_notified r s) = true
  taken (next e r s) = taken r

  -- The CA is not loaded, or its permit is there; it is loaded where the loop has dialled.
  record IsPending (m : State) : Type 0 where
    permit : (is_nil m.files.ca_pem ≡ true) ⊎ (is_notified m.files.ca_updated ≡ true)
    loaded : is_dialled m.phase ≡ true → is_nil m.files.ca_pem ≡ false

  loop-IsPending :
      (p : Phase) (e : Event) (m o : State)
      → m.phase ≡ p
      → e ≢ ca_notified
      → IsPending m
      → step_loop counters header_name tls p e m ≡ some o
      → IsPending o
  unfolding step
  loop-IsPending loop_start checked m o at other h s =
      elim (Result-cases (connect_fut m.connector m.files)) [
        | inl (config, e) ↦
            let (ca, _) = connect_fut-files m.connector m.files config e in
            let mutual_tls = connect_fut-IsMutual m.connector m.files config e in
            record {
              permit = ground (arith, h.permit);
              loaded = λ dialled. ground (arith, mutual_tls.has_ca, ca);
            }
        | inr (error, e) ↦ record {
          permit = ground (arith, h.permit);
          loaded = λ dialled. absurd (ground arith);
        }
      ]
  loop-IsPending loop_start e m o at other h s = absurd (ground arith)
  loop-IsPending (streaming got) ca_notified m o at other h s = absurd (other refl)
  loop-IsPending (streaming got) e m o at other h s = record {
    permit = ground (arith, h.permit);
    loaded = λ dialled. ground (arith, h.loaded);
  }
  loop-IsPending p e m o at other h s = record {
    permit = ground (arith, h.permit);
    loaded = λ dialled. ground (arith, h.loaded);
  }

  read-IsPending :
      (waiting : Bool) (content : Option (List ℕ)) (m : State)
      → IsPending m
      → IsPending (record m { files = read_file waiting content m.files })
  unfolding read_file
  read-IsPending waiting content m h = record {
    permit = permit m.files.reading refl h.permit;
    loaded = λ dialled. loaded m.files.reading refl (h.loaded dialled);
  }
    where
      permit :
          (w : WatchedFile)
          → m.files.reading ≡ w
          → (is_nil m.files.ca_pem ≡ true) ⊎ (is_notified m.files.ca_updated ≡ true)
          → (is_nil (read_file waiting content m.files).ca_pem ≡ true)
            ⊎ (is_notified (read_file waiting content m.files).ca_updated ≡ true)
      permit ca_file at (inl empty) = elim (try_load_and_store-first content m.files.ca_pem empty) [
        | inl still ↦ inl (ground arith)
        | inr first ↦ inr (ground arith)
      ]
      permit ca_file at (inr there) = inr (ground arith)
      permit client_file at old = ground arith
      permit key_file at old = ground arith

      loaded :
          (w : WatchedFile)
          → m.files.reading ≡ w
          → is_nil m.files.ca_pem ≡ false
          → is_nil (read_file waiting content m.files).ca_pem ≡ false
      loaded ca_file at there =
          ground (arith, try_load_and_store-keeps content m.files.ca_pem there)
      loaded client_file at there = ground arith
      loaded key_file at there = ground arith

  step-IsPending :
      (e : Event) (m o : State)
      → e ≢ ca_notified
      → IsPending m
      → step counters header_name tls e m ≡ some o
      → IsPending o
  unfolding step
  step-IsPending cancel m o other h s =
      subst IsPending (some-injective (record m { cancelled = true }) o s)
        (record { permit = h.permit; loaded = h.loaded })
  step-IsPending (file_read waiting content) m o other h s =
      subst IsPending
        (some-injective (record m { files = read_file waiting content m.files }) o (ground arith))
        (read-IsPending waiting content m h)
  step-IsPending watcher_stopped m o other h s = record {
    permit = ground (arith, h.permit);
    loaded = λ dialled. ground (arith, h.loaded);
  }
  step-IsPending e m o other h s = loop-IsPending m.phase e m o refl other h s

  Reach-IsPending :
      (c : Connector) (h : Heap) (m : State)
      (r : Reach counters header_name tls (start counters header_name tls c h) m)
      → taken r ≡ false
      → IsPending m
  unfolding start
  Reach-IsPending c h m here first = record {
    permit = inl refl;
    loaded = λ dialled. absurd (ground arith);
  }
  Reach-IsPending c h m (next ca_notified r s) first = absurd (ground arith)
  Reach-IsPending c h m (next {n} e r s) first =
      step-IsPending e n m (λ same. absurd (ground arith)) (Reach-IsPending c h n r first) s

  -- In every run from the start in which the loop has taken no notification for the CA, an open
  -- stream finds one there, so the loop can leave the stream at once and goes into the sleep before
  -- a reconnect.
  pub Reach-permit :
      (c : Connector) (h : Heap) (m : State) (got : Bool)
      (r : Reach counters header_name tls (start counters header_name tls c h) m)
      → m.phase ≡ streaming got
      → taken r ≡ false
      → step counters header_name tls ca_notified m
        ≡ some (wait counters header_name tls (record m { files = take_ca m.files }))
  unfolding step
  Reach-permit c h m got r at first =
      let p = Reach-IsPending c h m r first in ground (arith, p.permit, p.loaded)
