-- ===== src/Grpc/Stream/Backoff.antt =====
-- The sleep between connections in images/dataplane/src/grpc.rs.
use native.Mathlib.Nat.{mul_assoc, mul-le-mul_right, one-le-pow, pow-succ'}
use mathlib.Core.Option
use argon.Prelude.{
  ℕ, zero, suc, ◌-◌, ◌*◌, ◌^◌, ◌≤◌, min, ◌≡◌, refl, sym, ap, ap₂, ◌∙◌, inl, inr, true, false,
  Option, some, arith, leb, Bool-cases,
}
use argon.Text.{Text}
use argon.Rewrites.{HeaderName}
use argon.Cluster.{Counters}
use argon.Certs.{Tls}
use argon.Http.{Result-cases}
use argon.Grpc.Connect.{connect_fut}
use argon.Grpc.Stream.{
  Phase, loop_start, connecting, opening, streaming, publish_table, publish_certs, stopped, Event,
  checked, connected, connect_failed, write, cancel, file_read, watcher_stopped, backoff_start,
  backoff_max, next_backoff, Manager, wait, step_loop, step, Reach, here, next,
}

abbrev pub InRange : ℕ → Type 0
InRange ms = (backoff_start ≤ ms) × (ms ≤ backoff_max)

next_backoff-InRange : (ms : ℕ) → InRange ms → InRange (next_backoff ms)
unfolding next_backoff
next_backoff-InRange ms h = omega arith

double_min :
    (b k : ℕ)
    → InRange b
    → 1 ≤ k
    → min (next_backoff b * k) backoff_max ≡ min (b * (2 * k)) backoff_max
unfolding next_backoff
double_min b k h one = elim (Bool-cases (leb (b * 2) backoff_max)) [
  | inl small ↦ ap₂ (λ x y. min x y) (ap (λ x. x * k) (doubled small) ∙ mul_assoc b 2 k) refl
  | inr large ↦
      rw (sym (mul_assoc b 2 k)) (omega (arith, limited large, mul-le-mul_right k (exceeded large)))
]
  where
    doubled : leb (b * 2) backoff_max ≡ true → min (min (b * 2) (2 ^ 64 - 1)) backoff_max ≡ b * 2
    doubled small = ground arith

    exceeded : leb (b * 2) backoff_max ≡ false → backoff_max ≤ b * 2
    exceeded large = ground arith

    limited :
        leb (b * 2) backoff_max ≡ false
        → min (min (b * 2) (2 ^ 64 - 1)) backoff_max * k ≡ backoff_max * k
    limited large = ap (λ x. x * k) (ground arith)

module _ (counters : Counters) (header_name : Text → Option HeaderName) (tls : Tls) where
  loop-InRange :
      (p : Phase) (e : Event) (m o : Manager counters header_name tls)
      → InRange m.backoff_ms
      → step_loop counters header_name tls p e m ≡ some o
      → InRange o.backoff_ms
  unfolding step
  loop-InRange loop_start checked m o h s = ground (arith, next_backoff-InRange m.backoff_ms)
  loop-InRange loop_start _ m o h s = ground (arith, next_backoff-InRange m.backoff_ms)
  loop-InRange (connecting config) connected m o h s =
      ground (arith, next_backoff-InRange m.backoff_ms)
  loop-InRange (connecting config) _ m o h s = ground (arith, next_backoff-InRange m.backoff_ms)
  loop-InRange (opening request) connected m o h s =
      ground (arith, next_backoff-InRange m.backoff_ms)
  loop-InRange (opening request) _ m o h s = ground (arith, next_backoff-InRange m.backoff_ms)
  loop-InRange (streaming got) connected m o h s = ground (arith, next_backoff-InRange m.backoff_ms)
  loop-InRange (streaming got) _ m o h s = ground (arith, next_backoff-InRange m.backoff_ms)
  loop-InRange (publish_table snap) write m o h s = ground arith
  loop-InRange (publish_table snap) _ m o h s = ground arith
  loop-InRange (publish_certs snap) write m o h s = ground arith
  loop-InRange (publish_certs snap) _ m o h s = ground arith
  loop-InRange stopped e m o h s = ground arith

  step-InRange :
      (e : Event) (m o : Manager counters header_name tls)
      → InRange m.backoff_ms
      → step counters header_name tls e m ≡ some o
      → InRange o.backoff_ms
  unfolding step
  step-InRange cancel m o h s = ground arith
  step-InRange (file_read waiting content) m o h s = ground arith
  step-InRange watcher_stopped m o h s = ground arith
  step-InRange e m o h s = loop-InRange m.phase e m o h s

  -- The sleep between connections stays between half a second and ten seconds in every state that
  -- the manager reaches, if it was so at the start.
  pub Reach-InRange :
      (m o : Manager counters header_name tls)
      → InRange m.backoff_ms
      → Reach counters header_name tls m o
      → InRange o.backoff_ms
  Reach-InRange m o h here = h
  Reach-InRange m o h (next {n} e r s) = step-InRange e n o (Reach-InRange m n h r) s

  -- The rest of a round that fails: the connection, where `connect_fut` has come to it.
  fail_connection : Manager counters header_name tls → Option (Manager counters header_name tls)
  fail_connection m = elim m.phase [
    | connecting config ↦ step counters header_name tls connect_failed m
    | p ↦ some m
  ]

  -- `n` rounds of the loop that fail to connect.
  pub failures : ℕ → Manager counters header_name tls → Option (Manager counters header_name tls)
  failures zero m = some m
  failures (suc n) m =
      Option.bind (Option.bind (step counters header_name tls checked m) fail_connection)
        (failures n)

  fail_round :
      (m : Manager counters header_name tls)
      → m.phase ≡ loop_start
      → m.cancelled ≡ false
      → Option.bind (step counters header_name tls checked m) fail_connection
        ≡ some (wait counters header_name tls m)
  unfolding step Option.bind fail_connection
  fail_round m p c = elim (Result-cases (connect_fut m.connector m.files)) [
    | inl (config, e) ↦ simp (p, c, e)
    | inr (error, e) ↦ simp (p, c, e)
  ]

  -- While nothing cancels the loop, rounds that fail, before the connection or by it, double the
  -- sleep each time, up to ten seconds, and change nothing else, if the sleep was in its range.
  pub failures-backoff :
      (n : ℕ) (m : Manager counters header_name tls)
      → m.phase ≡ loop_start
      → m.cancelled ≡ false
      → InRange m.backoff_ms
      → failures n m ≡ some (record m { backoff_ms = min (m.backoff_ms * 2 ^ n) backoff_max })
  unfolding failures wait Option.bind
  failures-backoff zero m p c h = ap (λ b. some (record m { backoff_ms = b })) (omega arith)
  failures-backoff (suc n) m p c h =
      rw (failures, fail_round m p c)
        (failures-backoff n (wait counters header_name tls m) refl c
            (next_backoff-InRange m.backoff_ms h)
          ∙ ap (λ b. some (record m { phase = loop_start; backoff_ms = b }))
              (double_min m.backoff_ms (2 ^ n) h (one-le-pow n 2 (omega arith))
                ∙ ap (λ x. min (m.backoff_ms * x) backoff_max) (sym (pow-succ' 2 n)))
          ∙ ap
              (λ q.
                some
                  (record m { phase = q; backoff_ms = min (m.backoff_ms * 2 ^ suc n) backoff_max }))
              (sym p))
