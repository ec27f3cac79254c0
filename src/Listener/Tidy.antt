-- ===== src/Listener/Tidy.antt =====
-- The tasks of a listener of images/dataplane/src/main.rs before it is bound and after it has returned.
use argon.Prelude.{
  ℕ, ◌≡◌, refl, ◌⊎◌, inl, inr, Bool, true, false, Option, some, [], arith, Option-cases, list_eq,
}
use argon.Listener.{
  Stage, Phase, binding, accepting, sleeping, draining, returned, Event, drained, handshaken,
  handshake_failed, served, closed, joined, Listener, is_over, advance, advance_task, join, shake,
  fail_shake, serve_one, close, step_listener, step,
}

abbrev is_idle : Phase → Bool
is_idle binding = true
is_idle (returned listened) = true
is_idle p = false

-- A listener that is not bound, or has returned, has no task.
abbrev pub IsTidy : Listener → Type 0
IsTidy l = (is_idle l.phase ≡ false) ⊎ (l.conns ≡ [])

task-IsTidy :
    (f : Stage → Option Stage) (i : ℕ) (l o : Listener)
    → IsTidy l
    → advance_task f i l ≡ some o
    → IsTidy o
unfolding advance_task advance
task-IsTidy f i l o (inr none_left) e = absurd (ground arith)
task-IsTidy f i l o (inl busy) e = elim (Option-cases (advance f l.conns i)) [
  | inl stuck ↦ absurd (ground arith)
  | inr (ss, moved) ↦ inl (ground arith)
]

loop-IsTidy :
    (tls c : Bool) (p : Phase) (e : Event) (l o : Listener)
    → l.phase ≡ p
    → IsTidy l
    → step_listener tls c p e l ≡ some o
    → IsTidy o
unfolding step
loop-IsTidy tls c binding e l o p h s = ground arith
loop-IsTidy tls c accepting e l o p h s = ground arith
loop-IsTidy tls c sleeping e l o p h s = ground arith
loop-IsTidy tls c draining (joined i) l o p h s = elim (Option-cases (join l.conns i)) [
  | inl stuck ↦ absurd (ground arith)
  | inr (ss, gone) ↦ inl (ground arith)
]
loop-IsTidy tls c draining drained l o p h s = ground arith
loop-IsTidy tls c draining e l o p h s = absurd (ground arith)
loop-IsTidy tls c (returned b) e l o p h s = absurd (ground arith)

pub step-IsTidy :
    (tls c : Bool) (e : Event) (l o : Listener) → IsTidy l → step tls c e l ≡ some o → IsTidy o
unfolding step
step-IsTidy tls c (handshaken i) l o h s = task-IsTidy shake i l o h s
step-IsTidy tls c (handshake_failed i) l o h s = task-IsTidy fail_shake i l o h s
step-IsTidy tls c (served i) l o h s = task-IsTidy serve_one i l o h s
step-IsTidy tls c (closed i) l o h s = task-IsTidy close i l o h s
step-IsTidy tls c e l o h s = loop-IsTidy tls c l.phase e l o refl h s

-- The listener has returned, and no task is left.
abbrev pub IsOver : Listener → Type 0
IsOver l = (is_over l ≡ true) × (l.conns ≡ [])

pub IsOver-IsTidy : (l : Listener) → IsTidy l → is_over l ≡ true → IsOver l
IsOver-IsTidy l tidy over = (over, ground arith)

pub step-IsOver :
    (tls c : Bool) (e : Event) (l o : Listener) → IsOver l → step tls c e l ≡ some o → IsOver o
unfolding step advance_task advance step_listener
step-IsOver tls c (handshaken i) l o (over, none_left) s = absurd (ground arith)
step-IsOver tls c (handshake_failed i) l o (over, none_left) s = absurd (ground arith)
step-IsOver tls c (served i) l o (over, none_left) s = absurd (ground arith)
step-IsOver tls c (closed i) l o (over, none_left) s = absurd (ground arith)
step-IsOver tls c e l o (over, none_left) s = absurd (by_phase l.phase refl)
  where
    by_phase : (p : Phase) → l.phase ≡ p → ⊥
    by_phase (returned b) at = ground arith
    by_phase p at = ground arith
