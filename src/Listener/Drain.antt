-- ===== src/Listener/Drain.antt =====
-- The end of `run_http` and `run_https` of images/dataplane/src/main.rs.
use mathlib.Core.Option.{some-injective}
use argon.Prelude.{
  ℕ, zero, suc, ◌+◌, ◌≤◌, ◌≡◌, refl, sym, ap, ◌∙◌, subst, ◌⊎◌, inl, inr, Bool, true, Option, some,
  List, [], ◌∷◌, arith, Option-cases, list_eq,
}
use argon.Listener.{
  Stage, handshaking, serving, finished, Phase, draining, returned, Event, drained, handshaken,
  handshake_failed, served, closed, joined, Listener, advance, advance_task, join, shake,
  fail_shake, serve_one, close, step_draining, step_listener, step, run,
}

-- The work that is left for a connection, and for the listener.
abbrev left : Stage → ℕ
left handshaking = 3
left serving = 2
left finished = 1

abbrev pub total : List Stage → ℕ
total [] = 0
total (s ∷ ss) = left s + total ss

abbrev pub rank : Phase → List Stage → ℕ
rank draining ss = 1 + total ss
rank p ss = 0

advance-total :
    (f : Stage → Option Stage) (d : ℕ)
    → ((s s' : Stage) → f s ≡ some s' → left s' + d ≤ left s)
    → (ss ss' : List Stage) (i : ℕ) → advance f ss i ≡ some ss'
    → total ss' + d ≤ total ss
unfolding advance
advance-total f d h [] ss' i e = absurd (ground arith)
advance-total f d h (s ∷ ss) ss' zero e = elim (Option-cases (f s)) [
  | inl stuck ↦ absurd (ground arith)
  | inr (s', moved) ↦ ground (arith, h s s' moved)
]
advance-total f d h (s ∷ ss) ss' (suc i) e = elim (Option-cases (advance f ss i)) [
  | inl stuck ↦ absurd (ground arith)
  | inr (rest, moved) ↦ ground (arith, advance-total f d h ss rest i moved)
]

join-total : (ss ss' : List Stage) (i : ℕ) → join ss i ≡ some ss' → total ss' + 1 ≡ total ss
unfolding join
join-total [] ss' i e = absurd (ground arith)
join-total (finished ∷ ss) ss' zero e = ground arith
join-total (handshaking ∷ ss) ss' zero e = absurd (ground arith)
join-total (serving ∷ ss) ss' zero e = absurd (ground arith)
join-total (s ∷ ss) ss' (suc i) e = elim (Option-cases (join ss i)) [
  | inl stuck ↦ absurd (ground arith)
  | inr (rest, joined_one) ↦ ground (arith, join-total ss rest i joined_one)
]

shake-left : (s s' : Stage) → shake s ≡ some s' → left s' + 1 ≤ left s
unfolding shake
shake-left handshaking s' e = ground arith
shake-left serving s' e = absurd (ground arith)
shake-left finished s' e = absurd (ground arith)

fail_shake-left : (s s' : Stage) → fail_shake s ≡ some s' → left s' + 1 ≤ left s
unfolding fail_shake
fail_shake-left handshaking s' e = ground arith
fail_shake-left serving s' e = absurd (ground arith)
fail_shake-left finished s' e = absurd (ground arith)

serve_one-left : (s s' : Stage) → serve_one s ≡ some s' → left s' + 0 ≤ left s
unfolding serve_one
serve_one-left serving s' e = ground arith
serve_one-left handshaking s' e = absurd (ground arith)
serve_one-left finished s' e = absurd (ground arith)

close-left : (s s' : Stage) → close s ≡ some s' → left s' + 1 ≤ left s
unfolding close
close-left serving s' e = ground arith
close-left handshaking s' e = absurd (ground arith)
close-left finished s' e = absurd (ground arith)

-- Serving a request leaves the work as it is; any other step does some of it.
abbrev pub work : Event → ℕ
work (served i) = 0
work e = 1

abbrev pub total_work : List Event → ℕ
total_work [] = 0
total_work (e ∷ es) = work e + total_work es

-- The listener waits for its connections, or has returned without any.
abbrev pub IsEnding : Listener → Type 0
IsEnding l = (l.phase ≡ draining) ⊎ ((l.phase ≡ returned true) × (l.conns ≡ []))

abbrev Moves : ℕ → Listener → Listener → Type 0
Moves d l o = (rank o.phase o.conns + d ≤ rank l.phase l.conns) × IsEnding o

advance_task-Moves :
    (f : Stage → Option Stage) (d : ℕ)
    → ((s s' : Stage) → f s ≡ some s' → left s' + d ≤ left s)
    → (l o : Listener) (i : ℕ) → IsEnding l
    → advance_task f i l ≡ some o
    → Moves d l o
unfolding advance_task
advance_task-Moves f d h l o i (inl p) e = elim (Option-cases (advance f l.conns i)) [
  | inl stuck ↦ absurd (ground arith)
  | inr (ss, moved) ↦
      let at : record l { conns = ss } ≡ o = some-injective _ o (ground arith) in
      subst (Moves d l) at (rw p (ground (arith, advance-total f d h l.conns ss i moved)), inl p)
]
advance_task-Moves f d h l o i (inr (p, none_left)) e = absurd (ground arith)

draining-Moves :
    (e : Event) (l o : Listener) → l.phase ≡ draining → step_draining e l ≡ some o → Moves 1 l o
unfolding step_draining
draining-Moves (joined i) l o p e = elim (Option-cases (join l.conns i)) [
  | inl stuck ↦ absurd (ground arith)
  | inr (ss, gone) ↦
      let at : record l { conns = ss } ≡ o = some-injective _ o (ground arith) in
      subst (Moves 1 l) at (rw p (ground (arith, join-total l.conns ss i gone)), inl p)
]
draining-Moves drained l o p e = by_conns l.conns refl
  where
    by_conns : (ss : List Stage) → l.conns ≡ ss → Moves 1 l o
    by_conns [] none_left =
        let at : record l { phase = returned true } ≡ o = some-injective _ o (ground arith) in
        subst (Moves 1 l) at (rw p (ground arith), inr (refl, none_left))
    by_conns (s ∷ ss) some_left = absurd (ground arith)
draining-Moves e l o p e' = absurd (ground arith)

pub step-Moves :
    (tls cancelled : Bool) (e : Event) (l o : Listener)
    → IsEnding l
    → step tls cancelled e l ≡ some o
    → Moves (work e) l o
unfolding step step_listener
step-Moves tls c (handshaken i) l o h e = advance_task-Moves shake 1 shake-left l o i h e
step-Moves tls c (handshake_failed i) l o h e =
    advance_task-Moves fail_shake 1 fail_shake-left l o i h e
step-Moves tls c (served i) l o h e = advance_task-Moves serve_one 0 serve_one-left l o i h e
step-Moves tls c (closed i) l o h e = advance_task-Moves close 1 close-left l o i h e
step-Moves tls c e l o (inl p) e' =
    draining-Moves e l o p (ap (λ q. step_listener tls c q e l) (sym p) ∙ e')
step-Moves tls c e l o (inr (p, _)) e' =
    absurd (ground (arith, ap (λ q. step_listener tls c q e l) p))

run-Moves :
    (tls cancelled : Bool) (es : List Event) (l o : Listener)
    → IsEnding l
    → run tls cancelled es l ≡ some o
    → Moves (total_work es) l o
unfolding run
run-Moves tls c [] l o h e = subst (Moves 0 l) (some-injective l o e) (omega arith, h)
run-Moves tls c (e ∷ es) l o h e' = elim (Option-cases (step tls c e l)) [
  | inl stuck ↦ absurd (ground arith)
  | inr (n, moved) ↦
      let (first, ending) = step-Moves tls c e l n h moved in
      let (rest, ended) = run-Moves tls c es n o ending (ground arith) in (omega arith, ended)
]

-- The listener has returned, or does some work next.
abbrev pub IsLive : Bool → Bool → Listener → Type 0
IsLive tls cancelled l =
    ((l.phase ≡ returned true) × (l.conns ≡ []))
    ⊎ ((e : Event) × (o : Listener) × (work e ≡ 1) × (step tls cancelled e l ≡ some o))

pub IsEnding-IsLive : (tls cancelled : Bool) (l : Listener) → IsEnding l → IsLive tls cancelled l
unfolding step step_listener step_draining join advance_task advance shake close
IsEnding-IsLive tls c l (inr done) = inl done
IsEnding-IsLive tls c l (inl p) = inr (by_conns l.conns refl)
  where
    by_conns :
        (ss : List Stage)
        → l.conns ≡ ss
        → (e : Event) × (o : Listener) × (work e ≡ 1) × (step tls c e l ≡ some o)
    by_conns [] n = (drained, record l { phase = returned true }, refl, ground arith)
    by_conns (handshaking ∷ ss) n =
        (handshaken 0, record l { conns = serving ∷ ss }, refl, ground arith)
    by_conns (serving ∷ ss) n = (closed 0, record l { conns = finished ∷ ss }, refl, ground arith)
    by_conns (finished ∷ ss) n = (joined 0, record l { conns = ss }, refl, rw p (ground arith))

-- From the moment at which a listener drains, the events of any run that are not served requests
-- number at most one more than the work in its connections, which is three for a handshake, two for
-- an open connection and one for a task that is over; and after the run the listener has returned
-- without a connection, or another such event is possible.
pub run-ends :
    (tls cancelled : Bool) (es : List Event) (l o : Listener)
    → l.phase ≡ draining
    → run tls cancelled es l ≡ some o
    → (total_work es ≤ 1 + total l.conns) × IsLive tls cancelled o
run-ends tls c es l o p e =
    let (bounded, ending) = run-Moves tls c es l o (inl p) e in
    (ground arith, IsEnding-IsLive tls c o ending)
