-- ===== src/Listener/Connections.antt =====
-- The `JoinSet` of `run_http` and `run_https` of images/dataplane/src/main.rs.
use mathlib.Core.Option.{some-injective}
use argon.Prelude.{
  ℕ, zero, suc, ◌+◌, ◌≡◌, refl, subst, ◌⊎◌, inl, inr, Bool, true, false, Option, some, List, [],
  ◌∷◌, arith, Bool-cases, Option-cases, list_eq, length,
}
use argon.Listener.{
  Stage, handshaking, serving, finished, Phase, binding, accepting, sleeping, draining, returned,
  Event, accepted, drained, handshaken, handshake_failed, served, closed, joined, Listener, unbound,
  advance, advance_task, join, shake, fail_shake, serve_one, close, step_listener, step, run,
}

abbrev accepts_of : Event → ℕ
accepts_of accepted = 1
accepts_of e = 0

abbrev joins_of : Event → ℕ
joins_of (joined i) = 1
joins_of e = 0

-- How many connections the events accept, and how many tasks they join.
abbrev pub accepts : List Event → ℕ
accepts [] = 0
accepts (e ∷ es) = accepts_of e + accepts es

abbrev pub joins : List Event → ℕ
joins [] = 0
joins (e ∷ es) = joins_of e + joins es

-- The listener has not been told to stop.
abbrev pub is_open : Phase → Bool
is_open draining = false
is_open (returned listened) = false
is_open p = true

length-advance :
    (f : Stage → Option Stage) (ss ss' : List Stage) (i : ℕ)
    → advance f ss i ≡ some ss'
    → length ss' ≡ length ss
unfolding advance
length-advance f [] ss' i e = absurd (ground arith)
length-advance f (s ∷ ss) ss' zero e = elim (Option-cases (f s)) [
  | inl stuck ↦ absurd (ground arith)
  | inr (s', moved) ↦ ground arith
]
length-advance f (s ∷ ss) ss' (suc i) e = elim (Option-cases (advance f ss i)) [
  | inl stuck ↦ absurd (ground arith)
  | inr (rest, moved) ↦ ground (arith, length-advance f ss rest i moved)
]

length-join : (ss ss' : List Stage) (i : ℕ) → join ss i ≡ some ss' → length ss' + 1 ≡ length ss
unfolding join
length-join [] ss' i e = absurd (ground arith)
length-join (finished ∷ ss) ss' zero e = ground arith
length-join (handshaking ∷ ss) ss' zero e = absurd (ground arith)
length-join (serving ∷ ss) ss' zero e = absurd (ground arith)
length-join (s ∷ ss) ss' (suc i) e = elim (Option-cases (join ss i)) [
  | inl stuck ↦ absurd (ground arith)
  | inr (rest, gone) ↦ ground (arith, length-join ss rest i gone)
]

-- What a step, or some steps, with these numbers of connections and joins leave.
abbrev Keeps : ℕ → ℕ → Listener → Listener → Type 0
Keeps a j l o =
    (length o.conns + j ≡ length l.conns + a)
    × (is_open o.phase ≡ true → (is_open l.phase ≡ true) × (j ≡ 0))

Keeps-task :
    (f : Stage → Option Stage) (i : ℕ) (l o : Listener)
    → advance_task f i l ≡ some o
    → Keeps 0 0 l o
unfolding advance_task
Keeps-task f i l o e = elim (Option-cases (advance f l.conns i)) [
  | inl stuck ↦ absurd (ground arith)
  | inr (ss, moved) ↦
      subst (Keeps 0 0 l) (some-injective (record l { conns = ss }) o (ground arith))
        (ground (arith, length-advance f l.conns ss i moved), λ still. (still, refl))
]

Keeps-loop :
    (tls c : Bool) (p : Phase) (e : Event) (l o : Listener)
    → l.phase ≡ p
    → step_listener tls c p e l ≡ some o
    → Keeps (accepts_of e) (joins_of e) l o
unfolding step
Keeps-loop tls c binding e l o p s = ground arith
Keeps-loop tls c accepting e l o p s = ground arith
Keeps-loop tls c sleeping e l o p s = ground arith
Keeps-loop tls c draining (joined i) l o p s = elim (Option-cases (join l.conns i)) [
  | inl stuck ↦ absurd (ground arith)
  | inr (ss, gone) ↦
      subst (Keeps 0 1 l) (some-injective (record l { conns = ss }) o (ground arith))
        (ground (arith, length-join l.conns ss i gone), λ still. absurd (ground arith))
]
Keeps-loop tls c draining drained l o p s = ground arith
Keeps-loop tls c draining e l o p s = absurd (ground arith)
Keeps-loop tls c (returned b) e l o p s = absurd (ground arith)

Keeps-step :
    (tls c : Bool) (e : Event) (l o : Listener)
    → step tls c e l ≡ some o
    → Keeps (accepts_of e) (joins_of e) l o
unfolding step
Keeps-step tls c (handshaken i) l o s = Keeps-task shake i l o s
Keeps-step tls c (handshake_failed i) l o s = Keeps-task fail_shake i l o s
Keeps-step tls c (served i) l o s = Keeps-task serve_one i l o s
Keeps-step tls c (closed i) l o s = Keeps-task close i l o s
Keeps-step tls c e l o s = Keeps-loop tls c l.phase e l o refl s

Keeps-run :
    (tls c : Bool) (es : List Event) (l o : Listener)
    → run tls c es l ≡ some o
    → Keeps (accepts es) (joins es) l o
unfolding run
Keeps-run tls c [] l o s = subst (Keeps 0 0 l) (some-injective l o s) (refl, λ still. (still, refl))
Keeps-run tls c (e ∷ es) l o s = elim (Option-cases (step tls c e l)) [
  | inl stuck ↦ absurd (ground arith)
  | inr (n, moved) ↦
      let (first, open_first) = Keeps-step tls c e l n moved in
      let (rest, open_rest) = Keeps-run tls c es n o (ground arith) in
      (omega arith, λ still. ground (arith, open_rest still, open_first))
]

-- In every run of a listener from its start, the tasks that it holds and those that it has joined
-- are together as many as the connections that it has accepted; and until it is told to stop it
-- holds one for every connection that it ever accepted.
pub run-length :
    (tls cancelled : Bool) (es : List Event) (o : Listener)
    → run tls cancelled es unbound ≡ some o
    → (length o.conns + joins es ≡ accepts es)
      × ((is_open o.phase ≡ false) ⊎ (length o.conns ≡ accepts es))
run-length tls c es o s =
    let (conserved, still_open) = Keeps-run tls c es unbound o s in
    elim (Bool-cases (is_open o.phase)) [
      | inl now ↦ (omega (arith, conserved), inr (ground (arith, still_open now)))
      | inr told ↦ (omega (arith, conserved), inl told)
    ]
