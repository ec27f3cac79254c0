-- ===== src/Listener/Ending.antt =====
-- How `run_http` and `run_https` of images/dataplane/src/main.rs return once the token is cancelled.
use argon.Prelude.{
  ℕ, zero, suc, ◌≤◌, ◌≡◌, refl, inl, inr, Bool, true, false, some, List, [], ◌∷◌, arith, list_eq,
}
use argon.Listener.{
  Phase, binding, accepting, sleeping, draining, returned, Event, bind_failed, slept,
  cancel_noticed, Listener, is_over, step_listener, step, run,
}
use argon.Listener.Drain.{rank, IsEnding, step-Moves, IsEnding-IsLive}

-- Some events make the listener return.
abbrev pub Returns : Bool → Listener → Type 0
Returns tls l =
    (es : List Event) × (o : Listener) × (run tls true es l ≡ some o) × (is_over o ≡ true)

Returns-next :
    (tls : Bool) (e : Event) (l n : Listener)
    → step tls true e l ≡ some n
    → Returns tls n
    → Returns tls l
unfolding run
Returns-next tls e l n s (es, o, r, over) = (e ∷ es, o, rw (s, run) r, over)

ending-Returns :
    (tls : Bool) (fuel : ℕ) (l : Listener)
    → rank l.phase l.conns ≤ fuel
    → IsEnding l
    → Returns tls l
unfolding run
ending-Returns tls zero l enough h = elim (IsEnding-IsLive tls true l h) [
  | inl (p, none_left) ↦ ([], l, refl, ground arith)
  | inr (e, n, works, s) ↦
      let (less, ending) = step-Moves tls true e l n h s in
      absurd (omega (arith, less, works, enough))
]
ending-Returns tls (suc fuel) l enough h = elim (IsEnding-IsLive tls true l h) [
  | inl (p, none_left) ↦ ([], l, refl, ground arith)
  | inr (e, n, works, s) ↦
      let (less, ending) = step-Moves tls true e l n h s in
      Returns-next tls e l n s
        (ending-Returns tls fuel n (omega (arith, less, works, enough)) ending)
]

pub listener-Returns : (tls : Bool) (l : Listener) → Returns tls l
unfolding step step_listener run
listener-Returns tls l = by_phase l.phase refl
  where
    from_accepting : (n : Listener) → n.phase ≡ accepting → Returns tls n
    from_accepting n at =
        Returns-next tls cancel_noticed n (record n { phase = draining }) (rw at refl)
          (ending-Returns tls (rank draining n.conns) (record n { phase = draining }) (omega arith)
            (inl refl))

    by_phase : (p : Phase) → l.phase ≡ p → Returns tls l
    by_phase binding at =
        Returns-next tls bind_failed l (record l { phase = returned false }) (rw at refl)
          ([], record l { phase = returned false }, refl, refl)
    by_phase accepting at = from_accepting l at
    by_phase sleeping at =
        Returns-next tls slept l (record l { phase = accepting }) (rw at refl)
          (from_accepting (record l { phase = accepting }) refl)
    by_phase draining at = ending-Returns tls (rank l.phase l.conns) l (omega arith) (inl at)
    by_phase (returned b) at = ([], l, refl, ground arith)
