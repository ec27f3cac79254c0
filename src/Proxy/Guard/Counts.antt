-- ===== src/Proxy/Guard/Counts.antt =====
-- Requests in flight as interleaved steps on the counters of `ActiveConnGuard`
-- (images/dataplane/src/proxy.rs).
use argon.Prelude.{
  ℕ, ◌+◌, ◌%◌, ◌≤◌, ◌<◌, ◌≡◌, refl, sym, ap, ◌∙◌, subst, Bool, true, false, ◌&&◌, Option, none,
  some, List, [], ◌∷◌, ◌++◌, arith, ltb, leb, if◌then◌else◌, ◌==◌, nat_eq, All, All-map, All-drop,
}
use native.Mathlib.Decide.{dec_lt}
use argon.Atomics.{Heap, Address, fetch_add, usize_mod}
use argon.Proxy.Guard.{ActiveConnGuard, open_guard, drop_guard, drop_counter}

-- The live guards beside the heap. `is_cursor` tells the round-robin cursors from the counters.
pub record World : Type 0 where
  pub heap : Heap
  pub guards : List ActiveConnGuard
  pub is_cursor : Address → Bool

-- A guard counts on nothing, or on a cell that is there and is no cursor.
abbrev pub IsCounter : World → Option Address → Type 0
IsCounter w none = Unit
IsCounter w (some a) = (a < w.heap.next) × (w.is_cursor a ≡ false)

abbrev pub counts_on : Address → Option Address → ℕ
counts_on a none = 0
counts_on a (some b) = if b == a then 1 else 0

abbrev pub in_flight : Address → List ActiveConnGuard → ℕ
in_flight a [] = 0
in_flight a (g ∷ gs) = counts_on a g.counter + in_flight a gs

-- What can happen: a request enters with a counter or without one, any live guard is dropped, a
-- round-robin selection moves a cursor, and a new table takes new cells that start at 0.
pub data Step : World → World → Type 0 where
  enter :
      {w w' : World} (c : Option Address)
      → IsCounter w c
      → w'
        ≡ record w { heap = (open_guard w.heap c).0; guards = (open_guard w.heap c).1 ∷ w.guards }
      → Step w w'
  leave :
      {w w' : World} (before : List ActiveConnGuard) (g : ActiveConnGuard)
      (after : List ActiveConnGuard)
      → w.guards ≡ before ++ g ∷ after
      → w' ≡ record w { heap = drop_guard w.heap g; guards = before ++ after }
      → Step w w'
  rotate :
      {w w' : World} (a : Address)
      → w.is_cursor a ≡ true
      → w' ≡ record w { heap = (fetch_add w.heap a 1).0 }
      → Step w w'
  reload :
      {w w' : World} (h' : Heap) (is_cursor' : Address → Bool)
      → w.heap.next ≤ h'.next
      → ((a : Address)
          → h'.cell a ≡ (if leb w.heap.next a && ltb a h'.next then 0 else w.heap.cell a))
      → ((a : Address) → a < w.heap.next → is_cursor' a ≡ w.is_cursor a)
      → w' ≡ record { heap = h'; guards = w.guards; is_cursor = is_cursor' }
      → Step w w'

pub data Reach (w : World) : World → Type 0 where
  here : Reach w w
  next : {u v : World} → Reach w u → Step u v → Reach w v

pub record IsCounted (w : World) : Type 0 where
  pub counters : All (λ g. IsCounter w g.counter) w.guards
  pub exact :
      (a : Address)
      → a < w.heap.next
      → w.is_cursor a ≡ false
      → w.heap.cell a ≡ in_flight a w.guards % usize_mod

in_flight-append :
    (a : Address) (xs ys : List ActiveConnGuard)
    → in_flight a (xs ++ ys) ≡ in_flight a xs + in_flight a ys
in_flight-append a [] ys = omega arith
in_flight-append a (x ∷ xs) ys = omega (arith, in_flight-append a xs ys)

open-IsCounted :
    (w : World) (c : Option Address)
    → IsCounter w c
    → IsCounted w
    → IsCounted
        (record w { heap = (open_guard w.heap c).0; guards = (open_guard w.heap c).1 ∷ w.guards })
unfolding open_guard
open-IsCounted w none i h = record {
  counters = (tt, h.counters);
  exact = λ a lt counter. omega (arith, h.exact a lt counter);
}
open-IsCounted w (some c) i h = record {
  counters = (i, h.counters);
  exact = λ a lt counter. ground (arith, h.exact a lt counter);
}

drop-IsCounted :
    (w : World) (before : List ActiveConnGuard) (c : Option Address) (after : List ActiveConnGuard)
    → w.guards ≡ before ++ record { counter = c } ∷ after
    → IsCounted w
    → IsCounted (record w { heap = drop_counter w.heap c; guards = before ++ after })
unfolding drop_counter
drop-IsCounted w before none after e h = record {
  counters =
      (All-drop (λ g. IsCounter w g.counter) before (record { counter = none }) after
        (subst (All (λ g. IsCounter w g.counter)) e h.counters)).1;
  exact = λ a lt counter.
      let all =
        ap (in_flight a) e ∙ in_flight-append a before (record { counter = none } ∷ after) in
      omega (arith, h.exact a lt counter, in_flight-append a before after);
}
drop-IsCounted w before (some c) after e h = record {
  counters =
      (All-drop (λ g. IsCounter w g.counter) before (record { counter = some c }) after
        (subst (All (λ g. IsCounter w g.counter)) e h.counters)).1;
  exact = λ a lt counter.
      let all =
        ap (in_flight a) e ∙ in_flight-append a before (record { counter = some c } ∷ after) in
      ground (arith, h.exact a lt counter, in_flight-append a before after);
}

counts_on-new :
    (w : World) (a : Address) (c : Option Address)
    → IsCounter w c
    → w.heap.next ≤ a
    → counts_on a c ≡ 0
counts_on-new w a none i le = refl
counts_on-new w a (some b) i le = ground arith

-- The cells that are there stay, with their kinds.
pub IsCounter-kept :
    (w w' : World) (c : Option Address)
    → w.heap.next ≤ w'.heap.next
    → ((a : Address) → a < w.heap.next → w'.is_cursor a ≡ w.is_cursor a)
    → IsCounter w c
    → IsCounter w' c
IsCounter-kept w w' none le same i = tt
IsCounter-kept w w' (some a) le same (lt, counter) = (omega arith, same a lt ∙ counter)

in_flight-new :
    (w : World) (a : Address) (gs : List ActiveConnGuard)
    → All (λ g. IsCounter w g.counter) gs
    → w.heap.next ≤ a
    → in_flight a gs ≡ 0
in_flight-new w a [] h le = refl
in_flight-new w a (g ∷ gs) (i, h) le =
    omega (arith, counts_on-new w a g.counter i le, in_flight-new w a gs h le)

reload-IsCounted :
    (w : World) (h' : Heap) (is_cursor' : Address → Bool)
    → w.heap.next ≤ h'.next
    → ((a : Address)
        → h'.cell a ≡ (if leb w.heap.next a && ltb a h'.next then 0 else w.heap.cell a))
    → ((a : Address) → a < w.heap.next → is_cursor' a ≡ w.is_cursor a)
    → IsCounted w
    → IsCounted (record { heap = h'; guards = w.guards; is_cursor = is_cursor' })
reload-IsCounted w h' is_cursor' le cells same h = record {
  counters =
      All-map (λ g. IsCounter w g.counter)
        (λ g. IsCounter (record { heap = h'; guards = w.guards; is_cursor = is_cursor' }) g.counter)
        w.guards
        (λ g i.
          IsCounter-kept w (record { heap = h'; guards = w.guards; is_cursor = is_cursor' })
            g.counter le same i)
        h.counters;
  exact = λ a lt counter. elim (dec_lt a w.heap.next) [
    | yes old ↦ ground (arith, cells a, h.exact a old, same a old)
    | no fresh ↦ ground (arith, cells a, in_flight-new w a w.guards h.counters (omega arith))
  ];
}

pub Step-IsCounted : {w w' : World} → Step w w' → IsCounted w → IsCounted w'
Step-IsCounted {w} (enter c i e) h = subst IsCounted (sym e) (open-IsCounted w c i h)
Step-IsCounted {w} (leave before g after at e) h =
    subst IsCounted (sym e) (unfold drop_guard in drop-IsCounted w before g.counter after at h)
Step-IsCounted {w} (rotate a cursor e) h = subst IsCounted (sym e) (record {
  counters = unfold fetch_add in h.counters;
  exact = λ b lt counter. unfold fetch_add in ground (arith, h.exact b lt counter);
})
Step-IsCounted {w} (reload h' is_cursor' le cells same e) h =
    subst IsCounted (sym e) (reload-IsCounted w h' is_cursor' le cells same h)

-- In every order of requests that enter and leave, of moved cursors and of new tables, each counter
-- holds the number of guards that are alive on it, modulo 2 ^ 64, if this held at the start.
pub Reach-IsCounted : {w w' : World} → IsCounted w → Reach w w' → IsCounted w'
Reach-IsCounted h here = h
Reach-IsCounted h (next r s) = Step-IsCounted s (Reach-IsCounted h r)
