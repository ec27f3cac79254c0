-- ===== src/Cluster/Rounds.antt =====
-- Consecutive calls of `round_robin` of images/dataplane/src/snapshot.rs.
use argon.Prelude.{
  ℕ, zero, suc, ◌+◌, ◌-◌, ◌%◌, ◌≤◌, ◌<◌, ◌≡◌, refl, sym, ap, ap₂, ◌∙◌, Option, List, [], ◌∷◌, ◌++◌,
  map, arith, nat_eq, length,
}
use native.Mathlib.Nat.{mod-lt, mod_self, mod-add-mod, mod-eq_of_lt}
use argon.Atomics.{Heap, load, fetch_add, usize_mod}
use argon.Cluster.{SelectedEndpoint, Counters, ClusterRule, selected_at, pick_round_robin}
use argon.Cluster.Balance.{turn}

-- `n` indices from `i` on.
abbrev pub row : ℕ → ℕ → List ℕ
row i zero = []
row i (suc n) = i ∷ row (i + 1) n

-- The indices that `n` values of the cursor from `c` on give, with `len` endpoints.
turns : ℕ → ℕ → ℕ → List ℕ
turns len c zero = []
turns len c (suc n) = c % len ∷ turns len (c + 1) n

mod_next : (c len : ℕ) → c % len + 1 < len → (c + 1) % len ≡ c % len + 1
mod_next c len h = sym (mod-add-mod c len 1) ∙ mod-eq_of_lt h

mod_wrap : (c len : ℕ) → 0 < len → (c + (len - c % len)) % len ≡ 0
mod_wrap c len h =
    sym (mod-add-mod c len (len - c % len))
    ∙ (ap (λ x. x % len) (omega (arith, mod-lt c h)) ∙ mod_self len)

turns-row : (len c i n : ℕ) → c % len ≡ i → i + n ≤ len → turns len c n ≡ row i n
unfolding turns
turns-row len c i zero e h = refl
turns-row len c i (suc zero) e h = ap (λ j. j ∷ []) e
turns-row len c i (suc (suc n)) e h =
    ap₂ (λ j js. j ∷ js) e
      (turns-row len (c + 1) (i + 1) (suc n) (mod_next c len (omega arith) ∙ ap (λ j. j + 1) e)
        (omega arith))

turns-add : (len c n m d : ℕ) → c + n ≡ d → turns len c (n + m) ≡ turns len c n ++ turns len d m
unfolding turns
turns-add len c zero m d e = ap₂ (turns len) {x = c} (omega arith) (omega arith)
turns-add len c (suc n) m d e =
    ap (turns len c) {y = suc (n + m)} (omega arith)
    ∙ ap (λ js. c % len ∷ js) (turns-add len (c + 1) n m d (omega arith))

-- A whole round goes from the turn through the last endpoint, and then through those before the turn.
turns-round :
    (len c : ℕ) → 0 < len → turns len c len ≡ row (c % len) (len - c % len) ++ row 0 (c % len)
turns-round len c h =
    let below = mod-lt c h in
    ap (turns len c) (omega arith)
    ∙ (turns-add len c (len - c % len) (c % len) (c + (len - c % len)) refl
        ∙ ap₂ (λ (a b : List ℕ). a ++ b)
            (turns-row len c (c % len) (len - c % len) refl (omega arith))
            (turns-row len (c + (len - c % len)) 0 (c % len) (mod_wrap c len h) (omega arith)))

module _ (counters : Counters) where
  -- `n` consecutive calls of `round_robin`.
  pub picks : ℕ → Heap → ClusterRule counters → List (Option SelectedEndpoint)
  picks zero h cluster = []
  picks (suc n) h cluster =
      (pick_round_robin counters h cluster).1
      ∷ picks n (pick_round_robin counters h cluster).0 cluster

  first :
      (h : Heap) (cluster : ClusterRule counters) (c : ℕ)
      → load h cluster.rr_cursor ≡ c
      → 0 < length cluster.endpoints
      → (pick_round_robin counters h cluster).1
        ≡ selected_at counters cluster (c % length cluster.endpoints)
  unfolding pick_round_robin load fetch_add
  first h cluster c e busy = rw (← e) (ground arith)

  next_cursor :
      (h : Heap) (cluster : ClusterRule counters) (c n : ℕ)
      → load h cluster.rr_cursor ≡ c
      → c + suc n < usize_mod
      → 0 < length cluster.endpoints
      → load (pick_round_robin counters h cluster).0 cluster.rr_cursor ≡ c + 1
  unfolding pick_round_robin load fetch_add
  next_cursor h cluster c n e room busy = ground arith

  picks-turns :
      (n : ℕ) (h : Heap) (cluster : ClusterRule counters) (c : ℕ)
      → load h cluster.rr_cursor ≡ c
      → c + n < usize_mod
      → 0 < length cluster.endpoints
      → picks n h cluster
        ≡ map (selected_at counters cluster) (turns (length cluster.endpoints) c n)
  unfolding picks turns
  picks-turns zero h cluster c e room busy = refl
  picks-turns (suc n) h cluster c e room busy =
      ap₂ (λ x xs. x ∷ xs) (first h cluster c e busy)
        (picks-turns n (pick_round_robin counters h cluster).0 cluster (c + 1)
          (next_cursor h cluster c n e room busy) (omega arith) busy)

  -- As many consecutive round-robin picks as there are endpoints select every endpoint once, in
  -- order from the cursor's turn around, if there is an endpoint and the cursor does not wrap at 2
  -- ^ 64 meanwhile.
  pub picks_round :
      (h : Heap) (cluster : ClusterRule counters)
      → 0 < length cluster.endpoints
      → load h cluster.rr_cursor + length cluster.endpoints < usize_mod
      → picks (length cluster.endpoints) h cluster
        ≡ map (selected_at counters cluster) (
            row (turn counters h cluster) (length cluster.endpoints - turn counters h cluster)
            ++ row 0 (turn counters h cluster))
  picks_round h cluster busy room =
      picks-turns (length cluster.endpoints) h cluster (load h cluster.rr_cursor) refl room busy
      ∙ ap (map (selected_at counters cluster))
          (turns-round (length cluster.endpoints) (load h cluster.rr_cursor) busy)
