-- ===== src/HashMap.antt =====
-- Rust's `HashMap` as an association list with one entry for each key. The program reads its maps by
-- key only, so the order of the entries has no meaning.
use argon.Prelude.{
  ◌≡◌, refl, Option, none, some, List, [], ◌∷◌, arith, if◌then◌else◌, unwrap_or, Eq, ◌==◌, eq_iff,
}
use mathlib.Core.Option

abbrev pub HashMap : Type 0 → Type 0 → Type 0
HashMap K V = List (K × V)

module _ {K V : Type 0} ⦃e : Eq K⦄ where
  unfoldable pub get : HashMap K V → K → Option V
  get [] k = none
  get ((j, v) ∷ m) k = if j == k then some v else get m k

  unfoldable pub insert : HashMap K V → K → V → HashMap K V
  insert [] k v = (k, v) ∷ []
  insert ((j, w) ∷ m) k v = if j == k then (k, v) ∷ m else (j, w) ∷ insert m k v

  -- `entry(k).or_insert(d)` and a change of the value that it gives
  unfoldable pub modify : HashMap K V → K → V → (V → V) → HashMap K V
  unfolding get insert
  modify m k d f = insert m k (f (unwrap_or (get m k) d))

  pub get-insert :
      (m : HashMap K V) (k j : K) (v : V)
      → get (insert m k v) j ≡ (if k == j then some v else get m j)
  unfolding get insert
  get-insert [] k j v = refl
  get-insert ((i, w) ∷ m) k j v =
      ground (arith, eq_iff k j, eq_iff i k, eq_iff i j, get-insert m k j v)

  pub get-modify :
      (m : HashMap K V) (k j : K) (d : V) (f : V → V)
      → get (modify m k d f) j ≡ (if k == j then some (f (unwrap_or (get m k) d)) else get m j)
  unfolding modify
  get-modify m k j d f = get-insert m k j (f (unwrap_or (get m k) d))

module _ {K V W : Type 0} ⦃e : Eq K⦄ where
  -- `into_iter().map(|(k, v)| (k, f(v))).collect()`, and the change of every value in place
  unfoldable pub map_values : (V → W) → HashMap K V → HashMap K W
  map_values f [] = []
  map_values f ((k, v) ∷ m) = (k, f v) ∷ map_values f m

  pub get-map_values :
      (f : V → W) (m : HashMap K V) (k : K) → get (map_values f m) k ≡ Option.map f (get m k)
  unfolding get map_values
  get-map_values f [] k = refl
  get-map_values f ((j, v) ∷ m) k = ground (arith, get-map_values f m k)
