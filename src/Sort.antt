-- ===== src/Sort.antt =====
-- The standard library's stable `sort_by` and the first minimum of `min_by_key`, over any comparison.
-- A stable sort by a total preorder has one result, so the insertion sort here stands for Rust's.
pub mod Laws
pub mod Best
use argon.Prelude.{
  ℕ, compare, Ordering, ◌≡◌, Bool, true, false, Option, none, some, List, [], ◌∷◌, if◌then◌else◌,
  All,
}

abbrev pub is_gt : Ordering → Bool
is_gt Ordering.gt = true
is_gt _ = false

-- `Ordering::then` and `then_with`
abbrev pub then_with : Ordering → Ordering → Ordering
then_with Ordering.eq o = o
then_with Ordering.lt o = Ordering.lt
then_with Ordering.gt o = Ordering.gt

-- What `sort_by` demands of a comparison: a total preorder.
pub record IsOrder {A : Type 0} (cmp : A → A → Ordering) : Type 0 where
  pub total : (a b : A) → is_gt (cmp a b) ≡ true → is_gt (cmp b a) ≡ false
  pub trans :
      (a b c : A) → is_gt (cmp a b) ≡ false → is_gt (cmp b c) ≡ false → is_gt (cmp a c) ≡ false

module _ {A : Type 0} (cmp : A → A → Ordering) where
  -- Puts an item in front of the first that is not before it.
  unfoldable pub place : A → List A → List A
  place x [] = x ∷ []
  place x (y ∷ ys) = if is_gt (cmp x y) then y ∷ place x ys else x ∷ y ∷ ys

  unfoldable pub sort_by : List A → List A
  unfolding place
  sort_by [] = []
  sort_by (x ∷ xs) = place x (sort_by xs)

  abbrev pub first_of_two : A → Option A → Option A
  first_of_two x none = some x
  first_of_two x (some y) = if is_gt (cmp x y) then some y else some x

  -- The first of the least items.
  unfoldable pub best : List A → Option A
  best [] = none
  best (x ∷ xs) = first_of_two x (best xs)

  -- Every item stands before all that follow it, or is equal to them in the order.
  abbrev pub IsSorted : List A → Type 0
  IsSorted [] = Unit
  IsSorted (x ∷ xs) = All (λ y. is_gt (cmp x y) ≡ false) xs × IsSorted xs

-- `min_by_key`: the first item with the least key.
unfoldable pub min_by_key : {A : Type 0} → (A → ℕ) → List A → Option A
unfolding best
min_by_key f xs = best (λ a b. compare (f a) (f b)) xs
