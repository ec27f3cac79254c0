-- ===== src/Sort/Laws.antt =====
-- What `sort_by` returns.
use argon.Prelude.{Ordering, ◌≡◌, inl, inr, false, List, [], ◌∷◌, Bool-cases, All}
use mathlib.Core.List.{Perm}
use mathlib.Core.List.Perm
use argon.Sort.{is_gt, IsOrder, place, sort_by, IsSorted}

module _ {A : Type 0} (cmp : A → A → Ordering) where
  place-perm : (x : A) (l : List A) → Perm (place cmp x l) (x ∷ l)
  unfolding place
  place-perm x [] = Perm.refl (x ∷ [])
  place-perm x (y ∷ ys) = elim (Bool-cases (is_gt (cmp x y))) [
    | inl later ↦ rw later (Perm.trans (Perm.cons y (place-perm x ys)) (Perm.swap x y ys))
    | inr now ↦ rw now (Perm.refl (x ∷ y ∷ ys))
  ]

  sort_by-perm : (l : List A) → Perm (sort_by cmp l) l
  unfolding sort_by
  sort_by-perm [] = Perm.refl []
  sort_by-perm (x ∷ xs) = Perm.trans (place-perm x (sort_by cmp xs)) (Perm.cons x (sort_by-perm xs))

  module _ (order : IsOrder cmp) where
    abbrev Before : A → A → Type 0
    Before x y = is_gt (cmp x y) ≡ false

    All-Before : (x y : A) (l : List A) → Before x y → All (Before y) l → All (Before x) l
    All-Before x y [] h k = tt
    All-Before x y (z ∷ l) h (k, ks) = (order.trans x y z h k, All-Before x y l h ks)

    All-place :
        (x y : A) (l : List A) → Before y x → All (Before y) l → All (Before y) (place cmp x l)
    unfolding place
    All-place x y [] h k = (h, tt)
    All-place x y (z ∷ l) h (k, ks) = elim (Bool-cases (is_gt (cmp x z))) [
      | inl later ↦ rw later (k, All-place x y l h ks)
      | inr now ↦ rw now (h, (k, ks))
    ]

    place-IsSorted : (x : A) (l : List A) → IsSorted cmp l → IsSorted cmp (place cmp x l)
    unfolding place
    place-IsSorted x [] h = (tt, tt)
    place-IsSorted x (y ∷ ys) (h, hs) = elim (Bool-cases (is_gt (cmp x y))) [
      | inl later ↦ rw later (All-place x y ys (order.total x y later) h, place-IsSorted x ys hs)
      | inr now ↦ rw now ((now, All-Before x y ys now h), (h, hs))
    ]

    pub sort_by-IsSorted : (l : List A) → IsSorted cmp (sort_by cmp l)
    unfolding sort_by
    sort_by-IsSorted [] = tt
    sort_by-IsSorted (x ∷ xs) = place-IsSorted x (sort_by cmp xs) (sort_by-IsSorted xs)
