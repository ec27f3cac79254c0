-- ===== src/Sort/Best.antt =====
-- The first match in a sorted list, against the list as it was given.
use argon.Prelude.{
  Ordering, ◌≡◌, refl, inl, inr, Bool, false, none, some, List, [], ◌∷◌, arith, if◌then◌else◌,
  Bool-cases, Option-cases, find, keep, In, All,
}
use argon.Sort.{is_gt, IsOrder, place, sort_by, first_of_two, best, IsSorted}
use argon.Sort.Laws.{sort_by-IsSorted}

module _ {A : Type 0} (cmp : A → A → Ordering) where
  pub In-of_best : (l : List A) (a : A) → best cmp l ≡ some a → In a l
  unfolding best
  In-of_best [] a h = absurd (ground arith)
  In-of_best (x ∷ xs) a h = elim (Option-cases (best cmp xs)) [
    | inl e ↦ inl (ground arith)
    | inr (y, e) ↦ elim (Bool-cases (is_gt (cmp x y))) [
      | inl later ↦ inr (In-of_best xs a (ground arith))
      | inr now ↦ inl (ground arith)
    ]
  ]

  pub best-eq-none : (l : List A) → best cmp l ≡ none → l ≡ []
  unfolding best
  best-eq-none [] h = refl
  best-eq-none (x ∷ xs) h = absurd (ground arith)

  module _ (order : IsOrder cmp) where
    is_gt_self : (a : A) → is_gt (cmp a a) ≡ false
    is_gt_self a = elim (Bool-cases (is_gt (cmp a a))) [ inl e ↦ order.total a a e | inr e ↦ e ]

    -- Nothing in the list stands strictly before the chosen item.
    pub best-le : (l : List A) (a b : A) → best cmp l ≡ some a → In b l → is_gt (cmp a b) ≡ false
    unfolding best
    best-le [] a b h m = absurd m
    best-le (x ∷ xs) a b h m = elim (Option-cases (best cmp xs)) [
      | inl e ↦ elim m [
        | inl here ↦ ground (arith, is_gt_self a)
        | inr there ↦ let gone = best-eq-none xs e in absurd (rw gone at there)
      ]
      | inr (y, e) ↦ elim (Bool-cases (is_gt (cmp x y))) [
        | inl later ↦ elim m [
          | inl here ↦ ground (arith, order.total x y later)
          | inr there ↦ best-le xs a b (ground arith) there
        ]
        | inr now ↦ elim m [
          | inl here ↦ ground (arith, is_gt_self a)
          | inr there ↦
              let rest = best-le xs y b e there in
              let step = order.trans x y b now rest in ground arith
        ]
      ]
    ]

    module _ (p : A → Bool) where
      All_of_find :
          (x z : A) (l : List A)
          → All (λ y. is_gt (cmp x y) ≡ false) l
          → find p l ≡ some z
          → is_gt (cmp x z) ≡ false
      All_of_find x z [] h e = absurd (ground arith)
      All_of_find x z (y ∷ ys) (h, hs) e = ground (arith, All_of_find x z ys hs)

      first-find :
          (x y : A) (ys : List A)
          → is_gt (cmp x y) ≡ false
          → All (λ z. is_gt (cmp y z) ≡ false) ys
          → some x ≡ first_of_two cmp x (find p (y ∷ ys))
      first-find x y ys now h = elim (Bool-cases (p y)) [
        | inl here ↦ ground arith
        | inr past ↦ elim (Option-cases (find p ys)) [
          | inl e ↦ ground arith
          | inr (z, e) ↦ ground (arith, order.trans x y z now (All_of_find y z ys h e))
        ]
      ]

      find-place :
          (x : A) (l : List A)
          → IsSorted cmp l
          → find p (place cmp x l) ≡ (if p x then first_of_two cmp x (find p l) else find p l)
      unfolding place
      find-place x [] h = ground arith
      find-place x (y ∷ ys) (h, hs) = elim (Bool-cases (is_gt (cmp x y))) [
        | inl later ↦ ground (arith, find-place x ys hs)
        | inr now ↦ ground (arith, first-find x y ys now h)
      ]

      -- A stable sort and the first match agree with the first of the least matches.
      pub find-sort_by : (l : List A) → find p (sort_by cmp l) ≡ best cmp (keep p l)
      unfolding sort_by best
      find-sort_by [] = refl
      find-sort_by (x ∷ xs) =
          ground
            (arith, find-place x (sort_by cmp xs) (sort_by-IsSorted cmp order xs), find-sort_by xs)
