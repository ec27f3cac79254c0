-- ===== src/Auth/Lists.antt =====
-- `normalize_list` of images/dataplane/src/snapshot.rs: what stands in its result.
use argon.Prelude.{
  ◌≡◌, refl, inl, inr, Bool, true, false, ◌||◌, List, [], ◌∷◌, ◌++◌, arith, Bool-cases, any, In,
  All, All-append,
}
use argon.Text.{Text, is_empty, trim, eq_ignore_ascii_case}
use argon.Text.Trim.{trim_idem}
use argon.Text.Ascii.{eq_ignore_ascii_case_iff}
use argon.Auth.{add_item, normalize_from, normalize_list}

-- No two items are the same when case is ignored.
abbrev pub IsDistinct : List Text → Type 0
IsDistinct [] = Unit
IsDistinct (x ∷ xs) = All (λ y. eq_ignore_ascii_case x y ≡ false) xs × IsDistinct xs

-- An item with no blank around it, and more than blanks in it.
abbrev pub IsTidy : Text → Type 0
IsTidy s = (trim s ≡ s) × (is_empty s ≡ false)

-- `v` is in the list, case ignored.
abbrev pub Occurs : Text → List Text → Type 0
Occurs v out = any (λ x. eq_ignore_ascii_case x v) out ≡ true

-- Every item of the input that is not blank stands in the output, case ignored.
abbrev pub Covers : List Text → List Text → Type 0
Covers items out = All (λ s. (is_empty (trim s) ≡ false) → Occurs (trim s) out) items

-- Every item of the output is an item of the input without the blanks around it.
abbrev pub ComesFrom : List Text → List Text → Type 0
ComesFrom items out = All (λ v. (s : Text) × In s items × (trim s ≡ v)) out

any-append : (p : Text → Bool) (xs ys : List Text) → any p (xs ++ ys) ≡ (any p xs || any p ys)
any-append p [] ys = refl
any-append p (x ∷ xs) ys = ground (arith, any-append p xs ys)

All_of_any : (p : Text → Bool) (xs : List Text) → any p xs ≡ false → All (λ x. p x ≡ false) xs
All_of_any p [] h = tt
All_of_any p (x ∷ xs) h = (ground arith, All_of_any p xs (ground arith))

IsDistinct-concat :
    (out : List Text) (v : Text)
    → IsDistinct out
    → All (λ x. eq_ignore_ascii_case x v ≡ false) out
    → IsDistinct (out ++ v ∷ [])
IsDistinct-concat [] v d h = (tt, tt)
IsDistinct-concat (x ∷ xs) v (d, ds) (h, hs) = (
  All-append (λ y. eq_ignore_ascii_case x y ≡ false) xs (v ∷ []) d (h, tt),
  IsDistinct-concat xs v ds hs,
)

eq_ignore_refl : (v : Text) → eq_ignore_ascii_case v v ≡ true
eq_ignore_refl v = (eq_ignore_ascii_case_iff v v).1 refl

-- The invariant of the loop, from the list so far to the list at the end.
pub record IsNormal (out : List Text) : Type 0 where
  pub tidy : All IsTidy out
  pub distinct : IsDistinct out

add_item-IsNormal : (out : List Text) (s : Text) → IsNormal out → IsNormal (add_item out s)
unfolding add_item
add_item-IsNormal out s h = elim (Bool-cases (is_empty (trim s))) [
  | inl blank ↦ rw blank h
  | inr full ↦ elim (Bool-cases (any (λ x. eq_ignore_ascii_case x (trim s)) out)) [
    | inl old ↦ rw (full, old) h
    | inr new ↦
        rw (full, new)
          (record {
            tidy = All-append IsTidy out (trim s ∷ []) h.tidy ((trim_idem s, full), tt);
            distinct =
                IsDistinct-concat out (trim s) h.distinct
                  (All_of_any (λ x. eq_ignore_ascii_case x (trim s)) out new);
          })
  ]
]

normalize_from-IsNormal :
    (out items : List Text) → IsNormal out → IsNormal (normalize_from out items)
unfolding normalize_from
normalize_from-IsNormal out [] h = h
normalize_from-IsNormal out (s ∷ items) h =
    normalize_from-IsNormal (add_item out s) items (add_item-IsNormal out s h)

-- An item stays in the list, and one that is added is there.
Occurs-add_item : (out : List Text) (s v : Text) → Occurs v out → Occurs v (add_item out s)
unfolding add_item
Occurs-add_item out s v h =
    ground (arith, any-append (λ x. eq_ignore_ascii_case x v) out (trim s ∷ []))

Occurs-add_item_self :
    (out : List Text) (s : Text) → is_empty (trim s) ≡ false → Occurs (trim s) (add_item out s)
unfolding add_item
Occurs-add_item_self out s h = ground (
  arith,
  any-append (λ x. eq_ignore_ascii_case x (trim s)) out (trim s ∷ []),
  eq_ignore_refl (trim s),
)

Occurs-normalize_from :
    (out items : List Text) (v : Text) → Occurs v out → Occurs v (normalize_from out items)
unfolding normalize_from
Occurs-normalize_from out [] v h = h
Occurs-normalize_from out (s ∷ items) v h =
    Occurs-normalize_from (add_item out s) items v (Occurs-add_item out s v h)

normalize_from-Covers : (out items : List Text) → Covers items (normalize_from out items)
unfolding normalize_from
normalize_from-Covers out [] = tt
normalize_from-Covers out (s ∷ items) = (
  λ full. Occurs-normalize_from (add_item out s) items (trim s) (Occurs-add_item_self out s full),
  normalize_from-Covers (add_item out s) items,
)

module _ (all : List Text) where
  add_item-ComesFrom :
      (out : List Text) (s : Text) → In s all → ComesFrom all out → ComesFrom all (add_item out s)
  unfolding add_item
  add_item-ComesFrom out s m h = elim (Bool-cases (is_empty (trim s))) [
    | inl blank ↦ rw blank h
    | inr full ↦ elim (Bool-cases (any (λ x. eq_ignore_ascii_case x (trim s)) out)) [
      | inl old ↦ rw (full, old) h
      | inr new ↦
          rw (full, new)
            (All-append (λ v. (t : Text) × In t all × (trim t ≡ v)) out (trim s ∷ []) h
              ((s, m, refl), tt))
    ]
  ]

  normalize_from-ComesFrom :
      (out items : List Text)
      → ((s : Text) → In s items → In s all)
      → ComesFrom all out
      → ComesFrom all (normalize_from out items)
  unfolding normalize_from
  normalize_from-ComesFrom out [] sub h = h
  normalize_from-ComesFrom out (s ∷ items) sub h =
      normalize_from-ComesFrom (add_item out s) items (λ t m. sub t (inr m))
        (add_item-ComesFrom out s (sub s (inl refl)) h)

-- A normalized list has items without blanks around them that are not empty and that differ
-- pairwise when case is ignored; each comes from an item of the input, and each item of the input
-- that is not blank stands in it, case ignored.
pub normalize_list-IsNormal :
    (items : List Text)
    → IsNormal (normalize_list items)
      × ComesFrom items (normalize_list items)
      × Covers items (normalize_list items)
unfolding normalize_list
normalize_list-IsNormal items = (
  normalize_from-IsNormal [] items (record { tidy = tt; distinct = tt }),
  normalize_from-ComesFrom items [] items (λ s m. m) tt,
  normalize_from-Covers [] items,
)
