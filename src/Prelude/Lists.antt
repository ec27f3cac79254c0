-- ===== src/Prelude/Lists.antt =====
-- Lists measured and indexed by native numbers, under the library's names, and predicates on them.
use Prim.Native.Nat.{ℕ, zero, suc, ◌<◌}
use mathlib.Core.Path.{◌≡◌, refl, subst}
use mathlib.Core.Bool.{Bool, true, false, ◌||◌}
use mathlib.Core.Logic.{◌⊎◌, ◌↔◌, inl, inr}
use mathlib.Core.List.{List, [], ◌∷◌, ◌++◌}
use mathlib.Core.Option.{Option, none, some}
use native.Mathlib.Omega.{arith}
use argon.Prelude.Tests.{if◌then◌else◌, Bool-cases}

module _ {ℓ} {A : Type ℓ} where
  abbrev pub length : List A → ℕ
  length [] = 0
  length (x ∷ xs) = suc (length xs)

  abbrev pub get_elem? : List A → ℕ → Option A
  get_elem? [] i = none
  get_elem? (x ∷ xs) zero = some x
  get_elem? (x ∷ xs) (suc i) = get_elem? xs i

  -- `iter().any(p)`
  abbrev pub any : (A → Bool) → List A → Bool
  any p [] = false
  any p (x ∷ xs) = p x || any p xs

  -- `iter().find(p)`
  abbrev pub find : (A → Bool) → List A → Option A
  find p [] = none
  find p (x ∷ xs) = if p x then some x else find p xs

  -- the items that a test keeps, in order
  abbrev pub keep : (A → Bool) → List A → List A
  keep p [] = []
  keep p (x ∷ xs) = if p x then x ∷ keep p xs else keep p xs

  pub get_elem?_of_lt : (xs : List A) (i : ℕ) → i < length xs → (a : A) × (get_elem? xs i ≡ some a)
  get_elem?_of_lt [] i h = elim h [ ]
  get_elem?_of_lt (x ∷ xs) zero h = (x, refl)
  get_elem?_of_lt (x ∷ xs) (suc i) h = get_elem?_of_lt xs i (omega arith)

  pub lt-length_of_get_elem? :
      (xs : List A) (i : ℕ) (a : A) → get_elem? xs i ≡ some a → i < length xs
  lt-length_of_get_elem? [] i a h = absurd (ground arith)
  lt-length_of_get_elem? (x ∷ xs) zero a h = omega arith
  lt-length_of_get_elem? (x ∷ xs) (suc i) a h = omega (arith, lt-length_of_get_elem? xs i a h)

module _ {A : Type 0} where
  -- membership with the position kept
  abbrev pub In : A → List A → Type 0
  In a [] = ⊥
  In a (x ∷ xs) = (x ≡ a) ⊎ In a xs

  pub In-keep : (p : A → Bool) (l : List A) (a : A) → In a (keep p l) ↔ (In a l × (p a ≡ true))
  In-keep p [] a = (λ m. absurd m, λ (m, _). m)
  In-keep p (x ∷ xs) a = elim (Bool-cases (p x)) [
    | inl hit ↦ (
      λ m. elim (rw hit at m) [
        | inl e ↦ (inl e, subst (λ y. p y ≡ true) e hit)
        | inr t ↦ let (m', q) = (In-keep p xs a).0 t in (inr m', q)
      ],
      λ (m, q). rw hit (elim m [ inl e ↦ inl e | inr t ↦ inr ((In-keep p xs a).1 (t, q)) ]),
    )
    | inr miss ↦ (
      λ m. let (m', q) = (In-keep p xs a).0 (rw miss at m) in (inr m', q),
      λ (m, q).
          rw miss (elim m [ inl e ↦ absurd (ground arith) | inr t ↦ (In-keep p xs a).1 (t, q) ]),
    )
  ]

module _ {ℓ κ} {A : Type ℓ} where
  abbrev pub All : (A → Type κ) → List A → Type κ
  All P [] = Unit
  All P (x ∷ xs) = P x × All P xs

  pub All-append : (P : A → Type κ) (l m : List A) → All P l → All P m → All P (l ++ m)
  All-append P [] m h k = k
  All-append P (a ∷ l) m (p, h) k = (p, All-append P l m h k)

  pub All-map : (P Q : A → Type κ) (l : List A) → ((a : A) → P a → Q a) → All P l → All Q l
  All-map P Q [] f h = tt
  All-map P Q (a ∷ l) f (p, h) = (f a p, All-map P Q l f h)

  -- One item taken out.
  pub All-drop :
      (P : A → Type κ) (before : List A) (a : A) (after : List A)
      → All P (before ++ a ∷ after)
      → P a × All P (before ++ after)
  All-drop P [] a after (p, h) = (p, h)
  All-drop P (x ∷ before) a after (p, h) = let (q, h') = All-drop P before a after h in (q, (p, h'))
