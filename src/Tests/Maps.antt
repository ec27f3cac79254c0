-- ===== src/Tests/Maps.antt =====
-- An instance of the counters' map: an association list, newest entry first.
use argon.Prelude.{
  ◌≡◌, refl, ◌≢◌, ◌↔◌, Bool, true, false, ◌&&◌, Option, none, some, List, [], ◌∷◌, arith,
  if◌then◌else◌, Eq, ◌==◌, eq_iff, eq_refl, nat_eq, list_eq, keep, In, In-keep,
}
use argon.Prelude.Int.{ℤ, pos, negsuc}
use argon.Atomics.{Address}
use argon.Cluster.{EndpointKey, Counters}

abbrev beq_ℤ : ℤ → ℤ → Bool
beq_ℤ (pos m) (pos n) = m == n
beq_ℤ (negsuc m) (negsuc n) = m == n
beq_ℤ _ _ = false

beq_ℤ_iff : (a b : ℤ) → (beq_ℤ a b ≡ true) ↔ (a ≡ b)
beq_ℤ_iff (pos m) (pos n) = ground (arith, eq_iff m n)
beq_ℤ_iff (pos m) (negsuc n) = ground arith
beq_ℤ_iff (negsuc m) (pos n) = ground arith
beq_ℤ_iff (negsuc m) (negsuc n) = ground (arith, eq_iff m n)

abbrev beq_key : EndpointKey → EndpointKey → Bool
beq_key a b = a.address == b.address && (beq_ℤ a.port b.port && a.index == b.index)

beq_key_iff : (a b : EndpointKey) → (beq_key a b ≡ true) ↔ (a ≡ b)
beq_key_iff a b =
    ground (arith, eq_iff a.address b.address, beq_ℤ_iff a.port b.port, eq_iff a.index b.index)

instance abbrev key_eq : Eq EndpointKey
key_eq = record { same = beq_key; same_iff = beq_key_iff }

abbrev Entries : Type 0
Entries = List (EndpointKey × Address)

abbrev lookup : Entries → EndpointKey → Option Address
lookup [] k = none
lookup ((j, a) ∷ m) k = if j == k then some a else lookup m k

-- The entries that a later insertion has not replaced.
abbrev beq_found : Option Address → Address → Bool
beq_found none a = false
beq_found (some b) a = b == a

abbrev current : Entries → Entries
current m = keep (λ entry. beq_found (lookup m entry.0) entry.1) m

In-of_lookup : (m : Entries) (k : EndpointKey) (a : Address) → lookup m k ≡ some a → In (k, a) m
In-of_lookup [] k a h = absurd (ground arith)
In-of_lookup ((j, b) ∷ m) k a h = ground (arith, eq_iff j k, In-of_lookup m k a)

beq_found_iff : (o : Option Address) (a : Address) → (beq_found o a ≡ true) ↔ (o ≡ some a)
beq_found_iff none a = ground arith
beq_found_iff (some b) a = ground (arith, eq_iff b a)

pub lookup-cons_ne :
    (m : Entries) (k j : EndpointKey) (a : Address) → k ≢ j → lookup ((k, a) ∷ m) j ≡ lookup m j
lookup-cons_ne m k j a ne = ground (arith, eq_iff k j)

pub In-current_iff :
    (m : Entries) (k : EndpointKey) (a : Address) → In (k, a) (current m) ↔ (lookup m k ≡ some a)
In-current_iff m k a =
    let kept =
      In-keep (λ (entry : EndpointKey × Address). beq_found (lookup m entry.0) entry.1) m (k, a) in
    (
      λ i. (beq_found_iff (lookup m k) a).0 (kept.0 i).1,
      λ e. kept.1 (In-of_lookup m k a e, (beq_found_iff (lookup m k) a).1 e),
    )

abbrev pub counters : Counters
counters = record {
  Map = Entries;
  with_capacity = λ n. [];
  insert = λ m k a. (k, a) ∷ m;
  get = lookup;
  iter = current;
  get-with_capacity = λ n k. refl;
  get-insert_self = λ m k a. rw (eq_refl k) refl;
  get-insert_ne = lookup-cons_ne;
  In-iter_iff = In-current_iff;
}
