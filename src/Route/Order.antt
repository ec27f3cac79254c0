-- ===== src/Route/Order.antt =====
-- The comparison of routes in `RouteTable::new` of images/dataplane/src/snapshot.rs, and its order.
use argon.Prelude.{ℕ, ◌≤◌, ◌<◌, compare, ◌≡◌, refl, ◌↔◌, ◌⊎◌, false, arith}
use argon.Text.{len}
use argon.Prelude.Int.{◌≤ℤ◌}
use argon.Sort.{is_gt, IsOrder}
use argon.Route.{PathType, prefix, exact, RouteRule, cmp_type, rule_cmp}

-- The rank of a type: `cmp_type` compares ranks.
abbrev pub type_rank : PathType → ℕ
type_rank exact = 0
type_rank prefix = 1

pub eq_of_rank : (a b : PathType) → type_rank a ≤ type_rank b → type_rank b ≤ type_rank a → a ≡ b
eq_of_rank prefix prefix h k = refl
eq_of_rank prefix exact h k = absurd (omega (arith, h))
eq_of_rank exact prefix h k = absurd (omega (arith, k))
eq_of_rank exact exact h k = refl

cmp_type-rank : (a b : PathType) → cmp_type a b ≡ compare (type_rank a) (type_rank b)
cmp_type-rank prefix prefix = refl
cmp_type-rank prefix exact = refl
cmp_type-rank exact prefix = refl
cmp_type-rank exact exact = refl

-- `a` may stand before `b`: it has the higher priority, or the same and the longer path, or both the
-- same and it is exact or `b` is a prefix.
abbrev pub Goes : RouteRule → RouteRule → Type 0
Goes a b =
    (¬ (a.priority ≤ℤ b.priority))
    ⊎ ((a.priority ≤ℤ b.priority)
        × (b.priority ≤ℤ a.priority)
        × ((len b.path < len a.path)
            ⊎ ((len b.path ≡ len a.path) × (type_rank a.path_type ≤ type_rank b.path_type))))

-- The comparison lets one rule stand before another if and only if its priority is higher, or the
-- priorities are equal and its path is longer in bytes, or both are equal and it is not a prefix
-- rule before an exact one.
pub rule_cmp_iff : (a b : RouteRule) → (is_gt (rule_cmp a b) ≡ false) ↔ Goes a b
unfolding rule_cmp
rule_cmp_iff a b = rw cmp_type-rank (ground arith)

Goes-trans : (a b c : RouteRule) → Goes a b → Goes b c → Goes a c
Goes-trans a b c h k = ground arith

-- The comparison of rules is a total preorder, as a sort demands it of its comparison.
pub rule_cmp-IsOrder : IsOrder rule_cmp
rule_cmp-IsOrder = record {
  total = λ a b h. ground (arith, rule_cmp_iff a b, rule_cmp_iff b a);
  trans = λ a b c h k.
      (rule_cmp_iff a c).1 (Goes-trans a b c ((rule_cmp_iff a b).0 h) ((rule_cmp_iff b c).0 k));
}
