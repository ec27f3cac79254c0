-- ===== src/Table/Reordered.antt =====
-- Two snapshots with the same routes in another order, in `choose_route` of
-- images/dataplane/src/snapshot.rs.
use argon.Prelude.{
  ◌≡◌, refl, sym, ap, subst, ◌↔◌, ◌⊎◌, inl, inr, true, none, some, List, arith, Option-cases,
  eq_iff, list_eq, In,
}
use argon.Text.{Text, codes, len, starts_with}
use argon.Text.Prefix.{starts_with_self, eq_of_starts_with}
use argon.Prelude.Int.{ℤ, pos, negsuc, ◌≤ℤ◌}
use argon.Config.{Route}
use argon.Route.{PathType, prefix, exact, RouteRule, rule_matches}
use argon.Route.Order.{Goes, eq_of_rank}
use argon.Table.Routing.{Matches, Misses, IsBest, searched, searched-IsBest, searched-none_iff}

-- The lists have the same routes, in any order and number.
abbrev pub SameRoutes : List Route → List Route → Type 0
SameRoutes rs rs' = (r : Route) → In r rs ↔ In r rs'

-- The rules differ in their clusters at most.
pub record Ties (a b : RouteRule) : Type 0 where
  pub path : a.path ≡ b.path
  pub path_type : a.path_type ≡ b.path_type
  pub priority : a.priority ≡ b.priority

antisym_ℤ : (a b : ℤ) → a ≤ℤ b → b ≤ℤ a → a ≡ b
antisym_ℤ (pos m) (pos n) h k = ap pos (omega (arith, h, k))
antisym_ℤ (pos m) (negsuc n) h k = absurd (omega (arith, h, k))
antisym_ℤ (negsuc m) (pos n) h k = absurd (omega (arith, h, k))
antisym_ℤ (negsuc m) (negsuc n) h k = ap negsuc (omega (arith, h, k))

Matches-same :
    (host path : Text) (rs rs' : List Route) (rule : RouteRule)
    → SameRoutes rs rs'
    → Matches host rs path rule
    → Matches host rs' path rule
Matches-same host path rs rs' rule same ((r, pt, m, h, p, e), hit) =
    ((r, pt, (same r).0 m, h, p, e), hit)

SameRoutes-sym : (rs rs' : List Route) → SameRoutes rs rs' → SameRoutes rs' rs
SameRoutes-sym rs rs' same r = ((same r).1, (same r).0)

module _ (path : Text) where
  -- The rules that match one path and are as long have the same path.
  eq_of_rule_matches :
      (a b : RouteRule)
      → rule_matches path a ≡ true
      → rule_matches path b ≡ true
      → len a.path ≡ len b.path
      → a.path ≡ b.path
  unfolding rule_matches
  eq_of_rule_matches a b h k e =
      eq_of_starts_with path a.path b.path (is_prefix a h) (is_prefix b k) e
    where
      is_prefix : (r : RouteRule) → rule_matches path r ≡ true → starts_with path r.path ≡ true
      is_prefix r hit = by_type r.path_type refl
        where
          by_type : (t : PathType) → r.path_type ≡ t → starts_with path r.path ≡ true
          by_type exact e =
              subst (λ q. starts_with path q ≡ true) (sym ((eq_iff r.path path).0 (ground arith)))
                (starts_with_self path)
          by_type prefix e = ground arith

  Ties-of_IsBest :
      (host : Text) (rs rs' : List Route) (a b : RouteRule)
      → SameRoutes rs rs'
      → IsBest host rs path a
      → IsBest host rs' path b
      → Ties a b
  Ties-of_IsBest host rs rs' a b same best best' =
      let back = SameRoutes-sym rs rs' same in
      let go : Goes a b = best.first b (Matches-same host path rs' rs b back best'.matches) in
      let come : Goes b a = best'.first a (Matches-same host path rs rs' a same best.matches) in
      let as_long : len a.path ≡ len b.path = ground arith in
      record {
        path = eq_of_rule_matches a b best.matches.1 best'.matches.1 as_long;
        path_type = eq_of_rank a.path_type b.path_type (ground arith) (ground arith);
        priority = antisym_ℤ a.priority b.priority (ground arith) (ground arith);
      }

  Misses-same :
      (host : Text) (rs rs' : List Route)
      → SameRoutes rs rs'
      → Misses host rs path
      → Misses host rs' path
  Misses-same host rs rs' same miss rule hit =
      miss rule (Matches-same host path rs' rs rule (SameRoutes-sym rs rs' same) hit)

  none-same :
      (host : Text) (rs rs' : List Route)
      → SameRoutes rs rs'
      → searched host path rs ≡ none
      → searched host path rs' ≡ none
  none-same host rs rs' same gone =
      let (m, n) = (searched-none_iff host path rs).0 gone in
      (searched-none_iff host path rs').1
        (Misses-same host rs rs' same m, Misses-same (codes "") rs rs' same n)

  -- The best rules of the host, or of the routes without a host, whichever the search uses.
  abbrev Best : List Route → Text → RouteRule → Type 0
  Best rs host a = IsBest host rs path a ⊎ (Misses host rs path × IsBest (codes "") rs path a)

  Ties-of_Best :
      (rs rs' : List Route) (host : Text) (a b : RouteRule)
      → SameRoutes rs rs'
      → Best rs host a
      → Best rs' host b
      → Ties a b
  Ties-of_Best rs rs' host a b same (inl best) (inl best') =
      Ties-of_IsBest host rs rs' a b same best best'
  Ties-of_Best rs rs' host a b same (inl best) (inr (miss, best')) =
      absurd (miss a (Matches-same host path rs rs' a same best.matches))
  Ties-of_Best rs rs' host a b same (inr (miss, best)) (inl best') =
      let back = SameRoutes-sym rs rs' same in
      absurd (miss b (Matches-same host path rs' rs b back best'.matches))
  Ties-of_Best rs rs' host a b same (inr (miss, best)) (inr (miss', best')) =
      Ties-of_IsBest (codes "") rs rs' a b same best best'

  -- For the same routes, in any order and number, both searches give no rule, or they give rules of
  -- the same path, type and priority.
  pub searched-same :
      (host : Text) (rs rs' : List Route)
      → SameRoutes rs rs'
      → ((searched host path rs ≡ none) × (searched host path rs' ≡ none))
        ⊎ ((a : RouteRule) × (b : RouteRule) × (searched host path rs ≡ some a)
            × (searched host path rs' ≡ some b)
            × Ties a b)
  searched-same host rs rs' same = elim (Option-cases (searched host path rs)) [
    | inl gone ↦ inl (gone, none-same host rs rs' same gone)
    | inr (a, got) ↦ elim (Option-cases (searched host path rs')) [
      | inl gone ↦ absurd (ground (arith, none-same host rs' rs (SameRoutes-sym rs rs' same) gone))
      | inr (b, got') ↦ inr (
        a,
        b,
        got,
        got',
        Ties-of_Best rs rs' host a b same (searched-IsBest host path rs a got)
            (searched-IsBest host path rs' b got'),
      )
    ]
  ]
