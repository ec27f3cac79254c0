-- ===== src/Route.antt =====
-- images/dataplane/src/snapshot.rs: the routes of a snapshot, in buckets by host, each sorted for the
-- first match (`RouteRule`, `PathType`, and the route half of `RouteTable::new`).
pub mod Order
pub mod Buckets
use argon.Prelude.{
  compare, Ordering, Bool, Option, none, some, List, [], ◌∷◌, ◌++◌, if◌then◌else◌, ◌==◌, list_eq,
  find,
}
use argon.Text.{Text, codes, len, to_ascii_lowercase, starts_with}
use argon.Prelude.Int.{ℤ, cmp_ℤ}
use argon.HashMap.{HashMap, get, modify, map_values}
use argon.Sort.{then_with, sort_by}
use argon.Config.{Route}

pub data PathType : Type 0 where
  prefix exact : PathType

unfoldable pub parse : Text → Option PathType
parse s =
    if s == codes "Prefix" then some prefix else if s == codes "Exact" then some exact else none

pub record RouteRule : Type 0 where
  pub path : Text
  pub path_type : PathType
  pub cluster : Text
  pub priority : ℤ

-- The last part of the comparison: an exact path goes before a prefix.
abbrev pub cmp_type : PathType → PathType → Ordering
cmp_type exact prefix = Ordering.lt
cmp_type prefix exact = Ordering.gt
cmp_type _ _ = Ordering.eq

-- The comparison of `sort_by`: higher priority, then longer path, then the type.
unfoldable pub rule_cmp : RouteRule → RouteRule → Ordering
rule_cmp a b =
    then_with (then_with (cmp_ℤ b.priority a.priority) (compare (len b.path) (len a.path)))
      (cmp_type a.path_type b.path_type)

abbrev pub rule_of : PathType → Route → RouteRule
rule_of pt r = record { path = r.path; path_type = pt; cluster = r.cluster; priority = r.priority }

-- One round of the loop over `snapshot.routes`.
push_route : HashMap Text (List RouteRule) → Route → HashMap Text (List RouteRule)
push_route buckets r = elim (parse r.path_type) [
  | none ↦ buckets
  | some pt ↦ modify buckets (to_ascii_lowercase r.host) [] (λ rules. rules ++ rule_of pt r ∷ [])
]

fill_buckets : HashMap Text (List RouteRule) → List Route → HashMap Text (List RouteRule)
fill_buckets buckets [] = buckets
fill_buckets buckets (r ∷ rs) = fill_buckets (push_route buckets r) rs

unfoldable pub build_routes : List Route → HashMap Text (List RouteRule)
unfolding fill_buckets push_route
build_routes routes = map_values (sort_by rule_cmp) (fill_buckets [] routes)

-- The test of `match_in_bucket`.
unfoldable pub rule_matches : Text → RouteRule → Bool
rule_matches path r = elim r.path_type [ exact ↦ r.path == path | prefix ↦ starts_with path r.path ]

unfoldable pub match_in_bucket : List RouteRule → Text → Option RouteRule
unfolding rule_matches
match_in_bucket rules path = find (rule_matches path) rules

-- `if let Some(rules) = self.routes_by_host.get(host)` with the search in it, a step of `choose_route`.
unfoldable pub match_host : HashMap Text (List RouteRule) → Text → Text → Option RouteRule
unfolding match_in_bucket
match_host routes_by_host host path = elim (get routes_by_host host) [
  | none ↦ none
  | some rules ↦ match_in_bucket rules path
]
