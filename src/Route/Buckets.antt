-- ===== src/Route/Buckets.antt =====
-- The bucket of a host (images/dataplane/src/snapshot.rs) against the snapshot's routes.
use argon.Prelude.{
  ◌≡◌, sym, ◌∙◌, inl, inr, false, Option, none, some, List, [], ◌∷◌, ◌++◌, append_assoc, append-nil,
  arith, if◌then◌else◌, Option-cases, unwrap_or, ◌==◌, eq_iff, list_eq, keep,
}
use argon.Text.{Text, to_ascii_lowercase}
use argon.HashMap.{HashMap, get, get-modify, get-map_values}
use argon.Sort.{sort_by, best}
use argon.Sort.Best.{find-sort_by}
use argon.Config.{Route}
use argon.Route.{
  PathType, parse, RouteRule, rule_cmp, rule_of, push_route, fill_buckets, build_routes,
  rule_matches, match_host,
}
use argon.Route.Order.{rule_cmp-IsOrder}

-- The rules of a snapshot for a host, in the snapshot's order: the routes whose host is this one when
-- written in lower case, and whose type is known.
unfoldable pub rules_for : Text → List Route → List RouteRule
rules_for host [] = []
rules_for host (r ∷ rs) = elim (parse r.path_type) [
  | none ↦ rules_for host rs
  | some pt ↦
      if to_ascii_lowercase r.host == host
      then rule_of pt r ∷ rules_for host rs
      else rules_for host rs
]

-- The rule that a host's routes give for a path: of those that match, the first of the least by
-- `rule_cmp`.
unfoldable pub best_rule : List RouteRule → Text → Option RouteRule
best_rule rules path = best rule_cmp (keep (rule_matches path) rules)

rules_for-cons :
    (host : Text) (r : Route) (rs : List Route)
    → rules_for host (r ∷ rs) ≡ rules_for host (r ∷ []) ++ rules_for host rs
unfolding rules_for
rules_for-cons host r rs = ground arith

module _ (host : Text) (r : Route) (rs : List Route) where
  pub rules_for_unknown : parse r.path_type ≡ none → rules_for host (r ∷ rs) ≡ rules_for host rs
  unfolding rules_for
  rules_for_unknown e = ground arith

  pub rules_for_hit :
      {pt : PathType}
      → parse r.path_type ≡ some pt
      → to_ascii_lowercase r.host ≡ host
      → rules_for host (r ∷ rs) ≡ rule_of pt r ∷ rules_for host rs
  unfolding rules_for
  rules_for_hit e same = ground (arith, eq_iff (to_ascii_lowercase r.host) host)

  pub rules_for_other :
      (to_ascii_lowercase r.host == host) ≡ false → rules_for host (r ∷ rs) ≡ rules_for host rs
  unfolding rules_for
  rules_for_other other = ground arith

get-push_route :
    (buckets : HashMap Text (List RouteRule)) (r : Route) (host : Text)
    → unwrap_or (get (push_route buckets r) host) []
      ≡ unwrap_or (get buckets host) [] ++ rules_for host (r ∷ [])
unfolding push_route rules_for
get-push_route buckets r host = elim (Option-cases (parse r.path_type)) [
  | inl e ↦ ground (arith, append-nil (unwrap_or (get buckets host) []))
  | inr (pt, e) ↦ ground (
    arith,
    append-nil (unwrap_or (get buckets host) []),
    eq_iff (to_ascii_lowercase r.host) host,
    get-modify buckets (to_ascii_lowercase r.host) host [] (λ rules. rules ++ rule_of pt r ∷ []),
  )
]

get-fill_buckets :
    (buckets : HashMap Text (List RouteRule)) (routes : List Route) (host : Text)
    → unwrap_or (get (fill_buckets buckets routes) host) []
      ≡ unwrap_or (get buckets host) [] ++ rules_for host routes
unfolding fill_buckets
get-fill_buckets buckets [] host = unfold rules_for in sym (append-nil _)
get-fill_buckets buckets (r ∷ rs) host =
    get-fill_buckets (push_route buckets r) rs host
    ∙ simp (get-push_route, rules_for-cons host r rs, append_assoc)

-- The first match in a host's sorted bucket is the best rule of the snapshot's routes for the host.
pub match_host-build_routes :
    (routes : List Route) (host path : Text)
    → match_host (build_routes routes) host path ≡ best_rule (rules_for host routes) path
unfolding match_host build_routes best_rule best rules_for get
match_host-build_routes routes host path =
    let filled : unwrap_or (get (fill_buckets [] routes) host) [] ≡ rules_for host routes =
      get-fill_buckets [] routes host in
    elim (Option-cases (get (fill_buckets [] routes) host)) [
      | inl e ↦
          ground (arith, filled, get-map_values (sort_by rule_cmp) (fill_buckets [] routes) host)
      | inr (rules, e) ↦ ground (
        arith,
        filled,
        get-map_values (sort_by rule_cmp) (fill_buckets [] routes) host,
        find-sort_by rule_cmp rule_cmp-IsOrder (rule_matches path) rules,
      )
    ]
