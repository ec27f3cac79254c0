-- ===== src/Table/Routing.antt =====
-- `choose_route` on the table of a snapshot, against the snapshot's own routes.
use argon.Prelude.{
  ◌≡◌, refl, sym, ap, ◌∙◌, subst, ◌↔◌, ◌⊎◌, inl, inr, true, Option, none, some, List, [], ◌∷◌,
  arith, Bool-cases, Option-cases, or_else, ◌==◌, eq_iff, list_eq, keep, In, In-keep,
}
use argon.Text.{Text, codes, to_ascii_lowercase}
use argon.Atomics.{Heap}
use argon.Sort.Best.{In-of_best, best-le, best-eq-none}
use argon.Config.{Snapshot, Route}
use argon.Route.{PathType, parse, RouteRule, rule_cmp, rule_of, rule_matches}
use argon.Route.Order.{Goes, rule_cmp_iff, rule_cmp-IsOrder}
use argon.Route.Buckets.{
  rules_for, rules_for_unknown, rules_for_hit, rules_for_other, best_rule, match_host-build_routes,
}
use argon.Rewrites.{HeaderName}
use argon.Cluster.{Counters}
use argon.Table.{new_table, choose_route}

-- A rule of a host comes from a route of the snapshot with this host, in lower case, and a known type.
abbrev pub ComesFrom : Text → List Route → RouteRule → Type 0
ComesFrom host routes rule =
    (r : Route) × (pt : PathType) × In r routes
    × (to_ascii_lowercase r.host ≡ host)
    × (parse r.path_type ≡ some pt)
    × (rule ≡ rule_of pt r)

ComesFrom-cons :
    (host : Text) (r : Route) (rs : List Route) (rule : RouteRule)
    → ComesFrom host rs rule
    → ComesFrom host (r ∷ rs) rule
ComesFrom-cons host r rs rule (q, pt, m, h, p, same) = (q, pt, inr m, h, p, same)

In-rules_for_cons :
    (host : Text) (r : Route) (rs : List Route) (rule : RouteRule)
    → In rule (rules_for host rs)
    → In rule (rules_for host (r ∷ rs))
In-rules_for_cons host r rs rule m = elim (Option-cases (parse r.path_type)) [
  | inl e ↦ subst (In rule) (sym (rules_for_unknown host r rs e)) m
  | inr (pt, e) ↦ elim (Bool-cases (to_ascii_lowercase r.host == host)) [
    | inl same ↦ subst (In rule) (sym (rules_for_hit host r rs e ((eq_iff _ _).0 same))) (inr m)
    | inr other ↦ subst (In rule) (sym (rules_for_other host r rs other)) m
  ]
]

ComesFrom-of_In :
    (host : Text) (routes : List Route) (rule : RouteRule)
    → In rule (rules_for host routes)
    → ComesFrom host routes rule
unfolding rules_for
ComesFrom-of_In host [] rule m = absurd m
ComesFrom-of_In host (r ∷ rs) rule m = elim (Option-cases (parse r.path_type)) [
  | inl e ↦
      let found =
        ComesFrom-of_In host rs rule (subst (In rule) (rules_for_unknown host r rs e) m) in
      ComesFrom-cons host r rs rule found
  | inr (pt, e) ↦ elim (Bool-cases (to_ascii_lowercase r.host == host)) [
    | inl same ↦
        let at_host = (eq_iff (to_ascii_lowercase r.host) host).0 same in
        elim (subst (In rule) (rules_for_hit host r rs e at_host) m) [
          | inl here ↦ (r, pt, inl refl, at_host, e, sym here)
          | inr there ↦ ComesFrom-cons host r rs rule (ComesFrom-of_In host rs rule there)
        ]
    | inr other ↦
        ComesFrom-cons host r rs rule
          (ComesFrom-of_In host rs rule (subst (In rule) (rules_for_other host r rs other) m))
  ]
]

In-of_ComesFrom :
    (host : Text) (routes : List Route) (rule : RouteRule)
    → ComesFrom host routes rule
    → In rule (rules_for host routes)
In-of_ComesFrom host [] rule (r, pt, m, h, p, same) = absurd m
In-of_ComesFrom host (r ∷ rs) rule (q, pt, inl e, h, p, same) =
    subst (In rule)
      (sym (
        rules_for_hit host r rs (ap (λ (x : Route). parse x.path_type) e ∙ p)
          (ap (λ (x : Route). to_ascii_lowercase x.host) e ∙ h)))
      (inl (ap (rule_of pt) e ∙ sym same))
In-of_ComesFrom host (r ∷ rs) rule (q, pt, inr m, h, p, same) =
    In-rules_for_cons host r rs rule (In-of_ComesFrom host rs rule (q, pt, m, h, p, same))

-- The rules of a host that match a path.
abbrev pub Matches : Text → List Route → Text → RouteRule → Type 0
Matches host routes path rule = ComesFrom host routes rule × (rule_matches path rule ≡ true)

-- No rule of the host matches the path.
abbrev pub Misses : Text → List Route → Text → Type 0
Misses host routes path = (rule : RouteRule) → ¬ Matches host routes path rule

-- The rule matches, and may stand before every rule of the host that matches.
pub record IsBest (host : Text) (routes : List Route) (path : Text) (rule : RouteRule)
    : Type 0 where
  pub matches : Matches host routes path rule
  pub first : (other : RouteRule) → Matches host routes path other → Goes rule other

best_rule-IsBest :
    (host : Text) (routes : List Route) (path : Text) (rule : RouteRule)
    → best_rule (rules_for host routes) path ≡ some rule
    → IsBest host routes path rule
unfolding best_rule
best_rule-IsBest host routes path rule e =
    let kept = keep (rule_matches path) (rules_for host routes) in
    let (m, hit) =
      (In-keep (rule_matches path) (rules_for host routes) rule).0
        (In-of_best rule_cmp kept rule e) in
    record {
      matches = (ComesFrom-of_In host routes rule m, hit);
      first = λ other (from, also). (rule_cmp_iff rule other).0 (
          best-le rule_cmp rule_cmp-IsOrder kept rule other e (
            (In-keep (rule_matches path) (rules_for host routes) other).1
              (In-of_ComesFrom host routes other from, also)));
    }

best_rule-Misses :
    (host : Text) (routes : List Route) (path : Text)
    → best_rule (rules_for host routes) path ≡ none
    → Misses host routes path
unfolding best_rule
best_rule-Misses host routes path e rule (from, hit) =
    let kept = keep (rule_matches path) (rules_for host routes) in
    let m =
      (In-keep (rule_matches path) (rules_for host routes) rule).1
        (In-of_ComesFrom host routes rule from, hit) in
    subst (In rule) (best-eq-none rule_cmp kept e) m

none_of_Misses :
    (host : Text) (routes : List Route) (path : Text)
    → Misses host routes path
    → best_rule (rules_for host routes) path ≡ none
none_of_Misses host routes path miss =
    elim (Option-cases (best_rule (rules_for host routes) path)) [
      | inl e ↦ e
      | inr (rule, e) ↦ absurd (miss rule (best_rule-IsBest host routes path rule e).matches)
    ]

-- The search without a table: the rule that the routes of the host give, or else those without one.
abbrev pub searched : Text → Text → List Route → Option RouteRule
searched host path routes =
    or_else (best_rule (rules_for host routes) path) (best_rule (rules_for (codes "") routes) path)

pub searched-IsBest :
    (host path : Text) (routes : List Route) (rule : RouteRule)
    → searched host path routes ≡ some rule
    → IsBest host routes path rule ⊎ (Misses host routes path × IsBest (codes "") routes path rule)
searched-IsBest host path routes rule found =
    elim (Option-cases (best_rule (rules_for host routes) path)) [
      | inl no_match ↦ inr (
        best_rule-Misses host routes path no_match,
        best_rule-IsBest (codes "") routes path rule (ground arith),
      )
      | inr (r, hit) ↦ inl (best_rule-IsBest host routes path rule (ground arith))
    ]

pub searched-none_iff :
    (host path : Text) (routes : List Route)
    → (searched host path routes ≡ none) ↔ (Misses host routes path × Misses (codes "") routes path)
searched-none_iff host path routes = (
  λ e. (
    best_rule-Misses host routes path (ground arith),
    best_rule-Misses (codes "") routes path (ground arith),
  ),
  λ (m, n). rw (none_of_Misses host routes path m, none_of_Misses (codes "") routes path n) refl,
)

module _ (counters : Counters) (header_name : Text → Option HeaderName) (h : Heap) where
  -- Looking a host and a path up in the sorted buckets of a table gives what a search without
  -- sorting gives: the first of the best matching rules among the snapshot's routes of the host, or
  -- else among those without a host.
  pub choose_route-new_table :
      (snapshot : Snapshot) (host path : Text)
      → choose_route counters (new_table counters header_name h snapshot).1 host path
        ≡ or_else
            (best_rule (rules_for host snapshot.routes) path)
            (best_rule (rules_for (codes "") snapshot.routes) path)
  unfolding choose_route new_table
  choose_route-new_table snapshot host path = rw (
    match_host-build_routes snapshot.routes host path,
    match_host-build_routes snapshot.routes (codes "") path,
  )

  -- If a table built from a snapshot gives a rule for a host and a path, then the rule comes from a
  -- route of that host (its host in lower case) with a known type, matches the path, and may stand
  -- before every other matching rule of the host by priority, path length and type; or no route of
  -- the host matches, and the same holds of the routes without a host.
  pub choose_route-IsBest :
      (snapshot : Snapshot) (host path : Text) (rule : RouteRule)
      → choose_route counters (new_table counters header_name h snapshot).1 host path ≡ some rule
      → IsBest host snapshot.routes path rule
        ⊎ (Misses host snapshot.routes path × IsBest (codes "") snapshot.routes path rule)
  choose_route-IsBest snapshot host path rule e =
      searched-IsBest host path snapshot.routes rule
        (sym (choose_route-new_table snapshot host path) ∙ e)

  -- A table built from a snapshot gives no rule for a host and a path if and only if neither a
  -- route of the host nor a route without a host matches the path.
  pub choose_route-none_iff :
      (snapshot : Snapshot) (host path : Text)
      → (choose_route counters (new_table counters header_name h snapshot).1 host path ≡ none)
        ↔ (Misses host snapshot.routes path × Misses (codes "") snapshot.routes path)
  choose_route-none_iff snapshot host path =
      rw (choose_route-new_table snapshot host path) (searched-none_iff host path snapshot.routes)
