-- ===== src/Tests/Routing.antt =====
-- Routing of the sample snapshot.
use argon.Prelude.{
  list_beq, ◌≡◌, refl, ap, ◌↔◌, ◌⊎◌, inl, inr, none, some, ◌∷◌, or_else, nat_eq, list_eq,
}
use argon.Text.{codes, to_ascii_lowercase, len, starts_with}
use argon.Prelude.Int.{pos}
use argon.HashMap.{get, modify, map_values}
use argon.Config
use argon.Config.{Snapshot}
use mathlib.Core.Quot
use argon.Table.Reordered.{SameRoutes}
use argon.Table.RouteSet.{shape_for}
use argon.Cluster.{ClusterRule}
use argon.Sort.{sort_by}
use argon.Route.{exact, RouteRule, parse, rule_cmp, build_routes, rule_matches, match_host}
use argon.Route.Buckets.{rules_for, best_rule}
use argon.Table.{RouteTable, new_table, choose_route, get_cluster_rules}
use argon.Table.Routing.{
  IsBest, Misses, choose_route-IsBest, choose_route-none_iff, choose_route-new_table,
}
use argon.Table.Built.{Describes}
use argon.Table.Lookup.{last_cluster, get_cluster_rules-new_table}
use argon.Tests.Maps.{counters}
use argon.Tests.Network.{http}
use argon.Tests.Samples.{web_site, sample_routes, sample_snapshot, no_cells}

abbrev table : RouteTable counters
table = (new_table counters http.header_name no_cells sample_snapshot).1

abbrev index_rule : RouteRule
index_rule = record {
  path = codes "/api";
  path_type = exact;
  cluster = codes "index";
  priority = pos 0;
}

choose_index : choose_route counters table web_site (codes "/api") ≡ some index_rule
unfolding new_table choose_route match_host build_routes map_values get modify list_beq parse
    to_ascii_lowercase sort_by rule_cmp len rule_matches starts_with
choose_index = refl

choose_route-IsBest_example :
    IsBest web_site sample_routes (codes "/api") index_rule
    ⊎ (Misses web_site sample_routes (codes "/api")
        × IsBest (codes "") sample_routes (codes "/api") index_rule)
choose_route-IsBest_example =
    choose_route-IsBest counters http.header_name no_cells sample_snapshot web_site (codes "/api")
      index_rule choose_index

choose_route-none_iff_example : (choose_route counters table web_site (codes "/api") ≡ none) ↔ (
    Misses web_site sample_routes (codes "/api") × Misses (codes "") sample_routes (codes "/api"))
choose_route-none_iff_example =
    choose_route-none_iff counters http.header_name no_cells sample_snapshot web_site (codes "/api")

choose_route-new_table_example :
    choose_route counters table web_site (codes "/api")
    ≡ or_else
        (best_rule (rules_for web_site sample_routes) (codes "/api"))
        (best_rule (rules_for (codes "") sample_routes) (codes "/api"))
choose_route-new_table_example =
    choose_route-new_table counters http.header_name no_cells sample_snapshot web_site
      (codes "/api")

get_cluster_rules-new_table_example :
    ((last_cluster (codes "web") sample_snapshot.clusters ≡ none)
      × (get_cluster_rules counters table (codes "web") ≡ none))
    ⊎ ((c : Config.Cluster) × (rule : ClusterRule counters) × (last_cluster
            (codes "web")
            sample_snapshot.clusters
          ≡ some c)
        × (get_cluster_rules counters table (codes "web") ≡ some rule)
        × Describes counters http.header_name 0 c rule)
get_cluster_rules-new_table_example =
    get_cluster_rules-new_table counters http.header_name no_cells sample_snapshot (codes "web")

-- The first two routes change their places.
abbrev swapped : Snapshot
swapped = record sample_snapshot {
  routes = elim sample_routes [ r ∷ (r' ∷ rs) ↦ r' ∷ r ∷ rs | rs ↦ rs ];
}

swapped-SameRoutes : SameRoutes sample_snapshot.routes swapped.routes
swapped-SameRoutes r = (
  λ m. elim m [ inl e ↦ inr (inl e) | inr (inl e) ↦ inl e | inr (inr m') ↦ inr (inr m') ],
  λ m. elim m [ inl e ↦ inr (inl e) | inr (inl e) ↦ inl e | inr (inr m') ↦ inr (inr m') ],
)

-- The other order gives the same set, and so a rule of the same shape.
swapped_shape :
    shape_for web_site (codes "/api") (Quot.mk sample_snapshot.routes)
    ≡ shape_for web_site (codes "/api") (Quot.mk swapped.routes)
swapped_shape = ap (shape_for web_site (codes "/api")) (Quot.sound swapped-SameRoutes)
