-- ===== src/Table/Cases.antt =====
-- Letter case in the lookups of the table (images/dataplane/src/snapshot.rs).
use argon.Prelude.{◌≡◌, refl, ◌∙◌, inl, inr, Option, none, List, [], ◌∷◌, arith, list_eq}
use argon.Text.{Text, codes}
use argon.Text.Ascii.{HasUpper, differs}
use argon.Atomics.{Heap}
use argon.Sort.{best}
use argon.Config
use argon.Config.{Snapshot, Route}
use argon.Route.Buckets.{rules_for, best_rule, rules_for_other}
use argon.Rewrites.{HeaderName}
use argon.Cluster.{Counters}
use argon.Table.{new_table, choose_route, get_cluster_rules}
use argon.Table.Lookup.{is_named, last_cluster, get_cluster_rules-new_table}
use argon.Table.Routing.{choose_route-new_table}

rules_for-HasUpper :
    (host : Text) (routes : List Route) → HasUpper host → rules_for host routes ≡ []
unfolding rules_for
rules_for-HasUpper host [] up = refl
rules_for-HasUpper host (r ∷ rs) up =
    rules_for_other host r rs (differs r.host host up) ∙ rules_for-HasUpper host rs up

module _ (counters : Counters) (header_name : Text → Option HeaderName) where
  -- A host with an upper-case letter reaches none of the routes of its host: it is routed by the
  -- routes without a host alone.
  pub choose_route-HasUpper :
      (h : Heap) (snapshot : Snapshot) (host path : Text)
      → HasUpper host
      → choose_route counters (new_table counters header_name h snapshot).1 host path
        ≡ best_rule (rules_for (codes "") snapshot.routes) path
  unfolding best_rule
  choose_route-HasUpper h snapshot host path up =
      choose_route-new_table counters header_name h snapshot host path
      ∙ rw (rules_for-HasUpper host snapshot.routes up) (unfold best in refl)

  last_cluster-HasUpper :
      (name : Text) (cs : List Config.Cluster) → HasUpper name → last_cluster name cs ≡ none
  unfolding last_cluster is_named
  last_cluster-HasUpper name [] up = refl
  last_cluster-HasUpper name (c ∷ cs) up =
      ground (arith, last_cluster-HasUpper name cs up, differs c.name name up)

  -- In a table built from a snapshot, a cluster name with an upper-case letter finds nothing, even
  -- if the snapshot has a cluster of exactly this name.
  pub get_cluster_rules-HasUpper :
      (h : Heap) (snapshot : Snapshot) (name : Text)
      → HasUpper name
      → get_cluster_rules counters (new_table counters header_name h snapshot).1 name ≡ none
  get_cluster_rules-HasUpper h snapshot name up =
      elim (get_cluster_rules-new_table counters header_name h snapshot name) [
        | inl (_, gone) ↦ gone
        | inr (c, rule, e, got, d) ↦
            absurd (ground (arith, last_cluster-HasUpper name snapshot.clusters up))
      ]
