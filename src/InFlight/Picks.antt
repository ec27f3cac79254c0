-- ===== src/InFlight/Picks.antt =====
-- What `select_upstream` does to the heap: the lookups of images/dataplane/src/proxy.rs under the lock.
use argon.Prelude.{ℕ, ◌≡◌, ap, ◌⊎◌, inl, inr, some, nat_eq, list_eq}
use argon.Text.{Text}
use argon.Atomics.{Address, Heap}
use argon.Cluster.{Counters, ClusterRule}
use argon.Cluster.Cursor.{IsTurned, pick_endpoint-IsTurned}
use argon.Table.{RouteTable, get_cluster_rules}
use argon.Http.{Http, Request, Response, Result}
use argon.Proxy.Handler.{Selection, select_upstream}
use argon.Proxy.Handler.Selecting.{select_upstream-cases}

module _ (http : Http) (counters : Counters) where
  abbrev Outcome : Type 0
  Outcome = Heap × Result (Selection http counters) (Response http)

  -- The selection has moved nothing, or the cursor of a cluster that the table finds.
  pub record Picks (h : Heap) (table : RouteTable counters) (o : Outcome) : Type 0 where
    pub name : Text
    pub cluster : ClusterRule counters
    pub found : get_cluster_rules counters table name ≡ some cluster
    pub turned : IsTurned counters h cluster o.0

  pub select-Picks :
      (seen : Address → ℕ) (h : Heap) (table : RouteTable counters) (req : Request http)
      → ((select_upstream http counters seen h table req).0 ≡ h)
        ⊎ Picks h table (select_upstream http counters seen h table req)
  select-Picks seen h table req = elim (select_upstream-cases http counters seen h table req) [
    | inl (resp, _, o) ↦ inl (ap (λ (t : Outcome). t.0) o)
    | inr (inl (host, _, _, o)) ↦ inl (ap (λ (t : Outcome). t.0) o)
    | inr (inr (inl (host, rule, _, _, o))) ↦ inl (ap (λ (t : Outcome). t.0) o)
    | inr (inr (inr (inl (host, rule, cluster, _, found, _, o)))) ↦ inr (record {
      name = rule.cluster;
      cluster = cluster;
      found = found;
      turned = rw o (pick_endpoint-IsTurned counters h cluster seen);
    })
    | inr (inr (inr (inr (host, rule, cluster, sel, _, found, _, o)))) ↦ inr (record {
      name = rule.cluster;
      cluster = cluster;
      found = found;
      turned = rw o (pick_endpoint-IsTurned counters h cluster seen);
    })
  ]
