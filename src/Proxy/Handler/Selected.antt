-- ===== src/Proxy/Handler/Selected.antt =====
-- What a selection of `proxy_handler` in images/dataplane/src/proxy.rs is made of.
use argon.Prelude.{ℕ, ◌≡◌, sym, ap, ◌∙◌, subst, inl, inr, some, arith, nat_eq, list_eq}
use argon.Atomics.{Address, Heap}
use argon.Route.{RouteRule}
use argon.Cluster.{Counters, pick_endpoint}
use argon.Table.{RouteTable, get_cluster_rules}
use argon.Http.{Http, Request, Response, Result, ok, err}
use argon.Proxy.Handler.{Selection, select_upstream}
use argon.Proxy.Handler.Lookups.{Routed}
use argon.Proxy.Handler.Selecting.{select_upstream-cases}

module _ (http : Http) (counters : Counters) (seen : Address → ℕ) (h : Heap)
    (table : RouteTable counters) (req : Request http) where
  abbrev Outcome : Type 0
  Outcome = Heap × Result (Selection http counters) (Response http)

  -- The route of the request's host and path names the cluster, whose policy picks the endpoint.
  pub record IsSelected (h' : Heap) (sel : Selection http counters) : Type 0 where
    pub rule : RouteRule
    pub routed : Routed http counters seen h table req sel.host rule
    pub found : get_cluster_rules counters table rule.cluster ≡ some sel.cluster
    pub picked : pick_endpoint counters seen h sel.cluster ≡ (h', some sel.selected)

  pub select_upstream-IsSelected :
      (h' : Heap) (sel : Selection http counters)
      → select_upstream http counters seen h table req ≡ (h', ok sel)
      → IsSelected h' sel
  select_upstream-IsSelected h' sel e =
      elim (select_upstream-cases http counters seen h table req) [
        | inl (resp, _, o) ↦ absurd (clash resp (sym o ∙ e))
        | inr (inl (host, _, _, o)) ↦ absurd (clash _ (sym o ∙ e))
        | inr (inr (inl (host, rule, _, _, o))) ↦ absurd (clash _ (sym o ∙ e))
        | inr (inr (inr (inl (host, rule, cluster, _, _, _, o)))) ↦ absurd (clash _ (sym o ∙ e))
        | inr (inr (inr (inr (host, rule, cluster, picked, routed, found, p, o)))) ↦
            let q = sym o ∙ e in
            subst (IsSelected h') (ap selection_of q) (record {
              rule = rule;
              routed = routed;
              found = found;
              picked = ground (arith, ap (λ (t : Outcome). t.0) q, p);
            })
      ]
    where
      clash : {h'' : Heap} (resp : Response http) → Path Outcome (h'', err resp) (h', ok sel) → ⊥
      clash resp p = ground (arith, ap (λ (t : Outcome). t.1) p)

      selection_of : Outcome → Selection http counters
      selection_of (h'', err resp) = sel
      selection_of (h'', ok s) = s
