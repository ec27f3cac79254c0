-- ===== src/Proxy/Handler/Selecting.antt =====
-- The part of `proxy_handler` of images/dataplane/src/proxy.rs under the read lock.
use argon.Prelude.{ℕ, ◌≡◌, refl, ◌⊎◌, inl, inr, none, some, [], Option-cases, nat_eq, list_eq}
use argon.Text.{Text, codes}
use argon.Atomics.{Address, Heap}
use argon.Route.{RouteRule}
use argon.Cluster.{Counters, ClusterRule, SelectedEndpoint, pick_endpoint}
use argon.Cluster.Policy.{pick_endpoint-none_iff}
use argon.Table.{RouteTable, choose_route, get_cluster_rules}
use argon.Http.{Http, Request, Response, Result, ok, err}
use argon.Proxy.Reply.{text}
use argon.Proxy.Resolve.{extract_host}
use argon.Proxy.Handler.Lookups.{Routed, select-host, select-rule, select-cluster, select-endpoint}
use argon.Proxy.Handler.{Selection, select_upstream}

module _ (http : Http) (counters : Counters) (seen : Address → ℕ) (h : Heap)
    (table : RouteTable counters) (req : Request http) where
  abbrev Outcome : Type 0
  Outcome = Heap × Result (Selection http counters) (Response http)

  -- No host, no route, no cluster of the route's name, no endpoint in the cluster, or a selection.
  abbrev pub NoHost : Outcome → Type 0
  NoHost o = (resp : Response http) × (extract_host http req ≡ err resp) × (o ≡ (h, err resp))

  abbrev pub NoRoute : Outcome → Type 0
  NoRoute o =
      (host : Text) × (extract_host http req ≡ ok host)
      × (choose_route counters table host (http.uri_path req.uri) ≡ none)
      × (o ≡ (h, err (text http 404 (codes "route not found"))))

  abbrev pub NoCluster : Outcome → Type 0
  NoCluster o =
      (host : Text) × (rule : RouteRule) × Routed http counters seen h table req host rule
      × (get_cluster_rules counters table rule.cluster ≡ none)
      × (o ≡ (h, err (text http 404 (codes "cluster rules not found"))))

  abbrev pub NoEndpoint : Outcome → Type 0
  NoEndpoint o =
      (host : Text) × (rule : RouteRule) × (cluster : ClusterRule counters) × Routed http counters
        seen h table req host rule
      × (get_cluster_rules counters table rule.cluster ≡ some cluster)
      × (cluster.endpoints ≡ [])
      × (o ≡ (
        (pick_endpoint counters seen h cluster).0,
        err (text http 502 (codes "endpoint not found")),
      ))

  abbrev pub Selects : Outcome → Type 0
  Selects o =
      (host : Text) × (rule : RouteRule) × (cluster : ClusterRule counters)
      × (sel : SelectedEndpoint) × Routed http counters seen h table req host rule
      × (get_cluster_rules counters table rule.cluster ≡ some cluster)
      × ((pick_endpoint counters seen h cluster).1 ≡ some sel)
      × (o ≡ (
        (pick_endpoint counters seen h cluster).0,
        ok (record { host = host; cluster = cluster; selected = sel }),
      ))

  Result-split :
      (r : Result Text (Response http))
      → ((resp : Response http) × (r ≡ err resp)) ⊎ ((host : Text) × (r ≡ ok host))
  Result-split (ok host) = inr (host, refl)
  Result-split (err resp) = inl (resp, refl)

  -- The part of the handler under the read lock has exactly these outcomes: the reply of the host
  -- extraction; a 404 if no route matches; a 404 if the table has no cluster of the route's name; a
  -- 502 if the cluster has no endpoint; or the endpoint that the policy picks, with the heap as the
  -- pick left it.
  pub select_upstream-cases :
      NoHost (select_upstream http counters seen h table req)
      ⊎ NoRoute (select_upstream http counters seen h table req)
      ⊎ NoCluster (select_upstream http counters seen h table req)
      ⊎ NoEndpoint (select_upstream http counters seen h table req)
      ⊎ Selects (select_upstream http counters seen h table req)
  select_upstream-cases = elim (Result-split (extract_host http req)) [
    | inl (resp, e) ↦ inl (resp, e, select-host http counters seen h table req (err resp) e)
    | inr (host, e) ↦
        elim (Option-cases (choose_route counters table host (http.uri_path req.uri))) [
          | inl r ↦ inr (inl (host, e, r, select-rule http counters seen h table req host none e r))
          | inr (rule, r) ↦ elim (Option-cases (get_cluster_rules counters table rule.cluster)) [
            | inl c ↦ inr (
                inr (
                  inl (
                    host,
                    rule,
                    (e, r),
                    c,
                    select-cluster http counters seen h table req host rule none (e, r) c,
                  )))
            | inr (cluster, c) ↦ elim (Option-cases (pick_endpoint counters seen h cluster).1) [
              | inl p ↦ inr (
                  inr (
                    inr (
                      inl (
                        host,
                        rule,
                        cluster,
                        (e, r),
                        c,
                        (pick_endpoint-none_iff counters seen h cluster).0 p,
                        select-endpoint http counters seen h table req host rule cluster none (e, r)
                            c p,
                      ))))
              | inr (sel, p) ↦ inr (
                  inr (
                    inr (
                      inr (
                        host,
                        rule,
                        cluster,
                        sel,
                        (e, r),
                        c,
                        p,
                        select-endpoint http counters seen h table req host rule cluster (some sel)
                            (e, r) c p,
                      ))))
            ]
          ]
        ]
  ]
