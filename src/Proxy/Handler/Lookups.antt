-- ===== src/Proxy/Handler/Lookups.antt =====
-- The lookups of `proxy_handler` in images/dataplane/src/proxy.rs, one after the other.
use argon.Prelude.{ℕ, ◌≡◌, refl, ap, ◌∙◌, Option, some, nat_eq, list_eq}
use argon.Text.{Text, codes}
use argon.Atomics.{Address, Heap}
use argon.Route.{RouteRule}
use argon.Cluster.{Counters, ClusterRule, SelectedEndpoint, pick_endpoint}
use argon.Table.{RouteTable, choose_route, get_cluster_rules, get_endpoint}
use argon.Http.{Http, Request, Response, Result, ok, err, ◌>>=◌}
use argon.Proxy.Reply.{text}
use argon.Proxy.Resolve.{or_reply, extract_host, resolve_route, resolve_cluster, resolve_endpoint}
use argon.Proxy.Handler.{Selection, find_cluster, select_upstream}

module _ (http : Http) (counters : Counters) (seen : Address → ℕ) (h : Heap)
    (table : RouteTable counters) (req : Request http) where
  abbrev Outcome : Type 0
  Outcome = Heap × Result (Selection http counters) (Response http)

  abbrev pub Routed : Text → RouteRule → Type 0
  Routed host rule =
      (extract_host http req ≡ ok host)
      × (choose_route counters table host (http.uri_path req.uri) ≡ some rule)

  -- The steps of the selection, each as a function of what its lookup gives.
  abbrev pub with_cluster :
      Text
      → RouteRule
      → Option (ClusterRule counters)
      → Result (Text × RouteRule × ClusterRule counters) (Response http)
  with_cluster host rule found =
      or_reply http found (text http 404 (codes "cluster rules not found"))
      >>= (λ cluster. ok (host, rule, cluster))

  abbrev pub with_rule :
      Text → Option RouteRule → Result (Text × RouteRule × ClusterRule counters) (Response http)
  with_rule host found =
      or_reply http found (text http 404 (codes "route not found"))
      >>= (λ rule. with_cluster host rule (get_cluster_rules counters table rule.cluster))

  abbrev pub with_host :
      Result Text (Response http) → Result (Text × RouteRule × ClusterRule counters) (Response http)
  with_host found =
      found >>= (λ host. with_rule host (choose_route counters table host (http.uri_path req.uri)))

  abbrev pub with_endpoint : Text → ClusterRule counters → Heap × Option SelectedEndpoint → Outcome
  with_endpoint host cluster q = (
    q.0,
    or_reply http q.1 (text http 502 (codes "endpoint not found"))
        >>= (λ sel. ok (record { host = host; cluster = cluster; selected = sel })),
  )

  abbrev pub with_found : Result (Text × RouteRule × ClusterRule counters) (Response http) → Outcome
  with_found (err resp) = (h, err resp)
  with_found (ok (host, rule, cluster)) =
      with_endpoint host cluster (get_endpoint counters seen h table rule.cluster)

  select_upstream_lem :
      select_upstream http counters seen h table req
      ≡ with_found (with_host (extract_host http req))
  unfolding select_upstream find_cluster resolve_route resolve_cluster resolve_endpoint
  select_upstream_lem = by_found (find_cluster http counters table req)
    where
      by_found :
          (r : Result (Text × RouteRule × ClusterRule counters) (Response http))
          → elim r [
            | err resp ↦ (h, err resp)
            | ok (host, rule, cluster) ↦
                let (h', endpoint) = resolve_endpoint http counters seen h table rule in
                (
                  h',
                  do
                    selected ← endpoint
                    ok (record { host = host; cluster = cluster; selected = selected }),
                )
          ]
            ≡ with_found r
      by_found (err resp) = refl
      by_found (ok (host, rule, cluster)) = refl

  get_endpoint-pick :
      (name : Text) (cluster : ClusterRule counters)
      → get_cluster_rules counters table name ≡ some cluster
      → get_endpoint counters seen h table name ≡ pick_endpoint counters seen h cluster
  unfolding get_endpoint get_cluster_rules
  get_endpoint-pick name cluster c = rw (get_endpoint, c) refl

  pub select-host :
      (r : Result Text (Response http))
      → extract_host http req ≡ r
      → select_upstream http counters seen h table req ≡ with_found (with_host r)
  select-host r e = select_upstream_lem ∙ ap (λ x. with_found (with_host x)) e

  pub select-rule :
      (host : Text) (found : Option RouteRule)
      → extract_host http req ≡ ok host
      → choose_route counters table host (http.uri_path req.uri) ≡ found
      → select_upstream http counters seen h table req ≡ with_found (with_rule host found)
  select-rule host found e r = select-host (ok host) e ∙ ap (λ x. with_found (with_rule host x)) r

  pub select-cluster :
      (host : Text) (rule : RouteRule) (found : Option (ClusterRule counters))
      → Routed host rule
      → get_cluster_rules counters table rule.cluster ≡ found
      → select_upstream http counters seen h table req ≡ with_found (with_cluster host rule found)
  select-cluster host rule found (e, r) c =
      select-rule host (some rule) e r ∙ ap (λ x. with_found (with_cluster host rule x)) c

  pub select-endpoint :
      (host : Text) (rule : RouteRule) (cluster : ClusterRule counters)
      (found : Option SelectedEndpoint)
      → Routed host rule
      → get_cluster_rules counters table rule.cluster ≡ some cluster
      → (pick_endpoint counters seen h cluster).1 ≡ found
      → select_upstream http counters seen h table req
        ≡ with_endpoint host cluster ((pick_endpoint counters seen h cluster).0, found)
  select-endpoint host rule cluster found routed c p =
      select-cluster host rule (some cluster) routed c
      ∙ ap (with_endpoint host cluster) (get_endpoint-pick rule.cluster cluster c)
      ∙ ap (λ x. with_endpoint host cluster ((pick_endpoint counters seen h cluster).0, x)) p
