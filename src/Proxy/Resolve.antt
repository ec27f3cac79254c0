-- ===== src/Proxy/Resolve.antt =====
-- images/dataplane/src/proxy.rs: `extract_host` and the lookups of `resolve_route`, `resolve_cluster`
-- and `resolve_endpoint`, with the responses where they fail.
pub mod Hosts
use argon.Prelude.{ℕ, Option, none, some, if◌then◌else◌, list_eq}
use argon.Text.{Text, codes, is_empty, trim, trim_end_matches, to_ascii_lowercase}
use argon.Atomics.{Address, Heap}
use argon.Route.{RouteRule}
use argon.Cluster.{Counters, ClusterRule, SelectedEndpoint}
use argon.Table.{RouteTable, choose_route, get_cluster_rules, get_endpoint}
use argon.Http.{Http, Request, Response, get, Result, ok, err}
use argon.Proxy.Reply.{text}

module _ (http : Http) where
  abbrev pub or_reply : {A : Type 0} → Option A → Response http → Result A (Response http)
  or_reply none resp = err resp
  or_reply (some a) resp = ok a

  abbrev invalid_host : Response http
  invalid_host = text http 400 (codes "Invalid Host header")

  -- The host of an authority, in lower case and without the dots at its end.
  unfoldable pub clean_host : Text → Text
  clean_host host = trim_end_matches b'.' (to_ascii_lowercase host)

  unfoldable pub host_of_header : Option Text → Result Text (Response http)
  unfolding clean_host
  host_of_header none = err invalid_host
  host_of_header (some s) =
      if is_empty s then err invalid_host else elim (http.parse_authority (trim s)) [
        | none ↦ err invalid_host
        | some a ↦ ok (clean_host (http.authority_host a))
      ]

  unfoldable pub extract_host : Request http → Result Text (Response http)
  unfolding host_of_header
  extract_host req = elim (get http req.headers (codes "host")) [
    | some h ↦ host_of_header (http.to_str h)
    | none ↦ or_reply (http.uri_host req.uri) (text http 400 (codes "Missing Host"))
  ]

  module _ (counters : Counters) where
    unfoldable pub resolve_route :
        RouteTable counters → Text → Text → Result RouteRule (Response http)
    resolve_route table host path =
        or_reply (choose_route counters table host path) (text http 404 (codes "route not found"))

    unfoldable pub resolve_cluster :
        RouteTable counters → RouteRule → Result (ClusterRule counters) (Response http)
    resolve_cluster table rule =
        or_reply (get_cluster_rules counters table rule.cluster)
          (text http 404 (codes "cluster rules not found"))

    unfoldable pub resolve_endpoint :
        (Address → ℕ)
        → Heap
        → RouteTable counters
        → RouteRule
        → Heap × Result SelectedEndpoint (Response http)
    resolve_endpoint seen h table rule =
        let (h', found) = get_endpoint counters seen h table rule.cluster in
        (h', or_reply found (text http 502 (codes "endpoint not found")))
