-- ===== src/Proxy/Upstream/Sent.antt =====
-- The headers of the request that `handle_req_upstream` of images/dataplane/src/proxy.rs makes.
use argon.Prelude.{
  list_beq, ◌≡◌, ap, ap₂, ◌∙◌, inl, inr, Bool, not, ◌&&◌, none, some, List, [], ◌∷◌, arith,
  if◌then◌else◌, Option-cases, is_some, ◌==◌, nat_eq, list_eq, any,
}
use argon.Text.{Text, codes}
use argon.Rewrites.{HeaderName}
use argon.Http.{Http, first_value, get, contains_key, insert_text}
use argon.Proxy.Headers.{hop_headers, scheme_of, remove_hop_headers}
use argon.Proxy.Headers.Laws.{
  remove_hop_headers-get_all, insert_text-get_all, add_forward_headers-get_all,
}
use argon.Proxy.Upstream.{upstream_headers}

module _ (http : Http) (m : http.HeaderMap) (host : Text) where
  -- The client's values of a name, none for the hop-by-hop headers.
  abbrev pub kept : HeaderName → List http.HeaderValue
  kept k = if any (λ n. n == k) hop_headers then [] else http.get_all m k

  -- The value of the host, or what was there if the host can be no header value.
  abbrev pub host_or : List http.HeaderValue → List http.HeaderValue
  host_or vs = elim (http.value_from_str host) [ none ↦ vs | some v ↦ v ∷ [] ]

  abbrev pub with_host : HeaderName → List http.HeaderValue
  with_host k = if codes "host" == k then host_or (kept k) else kept k

  with_host_lem :
      (k : HeaderName)
      → http.get_all (insert_text http (remove_hop_headers http m) (codes "host") host) k
        ≡ with_host k
  with_host_lem k = elim (Option-cases (http.value_from_str host)) [
    | inl e ↦ ground (
      arith,
      insert_text-get_all http (remove_hop_headers http m) (codes "host") k host,
      remove_hop_headers-get_all http m k,
    )
    | inr (v, e) ↦ ground (
      arith,
      insert_text-get_all http (remove_hop_headers http m) (codes "host") k host,
      remove_hop_headers-get_all http m k,
    )
  ]

  contains_forwarded :
      contains_key http
        (insert_text http (remove_hop_headers http m) (codes "host") host)
        (codes "x-forwarded-host")
      ≡ contains_key http m (codes "x-forwarded-host")
  unfolding contains_key get list_beq
  contains_forwarded =
      ap (λ vs. is_some (first_value http vs)) (with_host_lem (codes "x-forwarded-host"))

  -- The values of a name before the configured rewrites.
  abbrev pub sent_values : Bool → HeaderName → List http.HeaderValue
  sent_values tls k =
      if codes "x-forwarded-proto" == k
      then http.value_from_static (scheme_of tls) ∷ []
      else if codes "x-forwarded-host" == k && not (contains_key http m (codes "x-forwarded-host"))
      then host_or (with_host k)
      else with_host k

  -- The request to the endpoint has, before the configured rewrites: x-forwarded-proto with the
  -- scheme of the frontend; x-forwarded-host with the host if the client sent none; the host header
  -- with the host; no value of the hop-by-hop names; and the client's values of all other names;
  -- where the host can be no header value, the two headers keep what the client sent.
  pub upstream_headers-get_all :
      (tls : Bool) (k : HeaderName)
      → http.get_all (upstream_headers http m host tls) k ≡ sent_values tls k
  unfolding upstream_headers
  upstream_headers-get_all tls k =
      add_forward_headers-get_all http
        (insert_text http (remove_hop_headers http m) (codes "host") host) tls host k
      ∙ ap₂
          (λ b vs.
            if codes "x-forwarded-proto" == k
            then http.value_from_static (scheme_of tls) ∷ []
            else if codes "x-forwarded-host" == k && not b
            then host_or vs
            else vs)
          contains_forwarded (with_host_lem k)
