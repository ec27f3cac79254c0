-- ===== src/Proxy/Upstream.antt =====
-- images/dataplane/src/proxy.rs: `handle_req_upstream`, the request made ready for its endpoint.
pub mod Sent
use argon.Prelude.{
  ℕ, Bool, true, false, Option, none, some, ◌++◌, if◌then◌else◌, unwrap_or, ◌==◌, nat_eq, list_eq,
}
use argon.Text.{Text, codes}
use argon.Decimal.{decimal}
use argon.Cluster.{BackendProtocol, h1, h2, h1_ssl, h2_ssl}
use argon.Http.{Http, Version, http_11, http_2, Parts, Request, insert_text}
use argon.Proxy.Headers.{scheme_of, remove_hop_headers, add_forward_headers}

abbrev pub is_tls : BackendProtocol → Bool
is_tls h1 = false
is_tls h2 = false
is_tls h1_ssl = true
is_tls h2_ssl = true

abbrev pub version_of : BackendProtocol → Version
version_of h1 = http_11
version_of h2 = http_2
version_of h1_ssl = http_11
version_of h2_ssl = http_2

abbrev pub default_port : BackendProtocol → ℕ
default_port proto = if is_tls proto then 443 else 80

module _ (http : Http) where
  -- The text of the authority: the port is left out if it is the default one.
  unfoldable pub authority_text : Text → ℕ → BackendProtocol → Text
  authority_text upstream_host upstream_port proto =
      if upstream_port == default_port proto
      then upstream_host
      else upstream_host ++ codes ":" ++ decimal upstream_port

  abbrev pub set_if {ℓ} : {A : Type ℓ} → Option A → Option A → Option A
  set_if none old = old
  set_if (some a) old = some a

  unfoldable pub upstream_parts :
      Parts http.Authority http.PathAndQuery
      → Text
      → ℕ
      → BackendProtocol
      → Parts http.Authority http.PathAndQuery
  unfolding authority_text
  upstream_parts parts upstream_host upstream_port proto = record {
    scheme = some (scheme_of (is_tls proto));
    authority =
        set_if (http.parse_authority (authority_text upstream_host upstream_port proto))
          parts.authority;
    path_and_query = some (unwrap_or parts.path_and_query (http.path_from_static (codes "/")));
  }

  unfoldable pub upstream_headers : http.HeaderMap → Text → Bool → http.HeaderMap
  upstream_headers m original_host frontend_is_tls =
      add_forward_headers http
        (insert_text http (remove_hop_headers http m) (codes "host") original_host) frontend_is_tls
        original_host

  unfoldable pub handle_req_upstream :
      Request http → Text → Text → ℕ → BackendProtocol → Bool → Request http
  unfolding upstream_parts upstream_headers
  handle_req_upstream req original_host upstream_host upstream_port proto frontend_is_tls =
      let parts = upstream_parts (http.into_parts req.uri) upstream_host upstream_port proto in
      record req {
        uri = unwrap_or (http.from_parts parts) req.uri;
        version = version_of proto;
        headers = upstream_headers req.headers original_host frontend_is_tls;
      }
