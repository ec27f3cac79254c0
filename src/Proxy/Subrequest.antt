-- ===== src/Proxy/Subrequest.antt =====
-- images/dataplane/src/proxy.rs: `perform_auth_if_needed` and `build_auth_request`.
pub mod Refusals
pub mod Copied
pub mod Asked
pub mod Unaddressed
use argon.Prelude.{
  ℕ, Bool, ◌&&◌, ◌||◌, Option, none, some, List, [], ◌∷◌, ◌++◌, ltb, leb, if◌then◌else◌, unwrap_or,
  ◌==◌, nat_eq, list_eq, any,
}
use mathlib.Core.Option
use argon.Text.{Text, codes, starts_with, contains}
use argon.Auth.{AuthConfigDex}
use argon.Rewrites.{HeaderName}
use argon.Http.{Http, http_11, Request, Response, get, insert_text, Result, ok, err}
use argon.Proxy.Headers.{scheme_of}
use argon.Proxy.Encode.{path_q_of, build_signin_location}
use argon.Proxy.Reply.{text, redirect}
use argon.Proxy.Effects.{Clients, asked, Trace}

module _ (http : Http) where
  -- A header of the original request is copied if it is there.
  pub copy_header : http.HeaderMap → http.HeaderMap → HeaderName → http.HeaderMap
  copy_header from m k = elim (get http from k) [ none ↦ m | some v ↦ http.insert m k v ]

  unfoldable pub build_auth_request : Request http → http.Uri → Text → Bool → Request http
  unfolding copy_header insert_text
  build_auth_request original auth_uri original_host frontend_is_tls =
      let path_q = path_q_of http original.uri in
      let scheme = scheme_of frontend_is_tls in
      let m₀ = copy_header original.headers http.empty_map (codes "cookie") in
      let m₁ = copy_header original.headers m₀ (codes "authorization") in
      let m₂ = http.insert m₁ (codes "x-forwarded-proto") (http.value_from_static scheme) in
      let m₃ = insert_text http m₂ (codes "x-forwarded-host") original_host in
      let m₄ = insert_text http m₃ (codes "x-forwarded-uri") path_q in
      let m₅ = insert_text http m₄ (codes "x-original-uri") path_q in
      let m₆ =
        insert_text http m₅ (codes "x-auth-request-redirect")
          (scheme ++ codes "://" ++ original_host ++ path_q) in
      record {
        method = codes "GET";
        uri = auth_uri;
        version = http_11;
        headers = m₆;
        body = http.boxed (http.full_new []);
        frontend_tls = none;
      }

  -- The headers that the configuration names, from the answer into the request.
  unfoldable pub copy_response_headers :
      http.HeaderMap → List Text → http.HeaderMap → http.HeaderMap
  copy_response_headers answer [] m = m
  copy_response_headers answer (name ∷ names) m =
      copy_response_headers answer names (elim (http.header_name name) [
        | none ↦ m
        | some hn ↦ elim (get http answer hn) [ none ↦ m | some v ↦ http.insert m hn v ]
      ])

  unfoldable pub is_success : ℕ → Bool
  is_success status = leb 200 status && ltb status 300

  module _ (clients : Clients http) (req : Request http) (auth : AuthConfigDex) (host : Text)
      (frontend_is_tls : Bool) (insecure : Bool) where
    -- `if let Some(signin) = &auth.signin { return Err(redirect(..)) }`
    unfoldable pub signin_redirect : Option (Response http)
    signin_redirect =
        Option.map
          (λ signin.
            redirect http 302 (build_signin_location http signin host req.uri frontend_is_tls))
          auth.signin

    unfoldable pub is_skipped : Bool
    is_skipped = any (λ p. starts_with (http.uri_path req.uri) p) auth.skip_paths

    -- The check for the cookie before the subrequest: a response if the client is sent to sign in.
    unfoldable pub cookie_check : Option (Response http)
    cookie_check = elim auth.cookie_name [
      | none ↦ none
      | some cookie_name ↦ elim (get http req.headers (codes "cookie")) [
        | none ↦ signin_redirect
        | some cookies_val ↦ elim (http.to_str cookies_val) [
          | none ↦ none
          | some cookies ↦
              if contains cookies (cookie_name ++ codes "=") then none else signin_redirect
        ]
      ]
    ]

    -- What the status of the answer means.
    unfoldable pub judge : Response http → Result (Request http) (Response http)
    judge answer =
        if is_success answer.status
        then ok (record req {
          headers = copy_response_headers answer.headers auth.response_headers req.headers;
        })
        else if answer.status == 401 || answer.status == 403
        then err (unwrap_or signin_redirect (text http 401 (codes "unauthorized")))
        else err (
            text http 502
              (codes "authorization service returned " ++ http.display_status answer.status))

    unfoldable pub ask : Text → http.Uri → Trace http × Result (Request http) (Response http)
    ask auth_url uri =
        let auth_req = build_auth_request req uri host frontend_is_tls in
        (
          asked insecure auth_req ∷ [],
          elim (clients.auth_call insecure auth_req) [
            | err e ↦ err (
                text http 502 (
                  codes "Authorization subrequest failed: "
                  ++ http.debug_str auth_url
                  ++ codes " : "
                  ++ e))
            | ok answer ↦ judge answer
          ],
        )

    unfoldable pub subrequest : Trace http × Result (Request http) (Response http)
    subrequest = elim auth.url [
      | none ↦ (
        [],
        err (text http 502 (codes "Authorization URL not found for: " ++ http.debug_uri req.uri)),
      )
      | some auth_url ↦ elim (http.parse_uri auth_url) [
        | none ↦ ([], err (text http 502 (codes "Invalid authorization URL: " ++ auth_url)))
        | some uri ↦ ask auth_url uri
      ]
    ]

    unfoldable pub perform_auth_if_needed : Trace http × Result (Request http) (Response http)
    perform_auth_if_needed =
        if is_skipped
        then ([], ok req)
        else elim cookie_check [ some resp ↦ ([], err resp) | none ↦ subrequest ]
