-- ===== src/Proxy/Subrequest/Unaddressed.antt =====
-- Authorization that images/dataplane/src/snapshot.rs attaches without an address, in proxy.rs.
use argon.Prelude.{
  ◌≡◌, refl, ◌⊎◌, inl, inr, Bool, true, false, none, some, [], ◌++◌, arith, Option-cases, nat_eq,
  list_eq,
}
use argon.Text.{Text, codes}
use argon.Config.{AuthConfig}
use argon.Auth.{AuthConfigDex, is_blank, non_blank, build_auth_runtime}
use argon.Http.{Http, Request, Response, err}
use argon.Proxy.Reply.{text, redirect}
use argon.Proxy.Effects.{Clients}
use argon.Proxy.Subrequest.{
  signin_redirect, is_skipped, cookie_check, subrequest, perform_auth_if_needed,
}

module _ (http : Http) (clients : Clients http) (req : Request http) (host : Text)
    (tls insecure : Bool) where
  url-of_attached :
      (pb : AuthConfig) (auth : AuthConfigDex)
      → build_auth_runtime (some pb) ≡ some auth
      → is_blank pb.url ≡ true
      → auth.url ≡ none
  unfolding build_auth_runtime non_blank
  url-of_attached pb auth attached blank = ground arith

  unaddressed-subrequest :
      (auth : AuthConfigDex)
      → auth.url ≡ none
      → (resp : Response http) × (subrequest http clients req auth host tls insecure
          ≡ ([], err resp))
        × (resp.status ≡ 502)
  unfolding subrequest text
  unaddressed-subrequest auth e = (
    text http 502 (codes "Authorization URL not found for: " ++ http.debug_uri req.uri),
    rw (e, subrequest) refl,
    refl,
  )

  cookie_check-status :
      (auth : AuthConfigDex) (resp : Response http)
      → cookie_check http clients req auth host tls insecure ≡ some resp
      → resp.status ≡ 302
  unfolding cookie_check signin_redirect redirect
  cookie_check-status auth resp e = ground arith

  -- If a configuration without an address of the service has authorization attached, then each
  -- request to a path that authorization does not skip ends without a call, with a 302 or a 502.
  pub perform_auth_if_needed-unaddressed :
      (pb : AuthConfig) (auth : AuthConfigDex)
      → build_auth_runtime (some pb) ≡ some auth
      → is_blank pb.url ≡ true
      → is_skipped http clients req auth host tls insecure ≡ false
      → (resp : Response http) × (perform_auth_if_needed http clients req auth host tls insecure
          ≡ ([], err resp))
        × ((resp.status ≡ 302) ⊎ (resp.status ≡ 502))
  unfolding build_auth_runtime perform_auth_if_needed
  perform_auth_if_needed-unaddressed pb auth attached blank asked =
      elim (Option-cases (cookie_check http clients req auth host tls insecure)) [
        | inl passed ↦
            let (resp, refused, status) =
              unaddressed-subrequest auth (url-of_attached pb auth attached blank) in
            (resp, rw (asked, passed) refused, inr status)
        | inr (resp, sent) ↦ (resp, rw (asked, sent) refl, inl (cookie_check-status auth resp sent))
      ]
