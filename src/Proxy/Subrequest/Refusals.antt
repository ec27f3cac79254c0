-- ===== src/Proxy/Subrequest/Refusals.antt =====
-- The responses that end a request in `perform_auth_if_needed` of images/dataplane/src/proxy.rs.
use argon.Prelude.{
  ◌≡◌, ◌≢◌, ◌⊎◌, inl, inr, Bool, none, some, ◌++◌, arith, Bool-cases, Option-cases, nat_eq, list_eq,
}
use argon.Text.{Text, codes}
use argon.Auth.{AuthConfigDex}
use argon.Http.{Http, Request, Response, Result, ok, err}
use argon.Proxy.Reply.{text, redirect}
use argon.Proxy.Effects.{Clients}
use argon.Proxy.Subrequest.{
  signin_redirect, is_skipped, cookie_check, judge, build_auth_request, ask, subrequest,
  perform_auth_if_needed,
}

module _ (http : Http) (clients : Clients http) (req : Request http) (auth : AuthConfigDex)
    (host : Text) (tls insecure : Bool) where
  -- A redirection, if there is an address to sign in at; a refusal, if there is none; or a failure of
  -- the service.
  abbrev pub IsRefusal : Response http → Type 0
  IsRefusal resp =
      ((auth.signin ≢ none) × (resp.status ≡ 302))
      ⊎ ((auth.signin ≡ none) × (resp.status ≡ 401))
      ⊎ (resp.status ≡ 502)

  cookie_check-IsRefusal :
      (resp : Response http)
      → cookie_check http clients req auth host tls insecure ≡ some resp
      → IsRefusal resp
  unfolding cookie_check signin_redirect redirect
  cookie_check-IsRefusal resp e = ground arith

  judge-IsRefusal :
      (answer resp : Response http)
      → judge http clients req auth host tls insecure answer ≡ err resp
      → IsRefusal resp
  unfolding judge signin_redirect redirect text
  judge-IsRefusal answer resp e = ground arith

  ask-IsRefusal :
      (url : Text) (uri : http.Uri) (resp : Response http)
      → (ask http clients req auth host tls insecure url uri).1 ≡ err resp
      → IsRefusal resp
  unfolding ask text
  ask-IsRefusal url uri resp e =
      by_answer (clients.auth_call insecure (build_auth_request http req uri host tls)) e
    where
      by_answer :
          (r : Result (Response http) Text)
          → elim r [
            | err x ↦ err (
                text http 502 (
                  codes "Authorization subrequest failed: "
                  ++ http.debug_str url
                  ++ codes " : "
                  ++ x))
            | ok answer ↦ judge http clients req auth host tls insecure answer
          ]
            ≡ err resp
          → IsRefusal resp
      by_answer (err x) q = ground arith
      by_answer (ok answer) q = judge-IsRefusal answer resp q

  subrequest-IsRefusal :
      (resp : Response http)
      → (subrequest http clients req auth host tls insecure).1 ≡ err resp
      → IsRefusal resp
  unfolding subrequest text
  subrequest-IsRefusal resp e = elim (Option-cases auth.url) [
    | inl u ↦ ground arith
    | inr (url, u) ↦ elim (Option-cases (http.parse_uri url)) [
      | inl v ↦ ground arith
      | inr (uri, v) ↦ ask-IsRefusal url uri resp (rw (u, subrequest, v) at e)
    ]
  ]

  -- If the authorization ends a request, then the response is a 302 and there is an address to sign
  -- in at, or a 401 and there is none, or a 502.
  pub perform_auth_if_needed-IsRefusal :
      (resp : Response http)
      → (perform_auth_if_needed http clients req auth host tls insecure).1 ≡ err resp
      → IsRefusal resp
  unfolding perform_auth_if_needed
  perform_auth_if_needed-IsRefusal resp e =
      elim (Bool-cases (is_skipped http clients req auth host tls insecure)) [
        | inl skipped ↦ absurd (ground arith)
        | inr checked ↦ elim (Option-cases (cookie_check http clients req auth host tls insecure)) [
          | inl c ↦ subrequest-IsRefusal resp (rw (checked, c) at e)
          | inr (sent, c) ↦ cookie_check-IsRefusal resp (ground arith)
        ]
      ]
