-- ===== src/Proxy/Forward.antt =====
-- images/dataplane/src/proxy.rs: `forward_to_upstream` with its retries, `RequestSnapshot` and
-- `build_retry_request`.
pub mod Rounds
pub mod Retries
pub mod Attempts
pub mod Via
pub mod Same
use argon.Prelude.{
  ℕ, zero, suc, ◌+◌, Bool, true, false, Option, none, some, [], ◌∷◌, ◌++◌, if◌then◌else◌, unwrap_or,
  ◌==◌, nat_eq,
}
use argon.Text.{Text, codes}
use argon.Http.{
  Http, Version, Request, Response, Attempt, answered, failed, elapsed, Result, ok, err,
}
use argon.Proxy.Effects.{Clients, Event, forwarded, Trace}

module _ (http : Http) where
  pub record RequestSnapshot : Type 0 where
    pub method : Text
    pub uri : http.Uri
    pub version : Version
    pub headers : http.HeaderMap
    pub body_is_reusable : Bool

  unfoldable pub capture : Request http → RequestSnapshot
  capture req = record {
    method = req.method;
    uri = req.uri;
    version = req.version;
    headers = req.headers;
    body_is_reusable = http.is_end_stream req.body;
  }

  unfoldable pub build_retry_request : RequestSnapshot → Request http
  build_retry_request snapshot = record {
    method = snapshot.method;
    uri = snapshot.uri;
    version = snapshot.version;
    headers = snapshot.headers;
    body = http.boxed (http.full_new []);
    frontend_tls = none;
  }

  module _ (clients : Clients http) (insecure : Bool) (timeout retries : ℕ)
      (snapshot : RequestSnapshot) (addr : Text) where
    -- The end of the function, behind the loop, without a response.
    give_up : Option Text → Trace http × Result (Response http) Text
    give_up last_err = (
      [],
      err (unwrap_or last_err (codes "Upstream connector timed out: " ++ http.debug_str addr)),
    )

    -- The request of a round, or none where the loop breaks.
    pub next_request : Option (Request http) → Option (Request http)
    next_request (some req) = some req
    next_request none =
        if snapshot.body_is_reusable then some (build_retry_request snapshot) else none

    error_text : Text → Text → Text
    error_text kind e =
        codes "Upstream connector " ++ kind ++ codes " (" ++ e ++ codes "): " ++ http.debug_str addr

    -- The loop from an attempt on; the first number counts the attempts that are left.
    pub rounds :
        ℕ → ℕ → Option (Request http) → Option Text → Trace http × Result (Response http) Text
    rounds zero attempt first last_err = give_up last_err
    rounds (suc left) attempt first last_err = elim (next_request first) [
      | none ↦ give_up last_err
      | some request ↦
          let sent = forwarded insecure timeout request in
          elim (clients.upstream_call attempt insecure timeout request) [
            | answered resp ↦ (sent ∷ [], ok resp)
            | failed e ↦ elim (attempt + 1 == retries) [
              | true ↦ (sent ∷ [], (give_up (some (error_text (codes "error") e))).1)
              | false ↦
                  let (trace, result) =
                    rounds left (attempt + 1) none (some (error_text (codes "error") e)) in
                  (sent ∷ trace, result)
            ]
            | elapsed e ↦ elim (attempt + 1 == retries) [
              | true ↦ (sent ∷ [], (give_up (some (error_text (codes "timeout") e))).1)
              | false ↦
                  let (trace, result) =
                    rounds left (attempt + 1) none (some (error_text (codes "timeout") e)) in
                  (sent ∷ trace, result)
            ]
          ]
    ]

    unfoldable pub forward_to_upstream : Request http → Trace http × Result (Response http) Text
    unfolding rounds give_up next_request error_text
    forward_to_upstream initial_request = rounds retries 0 (some initial_request) none
