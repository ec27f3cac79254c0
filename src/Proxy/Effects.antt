-- ===== src/Proxy/Effects.antt =====
-- The outside of the proxy: the clients of the pool, and the record of the calls that were made. A
-- call is given to the client that verifies certificates or to the one that does not.
use argon.Prelude.{ℕ, Bool, List}
use argon.Text.{Text}
use argon.Http.{Http, Request, Response, Attempt, Result}

module _ (http : Http) where
  -- The answers of the authorization service and of the upstream at each attempt.
  pub record Clients : Type 0 where
    pub auth_call : Bool → Request http → Result (Response http) Text
    pub upstream_call : ℕ → Bool → ℕ → Request http → Attempt (Response http)

  pub data Event : Type 0 where
    asked : Bool → Request http → Event
    forwarded : Bool → ℕ → Request http → Event

  abbrev pub Trace : Type 0
  Trace = List Event
