-- ===== src/Tests/Requests.antt =====
-- A sample request, and clients that answer it.
use argon.Prelude.{ℕ, zero, suc, true, none, some, [], ◌∷◌, list_eq}
use argon.Text.{codes}
use argon.Http.{http_11, Request, Response, Attempt, answered, failed, ok}
use argon.Proxy.Effects.{Clients}
use argon.Tests.Network.{http}

abbrev pub sample_request : Request http
sample_request = record {
  method = codes "GET";
  uri = record { scheme = none; authority = none; path_and_query = some (codes "/cart") };
  version = http_11;
  headers = (codes "host", codes "shop.test") ∷ [];
  body = [];
  frontend_tls = some true;
}

abbrev reply_of : ℕ → Response http
reply_of status = record { status = status; headers = []; body = [] }

-- The authorization service lets everyone in; the upstream answers at the second attempt.
abbrev upstream_answer : ℕ → Attempt (Response http)
upstream_answer zero = failed (codes "connection refused")
upstream_answer (suc n) = answered (reply_of 200)

abbrev pub clients : Clients http
clients = record {
  auth_call = λ insecure req. ok (reply_of 204);
  upstream_call = λ attempt insecure timeout req. upstream_answer attempt;
}
