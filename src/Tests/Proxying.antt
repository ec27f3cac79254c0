-- ===== src/Tests/Proxying.antt =====
-- Requests to the sample endpoints.
use argon.Prelude.{
  list_beq, ◌≡◌, refl, ◌⊎◌, true, false, none, some, [], ◌∷◌, ◌++◌, arith, nat_eq, list_eq,
}
use argon.Text.{codes}
use argon.Prelude.Int.{pos, cast_unsigned}
use argon.Auth.{AuthConfigDex}
use argon.Cluster.{round_robin, h1}
use argon.Http.{get, Request, Response, ok, err}
use argon.Proxy.Subrequest.{
  perform_auth_if_needed, subrequest, ask, is_skipped, cookie_check, judge, is_success,
}
use argon.Proxy.Subrequest.Refusals.{IsRefusal, perform_auth_if_needed-IsRefusal}
use argon.Proxy.Reply.{text}
use argon.Proxy.Forward.{capture, forward_to_upstream}
use argon.Proxy.Forward.Attempts.{Attempted, forward_to_upstream-Attempted}
use argon.Proxy.Handler.{Selection, select_upstream, authorize, prepare, exchange, serve}
use argon.Proxy.Handler.Safety.{forwards, MayPass, serve-MayPass}
use argon.Proxy.Forward.Same.{EachForwarded}
use argon.Proxy.Handler.Prepared.{IsSent, serve-IsSent}
use argon.Proxy.Handler.Outcome.{IsOutcome, exchange-IsOutcome}
use argon.Proxy.Handler.Selecting.{
  NoHost, NoRoute, NoCluster, NoEndpoint, Selects, select_upstream-cases,
}
use argon.Table.{RouteTable, new_table}
use argon.Tests.Maps.{counters}
use argon.Tests.Network.{http}
use argon.Tests.Requests.{sample_request, clients}
use argon.Tests.Samples.{endpoint_at, sample_endpoints, sample_snapshot, no_cells}

forward_to_upstream-Attempted_example :
    Attempted http clients false 1000 3
      (capture http sample_request)
      (codes "10.0.0.1:80")
      sample_request
      (forward_to_upstream http clients false 1000 3
        (capture http sample_request)
        (codes "10.0.0.1:80")
        sample_request)
forward_to_upstream-Attempted_example =
    forward_to_upstream-Attempted http clients false 1000 3 (capture http sample_request)
      (codes "10.0.0.1:80") sample_request (omega arith)

abbrev sample_auth : AuthConfigDex
sample_auth = record {
  url = some (codes "auth.test");
  signin = none;
  response_headers = codes "x-user" ∷ [];
  skip_paths = [];
  cookie_name = none;
}

abbrev selection : Selection http counters
selection = record {
  host = codes "shop.test";
  cluster = record {
    name = codes "";
    lb_policy = round_robin;
    endpoints = sample_endpoints;
    timeout_ms = pos 1000;
    retries = pos 3;
    backend_protocol = h1;
    request_headers = [];
    backend_tls_insecure_skip_verify = false;
    rr_cursor = 3;
    least_conn_cursor = [];
    auth = some sample_auth;
  };
  selected = record { endpoint = endpoint_at 80; counter = none };
}

forwards_sample : forwards http (serve http counters clients selection sample_request).0 ≡ true
unfolding serve authorize exchange perform_auth_if_needed subrequest ask is_skipped cookie_check
    judge is_success forward_to_upstream cast_unsigned
forwards_sample = refl

serve-MayPass_example :
    (req' : Request http) × MayPass http counters clients selection sample_request req'
    × (serve http counters clients selection sample_request ≡ (
      (authorize http counters clients selection sample_request).0
          ++ (exchange http counters clients selection
              (prepare http counters clients selection req')).0,
      (exchange http counters clients selection (prepare http counters clients selection req')).1,
    ))
serve-MayPass_example = serve-MayPass http counters clients selection sample_request forwards_sample

lets_in : (authorize http counters clients selection sample_request).1 ≡ ok sample_request
unfolding authorize perform_auth_if_needed subrequest ask is_skipped cookie_check judge is_success
    argon.Proxy.Subrequest.copy_response_headers get list_beq
lets_in = refl

serve-IsSent_example :
    EachForwarded http
      (IsSent http counters clients selection sample_request)
      (serve http counters clients selection sample_request).0
serve-IsSent_example =
    serve-IsSent http counters clients selection sample_request sample_request lets_in

exchange-IsOutcome_example :
    IsOutcome http counters clients selection sample_request
      (exchange http counters clients selection sample_request).1
exchange-IsOutcome_example =
    exchange-IsOutcome http counters clients selection sample_request (omega arith)

abbrev sample_table : RouteTable counters
sample_table = (new_table counters http.header_name no_cells sample_snapshot).1

select_upstream-cases_example :
    NoHost http counters no_cells.cell no_cells sample_table sample_request
      (select_upstream http counters no_cells.cell no_cells sample_table sample_request)
    ⊎ NoRoute http counters no_cells.cell no_cells sample_table sample_request
        (select_upstream http counters no_cells.cell no_cells sample_table sample_request)
    ⊎ NoCluster http counters no_cells.cell no_cells sample_table sample_request
        (select_upstream http counters no_cells.cell no_cells sample_table sample_request)
    ⊎ NoEndpoint http counters no_cells.cell no_cells sample_table sample_request
        (select_upstream http counters no_cells.cell no_cells sample_table sample_request)
    ⊎ Selects http counters no_cells.cell no_cells sample_table sample_request
        (select_upstream http counters no_cells.cell no_cells sample_table sample_request)
select_upstream-cases_example =
    select_upstream-cases http counters no_cells.cell no_cells sample_table sample_request

-- Without an address of the service, the authorization fails.
abbrev no_service : AuthConfigDex
no_service = record sample_auth { url = none }

abbrev failure : Response http
failure = text http 502 (codes "Authorization URL not found for: ")

refused :
    (perform_auth_if_needed http clients sample_request no_service (codes "shop.test") true false).1
    ≡ err failure
unfolding perform_auth_if_needed subrequest is_skipped cookie_check
refused = refl

perform_auth_if_needed-IsRefusal_example :
    IsRefusal http clients sample_request no_service (codes "shop.test") true false failure
perform_auth_if_needed-IsRefusal_example =
    perform_auth_if_needed-IsRefusal http clients sample_request no_service (codes "shop.test") true
      false failure refused
