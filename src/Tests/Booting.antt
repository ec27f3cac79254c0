-- ===== src/Tests/Booting.antt =====
-- A start of `main` up to the watch of its manager.
use argon.Prelude.{list_beq, ◌≡◌, refl, true, nat_eq, list_eq}
use argon.Text.{codes}
use argon.Config.{WatchRequest}
use argon.Http.{ok}
use argon.ClientPool.{new_http_pool_connector}
use argon.Startup.{variable, prepare, make_dummy_cert}
use argon.Grpc.Connect.{ClientTls}
use argon.Grpc.Stream.{connecting, opening}
use argon.Grpc.Stream.Dialling.{IsMutual}
use argon.Boot.{boot}
use argon.Boot.Dials.{configured, boot-dials}
use argon.Tests.Maps.{counters}
use argon.Tests.Network.{http}
use argon.Tests.Samples.{sample_connector, tls, no_cells}
use argon.Tests.Starting.{environment, generator, dummy, pool_of_four}
use argon.Tests.Running.{begun, connected_with, opening_watch, opening_run}

booted :
    boot http counters tls generator environment 2
      (λ threads. true)
      true
      (λ port. true)
      sample_connector.transport
      no_cells
    ≡ ok (begun, pool_of_four, dummy)
unfolding boot prepare list_beq make_dummy_cert new_http_pool_connector argon.Startup.thread_count
    argon.Decimal.decimal argon.Startup.parse_digits
booted = refl

boot-dials_example :
    ((config : ClientTls)
      → opening_watch.phase ≡ connecting config
      → IsMutual (configured environment sample_connector.transport) config)
    × ((request : WatchRequest)
        → opening_watch.phase ≡ opening request
        → request.node_id ≡ variable environment (codes "NODE_ID") (codes "dp-axum"))
boot-dials_example =
    boot-dials http counters tls generator environment 2 (λ threads. true) true (λ port. true)
      sample_connector.transport no_cells begun (connected_with opening_watch) pool_of_four dummy
      booted opening_run
