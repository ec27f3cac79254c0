-- ===== src/Tests/Streaming.antt =====
-- A run of the control plane's stream with the sample snapshot.
use mathlib.Core.Option
use argon.Prelude.{◌≡◌, refl, true, false, some, [], ◌∷◌, arith, or_else, nat_eq, list_eq}
use argon.Table.{new_table}
use argon.Text.{codes, to_ascii_lowercase}
use argon.Certs.Choice.{last_key, resolve-certificates_from_snap}
use argon.Certs.{CertifiedKey, wildcard_of, resolve, certificates_from_snap}
use argon.Grpc.Watcher.{Files, no_permit, ca_file}
use argon.Grpc.Stream.{
  loop_start, connecting, streaming, publish_table, publish_certs, checked, connected, opening,
  watch_opened, message, write, backoff_start, Manager, step, Reach, here, next,
}
use argon.Grpc.Stream.Backoff.{InRange, Reach-InRange, failures, failures-backoff}
use argon.Config.{Snapshot}
use argon.Tests.Maps.{counters}
use argon.Tests.Network.{http}
use argon.Tests.Samples.{sample_connector, sample_target, tls, sample_snapshot, no_cells}

abbrev empty_snapshot : Snapshot
empty_snapshot = record sample_snapshot { routes = []; clusters = []; server_tls = [] }

abbrev full_files : Files
full_files = record {
  ca_pem = 1 ∷ [];
  client_pem = 2 ∷ [];
  client_key_pem = 3 ∷ [];
  ca_updated = no_permit;
  client_pem_updated = no_permit;
  reading = ca_file;
}

-- The manager at its start, with a table and certificates of an empty snapshot.
abbrev start : Manager counters http.header_name tls
start = record {
  phase = loop_start;
  backoff_ms = backoff_start;
  cancelled = false;
  watching = true;
  files = full_files;
  connector = sample_connector;
  ready = false;
  snapshot = empty_snapshot;
  heap = no_cells;
  route_table = (new_table counters http.header_name no_cells empty_snapshot).1;
  sni = certificates_from_snap tls empty_snapshot;
}

abbrev sample_table : Manager counters http.header_name tls
sample_table = record start {
  phase = publish_certs sample_snapshot;
  ready = true;
  snapshot = sample_snapshot;
  heap = (new_table counters http.header_name no_cells sample_snapshot).0;
  route_table = (new_table counters http.header_name no_cells sample_snapshot).1;
}

abbrev published : Manager counters http.header_name tls
published = record sample_table {
  phase = streaming true;
  sni = certificates_from_snap tls sample_snapshot;
}

published-Reach : Reach counters http.header_name tls start published
unfolding step argon.Grpc.Connect.connect_fut
published-Reach =
    next {o = published} write
      (next {o = sample_table} write
        (next
          {o = record start {
            phase = publish_table sample_snapshot;
            ready = true;
            snapshot = sample_snapshot;
          }}
          (message sample_snapshot)
          (next {o = record start { phase = streaming false; ready = true }} watch_opened
            (next {o = record start { phase = opening (record { node_id = codes "node" }) }}
              connected
              (next {o = record start { phase = connecting sample_target }} checked here refl) refl)
            refl)
          refl)
        refl)
      refl

Reach-InRange_example : InRange 500
Reach-InRange_example =
    Reach-InRange counters http.header_name tls start published (omega arith, omega arith)
      published-Reach

failures-backoff_example :
    failures counters http.header_name tls 3 start ≡ some (record start { backoff_ms = 4000 })
failures-backoff_example =
    failures-backoff counters http.header_name tls 3 start refl refl (omega arith, omega arith)

abbrev default_key : CertifiedKey tls
default_key = record { chain = 0 ∷ []; key = 0 }

resolve-certificates_from_snap_example :
    resolve tls
      (certificates_from_snap tls sample_snapshot)
      (certificates_from_snap tls sample_snapshot)
      default_key
      (some (codes "www.Shop.test"))
    ≡ or_else
        (last_key tls (to_ascii_lowercase (codes "www.Shop.test")) sample_snapshot.server_tls)
        (or_else
          (Option.bind
            (wildcard_of tls (to_ascii_lowercase (codes "www.Shop.test")))
            (λ star. last_key tls star sample_snapshot.server_tls))
          (some default_key))
resolve-certificates_from_snap_example =
    resolve-certificates_from_snap tls sample_snapshot default_key (codes "www.Shop.test")
