-- ===== src/Grpc/Start.antt =====
-- images/dataplane/src/grpc.rs: the manager as `GrpcManager::start` makes it, on the shared state that
-- `main` starts with, and what it tells (`is_ready`, `latest_snapshot`).
use argon.Prelude.{Bool, true, false, Option, [], list_eq}
use argon.Text.{Text}
use argon.Atomics.{Heap}
use argon.Config.{Snapshot, default_snapshot}
use argon.Rewrites.{HeaderName}
use argon.Cluster.{Counters}
use argon.Table.{default_table}
use argon.Certs.{Tls}
use argon.Grpc.Watcher.{Files, no_permit, ca_file}
use argon.Grpc.Connect.{Connector}
use argon.Grpc.Stream.{loop_start, backoff_start, Manager}

abbrev pub empty_files : Files
empty_files = record {
  ca_pem = [];
  client_pem = [];
  client_key_pem = [];
  ca_updated = no_permit;
  client_pem_updated = no_permit;
  reading = ca_file;
}

module _ (counters : Counters) (header_name : Text → Option HeaderName) (tls : Tls) where
  -- The connector has the arguments of `start`, and the heap holds what `main` allocated before.
  unfoldable pub start : Connector → Heap → Manager counters header_name tls
  unfolding default_table
  start c h = record {
    phase = loop_start;
    backoff_ms = backoff_start;
    cancelled = false;
    watching = true;
    files = empty_files;
    connector = c;
    ready = false;
    snapshot = default_snapshot;
    heap = h;
    route_table = default_table counters;
    sni = [];
  }

  unfoldable pub is_ready : Manager counters header_name tls → Bool
  is_ready m = m.ready

  unfoldable pub latest_snapshot : Manager counters header_name tls → Snapshot
  latest_snapshot m = m.snapshot
