-- ===== src/Tests/Serving.antt =====
-- A run of the manager from its start, and a request to its table.
use argon.Prelude.{list_beq, ◌≡◌, refl, true, false, some, [], ◌∷◌, list_eq}
use argon.Text.{codes}
use argon.Table.{new_table}
use argon.Grpc.Watcher.{ca_file, client_file, key_file, no_permit, take_ca, read_file}
use argon.Grpc.Stream.Reading.{Disk}
use argon.Grpc.Stream.{
  connecting, opening, streaming, publish_table, publish_certs, file_read, checked, connected,
  watch_opened, wait, ca_notified, connect_failed, next_backoff, message, write, Manager, step,
  Reach, here, next,
}
use argon.Grpc.Connect.{ClientTls}
use argon.Grpc.Stream.Rotating.{in_ca, round-dials}
use argon.Grpc.Stream.Pending.{Reach-permit}
use argon.Grpc.Stream.Recovering.{Publishes, Reach-Publishes}
use argon.Grpc.Stream.Publishing.{Agrees}
use argon.Grpc.Stream.History.{received, IsLatest, Reach-IsLatest}
use argon.Grpc.Start.{start}
use argon.Tests.Maps.{counters}
use argon.Tests.Network.{http}
use argon.Tests.Samples.{sample_connector, sample_target, tls, sample_snapshot, no_cells}

abbrev pub full_disk : Disk
full_disk = record { ca = some (1 ∷ []); cert = some (2 ∷ []); key = some (3 ∷ []) }

abbrev begun : Manager counters http.header_name tls
begun = start counters http.header_name tls sample_connector no_cells

abbrev pub with_files : Manager counters http.header_name tls
with_files = record begun {
  files = record {
    ca_pem = 1 ∷ [];
    client_pem = 2 ∷ [];
    client_key_pem = 3 ∷ [];
    ca_updated = record { permit = true; woken = false };
    client_pem_updated = record { permit = true; woken = false };
    reading = ca_file;
  };
}

abbrev pub with_snapshot : Manager counters http.header_name tls
with_snapshot = record with_files {
  phase = publish_table sample_snapshot;
  ready = true;
  snapshot = sample_snapshot;
}

abbrev pub with_table : Manager counters http.header_name tls
with_table = record with_snapshot {
  phase = publish_certs sample_snapshot;
  heap = (new_table counters http.header_name no_cells sample_snapshot).0;
  route_table = (new_table counters http.header_name no_cells sample_snapshot).1;
}

-- The manager in the middle of the first round.
abbrev pub with_ca : Manager counters http.header_name tls
with_ca = record begun {
  files = record begun.files {
    ca_pem = 1 ∷ [];
    ca_updated = record { permit = true; woken = false };
    reading = client_file;
  };
}

abbrev pub with_cert : Manager counters http.header_name tls
with_cert = record with_ca {
  files = record with_ca.files {
    client_pem = 2 ∷ [];
    client_pem_updated = record { permit = true; woken = false };
    reading = key_file;
  };
}

abbrev dialling : Manager counters http.header_name tls
dialling = record with_files { phase = connecting sample_target }

dialling_run : Reach counters http.header_name tls begun dialling
unfolding step argon.Grpc.Connect.connect_fut start read_file argon.Grpc.Watcher.try_load_and_store
    list_beq
dialling_run =
    next {o = dialling} checked
      (next {o = with_files} (file_read false (some (3 ∷ [])))
        (next {o = with_cert} (file_read false (some (2 ∷ [])))
          (next {o = with_ca} (file_read false (some (1 ∷ []))) here refl) refl)
        refl)
      refl

abbrev first_stream : Manager counters http.header_name tls
first_stream = record with_files { phase = streaming false; ready = true }

first_run : Reach counters http.header_name tls begun first_stream
unfolding step start
first_run =
    next {o = first_stream} watch_opened
      (next {o = record with_files { phase = opening (record { node_id = codes "node" }) }}
        connected dialling_run refl)
      refl

run : Reach counters http.header_name tls begun with_table
unfolding step start
run =
    next {o = with_table} write (next {o = with_snapshot} (message sample_snapshot) first_run refl)
      refl

Reach-IsLatest_example :
    IsLatest counters http.header_name tls sample_snapshot
      (received counters http.header_name tls run)
    × Agrees counters http.header_name tls (publish_certs sample_snapshot) with_table
Reach-IsLatest_example =
    Reach-IsLatest counters http.header_name tls sample_connector no_cells with_table run

-- The connection that is being made fails.
abbrev failed : Manager counters http.header_name tls
failed = record with_files { backoff_ms = 1000 }

failed-Reach : Reach counters http.header_name tls begun failed
unfolding step start next_backoff
failed-Reach = next {o = failed} connect_failed dialling_run refl

Reach-Publishes_example : Publishes counters http.header_name tls sample_snapshot failed
unfolding argon.Grpc.Connect.connect_fut read_file argon.Grpc.Watcher.try_load_and_store list_beq
    start
Reach-Publishes_example =
    Reach-Publishes counters http.header_name tls sample_snapshot sample_connector no_cells failed
      full_disk failed-Reach refl (sample_target, refl)

abbrev streams : Manager counters http.header_name tls
streams = record with_files { phase = streaming true }

abbrev new_target : ClientTls
new_target = record sample_target { ca_certificate = 9 ∷ [] }

-- The CA is replaced on the disk while the stream is open.
round-dials_example :
    (m₁ : Manager counters http.header_name tls) × (m₂ : Manager counters http.header_name tls)
    × (n : Manager counters http.header_name tls) × (o : Manager counters http.header_name tls)
    × (p : Manager counters http.header_name tls) × (step counters http.header_name tls
          (file_read true (some (9 ∷ [])))
          streams
        ≡ some m₁)
    × (step counters http.header_name tls (file_read false (some (2 ∷ []))) m₁ ≡ some m₂)
    × (step counters http.header_name tls (file_read false (some (3 ∷ []))) m₂ ≡ some n)
    × (step counters http.header_name tls ca_notified n ≡ some o)
    × (step counters http.header_name tls checked o ≡ some p)
    × (p.phase ≡ connecting new_target)
    × (new_target.ca_certificate ≡ 9 ∷ [])
    × (new_target.identity ≡ (2 ∷ [], 3 ∷ []))
unfolding argon.Grpc.Connect.connect_fut list_beq start
round-dials_example =
    round-dials counters http.header_name tls streams true (9 ∷ []) (2 ∷ []) (3 ∷ []) true false
      false new_target refl refl refl refl (refl, refl, refl) (in_ca refl) refl

Reach-permit_example :
    step counters http.header_name tls ca_notified first_stream
    ≡ some (
        wait counters http.header_name tls
          (record first_stream { files = take_ca first_stream.files }))
unfolding first_run dialling_run
Reach-permit_example =
    Reach-permit counters http.header_name tls sample_connector no_cells first_stream false
      first_run refl refl

-- The first stream, after the CA has been replaced on the disk while the loop waits.
abbrev reloaded : Manager counters http.header_name tls
reloaded = record first_stream {
  files = record first_stream.files {
    ca_pem = 9 ∷ [];
    ca_updated = record { permit = true; woken = true };
    reading = client_file;
  };
}
