-- ===== src/Tests/Running.antt =====
-- A process with an open connection whose manager has received a snapshot, and a request to it.
use argon.Prelude.{
  list_beq, ◌≡◌, refl, true, false, none, some, [], ◌∷◌, if◌then◌else◌, or_else, nat_eq, list_eq,
}
use argon.Text.{codes, to_ascii_lowercase, trim_end_matches, trim, is_whitespace}
use argon.Prelude.Int.{cast_unsigned}
use argon.Config.{Snapshot}
use argon.Table.{new_table}
use argon.Http.{Request, get}
use argon.Admin.{echo}
use argon.Grpc.Stream
use argon.Grpc.Stream.{
  connecting, opening, streaming, file_read, checked, connected, watch_opened, message, write,
  Manager,
}
use argon.Grpc.Stream.History.{IsCurrent}
use argon.Grpc.Start.{start, is_ready}
use argon.Proxy.Resolve.{extract_host, host_of_header, clean_host}
use argon.Proxy.Forward.{forward_to_upstream}
use argon.Proxy.Handler.{select_upstream, proxy_handler, serve, authorize, exchange}
use argon.Proxy.Handler.Safety.{forwards}
use argon.Serving.{Follows}
use argon.InFlight
use argon.InFlight.{idle}
use argon.Listener
use argon.Listener.{accepting, handshaking, serving, bound, accepted, handshaken, service}
use argon.Process
use argon.Process.{launch}
use argon.DataPlane.{Main, DataPlane, launched, Step, proceeds, Reach, Reach-trans, here, next}
use argon.DataPlane.View.{view, Reach-view}
use argon.DataPlane.Served.{received, service-Follows}
use argon.DataPlane.Handshakes.{resolve-Follows}
use argon.Grpc.Stream.Certified.{IsCertified}
use argon.Certs.{CertifiedKey, resolve, wildcard_of, certificates_from_snap}
use argon.Certs.Choice.{last_key}
use mathlib.Core.Option
use argon.DataPlane.Ready.{opened, Reach-probe}
use argon.Tests.Maps.{counters}
use argon.Tests.Network.{http}
use argon.Tests.Requests.{sample_request, clients}
use argon.Tests.Samples.{sample_connector, sample_target, tls, sample_snapshot, no_cells}
use argon.Tests.Serving.{with_ca, with_cert, with_files, with_snapshot, with_table}

abbrev pub State : Type 0
State = DataPlane http counters tls

abbrev pub begun : State
begun = launched http counters tls sample_connector no_cells

-- A process with one HTTPS connection, and the manager in a state of its own.
abbrev pub connected_with : Manager counters http.header_name tls → State
connected_with m = record begun {
  process = record begun.process {
    https_listener = record { phase = accepting; conns = serving ∷ [] };
    manager = m;
  };
}

abbrev listening : Listener.Stage → State
listening stage = record begun {
  process = record begun.process {
    https_listener = record { phase = accepting; conns = stage ∷ [] };
  };
}

pub go :
    (d : State) (e : Process.Event) (p : Main http counters tls)
    → d.selected ≡ []
    → Process.step counters http.header_name tls e d.process ≡ some p
    → Step http counters tls d (record d { process = p })
go d e p free s = proceeds e p (λ locked. free) s refl

connected-Reach : Reach http counters tls begun (listening serving)
unfolding Process.step Listener.step launch
connected-Reach =
    next
      (next
        (next here (
          go begun (Process.Event.https bound)
            (record begun.process { https_listener = record { phase = accepting; conns = [] } })
            refl refl))
        (go
          (record begun {
            process = record begun.process {
              https_listener = record { phase = accepting; conns = [] };
            };
          })
          (Process.Event.https accepted) (listening handshaking).process refl refl))
      (go (listening handshaking) (Process.Event.https (handshaken 0)) (listening serving).process
        refl refl)

-- One event of the manager.
tell :
    {m o : Manager counters http.header_name tls} (e : Stream.Event)
    → Reach http counters tls begun (connected_with m)
    → Process.step counters http.header_name tls
        (Process.Event.manager e)
        (connected_with m).process
      ≡ some (connected_with o).process
    → Reach http counters tls begun (connected_with o)
tell {m} {o} e r s =
    next r (go (connected_with m) (Process.Event.manager e) (connected_with o).process refl s)

abbrev pub opening_watch : Manager counters http.header_name tls
opening_watch = record with_files { phase = opening (record { node_id = codes "node" }) }

-- The files are read, and the connection to the control plane is there.
pub opening_run : Reach http counters tls begun (connected_with opening_watch)
unfolding Process.step Stream.step launch start argon.Grpc.Connect.connect_fut
    argon.Grpc.Watcher.read_file argon.Grpc.Watcher.try_load_and_store list_beq
opening_run =
    tell {o = opening_watch} connected
      (tell {o = record with_files { phase = connecting sample_target }} checked
        (tell {o = with_files} (file_read false (some (3 ∷ [])))
          (tell {o = with_cert} (file_read false (some (2 ∷ [])))
            (tell {m = begun.process.manager} {o = with_ca} (file_read false (some (1 ∷ [])))
              connected-Reach refl)
            refl)
          refl)
        refl)
      refl

pub run : Reach http counters tls begun (connected_with with_table)
unfolding Process.step Stream.step launch start
run =
    tell {o = with_table} write
      (tell {o = with_snapshot} (message sample_snapshot)
        (tell {o = record with_files { phase = streaming false; ready = true }} watch_opened
          opening_run refl)
        refl)
      refl

forwards_run :
    forwards http
      (service http counters clients true with_table.heap.cell
        (λ h. h)
        with_table.heap
        with_table.route_table
        sample_request).1.0
    ≡ true
unfolding service proxy_handler select_upstream extract_host host_of_header clean_host get list_beq
    argon.Proxy.Resolve.resolve_route argon.Proxy.Resolve.resolve_cluster
    argon.Proxy.Resolve.resolve_endpoint argon.Table.choose_route argon.Table.get_cluster_rules
    argon.Table.get_endpoint argon.Table.build_cluster argon.Route.match_host
    argon.Route.match_in_bucket argon.Route.rule_cmp argon.Route.rule_matches argon.HashMap.get
    argon.HashMap.insert new_table argon.Route.build_routes argon.HashMap.map_values
    argon.Route.parse argon.HashMap.modify to_ascii_lowercase trim_end_matches trim is_whitespace
    argon.Sort.sort_by argon.Sort.place argon.Text.len argon.Text.starts_with argon.Atomics.alloc
    argon.Atomics.fetch_add argon.Cluster.build_map argon.Cluster.parse_policy
    argon.Cluster.pick_endpoint argon.Cluster.pick_round_robin serve authorize exchange
    forward_to_upstream cast_unsigned argon.Auth.build_auth_runtime argon.Proxy.Guard.open_guard
    argon.Cluster.selected_at
forwards_run = refl

service-Follows_example :
    (snap : Snapshot) × IsCurrent counters http.header_name tls snap
      (received http counters tls run)
      with_table
    × Follows http counters clients sample_request snap
        (service http counters clients true with_table.heap.cell
          (λ h. h)
          with_table.heap
          with_table.route_table
          sample_request).1
service-Follows_example =
    service-Follows http counters tls clients sample_connector no_cells (connected_with with_table)
      run true sample_request with_table.heap.cell (λ h. h) forwards_run

Reach-view_example :
    InFlight.Reach http counters
      (idle http counters no_cells)
      (view http counters tls (connected_with with_table))
Reach-view_example =
    Reach-view http counters tls sample_connector no_cells (connected_with with_table) run

abbrev probe : Request http
probe = record sample_request {
  uri = record { scheme = none; authority = none; path_and_query = some (codes "/readyz") };
}

Reach-probe_example :
    (echo http probe (is_ready counters http.header_name tls with_table)).status
    ≡ (if opened http counters tls run then 200 else 503)
Reach-probe_example =
    Reach-probe http counters tls sample_connector no_cells (connected_with with_table) run probe
      refl refl

abbrev default_key : CertifiedKey tls
default_key = record { chain = 0 ∷ []; key = 0 }

-- The certificates are stored between the two lookups.
abbrev certified : Manager counters http.header_name tls
certified = record with_table {
  phase = streaming true;
  sni = certificates_from_snap tls sample_snapshot;
}

stores_certs : Reach http counters tls (connected_with with_table) (connected_with certified)
unfolding Process.step Stream.step launch
stores_certs = next here (
    go (connected_with with_table) (Process.Event.manager write) (connected_with certified).process
      refl refl)

resolve-Follows_example :
    (first : Snapshot) × (second : Snapshot) × IsCertified counters http.header_name tls first
      (received http counters tls run)
      with_table
    × IsCertified counters http.header_name tls second
        (received http counters tls (Reach-trans http counters tls run stores_certs))
        certified
    × (resolve tls with_table.sni certified.sni default_key (some (codes "shop.test"))
        ≡ or_else (last_key tls (to_ascii_lowercase (codes "shop.test")) first.server_tls) (
            or_else
              (Option.bind
                (wildcard_of tls (to_ascii_lowercase (codes "shop.test")))
                (λ star. last_key tls star second.server_tls))
              (some default_key)))
resolve-Follows_example =
    resolve-Follows http counters tls sample_connector no_cells (connected_with with_table)
      (connected_with certified) run stores_certs default_key (codes "shop.test")
