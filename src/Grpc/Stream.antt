-- ===== src/Grpc/Stream.antt =====
-- images/dataplane/src/grpc.rs: the loop of `GrpcManager::start` as a step function. An event is what
-- the network, the file watcher or the shutdown does next; an event that the loop does not wait for in
-- its phase gives none. A message is published by three writes, each a step of its own, since requests
-- read the shared state between them.
pub mod Backoff
pub mod Publishing
pub mod Progress
pub mod History
pub mod Cancelling
pub mod Storing
pub mod Opening
pub mod Dialling
pub mod Recovering
pub mod Reading
pub mod Rotating
pub mod Pending
pub mod Noticing
pub mod Certified
use argon.Prelude.{
  ℕ, ◌-◌, ◌*◌, ◌^◌, min, ◌≡◌, Bool, true, false, not, ◌&&◌, ◌||◌, Option, none, some, List,
  if◌then◌else◌, list_eq,
}
use argon.Text.{Text}
use argon.HashMap.{HashMap}
use argon.Atomics.{Heap}
use argon.Config.{WatchRequest, Snapshot}
use argon.Rewrites.{HeaderName}
use argon.Cluster.{Counters}
use argon.Table.{RouteTable, new_table}
use argon.Certs.{Tls, CertifiedKey, certificates_from_snap}
use argon.Http.{ok, err}
use argon.Grpc.Watcher.{
  Files, is_nil, is_notified, is_resting, read_file, take_ca, take_client, take_neither,
}
use argon.Grpc.Connect.{ClientTls, Connector, connect_fut}

pub data Phase : Type 0 where
  loop_start : Phase
  connecting : (config : ClientTls) → Phase
  opening : WatchRequest → Phase
  streaming : (got_first : Bool) → Phase
  publish_table publish_certs : Snapshot → Phase
  stopped : Phase

pub data Event : Type 0 where
  checked connected connect_failed watch_opened watch_failed : Event
  message : Snapshot → Event
  stream_ended ca_notified client_notified cancel_noticed write : Event
  cancel : Event
  file_read : (waiting : Bool) → Option (List ℕ) → Event
  watcher_stopped : Event

abbrev pub is_streaming : Phase → Bool
is_streaming (streaming got_first) = true
is_streaming p = false

abbrev pub backoff_start : ℕ
backoff_start = 500

abbrev pub backoff_max : ℕ
backoff_max = 10000

-- `(backoff_ms.saturating_mul(2)).min(backoff_max)` on `u64`
unfoldable pub next_backoff : ℕ → ℕ
next_backoff ms = min (min (ms * 2) (2 ^ 64 - 1)) backoff_max

module _ (counters : Counters) (header_name : Text → Option HeaderName) (tls : Tls) where
  pub record Manager : Type 0 where
    pub phase : Phase
    pub backoff_ms : ℕ
    pub cancelled : Bool
    pub watching : Bool
    pub files : Files
    pub connector : Connector
    pub ready : Bool
    pub snapshot : Snapshot
    pub heap : Heap
    pub route_table : RouteTable counters
    pub sni : HashMap Text (CertifiedKey tls)

  -- The sleep before the next connection, and the longer sleep of the next time.
  unfoldable pub wait : Manager → Manager
  wait m = record m { phase = loop_start; backoff_ms = next_backoff m.backoff_ms }

  abbrev pub watch_request : Connector → WatchRequest
  watch_request c = record { node_id = c.node_id }

  -- The start of a round: the check for the cancellation, and what `connect_fut` does before it waits.
  step_loop_start : Event → Manager → Option Manager
  step_loop_start checked m =
      if m.cancelled
      then some (record m { phase = stopped })
      else elim (connect_fut m.connector m.files) [
        | ok config ↦ some (record m { phase = connecting config })
        | err e ↦ some (wait m)
      ]
  step_loop_start _ m = none

  -- The connection, which a cancellation does not end.
  step_connecting : Event → Manager → Option Manager
  step_connecting connected m =
      some (record m { phase = opening (watch_request m.connector); backoff_ms = backoff_start })
  step_connecting connect_failed m = some (wait m)
  step_connecting _ m = none

  step_opening : Event → Manager → Option Manager
  step_opening watch_opened m = some (record m { phase = streaming false; ready = true })
  step_opening watch_failed m = some (wait m)
  step_opening _ m = none

  -- The loop stops to wait for the notifications.
  abbrev pub left : Manager → Manager
  left m = record m { files = take_neither m.files }

  -- The branches of `select!`.
  step_streaming : Bool → Event → Manager → Option Manager
  step_streaming got_first cancel_noticed m =
      if m.cancelled then some (record (left m) { phase = stopped }) else none
  step_streaming got_first ca_notified m =
      if is_notified m.files.ca_updated
      then some (wait (record m { files = take_ca m.files }))
      else none
  step_streaming got_first client_notified m =
      if is_notified m.files.client_pem_updated
      then some (wait (record m { files = take_client m.files }))
      else none
  step_streaming got_first (message snap) m =
      some (record (left m) { phase = publish_table snap; snapshot = snap })
  step_streaming got_first stream_ended m = some (wait (left m))
  step_streaming got_first _ m = none

  pub store_table : Snapshot → Manager → Manager
  store_table snap m =
      let (heap, table) = new_table counters header_name m.heap snap in
      record m { phase = publish_certs snap; heap = heap; route_table = table }

  pub store_certs : Snapshot → Manager → Manager
  store_certs snap m = record m { phase = streaming true; sni = certificates_from_snap tls snap }

  step_writing : (Manager → Manager) → Event → Manager → Option Manager
  step_writing f write m = some (f m)
  step_writing f _ m = none

  step_loop : Phase → Event → Manager → Option Manager
  step_loop loop_start e m = step_loop_start e m
  step_loop (connecting config) e m = step_connecting e m
  step_loop (opening request) e m = step_opening e m
  step_loop (streaming got_first) e m = step_streaming got_first e m
  step_loop (publish_table snap) e m = step_writing (store_table snap) e m
  step_loop (publish_certs snap) e m = step_writing (store_certs snap) e m
  step_loop stopped e m = none

  -- One step of the loop, of the certificate watcher, which a cancellation ends where it sleeps, or of
  -- `shutdown`. The loop waits for notifications in the `select!` of an open stream alone.
  unfoldable pub step : Event → Manager → Option Manager
  unfolding step_loop step_loop_start step_connecting step_opening step_streaming step_writing
      store_table store_certs wait
  step cancel m = some (record m { cancelled = true })
  step (file_read waiting content) m =
      if m.watching && (not waiting || is_streaming m.phase)
      then some (record m { files = read_file waiting content m.files })
      else none
  step watcher_stopped m =
      if m.watching && m.cancelled && is_resting m.files.reading
      then some (record m { watching = false })
      else none
  step e m = step_loop m.phase e m

  pub data Reach (m : Manager) : Manager → Type 0 where
    here : Reach m m
    next : {n o : Manager} (e : Event) → Reach m n → step e n ≡ some o → Reach m o
