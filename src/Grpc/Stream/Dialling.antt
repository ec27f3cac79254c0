-- ===== src/Grpc/Stream/Dialling.antt =====
-- How images/dataplane/src/grpc.rs dials the control plane.
use argon.Prelude.{
  ◌≡◌, refl, ◌∙◌, subst, inl, inr, true, false, Option, some, arith, nat_eq, list_eq,
}
use argon.Text.{Text}
use argon.Atomics.{Heap}
use argon.Config.{WatchRequest}
use argon.Grpc.Start.{start}
use argon.Rewrites.{HeaderName}
use argon.Cluster.{Counters}
use argon.Certs.{Tls}
use argon.Http.{ok, Result-cases}
use argon.Grpc.Watcher.{Files, is_nil}
use argon.Grpc.Connect.{ClientTls, Connector, connect_fut}
use argon.Grpc.Stream.{
  Phase, loop_start, connecting, opening, Event, checked, connected, cancel, file_read,
  watcher_stopped, Manager, step_loop, step,
}

-- The connection authenticates both sides: a CA and an identity are there, the peer has to have the
-- name of the controller's address, and the transport has taken address and configuration.
pub record IsMutual (c : Connector) (config : ClientTls) : Type 0 where
  pub has_ca : is_nil config.ca_certificate ≡ false
  pub has_certificate : is_nil config.identity.0 ≡ false
  pub has_key : is_nil config.identity.1 ≡ false
  pub names_host : c.transport.uri_host c.controller_addr ≡ some (some config.domain_name)
  pub address_taken : c.transport.from_shared c.controller_addr ≡ true
  pub config_taken : c.transport.tls_config c.controller_addr config ≡ true

pub connect_fut-IsMutual :
    (c : Connector) (f : Files) (config : ClientTls)
    → connect_fut c f ≡ ok config
    → IsMutual c config
unfolding connect_fut
connect_fut-IsMutual c f config e = record {
  has_ca = ground arith;
  has_certificate = ground arith;
  has_key = ground arith;
  names_host = ground arith;
  address_taken = ground arith;
  config_taken = ground arith;
}

module _ (counters : Counters) (header_name : Text → Option HeaderName) (tls : Tls) where
  -- The connector is the one of the start; a connection that is being made is mutual, and a watch that
  -- is being opened is that of the node.
  pub record IsDialled (c : Connector) (m : Manager counters header_name tls) : Type 0 where
    pub kept : m.connector ≡ c
    pub mutual_tls : (config : ClientTls) → m.phase ≡ connecting config → IsMutual c config
    pub asks : (request : WatchRequest) → m.phase ≡ opening request → request.node_id ≡ c.node_id

  -- A step that makes no connection and opens no watch.
  IsDialled-kept :
      (c : Connector) (m o : Manager counters header_name tls)
      → o.connector ≡ m.connector
      → ((config : ClientTls) → o.phase ≡ connecting config → m.phase ≡ connecting config)
      → ((request : WatchRequest) → o.phase ≡ opening request → m.phase ≡ opening request)
      → IsDialled c m
      → IsDialled c o
  IsDialled-kept c m o same before earlier d = record {
    kept = same ∙ d.kept;
    mutual_tls = λ config at. d.mutual_tls config (before config at);
    asks = λ request at. d.asks request (earlier request at);
  }

  pub IsDialled-heap :
      (c : Connector) (m : Manager counters header_name tls) (h : Heap)
      → IsDialled c m
      → IsDialled c (record m { heap = h })
  IsDialled-heap c m h d =
      IsDialled-kept c m (record m { heap = h }) refl (λ config at. at) (λ request at. at) d

  checked-IsDialled :
      (c : Connector) (m o : Manager counters header_name tls)
      → IsDialled c m
      → step_loop counters header_name tls loop_start checked m ≡ some o
      → IsDialled c o
  unfolding step
  checked-IsDialled c m o d s = elim (Result-cases (connect_fut m.connector m.files)) [
    | inl (config, e) ↦ record {
      kept = ground (arith, d.kept);
      mutual_tls = λ config' at. subst (IsMutual c) (ground arith) (
          subst (λ x. IsMutual x config) d.kept
            (connect_fut-IsMutual m.connector m.files config e));
      asks = λ request at. absurd (ground arith);
    }
    | inr (error, e) ↦
        IsDialled-kept c m o (ground arith) (λ config at. absurd (ground arith))
          (λ request at. absurd (ground arith)) d
  ]

  connected-IsDialled :
      (config : ClientTls) (c : Connector) (m o : Manager counters header_name tls)
      → IsDialled c m
      → step_loop counters header_name tls (connecting config) connected m ≡ some o
      → IsDialled c o
  unfolding step
  connected-IsDialled config c m o d s = record {
    kept = ground (arith, d.kept);
    mutual_tls = λ config' at. absurd (ground arith);
    asks = λ request at. ground (arith, d.kept);
  }

  loop-IsDialled :
      (p : Phase) (e : Event) (c : Connector) (m o : Manager counters header_name tls)
      → m.phase ≡ p
      → IsDialled c m
      → step_loop counters header_name tls p e m ≡ some o
      → IsDialled c o
  unfolding step
  loop-IsDialled loop_start checked c m o at d s = checked-IsDialled c m o d s
  loop-IsDialled (connecting config) connected c m o at d s = connected-IsDialled config c m o d s
  loop-IsDialled p e c m o at d s =
      IsDialled-kept c m o (ground arith) (λ config at'. absurd (ground arith))
        (λ request at'. absurd (ground arith)) d

  pub step-IsDialled :
      (e : Event) (c : Connector) (m o : Manager counters header_name tls)
      → IsDialled c m
      → step counters header_name tls e m ≡ some o
      → IsDialled c o
  unfolding step
  step-IsDialled cancel c m o d s =
      IsDialled-kept c m o (ground arith) (λ config at. ground arith) (λ request at. ground arith) d
  step-IsDialled (file_read waiting content) c m o d s =
      IsDialled-kept c m o (ground arith) (λ config at. ground arith) (λ request at. ground arith) d
  step-IsDialled watcher_stopped c m o d s =
      IsDialled-kept c m o (ground arith) (λ config at. ground arith) (λ request at. ground arith) d
  step-IsDialled e c m o d s = loop-IsDialled m.phase e c m o refl d s

  pub start-IsDialled :
      (c : Connector) (h : Heap) → IsDialled c (start counters header_name tls c h)
  unfolding start
  start-IsDialled c h = record {
    kept = refl;
    mutual_tls = λ config at. absurd (ground arith);
    asks = λ request at. absurd (ground arith);
  }
