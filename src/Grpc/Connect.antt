-- ===== src/Grpc/Connect.antt =====
-- images/dataplane/src/grpc.rs: `connect_fut`, up to the connection itself, with what the task of the
-- loop keeps from `GrpcManager::start`. The parts of the crates http and tonic are parameters.
use argon.Prelude.{ℕ, Bool, not, ◌||◌, Option, none, some, List, if◌then◌else◌, nat_eq, list_eq}
use argon.Text.{Text}
use argon.Http.{Result, ok, err, ◌>>=◌}
use argon.Grpc.Watcher.{Files, is_nil}

-- `ClientTlsConfig` after its builder.
pub record ClientTls : Type 0 where
  pub ca_certificate : List ℕ
  pub identity : List ℕ × List ℕ
  pub domain_name : Text

pub record Transport : Type 0 where
  -- `parse::<Uri>`, and `host` of what it gives
  pub uri_host : Text → Option (Option Text)
  -- whether `Channel::from_shared` and `tls_config` of its endpoint succeed
  pub from_shared : Text → Bool
  pub tls_config : Text → ClientTls → Bool

pub record Connector : Type 0 where
  pub controller_addr : Text
  pub node_id : Text
  pub transport : Transport

pub data ConnectError : Type 0 where
  no_ca no_identity invalid_address no_host no_endpoint no_tls : ConnectError

require : Bool → ConnectError → Result Unit ConnectError
require flag e = if flag then ok tt else err e

or_fail : {A : Type 0} → Option A → ConnectError → Result A ConnectError
or_fail none e = err e
or_fail (some a) e = ok a

-- The configuration with which the controller is dialled.
unfoldable pub connect_fut : Connector → Files → Result ClientTls ConnectError
unfolding require or_fail
connect_fut c f = do
  _ ← require (not (is_nil f.ca_pem)) no_ca
  _ ← require (not (is_nil f.client_pem || is_nil f.client_key_pem)) no_identity
  uri ← or_fail (c.transport.uri_host c.controller_addr) invalid_address
  host ← or_fail uri no_host
  tls_config ← ok (record {
    ca_certificate = f.ca_pem;
    identity = (f.client_pem, f.client_key_pem);
    domain_name = host;
  })
  _ ← require (c.transport.from_shared c.controller_addr) no_endpoint
  _ ← require (c.transport.tls_config c.controller_addr tls_config) no_tls
  ok tls_config
