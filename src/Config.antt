-- ===== src/Config.antt =====
-- The messages of proto/argon/config.proto, as images/dataplane/src/argon.config.rs declares them.
use argon.Prelude.{ℕ, Bool, Option, List, []}
use argon.Prelude.Int.{ℤ, pos}
use argon.Text.{Text, codes}
use argon.HashMap.{HashMap}

pub record WatchRequest : Type 0 where
  pub node_id : Text

pub record Endpoint : Type 0 where
  pub address : Text
  pub port : ℤ
  pub weight : ℤ
  pub zone : Text
  pub region : Text

pub record HeaderRewrite : Type 0 where
  pub name : Text
  pub mode : Text
  pub value : Text

pub record AuthConfig : Type 0 where
  pub url : Text
  pub signin : Text
  pub response_headers : List Text
  pub skip_paths : List Text
  pub cookie_name : Text

pub record Cluster : Type 0 where
  pub name : Text
  pub lb_policy : Text
  pub endpoints : List Endpoint
  pub timeout_ms : ℤ
  pub retries : ℤ
  pub backend_protocol : Text
  pub request_headers : List HeaderRewrite
  pub backend_tls_insecure_skip_verify : Bool
  pub auth : Option AuthConfig

pub record Route : Type 0 where
  pub host : Text
  pub path : Text
  pub path_type : Text
  pub cluster : Text
  pub priority : ℤ

pub record ServerTlsBundle : Type 0 where
  pub name : Text
  pub sni : List Text
  pub cert_pem : List ℕ
  pub key_pem : List ℕ
  pub not_after_unix : ℤ
  pub version : Text

pub record Snapshot : Type 0 where
  pub version : Text
  pub controller_id : Text
  pub ingress_class_name : Text
  pub generated_at_unix_sec : ℤ
  pub resource_versions : HashMap Text Text
  pub routes : List Route
  pub clusters : List Cluster
  pub server_tls : List ServerTlsBundle

-- `Snapshot::default()`
abbrev pub default_snapshot : Snapshot
default_snapshot = record {
  version = codes "";
  controller_id = codes "";
  ingress_class_name = codes "";
  generated_at_unix_sec = pos 0;
  resource_versions = [];
  routes = [];
  clusters = [];
  server_tls = [];
}
