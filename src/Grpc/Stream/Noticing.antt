-- ===== src/Grpc/Stream/Noticing.antt =====
-- The files of a connection of images/dataplane/src/grpc.rs, and those that the watcher has loaded since.
use argon.Prelude.{ℕ, ◌≡◌, ◌⊎◌, true, Option, List, nat_eq, list_eq}
use argon.Text.{Text}
use argon.Rewrites.{HeaderName}
use argon.Cluster.{Counters}
use argon.Certs.{Tls}
use argon.Http.{ok}
use argon.Grpc.Watcher.{Files, is_notified}
use argon.Grpc.Connect.{ClientTls, Connector, connect_fut}
use argon.Grpc.Stream.Pending.{is_dialled}
use argon.Grpc.Stream.{checked, Manager, Reach, here, next}

-- The CA of the connection, or a notification for it; and the same for the client's two files.
abbrev pub CaNoticed : List ℕ → Files → Type 0
CaNoticed ca f = (f.ca_pem ≡ ca) ⊎ (is_notified f.ca_updated ≡ true)

abbrev pub ClientNoticed : List ℕ × List ℕ → Files → Type 0
ClientNoticed (cert, key) f =
    ((f.client_pem ≡ cert) × (f.client_key_pem ≡ key)) ⊎ (is_notified f.client_pem_updated ≡ true)

module _ (counters : Counters) (header_name : Text → Option HeaderName) (tls : Tls) where
  abbrev State : Type 0
  State = Manager counters header_name tls

  -- The files with which a run has dialled last.
  abbrev pub dialled : {m o : State} → Reach counters header_name tls m o → Files
  dialled {m} here = m.files
  dialled (next {n} checked r s) = n.files
  dialled (next e r s) = dialled r

  -- What the manager knows of its connection, which was made with some files.
  pub record Noticed (c : Connector) (f : Files) (m : State) : Type 0 where
    pub config : ClientTls
    pub dials : connect_fut c f ≡ ok config
    pub ca : CaNoticed config.ca_certificate m.files
    pub client : ClientNoticed config.identity m.files

  record IsNoticing (c : Connector) (f : Files) (m : State) : Type 0 where
    kept : m.connector ≡ c
    noticed : is_dialled m.phase ≡ true → Noticed c f m
