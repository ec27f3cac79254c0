-- ===== src/Grpc/Stream/Rotating.antt =====
-- New certificates for the connection of images/dataplane/src/grpc.rs while its stream is open.
use argon.Prelude.{
  ℕ, ◌≡◌, refl, ◌∙◌, Bool, true, false, not, Option, some, List, arith, ◌==◌, nat_eq, list_eq,
}
use argon.Text.{Text}
use argon.Rewrites.{HeaderName}
use argon.Cluster.{Counters}
use argon.Certs.{Tls}
use argon.Http.{ok}
use argon.Grpc.Watcher.{
  ca_file, client_file, key_file, Files, is_nil, notify_if, take_ca, take_client,
}
use argon.Grpc.Connect.{Connector, ClientTls, connect_fut}
use argon.Grpc.Stream.{
  connecting, streaming, Event, checked, ca_notified, client_notified, file_read, wait, Manager,
  step,
}
use argon.Grpc.Stream.Reading.{read_file-ca, read_file-client, read_file-key}

pub connect_fut-files :
    (c : Connector) (f : Files) (config : ClientTls)
    → connect_fut c f ≡ ok config
    → (config.ca_certificate ≡ f.ca_pem) × (config.identity ≡ (f.client_pem, f.client_key_pem))
unfolding connect_fut
connect_fut-files c f config e = (ground arith, ground arith)

-- The three contents, as the manager would have them.
abbrev pub loaded : (ca cert key : List ℕ) → Files → Files
loaded ca cert key f = record f { ca_pem = ca; client_pem = cert; client_key_pem = key }

-- One of the contents is not that of the manager.
pub data Change (ca cert key : List ℕ) (f : Files) : Type 0 where
  in_ca : (ca == f.ca_pem) ≡ false → Change ca cert key f
  in_certificate : (cert == f.client_pem) ≡ false → Change ca cert key f
  in_key : (key == f.client_key_pem) ≡ false → Change ca cert key f

-- The branch that the loop finds ready.
abbrev pub notification : {ca cert key : List ℕ} {f : Files} → Change ca cert key f → Event
notification (in_ca h) = ca_notified
notification (in_certificate h) = client_notified
notification (in_key h) = client_notified

used : {ca cert key : List ℕ} {f : Files} → Change ca cert key f → Files → Files
used (in_ca h) files = take_ca files
used (in_certificate h) files = take_client files
used (in_key h) files = take_client files

-- The files after a round, by what the loop did at each read.
module _ (ca cert key : List ℕ) (w₁ w₂ w₃ : Bool) (f : Files) where
  after_ca : Files
  after_ca = record f {
    ca_pem = ca;
    ca_updated = notify_if (not (ca == f.ca_pem)) w₁ f.ca_updated;
    reading = client_file;
  }

  after_cert : Files
  after_cert = record after_ca {
    client_pem = cert;
    client_pem_updated = notify_if (not (cert == f.client_pem)) w₂ f.client_pem_updated;
    reading = key_file;
  }

  after_key : Files
  after_key = record after_cert {
    client_key_pem = key;
    client_pem_updated =
        notify_if (not (key == f.client_key_pem)) w₃
          (notify_if (not (cert == f.client_pem)) w₂ f.client_pem_updated);
    reading = ca_file;
  }

module _ (counters : Counters) (header_name : Text → Option HeaderName) (tls : Tls) where
  abbrev State : Type 0
  State = Manager counters header_name tls

  with_files : State → Files → State
  with_files m files = record m { files = files }

  -- The events of a round.
  module _ (m : State) (got : Bool) (ca cert key : List ℕ) (w₁ w₂ w₃ : Bool)
      (at : m.phase ≡ streaming got) (watching : m.watching ≡ true)
      (there : (is_nil ca ≡ false) × (is_nil cert ≡ false) × (is_nil key ≡ false)) where
    reads_ca :
        m.files.reading ≡ ca_file
        → step counters header_name tls (file_read w₁ (some ca)) m
          ≡ some (with_files m (after_ca ca cert key w₁ w₂ w₃ m.files))
    unfolding step with_files after_ca
    reads_ca rests = ground (arith, read_file-ca w₁ ca m.files there.0 rests)

    reads_cert :
        step counters header_name tls
          (file_read w₂ (some cert))
          (with_files m (after_ca ca cert key w₁ w₂ w₃ m.files))
        ≡ some (with_files m (after_cert ca cert key w₁ w₂ w₃ m.files))
    unfolding step with_files after_cert after_ca
    reads_cert =
        ground
          (arith, read_file-client w₂ cert (after_ca ca cert key w₁ w₂ w₃ m.files) there.1 refl)

    reads_key :
        step counters header_name tls
          (file_read w₃ (some key))
          (with_files m (after_cert ca cert key w₁ w₂ w₃ m.files))
        ≡ some (with_files m (after_key ca cert key w₁ w₂ w₃ m.files))
    unfolding step with_files after_key after_cert after_ca
    reads_key =
        ground (arith, read_file-key w₃ key (after_cert ca cert key w₁ w₂ w₃ m.files) there.2 refl)

    notified :
        (changed : Change ca cert key m.files)
        → step counters header_name tls
            (notification changed)
            (with_files m (after_key ca cert key w₁ w₂ w₃ m.files))
          ≡ some (
              wait counters header_name tls
                (with_files m (used changed (after_key ca cert key w₁ w₂ w₃ m.files))))
    unfolding step with_files used after_key after_cert after_ca
    notified (in_ca h) = ground arith
    notified (in_certificate h) = ground arith
    notified (in_key h) = ground arith

  redialled : State → Files → ClientTls → State
  redialled m files config = record (wait counters header_name tls (with_files m files)) {
    phase = connecting config;
  }

  dials_lem :
      (m : State) (files : Files) (config : ClientTls)
      → m.cancelled ≡ false
      → connect_fut m.connector files ≡ ok config
      → step counters header_name tls checked (wait counters header_name tls (with_files m files))
        ≡ some (redialled m files config)
  unfolding step redialled with_files
  dials_lem m files config on dials = ground arith

  -- Only the contents matter.
  connect_fut-used :
      (c : Connector) (ca cert key : List ℕ) (w₁ w₂ w₃ : Bool) (f : Files)
      (changed : Change ca cert key f)
      → connect_fut c (used changed (after_key ca cert key w₁ w₂ w₃ f))
        ≡ connect_fut c (loaded ca cert key f)
  unfolding connect_fut used after_key after_cert after_ca
  connect_fut-used c ca cert key w₁ w₂ w₃ f (in_ca h) = refl
  connect_fut-used c ca cert key w₁ w₂ w₃ f (in_certificate h) = refl
  connect_fut-used c ca cert key w₁ w₂ w₃ f (in_key h) = refl

  -- If the watcher sleeps while a stream is open, the disk has a CA, a certificate and a key that
  -- are not empty, one of them is not the manager's, and they let it come to a connection, then the
  -- three reads of a round, whether the loop waits in its `select!` at each of them or not, leave a
  -- notification that the loop can take at once, and the next round of the loop dials with exactly
  -- the CA, the certificate and the key of the disk.
  pub round-dials :
      (m : State) (got : Bool) (ca cert key : List ℕ) (w₁ w₂ w₃ : Bool) (config : ClientTls)
      → m.phase ≡ streaming got
      → m.watching ≡ true
      → m.cancelled ≡ false
      → m.files.reading ≡ ca_file
      → (is_nil ca ≡ false) × (is_nil cert ≡ false) × (is_nil key ≡ false)
      → (changed : Change ca cert key m.files)
      → connect_fut m.connector (loaded ca cert key m.files) ≡ ok config
      → (m₁ : State) × (m₂ : State) × (n : State) × (o : State) × (p : State) × (step counters
            header_name tls
            (file_read w₁ (some ca))
            m
          ≡ some m₁)
        × (step counters header_name tls (file_read w₂ (some cert)) m₁ ≡ some m₂)
        × (step counters header_name tls (file_read w₃ (some key)) m₂ ≡ some n)
        × (step counters header_name tls (notification changed) n ≡ some o)
        × (step counters header_name tls checked o ≡ some p)
        × (p.phase ≡ connecting config)
        × (config.ca_certificate ≡ ca)
        × (config.identity ≡ (cert, key))
  unfolding redialled
  round-dials m got ca cert key w₁ w₂ w₃ config at watching on rests there changed dials =
      let files = used changed (after_key ca cert key w₁ w₂ w₃ m.files) in
      let (same_ca, identity) =
        connect_fut-files m.connector (loaded ca cert key m.files) config dials in
      (
        with_files m (after_ca ca cert key w₁ w₂ w₃ m.files),
        with_files m (after_cert ca cert key w₁ w₂ w₃ m.files),
        with_files m (after_key ca cert key w₁ w₂ w₃ m.files),
        wait counters header_name tls (with_files m files),
        redialled m files config,
        reads_ca m got ca cert key w₁ w₂ w₃ at watching there rests,
        reads_cert m got ca cert key w₁ w₂ w₃ at watching there,
        reads_key m got ca cert key w₁ w₂ w₃ at watching there,
        notified m got ca cert key w₁ w₂ w₃ at watching there changed,
        dials_lem m files config on
            (connect_fut-used m.connector ca cert key w₁ w₂ w₃ m.files changed ∙ dials),
        refl,
        same_ca,
        identity,
      )
