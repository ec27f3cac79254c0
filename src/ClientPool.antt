-- ===== src/ClientPool.antt =====
-- images/dataplane/src/client_pool.rs: the two clients of the pool, as the settings that their builders
-- are given. What a client does with them is hyper's code.
use argon.Prelude.{
  ℕ, ◌*◌, ◌%◌, ◌^◌, ◌≡◌, Bool, true, Option, none, some, List, [], ◌∷◌, arith, if◌then◌else◌,
  nat_eq,
}
use argon.Text.{Text}

-- `rustls::SignatureScheme`, by the code points of TLS.
abbrev pub SignatureScheme : Type 0
SignatureScheme = ℕ

abbrev rsa_pss_sha256 : SignatureScheme
rsa_pss_sha256 = 0x0804

abbrev ecdsa_nistp256_sha256 : SignatureScheme
ecdsa_nistp256_sha256 = 0x0403

abbrev rsa_pkcs1_sha256 : SignatureScheme
rsa_pkcs1_sha256 = 0x0401

-- `ServerCertVerifier`; the tests answer whether the certificate or the signature is accepted.
pub record ServerCertVerifier (Cert : Type 0) : Type 0 where
  pub verify_server_cert : Cert → List Cert → Text → List ℕ → ℕ → Bool
  pub verify_tls12_signature : List ℕ → Cert → List ℕ → Bool
  pub verify_tls13_signature : List ℕ → Cert → List ℕ → Bool
  pub supported_verify_schemes : List SignatureScheme

-- Where a connector takes its trust from.
pub data Trust (Cert : Type 0) : Type 0 where
  native_roots : Trust Cert
  custom : ServerCertVerifier Cert → Trust Cert

module _ (Cert : Type 0) where
  unfoldable pub no_cert_verifier : ServerCertVerifier Cert
  no_cert_verifier = record {
    verify_server_cert = λ end_entity intermediates server_name ocsp_response now. true;
    verify_tls12_signature = λ message cert dss. true;
    verify_tls13_signature = λ message cert dss. true;
    supported_verify_schemes = rsa_pss_sha256 ∷ ecdsa_nistp256_sha256 ∷ rsa_pkcs1_sha256 ∷ [];
  }

  -- The connectors take `http` and `https` and all versions.
  pub record Client : Type 0 where
    pub trust : Trust Cert
    pub pool_idle_timeout : ℕ
    pub pool_max_idle_per_host : ℕ

  pub record ClientPool : Type 0 where
    pub connector : Client
    pub connector_insecure : Client

  abbrev default_count_pool : ℕ
  default_count_pool = 32

  abbrev default_idle_timeout : ℕ
  default_idle_timeout = 60

  build_client : ℕ → Trust Cert → Client
  build_client count_thread trust = record {
    trust = trust;
    pool_idle_timeout = default_idle_timeout;
    pool_max_idle_per_host = default_count_pool * count_thread % 2 ^ 64;
  }

  -- Without native roots the function panics.
  unfoldable pub new_http_pool_connector : (has_native_roots : Bool) → ℕ → Option ClientPool
  unfolding build_client
  new_http_pool_connector has_native_roots count_thread =
      if has_native_roots
      then some (record {
        connector = build_client count_thread native_roots;
        connector_insecure = build_client count_thread (custom no_cert_verifier);
      })
      else none

  unfoldable pub default_pool : (has_native_roots : Bool) → Option ClientPool
  default_pool has_native_roots = new_http_pool_connector has_native_roots default_count_pool

  -- The choice in `proxy_handler` and in `perform_auth_if_needed`.
  unfoldable pub client_of : ClientPool → Bool → Client
  client_of pool insecure = if insecure then pool.connector_insecure else pool.connector

  -- The chosen client takes the native roots, unless verification is left out.
  pub client_of-trust :
      (pool : ClientPool) (roots : Bool) (count_thread : ℕ) (insecure : Bool)
      → new_http_pool_connector roots count_thread ≡ some pool
      → (client_of pool insecure).trust
        ≡ (if insecure then custom no_cert_verifier else native_roots)
  unfolding new_http_pool_connector client_of
  client_of-trust pool roots count_thread insecure e = ground arith
