-- ===== src/Tests/Starting.antt =====
-- A start with an environment that has all the numbers.
use argon.Prelude.{
  list_beq, ℕ, ◌≡◌, refl, true, none, some, [], ◌∷◌, arith, if◌then◌else◌, ◌==◌, nat_eq, list_eq,
}
use argon.Text.{codes}
use argon.Decimal.{decimal}
use argon.Certs.{CertifiedKey}
use argon.ClientPool.{
  Trust, native_roots, custom, Client, ClientPool, no_cert_verifier, new_http_pool_connector,
}
use argon.Http.{ok}
use argon.Startup.{Environment, Settings, Generator, make_dummy_cert, prepare}
use argon.Startup.Preparing.{prepare-decimal}
use argon.Tests.Samples.{tls}

abbrev pub environment : Environment
environment name =
    if name == codes "COUNT_THREADS"
    then some (decimal 4)
    else if name == codes "HTTP_PORT"
    then some (decimal 80)
    else if name == codes "HTTPS_PORT"
    then some (decimal 443)
    else if name == codes "ADMIN_PORT"
    then some (decimal 8181)
    else if name == codes "CONTROLLER_ADDR"
    then some (codes "https://controller:18000")
    else if name == codes "NODE_ID"
    then some (codes "node")
    else none

abbrev pub generator : Generator tls
generator = record { self_signed = λ names. some (7, 8 ∷ []); pkcs8 = λ bytes. 8 }

abbrev pub dummy : CertifiedKey tls
dummy = record { chain = 7 ∷ []; key = 8 }

abbrev client : Trust ℕ → Client ℕ
client trust = record { trust = trust; pool_idle_timeout = 60; pool_max_idle_per_host = 128 }

abbrev pub pool_of_four : ClientPool ℕ
pool_of_four = record {
  connector = client native_roots;
  connector_insecure = client (custom (no_cert_verifier ℕ));
}

abbrev expected : Settings
expected = record {
  threads = 4;
  http_port = 80;
  https_port = 443;
  admin_port = 8181;
  controller_addr = codes "https://controller:18000";
  node_id = codes "node";
}

prepare-decimal_example :
    prepare tls generator environment 2 (λ threads. true) true (λ port. true)
    ≡ ok (expected, pool_of_four, dummy)
unfolding list_beq make_dummy_cert new_http_pool_connector
prepare-decimal_example =
    prepare-decimal tls generator environment 2 (λ threads. true) true (λ port. true) 4 80 443 8181
      pool_of_four dummy refl refl refl refl (omega arith, omega arith) (omega arith) (omega arith)
      (omega arith) refl refl refl refl
