-- ===== src/Startup.antt =====
-- images/dataplane/src/main.rs: what `main` reads and prepares before it starts the listeners, with
-- `make_dummy_cert` of certs.rs. The environment, the number of processors, whether
-- the runtime can be built with so many worker threads, whether the admin port can
-- be bound and the generator of certificates are parameters.
pub mod Numbers
pub mod Preparing
use mathlib.Core.Option
use argon.Prelude.{
  ℕ, ◌+◌, ◌-◌, ◌*◌, ◌^◌, Bool, ◌&&◌, Option, none, some, List, [], ◌∷◌, ltb, leb, if◌then◌else◌,
  unwrap_or, ◌==◌, nat_eq, list_eq,
}
use argon.Text.{Text, codes}
use argon.Decimal.{decimal}
use argon.Certs.{Tls, CertifiedKey}
use argon.ClientPool.{ClientPool, new_http_pool_connector}
use argon.Http.{Result, ok, err, ◌>>=◌}

-- The value after the digits, or none at a sign that is no digit, or beyond the range.
unfoldable pub parse_digits : ℕ → ℕ → Text → Option ℕ
parse_digits bits value [] = some value
parse_digits bits value (c ∷ cs) =
    let next = value * 10 + (c - b'0') in
    let rest = parse_digits bits next cs in
    if leb b'0' c && leb c b'9' && ltb next (2 ^ bits) then rest else none

-- `str::parse` to an unsigned number of so many bits: a plus sign may stand before the digits.
unfoldable pub parse_unsigned : ℕ → Text → Option ℕ
parse_unsigned bits [] = none
parse_unsigned bits (c ∷ []) = parse_digits bits 0 (c ∷ [])
parse_unsigned bits (c ∷ d ∷ cs) =
    if c == b'+' then parse_digits bits 0 (d ∷ cs) else parse_digits bits 0 (c ∷ d ∷ cs)

-- `std::env::var`
abbrev pub Environment : Type 0
Environment = Text → Option Text

abbrev pub variable : Environment → Text → Text → Text
variable env name default = unwrap_or (env name) default

pub record Settings : Type 0 where
  pub threads : ℕ
  pub http_port : ℕ
  pub https_port : ℕ
  pub admin_port : ℕ
  pub controller_addr : Text
  pub node_id : Text

-- Why `main` ends before it starts the listeners; without a thread, a runtime
-- or native roots, it panics.
pub data StartError : Type 0 where
  no_threads no_runtime no_native_roots bad_admin_port admin_not_bound bad_http_port bad_https_port
        no_dummy_cert :
      StartError

abbrev or_error : {A : Type 0} → Option A → StartError → Result A StartError
or_error none e = err e
or_error (some a) e = ok a

-- `ensure(flag)` of the runtime builder and of `bind`
abbrev check : Bool → StartError → Result Unit StartError
check flag e = if flag then ok tt else err e

unfoldable pub thread_count : Environment → ℕ → ℕ
unfolding parse_unsigned
thread_count env cpus =
    unwrap_or (parse_unsigned 64 (variable env (codes "COUNT_THREADS") (decimal cpus))) 1

module _ (tls : Tls) where
  -- `generate_simple_self_signed` with the key serialized, and the wrapping of the key.
  pub record Generator : Type 0 where
    pub self_signed : List Text → Option (tls.Cert × List ℕ)
    pub pkcs8 : List ℕ → tls.KeyDer

  unfoldable pub make_dummy_cert : Generator → Option (CertifiedKey tls)
  make_dummy_cert gen =
      elim (gen.self_signed
        (codes "hello.world.example" ∷ codes "localhost" ∷ codes "echo.local" ∷ [])) [
          | none ↦ none
          | some (cert, key_bytes) ↦
              Option.map (λ signing_key. record { chain = cert ∷ []; key = signing_key })
                (tls.any_supported_type (gen.pkcs8 key_bytes))
        ]

  -- The runtime and the pool of clients.
  runtime_of :
      Environment
      → ℕ
      → (can_build : ℕ → Bool) (has_native_roots : Bool)
      → Result (ℕ × ClientPool tls.Cert) StartError
  runtime_of env cpus can_build has_native_roots = do
    threads ← ok (thread_count env cpus)
    _ ← check (ltb 0 threads) no_threads
    _ ← check (can_build threads) no_runtime
    pool ← or_error (new_http_pool_connector tls.Cert has_native_roots threads) no_native_roots
    ok (threads, pool)

  admin_port_of : Environment → (ℕ → Bool) → Result ℕ StartError
  admin_port_of env can_bind = do
    admin_port ←
        or_error (parse_unsigned 16 (variable env (codes "ADMIN_PORT") (codes "8181")))
          bad_admin_port
    _ ← check (can_bind admin_port) admin_not_bound
    ok admin_port

  listeners_of : Generator → Environment → Result (ℕ × ℕ × CertifiedKey tls) StartError
  listeners_of gen env = do
    http_port ←
        or_error (parse_unsigned 16 (variable env (codes "HTTP_PORT") (codes "8080"))) bad_http_port
    https_port ←
        or_error (parse_unsigned 16 (variable env (codes "HTTPS_PORT") (codes "8443")))
          bad_https_port
    dummy_cert ← or_error (make_dummy_cert gen) no_dummy_cert
    ok (http_port, https_port, dummy_cert)

  -- The parts in their order; the first that fails ends `main`.
  unfoldable pub prepare :
      Generator
      → Environment
      → ℕ
      → (can_build : ℕ → Bool) (has_native_roots : Bool) (can_bind : ℕ → Bool)
      → Result (Settings × ClientPool tls.Cert × CertifiedKey tls) StartError
  unfolding make_dummy_cert runtime_of admin_port_of listeners_of
  prepare gen env cpus can_build has_native_roots can_bind = do
    (threads, pool) ← runtime_of env cpus can_build has_native_roots
    admin_port ← admin_port_of env can_bind
    (http_port, https_port, dummy_cert) ← listeners_of gen env
    ok (
      record {
        threads = threads;
        http_port = http_port;
        https_port = https_port;
        admin_port = admin_port;
        controller_addr = variable env (codes "CONTROLLER_ADDR") (codes "https://127.0.0.1:18000");
        node_id = variable env (codes "NODE_ID") (codes "dp-axum");
      },
      pool,
      dummy_cert,
    )
