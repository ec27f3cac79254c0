-- ===== src/Startup/Preparing.antt =====
-- The settings with which `main` of images/dataplane/src/main.rs starts.
use argon.Prelude.{
  ℕ, zero, suc, ◌+◌, ◌-◌, ◌*◌, ◌^◌, ◌<◌, ◌≡◌, refl, subst, inl, inr, Bool, true, Option, some, [],
  ◌∷◌, arith, ltb, Bool-cases, Option-cases, list_eq,
}
use argon.Text.{Text, codes}
use argon.Decimal.{decimal}
use argon.Certs.{Tls, CertifiedKey}
use argon.Http.{ok}
use argon.ClientPool.{ClientPool, new_http_pool_connector}
use argon.Startup.{
  parse_digits, parse_unsigned, Environment, variable, Settings, thread_count, Generator,
  make_dummy_cert, prepare,
}
use argon.Startup.Numbers.{parse_unsigned-decimal}

parse_digits-bound :
    (bits value n : ℕ) (s : Text)
    → value < 2 ^ bits
    → parse_digits bits value s ≡ some n
    → n < 2 ^ bits
unfolding parse_digits
parse_digits-bound bits value n [] fits e = ground arith
parse_digits-bound bits value n (c ∷ s) fits e =
    ground (arith, parse_digits-bound bits (value * 10 + (c - b'0')) n s)

one_fits : (bits : ℕ) → 0 < 2 ^ bits
one_fits zero = omega arith
one_fits (suc bits) = omega (arith, one_fits bits)

parse_unsigned-bound : (bits n : ℕ) (s : Text) → parse_unsigned bits s ≡ some n → n < 2 ^ bits
unfolding parse_unsigned
parse_unsigned-bound bits n [] e = absurd (ground arith)
parse_unsigned-bound bits n (c ∷ []) e = parse_digits-bound bits 0 n (c ∷ []) (one_fits bits) e
parse_unsigned-bound bits n (c ∷ d ∷ s) e = ground (
  arith,
  parse_digits-bound bits 0 n (d ∷ s) (one_fits bits),
  parse_digits-bound bits 0 n (c ∷ d ∷ s) (one_fits bits),
)

module _ (tls : Tls) (gen : Generator tls) (env : Environment) (cpus : ℕ) (can_build : ℕ → Bool)
    (roots : Bool) (can_bind : ℕ → Bool) where
  -- If the environment has the number of threads and the three ports in decimal, at least one
  -- thread and fewer than 10 ^ 10, and ports below 2 ^ 16, and the runtime and the pool are built
  -- for the threads, the admin port can be bound and the certificate is generated, then the start
  -- has exactly these numbers, this pool and this certificate, with the controller's address and
  -- the node's id from the environment or their defaults.
  pub prepare-decimal :
      (threads http_port https_port admin_port : ℕ) (pool : ClientPool tls.Cert)
      (key : CertifiedKey tls)
      → env (codes "COUNT_THREADS") ≡ some (decimal threads)
      → env (codes "HTTP_PORT") ≡ some (decimal http_port)
      → env (codes "HTTPS_PORT") ≡ some (decimal https_port)
      → env (codes "ADMIN_PORT") ≡ some (decimal admin_port)
      → (0 < threads) × (threads < 10 ^ 10)
      → http_port < 2 ^ 16
      → https_port < 2 ^ 16
      → admin_port < 2 ^ 16
      → can_build threads ≡ true
      → new_http_pool_connector tls.Cert roots threads ≡ some pool
      → can_bind admin_port ≡ true
      → make_dummy_cert tls gen ≡ some key
      → prepare tls gen env cpus can_build roots can_bind
        ≡ ok (
          record {
            threads = threads;
            http_port = http_port;
            https_port = https_port;
            admin_port = admin_port;
            controller_addr =
                variable env (codes "CONTROLLER_ADDR") (codes "https://127.0.0.1:18000");
            node_id = variable env (codes "NODE_ID") (codes "dp-axum");
          },
          pool,
          key,
        )
  unfolding prepare thread_count
  prepare-decimal threads http_port https_port admin_port pool key t h s a (some_thread, few) h_fits
        s_fits a_fits buildable pooled bindable made =
      let positive : ltb 0 threads ≡ true = ground arith in
      rw
        (
          t,
          h,
          s,
          a,
          parse_unsigned-decimal 64 threads (omega arith) few,
          parse_unsigned-decimal 16 http_port h_fits (omega arith),
          parse_unsigned-decimal 16 https_port s_fits (omega arith),
          parse_unsigned-decimal 16 admin_port a_fits (omega arith),
          buildable,
          bindable,
          made,
          positive,
          pooled,
        )
        refl

  -- What a start that does not fail has found.
  pub record IsPrepared (s : Settings) (pool : ClientPool tls.Cert) (key : CertifiedKey tls)
      : Type 0 where
    pub controller_addr :
        s.controller_addr ≡ variable env (codes "CONTROLLER_ADDR") (codes "https://127.0.0.1:18000")
    pub node_id : s.node_id ≡ variable env (codes "NODE_ID") (codes "dp-axum")
    pub threads : 0 < s.threads
    pub built : can_build s.threads ≡ true
    pub pooled : new_http_pool_connector tls.Cert roots s.threads ≡ some pool
    pub http_port : s.http_port < 2 ^ 16
    pub https_port : s.https_port < 2 ^ 16
    pub admin_port : s.admin_port < 2 ^ 16
    pub bound : can_bind s.admin_port ≡ true
    pub certified : make_dummy_cert tls gen ≡ some key

  abbrev port : Text → Text → Option ℕ
  port name default = parse_unsigned 16 (variable env name default)

  abbrev settings : ℕ → ℕ → ℕ → Settings
  settings admin_port http_port https_port = record {
    threads = thread_count env cpus;
    http_port = http_port;
    https_port = https_port;
    admin_port = admin_port;
    controller_addr = variable env (codes "CONTROLLER_ADDR") (codes "https://127.0.0.1:18000");
    node_id = variable env (codes "NODE_ID") (codes "dp-axum");
  }

  -- A start that does not fail has at least one thread, a runtime and the pool for the threads, ports below 2 ^
  -- 16, an admin port that could be bound, the generated certificate, and the address of the
  -- controller and the name of the node from the environment or their defaults.
  pub prepare-IsPrepared :
      (s : Settings) (pool : ClientPool tls.Cert) (key : CertifiedKey tls)
      → prepare tls gen env cpus can_build roots can_bind ≡ ok (s, pool, key)
      → IsPrepared s pool key
  unfolding prepare
  prepare-IsPrepared s pool key e = elim (Bool-cases (ltb 0 (thread_count env cpus))) [
    | inr idle ↦ absurd (ground arith)
    | inl busy ↦ elim (Bool-cases (can_build (thread_count env cpus))) [
      | inr failed ↦ absurd (ground arith)
      | inl runs ↦
          elim (Option-cases (new_http_pool_connector tls.Cert roots (thread_count env cpus))) [
            | inl rootless ↦ absurd (ground arith)
            | inr (pool', q) ↦ elim (Option-cases (port (codes "ADMIN_PORT") (codes "8181"))) [
              | inl bad ↦ absurd (ground arith)
              | inr (admin, a) ↦ elim (Bool-cases (can_bind admin)) [
                | inr taken ↦ absurd (ground arith)
                | inl free ↦ elim (Option-cases (port (codes "HTTP_PORT") (codes "8080"))) [
                  | inl bad ↦ absurd (ground arith)
                  | inr (http, h) ↦ elim (Option-cases (port (codes "HTTPS_PORT") (codes "8443"))) [
                    | inl bad ↦ absurd (ground arith)
                    | inr (https, t) ↦ elim (Option-cases (make_dummy_cert tls gen)) [
                      | inl bad ↦ absurd (ground arith)
                      | inr (made, m) ↦
                          let done : (settings admin http https, pool', made) ≡ (s, pool, key) =
                            ground arith in
                          subst
                            (λ (x : Settings × ClientPool tls.Cert × CertifiedKey tls).
                              IsPrepared x.0 x.1 x.2)
                            done
                            (record {
                              controller_addr = refl;
                              node_id = refl;
                              threads = ground arith;
                              built = runs;
                              pooled = q;
                              http_port = parse_unsigned-bound 16 http _ h;
                              https_port = parse_unsigned-bound 16 https _ t;
                              admin_port = parse_unsigned-bound 16 admin _ a;
                              bound = free;
                              certified = m;
                            })
                    ]
                  ]
                ]
              ]
            ]
          ]
    ]
  ]
