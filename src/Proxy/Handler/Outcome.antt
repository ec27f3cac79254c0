-- ===== src/Proxy/Handler/Outcome.antt =====
-- What a client gets for a request that was selected and let through (the end of `proxy_handler` in
-- images/dataplane/src/proxy.rs).
use argon.Prelude.{
  ℕ, ◌+◌, ◌^◌, ◌<◌, ◌≡◌, sym, ap, subst, ◌⊎◌, inl, inr, Bool, ◌++◌, arith, leb, if◌then◌else◌,
  Bool-cases, nat_eq, list_eq,
}
use argon.Text.{Text, codes}
use argon.Prelude.Int.{ℤ, pos, negsuc, pos_part, max_ℤ, cast_unsigned}
use argon.Decimal.{decimal_ℤ}
use argon.Cluster.{Counters}
use argon.Http.{Http, Request, Response, Attempt, answered, Result, ok, err}
use argon.Proxy.Headers.{remove_hop_headers}
use argon.Proxy.Reply.{text}
use argon.Proxy.Effects.{Clients, Trace}
use argon.Proxy.Forward.{capture, forward_to_upstream}
use argon.Proxy.Forward.Attempts.{outcome, allowed, forward_to_upstream-Attempted}
use argon.Proxy.Forward.Rounds.{NoAnswer}
use argon.Proxy.Handler.{Selection, attempts, exchange}

-- The numbers of an `i32`, on the side that matters here.
abbrev pub InI32 : ℤ → Type 0
InI32 r = pos_part r < 2 ^ 31

-- At least one attempt is made, whatever number of retries the cluster has.
attempts_pos : (r : ℤ) → InI32 r → 0 < cast_unsigned 64 (max_ℤ r (pos 1))
unfolding cast_unsigned
attempts_pos (pos n) h = elim (Bool-cases (leb (n + 0) 1)) [
  | inl few ↦ subst (λ b. 0 < cast_unsigned 64 (if b then pos 1 else pos n)) (sym few) (omega arith)
  | inr many ↦
      subst (λ b. 0 < cast_unsigned 64 (if b then pos 1 else pos n)) (sym many)
        (ground (arith, many))
]
attempts_pos (negsuc n) h = ground arith

module _ (http : Http) (counters : Counters) (clients : Clients http) (s : Selection http counters)
    (req : Request http) where
  abbrev insecure : Bool
  insecure = s.cluster.backend_tls_insecure_skip_verify

  abbrev timeout : ℕ
  timeout = cast_unsigned 64 s.cluster.timeout_ms

  abbrev tries : ℕ
  tries = attempts http counters clients s

  abbrev addr : Text
  addr = s.selected.endpoint.address ++ codes ":" ++ decimal_ℤ s.selected.endpoint.port

  abbrev pub call_at : ℕ → Attempt (Response http)
  call_at n = outcome http clients insecure timeout tries (capture http req) addr req n

  abbrev pub allowed_calls : ℕ
  allowed_calls = allowed http clients insecure timeout tries (capture http req) addr

  abbrev pub Failed : ℕ → Type 0
  Failed n = NoAnswer http (call_at n)

  -- The first answer of the attempts, without its hop-by-hop headers, or a 502 if there is none.
  abbrev pub IsOutcome : Response http → Type 0
  IsOutcome resp =
      ((k : ℕ) × (answer : Response http) × (k < allowed_calls)
        × (call_at k ≡ answered answer)
        × ((j : ℕ) → j < k → Failed j)
        × (resp ≡ record answer { headers = remove_hop_headers http answer.headers }))
      ⊎ (((j : ℕ) → j < allowed_calls → Failed j) × (resp.status ≡ 502))

  reply : Result (Response http) Text → Response http
  reply result = elim result [
    | ok resp ↦ record resp { headers = remove_hop_headers http resp.headers }
    | err e ↦ text http 502 e
  ]

  exchange-reply :
      (t : Trace http × Result (Response http) Text)
      → forward_to_upstream http clients insecure timeout tries (capture http req) addr req ≡ t
      → (exchange http counters clients s req).1 ≡ reply t.1
  unfolding exchange reply
  exchange-reply t e = ap (λ (u : Trace http × Result (Response http) Text). reply u.1) e

  -- For a number of retries in the range of an i32, the client gets the first answer of the allowed
  -- attempts without its hop-by-hop headers, or a 502 where none of them is answered; at least one
  -- attempt is made whatever the number of retries.
  pub exchange-IsOutcome :
      InI32 s.cluster.retries → IsOutcome (exchange http counters clients s req).1
  unfolding reply text
  exchange-IsOutcome h =
      elim (forward_to_upstream-Attempted http clients insecure timeout tries (capture http req)
        addr req (attempts_pos s.cluster.retries h)) [
          | inl (k, answer, lt, at, failed, e) ↦ inl (k, answer, lt, at, failed, exchange-reply _ e)
          | inr (n, e, one, failed, t) ↦
              inr (failed, ap (λ (r : Response http). r.status) (exchange-reply _ t))
        ]
