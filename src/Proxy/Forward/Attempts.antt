-- ===== src/Proxy/Forward/Attempts.antt =====
-- The attempts of `forward_to_upstream`: their number, their requests and their outcome.
use native.Mathlib.Decide.{ℕ_discrete as dec_eq}
use argon.Prelude.{
  ℕ, zero, suc, ◌+◌, ◌-◌, ◌<◌, ◌≡◌, refl, ap, ap₂, ◌∙◌, subst, ◌⊎◌, inl, inr, Bool, false, Option,
  none, some, [], ◌∷◌, ◌++◌, arith, if◌then◌else◌, Bool-cases, unwrap_or, nat_eq,
}
use argon.Text.{Text, codes}
use argon.Http.{Http, Request, Response, Attempt, answered, Result, ok, err}
use argon.Proxy.Effects.{Clients, Event, forwarded, Trace}
use argon.Proxy.Forward.{
  RequestSnapshot, build_retry_request, give_up, next_request, rounds, forward_to_upstream,
}
use argon.Proxy.Forward.Rounds.{NoAnswer, Attempt-cases, rounds-answered, rounds-last, rounds-more}
use argon.Proxy.Forward.Retries.{replicate, retry, retry_call, Quiet, rounds-Loop}

module _ (http : Http) (clients : Clients http) (insecure : Bool) (timeout retries : ℕ)
    (snapshot : RequestSnapshot http) (addr : Text) where
  -- The request of an attempt: the first is the one given, the others are made from the snapshot.
  abbrev pub request_at : Request http → ℕ → Request http
  request_at first zero = first
  request_at first (suc n) = build_retry_request http snapshot

  abbrev pub outcome : Request http → ℕ → Attempt (Response http)
  outcome first n = clients.upstream_call n insecure timeout (request_at first n)

  -- As many attempts as are allowed: one alone if the body cannot be sent again.
  abbrev pub allowed : ℕ
  allowed = if snapshot.body_is_reusable then retries else 1

  abbrev pub sent : Request http → ℕ → Event http
  sent first n = forwarded insecure timeout (request_at first n)

  -- The first answer ends the attempts; without one, all that are allowed are made.
  abbrev pub Attempted : Request http → Trace http × Result (Response http) Text → Type 0
  Attempted first t =
      ((k : ℕ) × (resp : Response http) × (k < allowed)
        × (outcome first k ≡ answered resp)
        × ((j : ℕ) → j < k → NoAnswer http (outcome first j))
        × (t ≡ (
          sent first 0 ∷ replicate k (retry http clients insecure timeout retries snapshot addr),
          ok resp,
        )))
      ⊎ ((n : ℕ) × (e : Text) × (suc n ≡ allowed)
          × ((j : ℕ) → j < allowed → NoAnswer http (outcome first j))
          × (t ≡ (
            sent first 0 ∷ replicate n (retry http clients insecure timeout retries snapshot addr),
            err e,
          )))

  rounds-blocked :
      (left attempt : ℕ) (last_err : Option Text)
      → snapshot.body_is_reusable ≡ false
      → (e : Text) × (rounds http clients insecure timeout retries snapshot addr left attempt none
            last_err
          ≡ ([], err e))
  unfolding rounds give_up next_request
  rounds-blocked zero attempt last_err blocked = (_, refl)
  rounds-blocked (suc left) attempt last_err blocked = (
    unwrap_or last_err (codes "Upstream connector timed out: " ++ http.debug_str addr),
    ground arith,
  )

  outcome-Quiet :
      (first : Request http) (n : ℕ)
      → NoAnswer http (outcome first 0)
      → Quiet http clients insecure timeout retries snapshot addr (0 + 1) n
      → (j : ℕ) → j < suc n
      → NoAnswer http (outcome first j)
  outcome-Quiet first n quiet more zero lt = quiet
  outcome-Quiet first n quiet more (suc j) lt =
      subst (λ k. NoAnswer http (retry_call http clients insecure timeout retries snapshot addr k))
        {x = 0 + 1 + j} (omega arith) (more j (omega arith))

  abbrev whole : Request http → ℕ → Trace http × Result (Response http) Text
  whole first n = rounds http clients insecure timeout retries snapshot addr n 0 (some first) none

  abbrev rest : ℕ → Option Text → Trace http × Result (Response http) Text
  rest n last = rounds http clients insecure timeout retries snapshot addr n (0 + 1) none last

  -- Attempts behind the first, which was not answered.
  later-Attempted :
      (left : ℕ) (first : Request http) (last : Option Text)
      → suc left ≡ retries
      → NoAnswer http (outcome first 0)
      → whole first (suc left) ≡ (sent first 0 ∷ (rest left last).0, (rest left last).1)
      → Attempted first (whole first (suc left))
  later-Attempted left first last e quiet step = elim (Bool-cases snapshot.body_is_reusable) [
    | inl reusable ↦
        elim (rounds-Loop http clients insecure timeout retries snapshot addr left (0 + 1) last
          reusable (omega arith)) [
            | inl (i, resp, lt, ans, q, tr, res) ↦ inl (
              suc i,
              resp,
              ground arith,
              subst
                  (λ k.
                    retry_call http clients insecure timeout retries snapshot addr k
                    ≡ answered resp)
                  {x = 0 + 1 + i} (omega arith) ans,
              outcome-Quiet first i quiet q,
              step ∙ ap₂ (λ r o. (sent first 0 ∷ r, o)) tr res,
            )
            | inr (e', q, tr, res) ↦ inr (
              left,
              e',
              ground arith,
              λ j lt. outcome-Quiet first left quiet q j (ground arith),
              step ∙ ap₂ (λ r o. (sent first 0 ∷ r, o)) tr res,
            )
          ]
    | inr blocked ↦
        let (e', none_left) = rounds-blocked left (0 + 1) last blocked in
        inr (
          0,
          e',
          ground arith,
          λ j lt. outcome-Quiet first 0 quiet (λ i l. elim l [ ]) j (ground arith),
          step
              ∙ ap (λ (t : Trace http × Result (Response http) Text). (sent first 0 ∷ t.0, t.1))
                  none_left,
        )
  ]

  rounds-Attempted :
      (left : ℕ) (first : Request http)
      → suc left ≡ retries
      → Attempted first (whole first (suc left))
  rounds-Attempted left first e =
      let ready : next_request http clients insecure timeout retries snapshot addr (some first)
          ≡ some first =
        unfold next_request in refl in
      elim (Attempt-cases http (outcome first 0)) [
        | inl (resp, ans) ↦ inl (
          0,
          resp,
          ground arith,
          ans,
          λ j lt. elim lt [ ],
          rounds-answered http clients insecure timeout retries snapshot addr left 0 (some first)
              none first ready resp ans,
        )
        | inr quiet ↦ elim (dec_eq (0 + 1) retries) [
          | yes end ↦
              let (e', last) =
                rounds-last http clients insecure timeout retries snapshot addr left 0 (some first)
                  none first ready quiet end in
              inr (
                0,
                e',
                ground arith,
                λ j lt. outcome-Quiet first 0 quiet (λ i l. elim l [ ]) j (ground arith),
                last,
              )
          | no more ↦
              let (last, step) =
                rounds-more http clients insecure timeout retries snapshot addr left 0 (some first)
                  none first ready quiet more in
              later-Attempted left first last e quiet step
        ]
      ]

  -- With at least one attempt allowed, forwarding sends the first request and then retries from the
  -- snapshot: it ends at the first answer, before which no attempt was answered, or with an error
  -- after all allowed attempts failed; a request whose body cannot be sent again is allowed one
  -- attempt.
  pub forward_to_upstream-Attempted :
      (first : Request http)
      → 0 < retries
      → Attempted first
          (forward_to_upstream http clients insecure timeout retries snapshot addr first)
  unfolding forward_to_upstream
  forward_to_upstream-Attempted first some_attempt =
      subst (λ n. Attempted first (whole first n)) {x = suc (retries - 1)} (omega arith)
        (rounds-Attempted (retries - 1) first (omega arith))
