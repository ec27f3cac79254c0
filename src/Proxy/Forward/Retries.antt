-- ===== src/Proxy/Forward/Retries.antt =====
-- The attempts of `forward_to_upstream` of images/dataplane/src/proxy.rs after the first.
use native.Mathlib.Decide.{ℕ_discrete as dec_eq}
use argon.Prelude.{
  ℕ, zero, suc, ◌+◌, ◌<◌, ◌≡◌, refl, sym, ap, subst, ◌⊎◌, inl, inr, Bool, true, Option, none, some,
  List, [], ◌∷◌, arith, nat_eq,
}
use argon.Text.{Text}
use argon.Http.{Http, Response, Attempt, answered, Result, ok, err}
use argon.Proxy.Effects.{Clients, Event, forwarded, Trace}
use argon.Proxy.Forward.{RequestSnapshot, build_retry_request, give_up, next_request, rounds}
use argon.Proxy.Forward.Rounds.{NoAnswer, Attempt-cases, rounds-answered, rounds-last, rounds-more}

module _ {ℓ} {A : Type ℓ} where
  abbrev pub replicate : ℕ → A → List A
  replicate zero a = []
  replicate (suc n) a = a ∷ replicate n a

module _ (http : Http) (clients : Clients http) (insecure : Bool) (timeout retries : ℕ)
    (snapshot : RequestSnapshot http) (addr : Text) where
  abbrev pub retry : Event http
  retry = forwarded insecure timeout (build_retry_request http snapshot)

  abbrev pub retry_call : ℕ → Attempt (Response http)
  retry_call n = clients.upstream_call n insecure timeout (build_retry_request http snapshot)

  -- None of the `n` attempts from `attempt` on is answered.
  abbrev pub Quiet : ℕ → ℕ → Type 0
  Quiet attempt n = (j : ℕ) → j < n → NoAnswer http (retry_call (attempt + j))

  Quiet-suc :
      (attempt n : ℕ)
      → NoAnswer http (retry_call attempt)
      → Quiet (attempt + 1) n
      → Quiet attempt (suc n)
  Quiet-suc attempt n quiet more zero lt =
      subst (λ k. NoAnswer http (retry_call k)) {x = attempt} (omega arith) quiet
  Quiet-suc attempt n quiet more (suc j) lt =
      subst (λ k. NoAnswer http (retry_call k)) {x = attempt + 1 + j} (omega arith)
        (more j (omega arith))

  -- The loop after the first attempt, with `left` attempts to go from `attempt` on: it ends at the
  -- first answer, or after all of them.
  abbrev pub Loop : ℕ → ℕ → Trace http × Result (Response http) Text → Type 0
  Loop left attempt t =
      ((i : ℕ) × (resp : Response http) × (i < left)
        × (retry_call (attempt + i) ≡ answered resp)
        × Quiet attempt i
        × (t.0 ≡ replicate (suc i) retry)
        × (t.1 ≡ ok resp))
      ⊎ ((e : Text) × Quiet attempt left × (t.0 ≡ replicate left retry) × (t.1 ≡ err e))

  Loop-suc :
      (left attempt : ℕ) (t : Trace http × Result (Response http) Text)
      → NoAnswer http (retry_call attempt)
      → Loop left (attempt + 1) t
      → Loop (suc left) attempt (retry ∷ t.0, t.1)
  Loop-suc left attempt t quiet (inl (i, resp, lt, ans, q, tr, res)) = inl (
    suc i,
    resp,
    omega arith,
    subst (λ k. retry_call k ≡ answered resp) {x = attempt + 1 + i} (omega arith) ans,
    Quiet-suc attempt i quiet q,
    ap (λ r. retry ∷ r) tr,
    res,
  )
  Loop-suc left attempt t quiet (inr (e, q, tr, res)) =
      inr (e, Quiet-suc attempt left quiet q, ap (λ r. retry ∷ r) tr, res)

  pub rounds-Loop :
      (left attempt : ℕ) (last_err : Option Text)
      → snapshot.body_is_reusable ≡ true
      → attempt + left ≡ retries
      → Loop left attempt
          (rounds http clients insecure timeout retries snapshot addr left attempt none last_err)
  rounds-Loop zero attempt last_err reusable e =
      unfold rounds give_up in inr (_, λ j lt. elim lt [ ], refl, refl)
  rounds-Loop (suc left) attempt last_err reusable e =
      let ready : next_request http clients insecure timeout retries snapshot addr none
          ≡ some (build_retry_request http snapshot) =
        unfold next_request in rw reusable in
      elim (Attempt-cases http (retry_call attempt)) [
        | inl (resp, ans) ↦
            subst (Loop (suc left) attempt)
              (sym (
                rounds-answered http clients insecure timeout retries snapshot addr left attempt
                  none last_err (build_retry_request http snapshot) ready resp ans))
              (inl (
                0,
                resp,
                omega arith,
                subst (λ k. retry_call k ≡ answered resp) {x = attempt} (omega arith) ans,
                λ j lt. elim lt [ ],
                refl,
                refl,
              ))
        | inr quiet ↦ elim (dec_eq (attempt + 1) retries) [
          | yes end ↦
              let (e', last) =
                rounds-last http clients insecure timeout retries snapshot addr left attempt none
                  last_err (build_retry_request http snapshot) ready quiet end in
              let done : left ≡ 0 = omega arith in
              subst (Loop (suc left) attempt) (sym last) (
                inr (
                  e',
                  Quiet-suc attempt left quiet (λ j lt. absurd (omega arith)),
                  ap (λ n. replicate (suc n) retry) (sym done),
                  refl,
                ))
          | no more ↦
              let (last, step) =
                rounds-more http clients insecure timeout retries snapshot addr left attempt none
                  last_err (build_retry_request http snapshot) ready quiet more in
              subst (Loop (suc left) attempt) (sym step) (
                Loop-suc left attempt _ quiet
                  (rounds-Loop left (attempt + 1) last reusable (omega arith)))
        ]
      ]
