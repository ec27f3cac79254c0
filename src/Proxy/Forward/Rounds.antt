-- ===== src/Proxy/Forward/Rounds.antt =====
-- One round of `forward_to_upstream` of images/dataplane/src/proxy.rs.
use argon.Prelude.{
  ℕ, suc, ◌+◌, ◌≡◌, refl, ◌≢◌, ◌⊎◌, inl, inr, Bool, Option, none, some, [], ◌∷◌, arith, nat_eq,
}
use argon.Text.{Text, codes}
use argon.Http.{Http, Request, Response, Attempt, answered, failed, elapsed, Result, ok, err}
use argon.Proxy.Effects.{Clients, forwarded, Trace}
use argon.Proxy.Forward.{RequestSnapshot, give_up, next_request, error_text, rounds}

module _ (http : Http) where
  abbrev pub NoAnswer : Attempt (Response http) → Type 0
  NoAnswer (answered r) = ⊥
  NoAnswer _ = Unit

  pub Attempt-cases :
      (o : Attempt (Response http)) → ((resp : Response http) × (o ≡ answered resp)) ⊎ NoAnswer o
  Attempt-cases (answered r) = inl (r, refl)
  Attempt-cases (failed e) = inr tt
  Attempt-cases (elapsed e) = inr tt

module _ (http : Http) (clients : Clients http) (insecure : Bool) (timeout retries : ℕ)
    (snapshot : RequestSnapshot http) (addr : Text) where
  -- One round, by the outcome of its call.
  module _ (left attempt : ℕ) (first : Option (Request http)) (last_err : Option Text)
      (req : Request http)
      (ready : next_request http clients insecure timeout retries snapshot addr first
        ≡ some req) where
    abbrev this_round : Trace http × Result (Response http) Text
    this_round =
        rounds http clients insecure timeout retries snapshot addr (suc left) attempt first last_err

    abbrev call : Attempt (Response http)
    call = clients.upstream_call attempt insecure timeout req

    pub rounds-answered :
        (resp : Response http)
        → call ≡ answered resp
        → this_round ≡ (forwarded insecure timeout req ∷ [], ok resp)
    unfolding rounds
    rounds-answered resp e = ground arith

    pub rounds-last :
        NoAnswer http call
        → attempt + 1 ≡ retries
        → (e : Text) × (this_round ≡ (forwarded insecure timeout req ∷ [], err e))
    unfolding rounds give_up
    rounds-last quiet end = by_call call refl quiet
      where
        by_call :
            (o : Attempt (Response http))
            → call ≡ o
            → NoAnswer http o
            → (e : Text) × (this_round ≡ (forwarded insecure timeout req ∷ [], err e))
        by_call (answered r) f n = absurd n
        by_call (failed e) f n = (
          error_text http clients insecure timeout retries snapshot addr (codes "error") e,
          ground arith,
        )
        by_call (elapsed e) f n = (
          error_text http clients insecure timeout retries snapshot addr (codes "timeout") e,
          ground arith,
        )

    abbrev later_rounds : Option Text → Trace http × Result (Response http) Text
    later_rounds last =
        rounds http clients insecure timeout retries snapshot addr left (attempt + 1) none last

    pub rounds-more :
        NoAnswer http call
        → attempt + 1 ≢ retries
        → (last : Option Text) × (this_round
            ≡ (forwarded insecure timeout req ∷ (later_rounds last).0, (later_rounds last).1))
    unfolding rounds
    rounds-more quiet more = by_call call refl quiet
      where
        by_call :
            (o : Attempt (Response http))
            → call ≡ o
            → NoAnswer http o
            → (last : Option Text) × (this_round
                ≡ (forwarded insecure timeout req ∷ (later_rounds last).0, (later_rounds last).1))
        by_call (answered r) f n = absurd n
        by_call (failed e) f n = (
          some (error_text http clients insecure timeout retries snapshot addr (codes "error") e),
          ground arith,
        )
        by_call (elapsed e) f n = (
          some (error_text http clients insecure timeout retries snapshot addr (codes "timeout") e),
          ground arith,
        )
