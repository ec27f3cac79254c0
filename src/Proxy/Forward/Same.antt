-- ===== src/Proxy/Forward/Same.antt =====
-- The requests of the attempts of `forward_to_upstream` of images/dataplane/src/proxy.rs.
use argon.Prelude.{
  ℕ, zero, suc, ◌+◌, ◌≡◌, refl, sym, subst, ◌⊎◌, inl, inr, Bool, Option, none, some, [], ◌∷◌, ◌++◌,
  arith, Bool-cases, Option-cases, ◌==◌, nat_eq, list_eq,
}
use argon.Text.{Text, codes}
use argon.Http.{Http, Request, Response, Attempt, answered, failed, elapsed}
use argon.Proxy.Effects.{Clients, asked, forwarded, Trace}
use argon.Proxy.Forward.{
  capture, build_retry_request, next_request, error_text, give_up, rounds, forward_to_upstream,
}

module _ (http : Http) where
  -- Each forwarded request of the trace has the property.
  abbrev pub EachForwarded : (Request http → Type 0) → Trace http → Type 0
  EachForwarded P [] = Unit
  EachForwarded P (asked insecure req ∷ trace) = EachForwarded P trace
  EachForwarded P (forwarded insecure timeout req ∷ trace) = P req × EachForwarded P trace

  pub EachForwarded-append :
      (P : Request http → Type 0) (t t' : Trace http)
      → EachForwarded P t
      → EachForwarded P t'
      → EachForwarded P (t ++ t')
  EachForwarded-append P [] t' h h' = h'
  EachForwarded-append P (asked insecure req ∷ t) t' h h' = EachForwarded-append P t t' h h'
  EachForwarded-append P (forwarded insecure timeout req ∷ t) t' (p, h) h' =
      (p, EachForwarded-append P t t' h h')

  pub EachForwarded-map :
      (P Q : Request http → Type 0) (t : Trace http)
      → ((req : Request http) → P req → Q req)
      → EachForwarded P t
      → EachForwarded Q t
  EachForwarded-map P Q [] f h = tt
  EachForwarded-map P Q (asked insecure req ∷ t) f h = EachForwarded-map P Q t f h
  EachForwarded-map P Q (forwarded insecure timeout req ∷ t) f (p, h) =
      (f req p, EachForwarded-map P Q t f h)

  -- The same but for the body.
  pub record IsSame (req out : Request http) : Type 0 where
    pub method : out.method ≡ req.method
    pub uri : out.uri ≡ req.uri
    pub version : out.version ≡ req.version
    pub headers : out.headers ≡ req.headers

  module _ (clients : Clients http) (insecure : Bool) (timeout retries : ℕ) (req : Request http)
      (addr : Text) where
    abbrev next : Option (Request http) → Option (Request http)
    next = next_request http clients insecure timeout retries (capture http req) addr

    abbrev loop : ℕ → ℕ → Option (Request http) → Option Text → Trace http
    loop left attempt first last_err =
        (rounds http clients insecure timeout retries (capture http req) addr left attempt first
          last_err).0

    abbrev failure : Text → Text → Option Text
    failure kind x =
        some (error_text http clients insecure timeout retries (capture http req) addr kind x)

    IsFirst : Option (Request http) → Type 0
    IsFirst first = (first ≡ some req) ⊎ (first ≡ none)

    next_request-IsSame :
        (first : Option (Request http)) (out : Request http)
        → IsFirst first
        → next first ≡ some out
        → IsSame req out
    unfolding next_request capture build_retry_request IsFirst
    next_request-IsSame (some r) out is_first e = record {
      method = ground arith;
      uri = ground arith;
      version = ground arith;
      headers = ground arith;
    }
    next_request-IsSame none out is_first e = record {
      method = ground arith;
      uri = ground arith;
      version = ground arith;
      headers = ground arith;
    }

    rounds-IsSame :
        (left attempt : ℕ) (first : Option (Request http)) (last_err : Option Text)
        → IsFirst first
        → EachForwarded (IsSame req) (loop left attempt first last_err)
    unfolding rounds give_up IsFirst
    rounds-IsSame zero attempt first last_err is_first = tt
    rounds-IsSame (suc left) attempt first last_err is_first = elim (Option-cases (next first)) [
      | inl broken ↦ by_trace [] (ground arith) tt
      | inr (out, ready) ↦
          by_call out ready (clients.upstream_call attempt insecure timeout out) refl
            (λ last. rounds-IsSame left (attempt + 1) none last (inr refl))
    ]
      where
        by_trace :
            (t : Trace http)
            → loop (suc left) attempt first last_err ≡ t
            → EachForwarded (IsSame req) t
            → EachForwarded (IsSame req) (loop (suc left) attempt first last_err)
        by_trace t e h = subst (EachForwarded (IsSame req)) (sym e) h

        same : (out : Request http) → next first ≡ some out → IsSame req out
        same out ready = next_request-IsSame first out is_first ready

        by_call :
            (out : Request http)
            → next first ≡ some out
            → (o : Attempt (Response http)) → clients.upstream_call attempt insecure timeout out ≡ o
            → ((last : Option Text)
                → EachForwarded (IsSame req) (loop left (attempt + 1) none last))
            → EachForwarded (IsSame req) (loop (suc left) attempt first last_err)
        by_call out ready (answered resp) e later =
            by_trace (forwarded insecure timeout out ∷ []) (ground arith) (same out ready, tt)
        by_call out ready (failed x) e later = elim (Bool-cases (attempt + 1 == retries)) [
          | inl last ↦
              by_trace (forwarded insecure timeout out ∷ []) (ground arith) (same out ready, tt)
          | inr more ↦
              by_trace
                (forwarded insecure timeout out
                  ∷ loop left (attempt + 1) none (failure (codes "error") x))
                (ground arith) (same out ready, later (failure (codes "error") x))
        ]
        by_call out ready (elapsed x) e later = elim (Bool-cases (attempt + 1 == retries)) [
          | inl last ↦
              by_trace (forwarded insecure timeout out ∷ []) (ground arith) (same out ready, tt)
          | inr more ↦
              by_trace
                (forwarded insecure timeout out
                  ∷ loop left (attempt + 1) none (failure (codes "timeout") x))
                (ground arith) (same out ready, later (failure (codes "timeout") x))
        ]

    -- Every attempt sends the request, with an empty body from the second one on.
    pub forward_to_upstream-IsSame :
        EachForwarded
          (IsSame req)
          (forward_to_upstream http clients insecure timeout retries (capture http req) addr req).0
    unfolding forward_to_upstream IsFirst
    forward_to_upstream-IsSame = rounds-IsSame retries 0 (some req) none (inl refl)
