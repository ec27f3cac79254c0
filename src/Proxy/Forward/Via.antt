-- ===== src/Proxy/Forward/Via.antt =====
-- The client of each call that `forward_to_upstream` of images/dataplane/src/proxy.rs makes.
use argon.Prelude.{
  ℕ, zero, suc, ◌+◌, ◌≡◌, refl, inl, inr, Bool, true, not, ◌&&◌, Option, none, some, [], ◌∷◌, ◌++◌,
  arith, if◌then◌else◌, Option-cases, nat_eq, list_eq,
}
use argon.Text.{Text, codes}
use argon.Http.{Http, Request, Response, Attempt, answered, failed, elapsed}
use argon.Proxy.Effects.{Clients, Event, asked, forwarded, Trace}
use argon.Proxy.Forward.{
  RequestSnapshot, next_request, error_text, give_up, rounds, forward_to_upstream,
}

module _ (http : Http) where
  -- The call goes to the client without verification if and only if the flag is set.
  abbrev pub is_via : Bool → Event http → Bool
  is_via flag (asked insecure req) = if flag then insecure else not insecure
  is_via flag (forwarded insecure timeout req) = if flag then insecure else not insecure

  abbrev pub all_via : Bool → Trace http → Bool
  all_via flag [] = true
  all_via flag (e ∷ trace) = is_via flag e && all_via flag trace

  pub all_via-append :
      (flag : Bool) (t t' : Trace http)
      → all_via flag t ≡ true
      → all_via flag t' ≡ true
      → all_via flag (t ++ t') ≡ true
  all_via-append flag [] t' h k = k
  all_via-append flag (e ∷ t) t' h k = ground (arith, all_via-append flag t t')

  module _ (clients : Clients http) (insecure : Bool) (timeout retries : ℕ)
      (snapshot : RequestSnapshot http) (addr : Text) where
    rounds-via :
        (left attempt : ℕ) (first : Option (Request http)) (last_err : Option Text)
        → all_via insecure
            (rounds http clients insecure timeout retries snapshot addr left attempt first
              last_err).0
          ≡ true
    unfolding rounds give_up
    rounds-via zero attempt first last_err = refl
    rounds-via (suc left) attempt first last_err =
        elim (Option-cases
          (next_request http clients insecure timeout retries snapshot addr first)) [
            | inl broken ↦ ground arith
            | inr (req, ready) ↦
                by_call req ready (clients.upstream_call attempt insecure timeout req) refl
                  (λ last. rounds-via left (attempt + 1) none last)
          ]
      where
        by_call :
            (req : Request http)
            → next_request http clients insecure timeout retries snapshot addr first ≡ some req
            → (o : Attempt (Response http)) → clients.upstream_call attempt insecure timeout req ≡ o
            → ((last : Option Text)
                → all_via insecure
                    (rounds http clients insecure timeout retries snapshot addr left
                      (attempt + 1)
                      none
                      last).0
                  ≡ true)
            → all_via insecure
                (rounds http clients insecure timeout retries snapshot addr
                  (suc left)
                  attempt
                  first
                  last_err).0
              ≡ true
        by_call req ready (answered resp) e later = ground arith
        by_call req ready (failed x) e later = ground (
          arith,
          later (
              some
                (error_text http clients insecure timeout retries snapshot addr (codes "error") x)),
        )
        by_call req ready (elapsed x) e later = ground (
          arith,
          later (
              some (
                error_text http clients insecure timeout retries snapshot addr (codes "timeout")
                  x)),
        )

    pub forward_to_upstream-via :
        (req : Request http)
        → all_via insecure
            (forward_to_upstream http clients insecure timeout retries snapshot addr req).0
          ≡ true
    unfolding forward_to_upstream
    forward_to_upstream-via req = rounds-via retries 0 (some req) none
