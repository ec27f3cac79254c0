-- ===== src/Proxy/Resolve/Hosts.antt =====
-- The form of the host that `extract_host` of images/dataplane/src/proxy.rs gives.
use argon.Prelude.{
  ℕ, ◌≡◌, refl, subst, inl, inr, some, [], ◌∷◌, arith, Bool-cases, Option-cases, nat_eq, list_eq,
}
use argon.Text.{Text, codes, is_empty, trim, trim_end_matches, to_ascii_lowercase}
use argon.Text.Ascii.{to_ascii_lowercase_idem}
use argon.Http.{Http, Request, get, ok}
use argon.Proxy.Resolve.{clean_host, host_of_header, extract_host}

-- No dot at the end.
abbrev pub HasNoEndDot : Text → Type 0
HasNoEndDot s = trim_end_matches b'.' s ≡ s

trim_end_matches_idem :
    (d : ℕ) (s : Text) → trim_end_matches d (trim_end_matches d s) ≡ trim_end_matches d s
unfolding trim_end_matches
trim_end_matches_idem d [] = refl
trim_end_matches_idem d (c ∷ s) = ground (arith, trim_end_matches_idem d s)

-- What stands in lower case still does when its end is cut off.
lower-trim_end_matches :
    (d : ℕ) (s : Text)
    → to_ascii_lowercase s ≡ s
    → to_ascii_lowercase (trim_end_matches d s) ≡ trim_end_matches d s
unfolding trim_end_matches to_ascii_lowercase
lower-trim_end_matches d [] h = refl
lower-trim_end_matches d (c ∷ s) h = ground (arith, lower-trim_end_matches d s)

module _ (http : Http) where
  -- A host that is taken from a Host header is in lower case and has no dot at its end.
  pub extract_host-IsClean :
      (req : Request http) (value : http.HeaderValue) (host : Text)
      → get http req.headers (codes "host") ≡ some value
      → extract_host http req ≡ ok host
      → (to_ascii_lowercase host ≡ host) × HasNoEndDot host
  unfolding extract_host host_of_header clean_host
  extract_host-IsClean req value host e h = elim (Option-cases (http.to_str value)) [
    | inl no_text ↦ absurd (ground arith)
    | inr (s, is_text) ↦ elim (Bool-cases (is_empty s)) [
      | inl blank ↦ absurd (ground arith)
      | inr full ↦ elim (Option-cases (http.parse_authority (trim s))) [
        | inl invalid ↦ absurd (ground arith)
        | inr (a, valid) ↦ clean_of (http.authority_host a) (ground arith)
      ]
    ]
  ]
    where
      clean_of :
          (name : Text)
          → clean_host http name ≡ host
          → (to_ascii_lowercase host ≡ host) × HasNoEndDot host
      clean_of name made =
          subst (λ t. (to_ascii_lowercase t ≡ t) × HasNoEndDot t) made
            (
              lower-trim_end_matches b'.' (to_ascii_lowercase name) (to_ascii_lowercase_idem name),
              trim_end_matches_idem b'.' (to_ascii_lowercase name),
            )
