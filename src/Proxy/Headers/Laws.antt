-- ===== src/Proxy/Headers/Laws.antt =====
-- The header work of images/dataplane/src/proxy.rs, by the values of each name afterwards.
use argon.Prelude.{
  list_beq, ◌≡◌, refl, ap, ◌∙◌, subst, inl, inr, Bool, true, false, not, ◌&&◌, Option, none, some,
  List, [], ◌∷◌, ◌++◌, arith, if◌then◌else◌, Bool-cases, Option-cases, is_some, ◌==◌, eq_iff,
  list_eq, any,
}
use mathlib.Core.Option
use argon.Text.{Text, codes}
use argon.Rewrites.{HeaderName, HeaderRewriteMode, set, append, remove, HeaderRewriteRule}
use argon.Http.{Http, first_value, contains_key, insert_text}
use argon.Proxy.Headers.{
  hop_headers, remove_all, remove_hop_headers, scheme_of, add_forward_headers, apply_rule,
  apply_header_rewrites,
}

module _ (http : Http) where
  remove_all-get_all :
      (m : http.HeaderMap) (ks : List HeaderName) (k : HeaderName)
      → http.get_all (remove_all http m ks) k
        ≡ (if any (λ n. n == k) ks then [] else http.get_all m k)
  unfolding remove_all
  remove_all-get_all m [] k = refl
  remove_all-get_all m (n ∷ ks) k =
      remove_all-get_all (http.remove m n) ks k ∙ ground (arith, http.get_all-remove m n k)

  -- Removing the hop-by-hop headers leaves no value of the nine names and every value of each other
  -- name.
  pub remove_hop_headers-get_all :
      (m : http.HeaderMap) (k : HeaderName)
      → http.get_all (remove_hop_headers http m) k
        ≡ (if any (λ n. n == k) hop_headers then [] else http.get_all m k)
  unfolding remove_hop_headers
  remove_hop_headers-get_all m k = remove_all-get_all m hop_headers k

  pub insert_text-get_all :
      (m : http.HeaderMap) (n k : HeaderName) (s : Text)
      → http.get_all (insert_text http m n s) k ≡ elim (http.value_from_str s) [
        | none ↦ http.get_all m k
        | some v ↦ if n == k then v ∷ [] else http.get_all m k
      ]
  unfolding insert_text
  insert_text-get_all m n k s = elim (Option-cases (http.value_from_str s)) [
    | inl e ↦ ground arith
    | inr (v, e) ↦ ground (arith, http.get_all-insert m n k v)
  ]

  -- What one rule does to the values of a name.
  rule_values : HeaderName → HeaderRewriteRule → List http.HeaderValue → List http.HeaderValue
  rule_values k rule vs =
      if rule.name == k
      then elim rule.mode [
        | remove ↦ []
        | set ↦ elim (Option.bind rule.value http.value_from_str) [ none ↦ vs | some v ↦ v ∷ [] ]
        | append ↦ elim (Option.bind rule.value http.value_from_str) [
          | none ↦ vs
          | some v ↦ vs ++ v ∷ []
        ]
      ]
      else vs

  -- The rules in order.
  pub rules_values :
      HeaderName → List HeaderRewriteRule → List http.HeaderValue → List http.HeaderValue
  rules_values k [] vs = vs
  rules_values k (rule ∷ rules) vs = rules_values k rules (rule_values k rule vs)

  apply_rule-get_all :
      (m : http.HeaderMap) (rule : HeaderRewriteRule) (k : HeaderName)
      → http.get_all (apply_rule http m rule) k ≡ rule_values k rule (http.get_all m k)
  unfolding apply_rule rule_values Option.bind
  apply_rule-get_all m rule k = by_mode rule.mode refl
    where
      by_value :
          (mode : HeaderRewriteMode)
          → rule.mode ≡ mode
          → (o : Option Text) → rule.value ≡ o
          → http.get_all (apply_rule http m rule) k ≡ rule_values k rule (http.get_all m k)
      by_value remove e o f = ground (arith, http.get_all-remove m rule.name k)
      by_value set e none f = ground arith
      by_value set e (some t) f = elim (Option-cases (http.value_from_str t)) [
        | inl g ↦ ground (arith, insert_text-get_all m rule.name k t)
        | inr (v, g) ↦ ground (arith, insert_text-get_all m rule.name k t)
      ]
      by_value append e none f = ground arith
      by_value append e (some t) f = elim (Option-cases (http.value_from_str t)) [
        | inl g ↦ ground arith
        | inr (v, g) ↦ ground (arith, http.get_all-append m rule.name k v)
      ]

      by_mode :
          (mode : HeaderRewriteMode)
          → rule.mode ≡ mode
          → http.get_all (apply_rule http m rule) k ≡ rule_values k rule (http.get_all m k)
      by_mode mode e = by_value mode e rule.value refl

  -- The rewrites leave, for each header name, the values that the rules of that name give one after
  -- the other: set replaces them, append adds one, remove takes all away, and a rule whose value
  -- cannot be a header value does nothing; other names keep theirs.
  pub apply_header_rewrites-get_all :
      (m : http.HeaderMap) (rules : List HeaderRewriteRule) (k : HeaderName)
      → http.get_all (apply_header_rewrites http m rules) k
        ≡ rules_values k rules (http.get_all m k)
  unfolding apply_header_rewrites rules_values
  apply_header_rewrites-get_all m [] k = refl
  apply_header_rewrites-get_all m (rule ∷ rules) k =
      apply_header_rewrites-get_all (apply_rule http m rule) rules k
      ∙ ap (rules_values k rules) (apply_rule-get_all m rule k)

  contains_host :
      (m : http.HeaderMap) (v : http.HeaderValue)
      → contains_key http (http.insert m (codes "x-forwarded-proto") v) (codes "x-forwarded-host")
        ≡ contains_key http m (codes "x-forwarded-host")
  unfolding contains_key list_beq
  contains_host m v =
      ap (λ vs. is_some (first_value http vs))
        (http.get_all-insert m (codes "x-forwarded-proto") (codes "x-forwarded-host") v)

  not_host :
      (k : HeaderName)
      → (codes "x-forwarded-proto" == k) ≡ true
      → (codes "x-forwarded-host" == k) ≡ false
  unfolding list_beq
  not_host k e =
      subst (λ j. (codes "x-forwarded-host" == j) ≡ false)
        ((eq_iff (codes "x-forwarded-proto") k).0 e) refl

  -- The forwarding headers: x-forwarded-proto is replaced by the scheme of the frontend,
  -- x-forwarded-host is set to the host only if it is absent and the host can be a header value,
  -- and every other header keeps its values.
  pub add_forward_headers-get_all :
      (m : http.HeaderMap) (tls : Bool) (host : Text) (k : HeaderName)
      → http.get_all (add_forward_headers http m tls host) k ≡ (
          if codes "x-forwarded-proto" == k
          then http.value_from_static (scheme_of tls) ∷ []
          else if codes "x-forwarded-host" == k
              && not (contains_key http m (codes "x-forwarded-host"))
          then elim (http.value_from_str host) [ none ↦ http.get_all m k | some v ↦ v ∷ [] ]
          else http.get_all m k)
  unfolding add_forward_headers
  add_forward_headers-get_all m tls host k =
      let proto = http.value_from_static (scheme_of tls) in
      let m' = http.insert m (codes "x-forwarded-proto") proto in
      let same_host = contains_host m proto in
      elim (Bool-cases (contains_key http m (codes "x-forwarded-host"))) [
        | inl old ↦ ground (arith, http.get_all-insert m (codes "x-forwarded-proto") k proto)
        | inr new ↦ elim (Bool-cases (codes "x-forwarded-proto" == k)) [
          | inl at_proto ↦ ground (
            arith,
            http.get_all-insert m (codes "x-forwarded-proto") k proto,
            insert_text-get_all m' (codes "x-forwarded-host") k host,
            not_host k at_proto,
          )
          | inr other ↦ ground (
            arith,
            http.get_all-insert m (codes "x-forwarded-proto") k proto,
            insert_text-get_all m' (codes "x-forwarded-host") k host,
          )
        ]
      ]
