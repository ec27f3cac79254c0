-- ===== src/Certs/Choice.antt =====
-- Which certificate of a snapshot a connection gets, by `resolve` of images/dataplane/src/certs.rs.
use mathlib.Core.Option
use mathlib.Core.Option.{some-injective, none-ne-some}
use argon.Prelude.{
  ◌≡◌, refl, sym, ap, ap₂, ◌∙◌, subst, fun_ext, inl, inr, false, Option, none, some, List, [], ◌∷◌,
  ◌++◌, arith, if◌then◌else◌, Bool-cases, Option-cases, or_else, ◌==◌, eq_iff, nat_eq, list_eq, any,
}
use argon.Text.{Text, codes, lower, to_ascii_lowercase, after}
use argon.Text.Ascii.{to_ascii_lowercase_idem, HasUpper}
use argon.HashMap.{HashMap, get, insert, get-insert}
use argon.Config.{ServerTlsBundle, Snapshot}
use argon.Certs.{
  Tls, CertifiedKey, certified_key, insert_hosts, add_bundle, add_bundles, certificates_from_snap,
  wildcard_of, wildcard_entry, resolve,
}

module _ (tls : Tls) where
  -- The key of the last usable bundle that lists the host.
  unfoldable pub last_key : Text → List ServerTlsBundle → Option (CertifiedKey tls)
  last_key host [] = none
  last_key host (b ∷ bs) =
      or_else (last_key host bs) (if any (λ h. h == host) b.sni then certified_key tls b else none)

  get-insert_hosts :
      (m : HashMap Text (CertifiedKey tls)) (ck : CertifiedKey tls) (hosts : List Text) (k : Text)
      → get (insert_hosts tls m ck hosts) k ≡ (if any (λ h. h == k) hosts then some ck else get m k)
  unfolding insert_hosts
  get-insert_hosts m ck [] k = refl
  get-insert_hosts m ck (h ∷ hs) k =
      get-insert_hosts (insert m h ck) ck hs k ∙ ground (arith, get-insert m h k ck)

  get-add_bundle :
      (m : HashMap Text (CertifiedKey tls)) (b : ServerTlsBundle) (k : Text)
      → get (add_bundle tls m b) k
        ≡ or_else (if any (λ h. h == k) b.sni then certified_key tls b else none) (get m k)
  unfolding add_bundle
  get-add_bundle m b k = elim (Option-cases (certified_key tls b)) [
    | inl e ↦ ground arith
    | inr (ck, e) ↦ ground (arith, get-insert_hosts m ck b.sni k)
  ]

  get-add_bundles :
      (m : HashMap Text (CertifiedKey tls)) (bs : List ServerTlsBundle) (k : Text)
      → get (add_bundles tls m bs) k ≡ or_else (last_key k bs) (get m k)
  unfolding add_bundles last_key
  get-add_bundles m [] k = refl
  get-add_bundles m (b ∷ bs) k =
      get-add_bundles (add_bundle tls m b) bs k ∙ ground (arith, get-add_bundle m b k)

  -- `resolve` with the maps as functions.
  resolve_with :
      (first second : Text → Option (CertifiedKey tls))
      → CertifiedKey tls
      → Text
      → Option (CertifiedKey tls)
  resolve_with first second default name =
      or_else (first name) (or_else (Option.bind (wildcard_of tls name) second) (some default))

  wildcard_entry_lem :
      (m : HashMap Text (CertifiedKey tls)) (name : Text)
      → wildcard_entry tls m name ≡ Option.bind (wildcard_of tls name) (get m)
  unfolding wildcard_entry Option.bind
  wildcard_entry_lem m name = by_star (wildcard_of tls name)
    where
      by_star :
          (o : Option Text)
          → elim o [ none ↦ none | some star ↦ get m star ] ≡ Option.bind o (get m)
      by_star none = refl
      by_star (some star) = refl

  resolve_lem :
      (m n : HashMap Text (CertifiedKey tls)) (default : CertifiedKey tls) (server_name : Text)
      → resolve tls m n default (some server_name)
        ≡ resolve_with (get m) (get n) default (to_ascii_lowercase server_name)
  unfolding resolve resolve_with
  resolve_lem m n default server_name =
      let name = to_ascii_lowercase server_name in
      ap (λ w. or_else (get m name) (or_else w (some default))) (wildcard_entry_lem n name)

  get-certificates_from_snap :
      (snapshot : Snapshot) (k : Text)
      → get (certificates_from_snap tls snapshot) k ≡ last_key k snapshot.server_tls
  unfolding certificates_from_snap get
  get-certificates_from_snap snapshot k =
      get-add_bundles [] snapshot.server_tls k ∙ or_else-none (last_key k snapshot.server_tls)
    where
      or_else-none : (o : Option (CertifiedKey tls)) → or_else o none ≡ o
      or_else-none none = refl
      or_else-none (some ck) = refl

  -- The name is looked up in the certificates of one snapshot, and its wildcard in those of another.
  pub resolve-snapshots :
      (first second : Snapshot) (default : CertifiedKey tls) (server_name : Text)
      → resolve tls
          (certificates_from_snap tls first)
          (certificates_from_snap tls second)
          default
          (some server_name)
        ≡ or_else (last_key (to_ascii_lowercase server_name) first.server_tls) (
            or_else
              (Option.bind
                (wildcard_of tls (to_ascii_lowercase server_name))
                (λ star. last_key star second.server_tls))
              (some default))
  unfolding resolve_with
  resolve-snapshots first second default server_name =
      resolve_lem (certificates_from_snap tls first) (certificates_from_snap tls second) default
        server_name
      ∙ ap₂ (λ f g. resolve_with f g default (to_ascii_lowercase server_name))
          (fun_ext (get-certificates_from_snap first)) (fun_ext (get-certificates_from_snap second))

  -- With the certificates of a snapshot, a connection that names a server gets the key of the last
  -- usable bundle that lists the name in lower case, else that of the last usable bundle that lists
  -- the name with its first label replaced by a star, else the default one.
  pub resolve-certificates_from_snap :
      (snapshot : Snapshot) (default : CertifiedKey tls) (server_name : Text)
      → resolve tls
          (certificates_from_snap tls snapshot)
          (certificates_from_snap tls snapshot)
          default
          (some server_name)
        ≡ or_else (last_key (to_ascii_lowercase server_name) snapshot.server_tls) (
            or_else
              (Option.bind
                (wildcard_of tls (to_ascii_lowercase server_name))
                (λ star. last_key star snapshot.server_tls))
              (some default))
  resolve-certificates_from_snap snapshot default server_name =
      resolve-snapshots snapshot snapshot default server_name

  -- The part behind the first dot, in lower case, is that of the text in lower case.
  after-to_ascii_lowercase :
      (s : Text) → after b'.' (to_ascii_lowercase s) ≡ Option.map to_ascii_lowercase (after b'.' s)
  unfolding after to_ascii_lowercase lower
  after-to_ascii_lowercase [] = refl
  after-to_ascii_lowercase (c ∷ s) = ground (arith, after-to_ascii_lowercase s)

  abbrev star_of : Text → Text
  star_of parent = codes "*." ++ parent

  wildcard_of_lem : (name : Text) → wildcard_of tls name ≡ Option.map star_of (after b'.' name)
  unfolding wildcard_of
  wildcard_of_lem name = by_dot (after b'.' name)
    where
      by_dot :
          (o : Option Text)
          → elim o [ none ↦ none | some parent ↦ some (codes "*." ++ parent) ]
            ≡ Option.map star_of o
      by_dot none = refl
      by_dot (some parent) = refl

  -- The name of the wildcard is in lower case as the name is.
  wildcard_of-lower :
      (name star : Text)
      → wildcard_of tls (to_ascii_lowercase name) ≡ some star
      → to_ascii_lowercase star ≡ star
  wildcard_of-lower name star e = elim (Option-cases (after b'.' name)) [
    | inl a ↦ absurd (none-ne-some star (sym (made none a) ∙ e))
    | inr (parent, a) ↦
        subst (λ t. to_ascii_lowercase t ≡ t)
          (some-injective (codes "*." ++ to_ascii_lowercase parent) star
            (sym (made (some parent) a) ∙ e))
          (unfold to_ascii_lowercase lower in
            ap (λ p. codes "*." ++ p) (to_ascii_lowercase_idem parent))
  ]
    where
      behind :
          (o : Option Text)
          → after b'.' name ≡ o
          → Option.map star_of (after b'.' (to_ascii_lowercase name))
            ≡ Option.map star_of (Option.map to_ascii_lowercase o)
      behind o a =
          ap (Option.map star_of)
            (after-to_ascii_lowercase name ∙ ap (Option.map to_ascii_lowercase) a)

      made :
          (o : Option Text)
          → after b'.' name ≡ o
          → wildcard_of tls (to_ascii_lowercase name)
            ≡ Option.map (λ parent. codes "*." ++ to_ascii_lowercase parent) o
      made none a = wildcard_of_lem (to_ascii_lowercase name) ∙ behind none a
      made (some parent) a = wildcard_of_lem (to_ascii_lowercase name) ∙ behind (some parent) a

  -- An entry for a host with an upper-case letter makes no difference to any connection: none is
  -- ever resolved to it.
  pub resolve-HasUpper :
      (m n : HashMap Text (CertifiedKey tls)) (host : Text) (ck default : CertifiedKey tls)
      (server_name : Option Text)
      → HasUpper host
      → resolve tls (insert m host ck) (insert n host ck) default server_name
        ≡ resolve tls m n default server_name
  unfolding resolve
  resolve-HasUpper m n host ck default none up = refl
  resolve-HasUpper m n host ck default (some server_name) up =
      let name = to_ascii_lowercase server_name in
      resolve_lem (insert m host ck) (insert n host ck) default server_name
      ∙ elim (Option-cases (wildcard_of tls name)) [
        | inl e ↦
            unfold resolve_with Option.bind in
            rw (e, other m name (to_ascii_lowercase_idem server_name)) refl
        | inr (star, e) ↦
            unfold resolve_with Option.bind in
            rw
              (
                e,
                other m name (to_ascii_lowercase_idem server_name),
                other n star (wildcard_of-lower server_name star e),
              )
              refl
      ]
      ∙ sym (resolve_lem m n default server_name)
    where
      apart : (k : Text) → to_ascii_lowercase k ≡ k → (host == k) ≡ false
      apart k same = elim (Bool-cases (host == k)) [
        | inl e ↦
            let here = (eq_iff host k).0 e in
            absurd (up (ap to_ascii_lowercase here ∙ same ∙ sym here))
        | inr e ↦ e
      ]

      other :
          (t : HashMap Text (CertifiedKey tls)) (k : Text)
          → to_ascii_lowercase k ≡ k
          → get (insert t host ck) k ≡ get t k
      other t k same = get-insert t host k ck ∙ rw (apart k same) refl
