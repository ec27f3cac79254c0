-- ===== src/Certs.antt =====
-- images/dataplane/src/certs.rs: the certificates of a snapshot and the choice of one for a
-- connection (`certificates_from_snap`, `DynResolver::resolve`). The PEM parser, the key loader and the
-- wrapping into a `CertifiedKey` belong to rustls: `Tls` is their interface.
pub mod Choice
use argon.Prelude.{ℕ, Option, none, some, List, [], ◌∷◌, ◌++◌, or_else, nat_eq, list_eq}
use argon.Text.{Text, codes, to_ascii_lowercase, after}
use argon.HashMap.{HashMap, get, insert}
use argon.Config.{ServerTlsBundle, Snapshot}

-- An item of `rustls_pemfile`: a certificate, a private key of one of the three kinds, or another.
pub data Item (Cert KeyDer : Type 0) : Type 0 where
  x509_certificate : Cert → Item Cert KeyDer
  pkcs8_key : KeyDer → Item Cert KeyDer
  pkcs1_key : KeyDer → Item Cert KeyDer
  sec1_key : KeyDer → Item Cert KeyDer
  other_item : Item Cert KeyDer

-- What reading one item gives: an item, the end of the text, or an error.
pub data ReadOne (Cert KeyDer : Type 0) : Type 0 where
  item : Item Cert KeyDer → ReadOne Cert KeyDer
  nothing : ReadOne Cert KeyDer
  broken : ReadOne Cert KeyDer

pub record Tls : Type 1 where
  pub Cert : Type 0
  pub KeyDer : Type 0
  pub SigningKey : Type 0
  -- The items of a text in order; none stands for one that could not be read.
  pub read_all : List ℕ → List (Option (Item Cert KeyDer))
  pub read_one : List ℕ → ReadOne Cert KeyDer
  pub any_supported_type : KeyDer → Option SigningKey

module _ (tls : Tls) where
  pub record CertifiedKey : Type 0 where
    pub chain : List tls.Cert
    pub key : tls.SigningKey

  -- The certificates among the items; other items and errors are passed over.
  unfoldable pub chain_of : List (Option (Item tls.Cert tls.KeyDer)) → List tls.Cert
  chain_of [] = []
  chain_of (some (x509_certificate cert) ∷ items) = cert ∷ chain_of items
  chain_of (_ ∷ items) = chain_of items

  unfoldable pub key_of : ReadOne tls.Cert tls.KeyDer → Option tls.KeyDer
  key_of (item (pkcs8_key der)) = some der
  key_of (item (pkcs1_key der)) = some der
  key_of (item (sec1_key der)) = some der
  key_of _ = none

  -- The certified key of a bundle, or none where the loop continues.
  unfoldable pub certified_key : ServerTlsBundle → Option CertifiedKey
  unfolding chain_of key_of
  certified_key sni = elim (chain_of (tls.read_all sni.cert_pem)) [
    | [] ↦ none
    | cert ∷ certs ↦ elim (key_of (tls.read_one sni.key_pem)) [
      | none ↦ none
      | some der ↦ elim (tls.any_supported_type der) [
        | none ↦ none
        | some key ↦ some (record { chain = cert ∷ certs; key = key })
      ]
    ]
  ]

  insert_hosts : HashMap Text CertifiedKey → CertifiedKey → List Text → HashMap Text CertifiedKey
  insert_hosts m ck [] = m
  insert_hosts m ck (host ∷ hosts) = insert_hosts (insert m host ck) ck hosts

  -- One round of the loop over `snapshot.server_tls`.
  add_bundle : HashMap Text CertifiedKey → ServerTlsBundle → HashMap Text CertifiedKey
  add_bundle m sni = elim (certified_key sni) [ none ↦ m | some ck ↦ insert_hosts m ck sni.sni ]

  add_bundles : HashMap Text CertifiedKey → List ServerTlsBundle → HashMap Text CertifiedKey
  add_bundles m [] = m
  add_bundles m (sni ∷ bundles) = add_bundles (add_bundle m sni) bundles

  unfoldable pub certificates_from_snap : Snapshot → HashMap Text CertifiedKey
  unfolding add_bundles add_bundle insert_hosts
  certificates_from_snap snapshot = add_bundles [] snapshot.server_tls

  -- The name with its first label replaced by a star, if the name has a dot.
  unfoldable pub wildcard_of : Text → Option Text
  wildcard_of name = elim (after b'.' name) [
    | none ↦ none
    | some parent ↦ some (codes "*." ++ parent)
  ]

  wildcard_entry : HashMap Text CertifiedKey → Text → Option CertifiedKey
  wildcard_entry m name = elim (wildcard_of name) [ none ↦ none | some star ↦ get m star ]

  -- `resolve`: the entry of the name, the entry of its wildcard, or the default certificate; none only
  -- for a connection that names no server. The shared map is loaded for each lookup, and another one may
  -- be stored between them: `first` is the map of the first load and `second` that of the second.
  unfoldable pub resolve :
      (first second : HashMap Text CertifiedKey) → CertifiedKey → Option Text → Option CertifiedKey
  unfolding wildcard_entry wildcard_of
  resolve first second default none = none
  resolve first second default (some server_name) =
      let name = to_ascii_lowercase server_name in
      or_else (get first name) (or_else (wildcard_entry second name) (some default))
