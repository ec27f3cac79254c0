-- ===== src/Grpc/Stream/Reading.antt =====
-- What the certificate watcher of images/dataplane/src/grpc.rs makes of the files on the disk.
use argon.Prelude.{
  ℕ, ◌≡◌, refl, sym, subst, inl, inr, Bool, false, not, Option, some, List, arith, Bool-cases, ◌==◌,
  eq_iff, nat_eq, list_eq,
}
use argon.Grpc.Connect.{Connector, connect_fut}
use argon.Grpc.Watcher.{
  take_neither, WatchedFile, ca_file, client_file, key_file, Files, is_nil, notify_if, read_file,
  try_load_and_store,
}

-- What the files hold; a file that cannot be read is none.
pub record Disk : Type 0 where
  pub ca : Option (List ℕ)
  pub cert : Option (List ℕ)
  pub key : Option (List ℕ)

abbrev pub content : Disk → WatchedFile → Option (List ℕ)
content disk ca_file = disk.ca
content disk client_file = disk.cert
content disk key_file = disk.key

-- The next file is read, while the loop does not wait.
abbrev pub read_next : Disk → Files → Files
read_next disk f = read_file false (content disk f.reading) f

-- Each file is read once, from where the watcher is.
abbrev pub read_all : Disk → Files → Files
read_all disk f = read_next disk (read_next disk (read_next disk f))

-- A content that is there is stored, and reported if it is another one.
try_load_and_store-some :
    (bytes target : List ℕ)
    → is_nil bytes ≡ false
    → try_load_and_store (some bytes) target ≡ (bytes, not (bytes == target))
unfolding try_load_and_store
try_load_and_store-some bytes target there = elim (Bool-cases (bytes == target)) [
  | inl same ↦ ground (arith, eq_iff bytes target)
  | inr other ↦ ground arith
]

module _ (waiting : Bool) (bytes : List ℕ) (f : Files) (there : is_nil bytes ≡ false) where
  pub read_file-ca :
      f.reading ≡ ca_file
      → read_file waiting (some bytes) f ≡ record f {
        ca_pem = bytes;
        ca_updated = notify_if (not (bytes == f.ca_pem)) waiting f.ca_updated;
        reading = client_file;
      }
  unfolding read_file
  read_file-ca at = rw (at, try_load_and_store-some bytes f.ca_pem there) refl

  pub read_file-client :
      f.reading ≡ client_file
      → read_file waiting (some bytes) f ≡ record f {
        client_pem = bytes;
        client_pem_updated = notify_if (not (bytes == f.client_pem)) waiting f.client_pem_updated;
        reading = key_file;
      }
  unfolding read_file
  read_file-client at = rw (at, try_load_and_store-some bytes f.client_pem there) refl

  pub read_file-key :
      f.reading ≡ key_file
      → read_file waiting (some bytes) f ≡ record f {
        client_key_pem = bytes;
        client_pem_updated =
            notify_if (not (bytes == f.client_key_pem)) waiting f.client_pem_updated;
        reading = ca_file;
      }
  unfolding read_file
  read_file-key at = rw (at, try_load_and_store-some bytes f.client_key_pem there) refl

-- The files are the same but for the notifications.
pub record SameContents (f g : Files) : Type 0 where
  pub ca : f.ca_pem ≡ g.ca_pem
  pub cert : f.client_pem ≡ g.client_pem
  pub key : f.client_key_pem ≡ g.client_key_pem
  pub at : f.reading ≡ g.reading

pub SameContents-left : (f : Files) → SameContents (take_neither f) f
SameContents-left f = record { ca = refl; cert = refl; key = refl; at = refl }

SameContents-read_file :
    (waiting : Bool) (bytes : Option (List ℕ)) (f g : Files)
    → SameContents f g
    → SameContents (read_file waiting bytes f) (read_file waiting bytes g)
unfolding read_file
SameContents-read_file waiting bytes f g s = by_file g.reading refl
  where
    by_file :
        (w : WatchedFile)
        → g.reading ≡ w
        → SameContents (read_file waiting bytes f) (read_file waiting bytes g)
    by_file ca_file at = record {
      ca = ground (arith, s.at, s.ca);
      cert = ground (arith, s.at, s.cert);
      key = ground (arith, s.at, s.key);
      at = ground (arith, s.at);
    }
    by_file client_file at = record {
      ca = ground (arith, s.at, s.ca);
      cert = ground (arith, s.at, s.cert);
      key = ground (arith, s.at, s.key);
      at = ground (arith, s.at);
    }
    by_file key_file at = record {
      ca = ground (arith, s.at, s.ca);
      cert = ground (arith, s.at, s.cert);
      key = ground (arith, s.at, s.key);
      at = ground (arith, s.at);
    }

SameContents-read_next :
    (disk : Disk) (f g : Files)
    → SameContents f g
    → SameContents (read_next disk f) (read_next disk g)
SameContents-read_next disk f g s =
    subst (λ w. SameContents (read_file false (content disk w) f) (read_next disk g)) (sym s.at)
      (SameContents-read_file false (content disk g.reading) f g s)

pub SameContents-read_all :
    (disk : Disk) (f g : Files)
    → SameContents f g
    → SameContents (read_all disk f) (read_all disk g)
SameContents-read_all disk f g s =
    let s₁ = SameContents-read_next disk f g s in
    let s₂ = SameContents-read_next disk (read_next disk f) (read_next disk g) s₁ in
    SameContents-read_next disk (read_next disk (read_next disk f))
      (read_next disk (read_next disk g)) s₂

pub connect_fut-same :
    (c : Connector) (f g : Files) → SameContents f g → connect_fut c f ≡ connect_fut c g
unfolding connect_fut
connect_fut-same c f g s = rw (s.ca, s.cert, s.key) refl
