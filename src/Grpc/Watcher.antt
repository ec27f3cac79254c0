-- ===== src/Grpc/Watcher.antt =====
-- images/dataplane/src/grpc.rs: `try_load_and_store` and the reads of the certificate watcher. The state
-- is the three shared byte vectors, the two `Notify` and the file that the watcher reads next. A read is
-- awaited, so that anything may happen between two of them; its store and its notification are one step.
use argon.Prelude.{
  ℕ, Bool, true, false, not, ◌&&◌, ◌||◌, Option, none, some, List, [], ◌∷◌, if◌then◌else◌, ◌==◌,
  nat_eq, list_eq,
}

-- A `Notify` of tokio, as it is documented: a permit that it stores, one at most, and a notification
-- that it has given to the loop that waits for it.
pub record Notify : Type 0 where
  pub permit : Bool
  pub woken : Bool

abbrev pub no_permit : Notify
no_permit = record { permit = false; woken = false }

-- What `notified` finds.
abbrev pub is_notified : Notify → Bool
is_notified n = n.permit || n.woken

-- `notify_one`: the loop that waits, and has not been woken yet, is woken; else a permit is stored.
abbrev pub notify_one : (waiting : Bool) → Notify → Notify
notify_one waiting n =
    if waiting && not n.woken then record n { woken = true } else record n { permit = true }

-- The branch of `notified` is taken.
abbrev pub take : Notify → Notify
take n = if n.woken then record n { woken = false } else record n { permit = false }

-- Another branch is taken: a notification that was given is stored again.
abbrev pub give_back : Notify → Notify
give_back n = record { permit = is_notified n; woken = false }

pub data WatchedFile : Type 0 where
  ca_file client_file key_file : WatchedFile

-- The watcher sleeps where the next file is the first one.
pub record Files : Type 0 where
  pub ca_pem : List ℕ
  pub client_pem : List ℕ
  pub client_key_pem : List ℕ
  pub ca_updated : Notify
  pub client_pem_updated : Notify
  pub reading : WatchedFile

abbrev pub is_nil : List ℕ → Bool
is_nil [] = true
is_nil (b ∷ bs) = false

abbrev pub is_resting : WatchedFile → Bool
is_resting ca_file = true
is_resting f = false

-- The new content and whether it changed; a file that cannot be read is none.
unfoldable pub try_load_and_store : Option (List ℕ) → List ℕ → List ℕ × Bool
try_load_and_store none target = (target, false)
try_load_and_store (some new_bytes) target =
    if is_nil new_bytes
    then (target, false)
    else if new_bytes == target
    then (target, false)
    else (new_bytes, true)

-- `if changed { notify_one() }`
abbrev pub notify_if : (changed waiting : Bool) → Notify → Notify
notify_if changed waiting n = if changed then notify_one waiting n else n

-- The next file of a round is read, while the loop waits in its `select!` or not.
unfoldable pub read_file : (waiting : Bool) → Option (List ℕ) → Files → Files
unfolding try_load_and_store
read_file waiting content f = elim f.reading [
  | ca_file ↦
      let (bytes, changed) = try_load_and_store content f.ca_pem in
      record f {
        ca_pem = bytes;
        ca_updated = notify_if changed waiting f.ca_updated;
        reading = client_file;
      }
  | client_file ↦
      let (bytes, changed) = try_load_and_store content f.client_pem in
      record f {
        client_pem = bytes;
        client_pem_updated = notify_if changed waiting f.client_pem_updated;
        reading = key_file;
      }
  | key_file ↦
      let (bytes, changed) = try_load_and_store content f.client_key_pem in
      record f {
        client_key_pem = bytes;
        client_pem_updated = notify_if changed waiting f.client_pem_updated;
        reading = ca_file;
      }
]

-- The `select!` of the stream ends by the branch of the CA, by that of the client's files, or by another.
abbrev pub take_ca : Files → Files
take_ca f = record f {
  ca_updated = take f.ca_updated;
  client_pem_updated = give_back f.client_pem_updated;
}

abbrev pub take_client : Files → Files
take_client f = record f {
  ca_updated = give_back f.ca_updated;
  client_pem_updated = take f.client_pem_updated;
}

abbrev pub take_neither : Files → Files
take_neither f = record f {
  ca_updated = give_back f.ca_updated;
  client_pem_updated = give_back f.client_pem_updated;
}
