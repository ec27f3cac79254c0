-- ===== src/Grpc/Stream/Progress.antt =====
-- The readiness and the files of images/dataplane/src/grpc.rs over time.
use argon.Prelude.{
  ℕ, ◌≡◌, refl, Bool, true, false, not, ◌&&◌, ◌||◌, Option, none, some, List, arith, nat_eq,
  list_eq,
}
use argon.Text.{Text}
use argon.Rewrites.{HeaderName}
use argon.Cluster.{Counters}
use argon.Grpc.Watcher.{
  WatchedFile, ca_file, client_file, key_file, Files, is_nil, try_load_and_store, read_file,
}
use argon.Certs.{Tls}
use argon.Grpc.Stream.{
  Phase, loop_start, connecting, opening, streaming, publish_table, publish_certs, stopped, Event,
  checked, connected, write, cancel, file_read, watcher_stopped, Manager, step_loop, step, Reach,
  here, next,
}

pub try_load_and_store-keeps :
    (new : Option (List ℕ)) (target : List ℕ)
    → is_nil target ≡ false
    → is_nil (try_load_and_store new target).0 ≡ false
unfolding try_load_and_store
try_load_and_store-keeps none target h = h
try_load_and_store-keeps (some bytes) target h = ground arith

-- The three files that a connection needs are there.
abbrev pub has_files : Files → Bool
has_files f = not (is_nil f.ca_pem) && not (is_nil f.client_pem || is_nil f.client_key_pem)

module _ (counters : Counters) (header_name : Text → Option HeaderName) (tls : Tls) where
  read_file-keeps :
      (waiting : Bool) (content : Option (List ℕ)) (f : Files)
      → has_files f ≡ true
      → has_files (read_file waiting content f) ≡ true
  unfolding read_file
  read_file-keeps waiting content f h = by_file f.reading refl
    where
      by_file : (w : WatchedFile) → f.reading ≡ w → has_files (read_file waiting content f) ≡ true
      by_file ca_file at = ground (arith, try_load_and_store-keeps content f.ca_pem)
      by_file client_file at = ground (arith, try_load_and_store-keeps content f.client_pem)
      by_file key_file at = ground (arith, try_load_and_store-keeps content f.client_key_pem)

  -- The admin port answers that it is ready, and the three files are there.
  abbrev pub IsUp : Manager counters header_name tls → Type 0
  IsUp m = (m.ready ≡ true) × (has_files m.files ≡ true)

  loop-IsUp :
      (p : Phase) (e : Event) (m o : Manager counters header_name tls)
      → IsUp m
      → step_loop counters header_name tls p e m ≡ some o
      → IsUp o
  unfolding step
  loop-IsUp loop_start checked m o h s = ground arith
  loop-IsUp loop_start _ m o h s = ground arith
  loop-IsUp (connecting config) connected m o h s = ground arith
  loop-IsUp (connecting config) _ m o h s = ground arith
  loop-IsUp (opening request) connected m o h s = ground arith
  loop-IsUp (opening request) _ m o h s = ground arith
  loop-IsUp (streaming got) connected m o h s = ground arith
  loop-IsUp (streaming got) _ m o h s = ground arith
  loop-IsUp (publish_table snap) write m o h s = ground arith
  loop-IsUp (publish_table snap) _ m o h s = ground arith
  loop-IsUp (publish_certs snap) write m o h s = ground arith
  loop-IsUp (publish_certs snap) _ m o h s = ground arith
  loop-IsUp stopped e m o h s = ground arith

  step-IsUp :
      (e : Event) (m o : Manager counters header_name tls)
      → IsUp m
      → step counters header_name tls e m ≡ some o
      → IsUp o
  unfolding step
  step-IsUp cancel m o h s = ground arith
  step-IsUp (file_read waiting content) m o h s =
      ground (arith, read_file-keeps waiting content m.files)
  step-IsUp watcher_stopped m o h s = ground arith
  step-IsUp e m o h s = loop-IsUp m.phase e m o h s

  -- A manager that is ready and has its three files stays so, whatever the control plane, the disk
  -- and the shutdown do.
  pub Reach-IsUp :
      (m o : Manager counters header_name tls)
      → IsUp m
      → Reach counters header_name tls m o
      → IsUp o
  Reach-IsUp m o h here = h
  Reach-IsUp m o h (next {n} e r s) = step-IsUp e n o (Reach-IsUp m n h r) s
