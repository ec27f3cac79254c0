-- ===== src/Boot.antt =====
-- images/dataplane/src/main.rs: `main` from its environment to the process that serves.
pub mod Dials
use argon.Prelude.{ℕ, Bool, nat_eq, list_eq}
use argon.Atomics.{Heap}
use argon.Cluster.{Counters}
use argon.Certs.{Tls, CertifiedKey}
use argon.ClientPool.{ClientPool}
use argon.Http.{Http, Result, ok, err, ◌>>=◌}
use argon.Startup.{Environment, Settings, StartError, Generator, prepare}
use argon.Grpc.Connect.{Transport, Connector}
use argon.DataPlane.{DataPlane, launched}

-- The arguments of `GrpcManager::start`.
abbrev pub connector_of : Transport → Settings → Connector
connector_of transport s = record {
  controller_addr = s.controller_addr;
  node_id = s.node_id;
  transport = transport;
}

module _ (http : Http) (counters : Counters) (tls : Tls) where
  -- The process with its pool of clients and its default certificate. A `main` that fails is over, and
  -- the manager it has started by then with it.
  unfoldable pub boot :
      Generator tls
      → Environment
      → (cpus : ℕ) (can_build : ℕ → Bool) (has_native_roots : Bool) (can_bind : ℕ → Bool)
      → Transport
      → Heap
      → Result (DataPlane http counters tls × ClientPool tls.Cert × CertifiedKey tls) StartError
  boot gen env cpus can_build has_native_roots can_bind transport h = do
    (settings, pool, dummy_cert) ← prepare tls gen env cpus can_build has_native_roots can_bind
    ok (launched http counters tls (connector_of transport settings) h, pool, dummy_cert)
