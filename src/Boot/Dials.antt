-- ===== src/Boot/Dials.antt =====
-- images/dataplane/src: how a process that `main` of main.rs has started dials its control plane.
use argon.Prelude.{ℕ, ◌≡◌, sym, ap, ◌∙◌, subst, inl, inr, Bool, arith, nat_eq, list_eq}
use argon.Text.{codes}
use argon.Atomics.{Heap}
use argon.Config.{WatchRequest}
use argon.Cluster.{Counters}
use argon.Certs.{Tls, CertifiedKey}
use argon.ClientPool.{ClientPool}
use argon.Http.{Http, ok, Result-cases}
use argon.Startup.{Environment, Generator, variable, prepare}
use argon.Startup.Preparing.{prepare-IsPrepared}
use argon.Grpc.Connect.{ClientTls, Transport, Connector}
use argon.Grpc.Stream.{connecting, opening}
use argon.Grpc.Stream.Dialling.{
  IsMutual, IsDialled, IsDialled-heap, step-IsDialled, start-IsDialled,
}
use argon.DataPlane.{DataPlane, launched, Reach}
use argon.DataPlane.Kept.{Reach-Holds}
use argon.Boot.{connector_of, boot}

-- The connector that the environment sets, with the defaults of `main`.
abbrev pub configured : Environment → Transport → Connector
configured env transport = record {
  controller_addr = variable env (codes "CONTROLLER_ADDR") (codes "https://127.0.0.1:18000");
  node_id = variable env (codes "NODE_ID") (codes "dp-axum");
  transport = transport;
}

module _ (http : Http) (counters : Counters) (tls : Tls) where
  Reach-IsDialled :
      (c : Connector) (h : Heap) (d : DataPlane http counters tls)
      → Reach http counters tls (launched http counters tls c h) d
      → IsDialled counters http.header_name tls c d.process.manager
  Reach-IsDialled c h d r =
      Reach-Holds http counters tls (IsDialled counters http.header_name tls c)
        (IsDialled-heap counters http.header_name tls c)
        (λ e m o k s. step-IsDialled counters http.header_name tls e c m o k s) c h d
        (start-IsDialled counters http.header_name tls c h) r

  module _ (gen : Generator tls) (env : Environment) (cpus : ℕ) (can_build : ℕ → Bool)
      (roots : Bool) (can_bind : ℕ → Bool) (transport : Transport) (h : Heap) where
    boot-launched :
        (begun : DataPlane http counters tls) (pool : ClientPool tls.Cert) (key : CertifiedKey tls)
        → boot http counters tls gen env cpus can_build roots can_bind transport h
          ≡ ok (begun, pool, key)
        → begun ≡ launched http counters tls (configured env transport) h
    unfolding boot
    boot-launched begun pool key e =
        elim (Result-cases (prepare tls gen env cpus can_build roots can_bind)) [
          | inl ((settings, pool', key'), p) ↦
              let is =
                prepare-IsPrepared tls gen env cpus can_build roots can_bind settings pool' key'
                  p in
              let same : launched http counters tls (connector_of transport settings) h ≡ begun =
                ground arith in
              sym same
              ∙ ap (λ c. launched http counters tls c h)
                  (λ i. record {
                    controller_addr = is.controller_addr i;
                    node_id = is.node_id i;
                    transport = transport;
                  })
          | inr (error, p) ↦ absurd (ground arith)
        ]

    -- If `main` gets through its start, then in every state that its process reaches, whenever the
    -- manager connects to the control plane, the connection has a CA and an identity with its key,
    -- it names the host of the controller's address for the check of the peer, and the transport
    -- has taken the address and this configuration; and whenever it opens a watch, the request has
    -- the id of the node. Both the address and the id are those of the environment, or their
    -- defaults.
    pub boot-dials :
        (begun d : DataPlane http counters tls) (pool : ClientPool tls.Cert)
        (key : CertifiedKey tls)
        → boot http counters tls gen env cpus can_build roots can_bind transport h
          ≡ ok (begun, pool, key)
        → Reach http counters tls begun d
        → ((config : ClientTls)
            → d.process.manager.phase ≡ connecting config
            → IsMutual (configured env transport) config)
          × ((request : WatchRequest)
              → d.process.manager.phase ≡ opening request
              → request.node_id ≡ variable env (codes "NODE_ID") (codes "dp-axum"))
    boot-dials begun d pool key started run =
        let dialled =
          Reach-IsDialled (configured env transport) h d
            (subst (λ b. Reach http counters tls b d) (boot-launched begun pool key started) run) in
        (dialled.mutual_tls, dialled.asks)
