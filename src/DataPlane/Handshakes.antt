-- ===== src/DataPlane/Handshakes.antt =====
-- images/dataplane/src: which certificate a connection of a running process is given.
use argon.Prelude.{◌≡◌, ap₂, ◌∙◌, some, or_else, nat_eq, list_eq}
use mathlib.Core.Option
use argon.Text.{Text, to_ascii_lowercase}
use argon.Atomics.{Heap}
use argon.Config.{Snapshot}
use argon.Cluster.{Counters}
use argon.Certs.{Tls, CertifiedKey, resolve, wildcard_of}
use argon.Certs.Choice.{last_key, resolve-snapshots}
use argon.Http.{Http}
use argon.Grpc.Connect.{Connector}
use argon.Grpc.Stream.Certified.{IsCertified}
use argon.DataPlane.{DataPlane, launched, Reach, Reach-trans}
use argon.DataPlane.Served.{received, Reach-Informed}

module _ (http : Http) (counters : Counters) (tls : Tls) where
  -- If the process reaches, from its launch, a state where a connection looks its server's name up,
  -- and from there, by whatever happens between, one where it looks the wildcard up, then it gets
  -- the key of the last usable bundle that lists the name in lower case in the snapshot of the
  -- first lookup, else that of the last usable bundle that lists the name with its first label
  -- replaced by a star in the snapshot of the second, else the default one. The snapshot of a
  -- lookup is the last one received by then, or the one before while the certificates of the last
  -- are not stored, or the empty one of the start.
  pub resolve-Follows :
      (c : Connector) (begin : Heap) (d d' : DataPlane http counters tls)
      (run : Reach http counters tls (launched http counters tls c begin) d)
      (between : Reach http counters tls d d') (default : CertifiedKey tls) (server_name : Text)
      → (first : Snapshot) × (second : Snapshot) × IsCertified counters http.header_name tls first
          (received http counters tls run)
          d.process.manager
        × IsCertified counters http.header_name tls second
            (received http counters tls (Reach-trans http counters tls run between))
            d'.process.manager
        × (resolve tls d.process.manager.sni d'.process.manager.sni default (some server_name)
            ≡ or_else (last_key tls (to_ascii_lowercase server_name) first.server_tls) (
                or_else
                  (Option.bind
                    (wildcard_of tls (to_ascii_lowercase server_name))
                    (λ star. last_key tls star second.server_tls))
                  (some default)))
  resolve-Follows c begin d d' run between default server_name =
      let (first, current, certs) = (Reach-Informed http counters tls c begin d run).2 in
      let whole = Reach-trans http counters tls run between in
      let (second, current', certs') = (Reach-Informed http counters tls c begin d' whole).2 in
      (
        first,
        second,
        current,
        current',
        ap₂ (λ m n. resolve tls m n default (some server_name)) certs certs'
            ∙ resolve-snapshots tls first second default server_name,
      )
