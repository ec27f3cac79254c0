-- ===== src/DataPlane/Routed.antt =====
-- Which rule the table of a running process of images/dataplane/src gives.
use argon.Prelude.{◌≡◌, ap, ◌∙◌, nat_eq, list_eq}
use mathlib.Core.Option
use mathlib.Core.Quot
use argon.Text.{Text}
use argon.Atomics.{Heap}
use argon.Config.{Snapshot}
use argon.Cluster.{Counters}
use argon.Certs.{Tls}
use argon.Http.{Http}
use argon.Table.{choose_route}
use argon.Table.RouteSet.{shape, shape_for, choose_route-shape}
use argon.Grpc.Connect.{Connector}
use argon.Grpc.Stream.History.{IsCurrent}
use argon.DataPlane.{DataPlane, launched, Reach}
use argon.DataPlane.Served.{received, Reach-Informed}

module _ (http : Http) (counters : Counters) (tls : Tls) where
  -- In every state that the process reaches from its launch, the path, the type and the priority of
  -- the rule that its table gives for a host and a path, or that there is none, are a function of
  -- the set of the routes of the last received snapshot, or of the one before while the table of
  -- the last is not stored, or of the empty one of the start: neither the order nor the number of
  -- equal routes, nor anything else of the snapshot or the state, decides on more than the cluster
  -- of the rule.
  pub choose_route-routes :
      (c : Connector) (begin : Heap) (d : DataPlane http counters tls)
      (run : Reach http counters tls (launched http counters tls c begin) d) (host path : Text)
      → (snap : Snapshot) × IsCurrent counters http.header_name tls snap
          (received http counters tls run)
          d.process.manager
        × (Option.map shape (choose_route counters d.process.manager.route_table host path)
            ≡ shape_for host path (Quot.mk snap.routes))
  choose_route-routes c begin d run host path =
      let (snap, current, (h, made)) = (Reach-Informed http counters tls c begin d run).1.1 in
      (
        snap,
        current,
        ap (λ table. Option.map shape (choose_route counters table host path)) made
            ∙ choose_route-shape counters http.header_name h snap host path,
      )
