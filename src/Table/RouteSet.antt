-- ===== src/Table/RouteSet.antt =====
-- The routing of images/dataplane/src/snapshot.rs as a function of the set of a snapshot's routes.
use argon.Prelude.{◌≡◌, refl, ap, inl, inr, Option, some, List, nat_eq, list_eq}
use argon.Text.{Text}
use argon.Prelude.Int.{ℤ}
use argon.Atomics.{Heap}
use argon.Config.{Snapshot, Route}
use argon.Route.{PathType, RouteRule}
use argon.Rewrites.{HeaderName}
use argon.Cluster.{Counters}
use argon.Table.{new_table, choose_route}
use argon.Table.Routing.{searched, choose_route-new_table}
use mathlib.Core.Option
use mathlib.Core.Quot
use mathlib.Core.Quot.{Quot}
use argon.Table.Reordered.{SameRoutes, searched-same}

-- The path, the type and the priority of a rule: all but its cluster.
abbrev pub Shape : Type 0
Shape = Text × PathType × ℤ

abbrev pub shape : RouteRule → Shape
shape r = (r.path, r.path_type, r.priority)

shape-same :
    (host path : Text) (rs rs' : List Route)
    → SameRoutes rs rs'
    → Option.map shape (searched host path rs) ≡ Option.map shape (searched host path rs')
shape-same host path rs rs' same = elim (searched-same path host rs rs' same) [
  | inl (gone, gone') ↦ rw (gone, gone') refl
  | inr (a, b, got, got', t) ↦ rw (got, got') (λ i. some (t.path i, t.path_type i, t.priority i))
]

-- The routes of a snapshot, with their order and number forgotten.
abbrev pub RouteSet : Type 0
RouteSet = Quot SameRoutes

Shape-set : IsSet (Option Shape)
Shape-set = hlevel

-- The shape of the rule that a set of routes gives for a host and a path.
pub shape_for : Text → Text → RouteSet → Option Shape
shape_for host path =
    Quot.lift Shape-set (λ rs. Option.map shape (searched host path rs)) (shape-same host path)

module _ (counters : Counters) (header_name : Text → Option HeaderName) where
  -- A table gives rules by the set of the snapshot's routes: neither their order and number nor the
  -- heap decides on more than the cluster of a rule.
  pub choose_route-shape :
      (h : Heap) (snap : Snapshot) (host path : Text)
      → Option.map shape (choose_route counters (new_table counters header_name h snap).1 host path)
        ≡ shape_for host path (Quot.mk snap.routes)
  unfolding shape_for
  choose_route-shape h snap host path =
      ap (Option.map shape) (choose_route-new_table counters header_name h snap host path)
