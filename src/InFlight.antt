-- ===== src/InFlight.antt =====
-- images/dataplane/src: requests in flight beside new tables. A request selects an endpoint under the
-- read lock and opens its guard before it gives the lock back (proxy.rs); a new table (snapshot.rs) is
-- stored under the write lock (grpc.rs), so not between the two.
pub mod Picks
pub mod Steps
pub mod Counted
use argon.Prelude.{ℕ, ◌≡◌, Option, List, [], ◌∷◌, ◌++◌, list_eq}
use argon.Atomics.{Heap, Address}
use argon.Config.{Snapshot}
use argon.Cluster.{Counters}
use argon.Table.{RouteTable, default_table, new_table}
use argon.Http.{Http, Request, Response, Result, ok, err}
use argon.Proxy.Guard.{ActiveConnGuard, open_guard, drop_guard}
use argon.Proxy.Handler.{Selection, select_upstream}

module _ (http : Http) (counters : Counters) where
  -- `selected` has the counters of the requests that hold the read lock and a selection.
  pub record System : Type 0 where
    pub heap : Heap
    pub table : RouteTable counters
    pub selected : List (Option Address)
    pub guards : List ActiveConnGuard

  -- The heap has what was allocated before.
  abbrev pub idle : Heap → System
  idle h = record { heap = h; table = default_table counters; selected = []; guards = [] }

  -- A guard is one of those that are open, by what stands before and after it.
  pub data Step (s : System) : System → Type 0 where
    refuse :
        {s' : System} (seen : Address → ℕ) (req : Request http) (h : Heap) (resp : Response http)
        → select_upstream http counters seen s.heap s.table req ≡ (h, err resp)
        → s' ≡ record s { heap = h }
        → Step s s'
    select :
        {s' : System} (seen : Address → ℕ) (req : Request http) (h : Heap)
        (sel : Selection http counters)
        → select_upstream http counters seen s.heap s.table req ≡ (h, ok sel)
        → s' ≡ record s { heap = h; selected = sel.selected.counter ∷ s.selected }
        → Step s s'
    enter :
        {s' : System} (before : List (Option Address)) (counter : Option Address)
        (after : List (Option Address))
        → s.selected ≡ before ++ counter ∷ after
        → s' ≡ record s {
          heap = (open_guard s.heap counter).0;
          selected = before ++ after;
          guards = (open_guard s.heap counter).1 ∷ s.guards;
        }
        → Step s s'
    leave :
        {s' : System} (before : List ActiveConnGuard) (guard : ActiveConnGuard)
        (after : List ActiveConnGuard)
        → s.guards ≡ before ++ guard ∷ after
        → s' ≡ record s { heap = drop_guard s.heap guard; guards = before ++ after }
        → Step s s'
    publish :
        {s' : System} (snap : Snapshot)
        → s.selected ≡ []
        → s' ≡ record s {
          heap = (new_table counters http.header_name s.heap snap).0;
          table = (new_table counters http.header_name s.heap snap).1;
        }
        → Step s s'

  pub data Reach (s : System) : System → Type 0 where
    here : Reach s s
    next : {u v : System} → Reach s u → Step u v → Reach s v
