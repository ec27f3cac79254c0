-- ===== src/DataPlane.antt =====
-- images/dataplane/src: the process (main.rs) with the requests that its connections serve (proxy.rs)
-- and the manager (grpc.rs), on one heap and one table. A request is selected under the read lock of
-- the table and opens its guard before it gives the lock back; a table is stored under the write lock.
pub mod View
pub mod Served
pub mod Ready
pub mod Handshakes
pub mod Ordered
pub mod Ending
pub mod Balanced
pub mod Kept
pub mod Routed
use argon.Prelude.{ℕ, ◌≡◌, Bool, true, false, Option, some, List, [], ◌∷◌, ◌++◌, nat_eq, list_eq}
use argon.Atomics.{Heap, Address}
use argon.Config.{Snapshot}
use argon.Cluster.{Counters}
use argon.Certs.{Tls}
use argon.Http.{Http, Request, Response, Result, ok, err}
use argon.Proxy.Guard.{ActiveConnGuard, open_guard, drop_guard}
use argon.Proxy.Handler.{Selection, select_upstream}
use argon.Grpc.Connect.{Connector}
use argon.Grpc.Stream.Storing.{stores}
use argon.Listener.{Listener, serving}
use argon.Process.{Process, Event, launch, step}

module _ (http : Http) (counters : Counters) (tls : Tls) where
  abbrev pub Main : Type 0
  Main = Process counters http.header_name tls

  -- `selected` has the counters of the requests that hold the read lock and a selection.
  pub record DataPlane : Type 0 where
    pub process : Main
    pub selected : List (Option Address)
    pub guards : List ActiveConnGuard

  -- The heap has what was allocated before.
  abbrev pub launched : Connector → Heap → DataPlane
  launched c h = record {
    process = launch counters http.header_name tls c h;
    selected = [];
    guards = [];
  }

  -- The event stores a table, for which no one may hold the read lock.
  abbrev pub stores_table : Event → Main → Bool
  stores_table (Event.manager e) p = stores counters http.header_name tls e p.manager.phase
  stores_table e p = false

  -- The request as the service of a connection hands it over.
  abbrev pub marked : (on_tls : Bool) → Request http → Request http
  marked on_tls req = record req { frontend_tls = some on_tls }

  abbrev pub selection :
      DataPlane
      → (Address → ℕ)
      → Request http
      → Heap × Result (Selection http counters) (Response http)
  selection d seen req =
      select_upstream http counters seen d.process.manager.heap d.process.manager.route_table req

  abbrev pub with_heap : Heap → DataPlane → DataPlane
  with_heap h d = record d {
    process = record d.process { manager = record d.process.manager { heap = h } };
  }

  -- A request may come at any time: the task of an HTTP/2 request may outlive its connection's. A
  -- guard is one of those that are open, by what stands before and after it.
  pub data Step (d : DataPlane) : DataPlane → Type 0 where
    proceeds :
        {d' : DataPlane} (e : Event) (p : Main)
        → (stores_table e d.process ≡ true → d.selected ≡ [])
        → step counters http.header_name tls e d.process ≡ some p
        → d' ≡ record d { process = p }
        → Step d d'
    refuses :
        {d' : DataPlane} (seen : Address → ℕ) (on_tls : Bool) (req : Request http) (h : Heap)
        (resp : Response http)
        → selection d seen (marked on_tls req) ≡ (h, err resp)
        → d' ≡ with_heap h d
        → Step d d'
    selects :
        {d' : DataPlane} (seen : Address → ℕ) (on_tls : Bool) (req : Request http) (h : Heap)
        (sel : Selection http counters)
        → selection d seen (marked on_tls req) ≡ (h, ok sel)
        → d' ≡ record (with_heap h d) { selected = sel.selected.counter ∷ d.selected }
        → Step d d'
    enters :
        {d' : DataPlane} (before : List (Option Address)) (counter : Option Address)
        (after : List (Option Address))
        → d.selected ≡ before ++ counter ∷ after
        → d' ≡ record (with_heap (open_guard d.process.manager.heap counter).0 d) {
          selected = before ++ after;
          guards = (open_guard d.process.manager.heap counter).1 ∷ d.guards;
        }
        → Step d d'
    leaves :
        {d' : DataPlane} (before : List ActiveConnGuard) (guard : ActiveConnGuard)
        (after : List ActiveConnGuard)
        → d.guards ≡ before ++ guard ∷ after
        → d' ≡ record (with_heap (drop_guard d.process.manager.heap guard) d) {
          guards = before ++ after;
        }
        → Step d d'

  pub data Reach (d : DataPlane) : DataPlane → Type 0 where
    here : Reach d d
    next : {u v : DataPlane} → Reach d u → Step u v → Reach d v

  -- One run after the other.
  abbrev pub Reach-trans : {d u v : DataPlane} → Reach d u → Reach u v → Reach d v
  Reach-trans a here = a
  Reach-trans a (next b s) = next (Reach-trans a b) s
