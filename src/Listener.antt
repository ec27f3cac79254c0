-- ===== src/Listener.antt =====
-- images/dataplane/src/main.rs: `run_http` and `run_https` as one step function, with `tls` for the
-- second. An event is what the network, the connections' own tasks or the shutdown does next; an event
-- that the code does not wait for in its phase gives none.
pub mod Drain
pub mod Connections
pub mod Ending
pub mod Tidy
use mathlib.Core.Option
use argon.Prelude.{
  ℕ, zero, suc, Bool, true, false, Option, none, some, List, [], ◌∷◌, if◌then◌else◌, list_eq,
}
use argon.Text.{Text}
use argon.Atomics.{Address, Heap}
use argon.Cluster.{Counters}
use argon.Table.{RouteTable}
use argon.Http.{Http, Request, Response}
use argon.Proxy.Effects.{Clients, Trace}
use argon.Proxy.Handler.{proxy_handler}

-- The task of a connection: in `tls_acceptor.accept`, in `serve_connection_with_upgrades`, or over.
pub data Stage : Type 0 where
  handshaking serving finished : Stage

-- `sleeping` is the pause after a failed accept, `draining` the loop on `join_next`. A listener has
-- returned `Ok` where the flag holds, and the error of `bind` where it does not.
pub data Phase : Type 0 where
  binding accepting sleeping draining : Phase
  returned : (listened : Bool) → Phase

pub data Event : Type 0 where
  bound bind_failed accepted accept_failed slept cancel_noticed drained : Event
  handshaken handshake_failed served closed joined : (index : ℕ) → Event

-- `conns` is the `JoinSet`, which keeps a task that is over until it is joined.
pub record Listener : Type 0 where
  pub phase : Phase
  pub conns : List Stage

abbrev pub unbound : Listener
unbound = record { phase = binding; conns = [] }

-- The task of the listener is over.
abbrev pub is_over : Listener → Bool
is_over l = elim l.phase [ returned listened ↦ true | p ↦ false ]

-- The task of a connection at an index moves on, where it can.
advance : (Stage → Option Stage) → List Stage → ℕ → Option (List Stage)
advance f [] i = none
advance f (s ∷ ss) zero = Option.map (λ s'. s' ∷ ss) (f s)
advance f (s ∷ ss) (suc i) = Option.map (λ ss'. s ∷ ss') (advance f ss i)

advance_task : (Stage → Option Stage) → ℕ → Listener → Option Listener
unfolding advance
advance_task f i l = Option.map (λ ss. record l { conns = ss }) (advance f l.conns i)

-- `join_next` takes a task that is over.
join : List Stage → ℕ → Option (List Stage)
join [] i = none
join (finished ∷ ss) zero = some ss
join (s ∷ ss) zero = none
join (s ∷ ss) (suc i) = Option.map (λ ss'. s ∷ ss') (join ss i)

shake : Stage → Option Stage
shake handshaking = some serving
shake s = none

fail_shake : Stage → Option Stage
fail_shake handshaking = some finished
fail_shake s = none

-- The connection stays open for further requests.
serve_one : Stage → Option Stage
serve_one serving = some serving
serve_one s = none

close : Stage → Option Stage
close serving = some finished
close s = none

first_stage : Bool → Stage
first_stage tls = if tls then handshaking else serving

step_binding : Event → Listener → Option Listener
step_binding bound l = some (record l { phase = accepting })
step_binding bind_failed l = some (record l { phase = returned false })
step_binding e l = none

-- The `select!`, whose branches are taken in any order when both are ready.
step_accepting : Bool → Bool → Event → Listener → Option Listener
step_accepting tls cancelled accepted l = some (record l { conns = first_stage tls ∷ l.conns })
step_accepting tls cancelled accept_failed l = some (record l { phase = sleeping })
step_accepting tls cancelled cancel_noticed l =
    if cancelled then some (record l { phase = draining }) else none
step_accepting tls cancelled e l = none

step_sleeping : Event → Listener → Option Listener
step_sleeping slept l = some (record l { phase = accepting })
step_sleeping e l = none

step_draining : Event → Listener → Option Listener
step_draining (joined i) l = Option.map (λ ss. record l { conns = ss }) (join l.conns i)
step_draining drained l = elim l.conns [
  | [] ↦ some (record l { phase = returned true })
  | s ∷ ss ↦ none
]
step_draining e l = none

step_listener : Bool → Bool → Phase → Event → Listener → Option Listener
step_listener tls cancelled binding e l = step_binding e l
step_listener tls cancelled accepting e l = step_accepting tls cancelled e l
step_listener tls cancelled sleeping e l = step_sleeping e l
step_listener tls cancelled draining e l = step_draining e l
step_listener tls cancelled (returned b) e l = none

-- A step of the listener, or of the task of one of its connections.
unfoldable pub step : Bool → Bool → Event → Listener → Option Listener
unfolding advance_task join shake fail_shake serve_one close first_stage step_binding step_accepting
    step_sleeping step_draining step_listener
step tls cancelled (handshaken i) l = advance_task shake i l
step tls cancelled (handshake_failed i) l = advance_task fail_shake i l
step tls cancelled (served i) l = advance_task serve_one i l
step tls cancelled (closed i) l = advance_task close i l
step tls cancelled e l = step_listener tls cancelled l.phase e l

-- The events one after the other. A token that is cancelled from the outset allows every order.
unfoldable pub run : Bool → Bool → List Event → Listener → Option Listener
run tls cancelled [] l = some l
run tls cancelled (e ∷ es) l = elim (step tls cancelled e l) [
  | none ↦ none
  | some l' ↦ run tls cancelled es l'
]

module _ (http : Http) (counters : Counters) (clients : Clients http) where
  -- The service of a connection: the request with the mark of its frontend, in the handler.
  unfoldable pub service :
      Bool
      → (Address → ℕ)
      → (Heap → Heap)
      → Heap
      → RouteTable counters
      → Request http
      → Heap × (Trace http × Response http)
  service tls seen meanwhile h table req =
      proxy_handler http counters clients seen meanwhile h table
        (record req { frontend_tls = some tls })
