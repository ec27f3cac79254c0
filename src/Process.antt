-- ===== src/Process.antt =====
-- images/dataplane/src/main.rs: the part of `main` after the start-up, as a step function on the two
-- listeners and the manager. The runtime ends every task with `main`.
pub mod Parts
pub mod Order
pub mod Stopping
pub mod Exit
pub mod Managing
use mathlib.Core.Option
use argon.Prelude.{◌≡◌, Bool, true, false, not, Option, none, some, if◌then◌else◌, list_eq}
use argon.Text.{Text}
use argon.Atomics.{Heap}
use argon.Rewrites.{HeaderName}
use argon.Cluster.{Counters}
use argon.Certs.{Tls}
use argon.Listener
use argon.Listener.{Listener, unbound, is_over}
use argon.Grpc.Stream
use argon.Grpc.Stream.{Manager, cancel, stopped}
use argon.Grpc.Connect.{Connector}
use argon.Grpc.Start.{start}

-- `main` waits for the token, for the listeners one after the other, and for the manager.
pub data Stage : Type 0 where
  waiting joining_http joining_https stopping joining_manager exited : Stage

-- `signal` is the answer of `ctrl_c`; `proceed` is `main` going on after what it waits for.
pub data Event : Type 0 where
  signal proceed : Event
  http https : Listener.Event → Event
  manager : Stream.Event → Event

module _ (counters : Counters) (header_name : Text → Option HeaderName) (tls : Tls) where
  pub record Process : Type 0 where
    pub stage : Stage
    pub cancelled : Bool
    pub http_listener : Listener
    pub https_listener : Listener
    pub manager : Manager counters header_name tls

  -- The listeners and the manager are started.
  unfoldable pub launch : Connector → Heap → Process
  launch c h = record {
    stage = waiting;
    cancelled = false;
    http_listener = unbound;
    https_listener = unbound;
    manager = start counters header_name tls c h;
  }

  -- The manager has its own token, which `shutdown` alone cancels.
  step_manager : Stream.Event → Process → Option Process
  step_manager cancel p = none
  step_manager e p =
      Option.map (λ m. record p { manager = m }) (Stream.step counters header_name tls e p.manager)

  abbrev pub manager_is_over : Manager counters header_name tls → Bool
  manager_is_over m = elim m.phase [ stopped ↦ not m.watching | q ↦ false ]

  pub step_main : Stage → Process → Option Process
  step_main waiting p = if p.cancelled then some (record p { stage = joining_http }) else none
  step_main joining_http p =
      if is_over p.http_listener then some (record p { stage = joining_https }) else none
  step_main joining_https p =
      if is_over p.https_listener then some (record p { stage = stopping }) else none
  step_main stopping p =
      Option.map (λ m. record p { stage = joining_manager; manager = m })
        (Stream.step counters header_name tls cancel p.manager)
  step_main joining_manager p =
      if manager_is_over p.manager then some (record p { stage = exited }) else none
  step_main exited p = none

  pub step_running : Event → Process → Option Process
  step_running signal p = some (record p { cancelled = true })
  step_running proceed p = step_main p.stage p
  step_running (http e) p =
      Option.map (λ l. record p { http_listener = l })
        (Listener.step false p.cancelled e p.http_listener)
  step_running (https e) p =
      Option.map (λ l. record p { https_listener = l })
        (Listener.step true p.cancelled e p.https_listener)
  step_running (manager e) p = step_manager e p

  unfoldable pub step : Event → Process → Option Process
  unfolding step_main step_manager step_running
  step e p = elim p.stage [ exited ↦ none | s ↦ step_running e p ]

  pub data Reach (p : Process) : Process → Type 0 where
    here : Reach p p
    next : {q r : Process} (e : Event) → Reach p q → step e q ≡ some r → Reach p r
