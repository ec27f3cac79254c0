-- ===== src/Tests/Listening.antt =====
-- Runs of the listener over TLS: two connections, of which one fails its handshake.
use argon.Prelude.{◌+◌, ◌≤◌, ◌≡◌, refl, ◌⊎◌, true, false, some, List, [], ◌∷◌, list_eq, length}
use argon.Listener.{
  serving, draining, returned, bound, accepted, drained, handshaken, handshake_failed, served,
  closed, joined, Event, finished, Listener, unbound, accepting, step, run,
}
use argon.Listener.Connections.{accepts, joins, is_open, run-length}
use argon.Listener.Drain.{IsLive, total, total_work, run-ends}

abbrev events : List Event
events = bound ∷ accepted ∷ handshake_failed 0 ∷ accepted ∷ handshaken 0 ∷ served 0 ∷ []

-- The connection that failed is still in the set.
abbrev two_tasks : Listener
two_tasks = record { phase = accepting; conns = serving ∷ finished ∷ [] }

two_tasks-run : run true true events unbound ≡ some two_tasks
unfolding run step
two_tasks-run = refl

run-length_example :
    (length two_tasks.conns + joins events ≡ accepts events)
    × ((is_open accepting ≡ false) ⊎ (length two_tasks.conns ≡ accepts events))
run-length_example = run-length true true events two_tasks two_tasks-run

abbrev two_left : Listener
two_left = record { phase = draining; conns = serving ∷ finished ∷ [] }

abbrev ending : List Event
ending = joined 1 ∷ served 0 ∷ closed 0 ∷ joined 0 ∷ drained ∷ []

abbrev all_done : Listener
all_done = record { phase = returned true; conns = [] }

all_done-run : run true true ending two_left ≡ some all_done
unfolding run step
all_done-run = refl

run-ends_example : (total_work ending ≤ 1 + total two_left.conns) × IsLive true true all_done
run-ends_example = run-ends true true ending two_left all_done refl all_done-run
