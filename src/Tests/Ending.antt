-- ===== src/Tests/Ending.antt =====
-- The shutdown of a process with an open connection.
use argon.Prelude.{refl, true, nat_eq, list_eq}
use argon.Process
use argon.Process.{launch}
use argon.Process.Parts.{IsOrdered}
use argon.DataPlane.{Reach, next}
use argon.DataPlane.Ordered.{launched-IsOrdered}
use argon.DataPlane.Ending.{Ends, launched-Ends}
use argon.Tests.Maps.{counters}
use argon.Tests.Network.{http}
use argon.Tests.Samples.{sample_connector, tls, no_cells}
use argon.Tests.Serving.{with_table}
use argon.Tests.Running.{State, begun, connected_with, go, run}

abbrev told : State
told = record begun { process = record (connected_with with_table).process { cancelled = true } }

told-Reach : Reach http counters tls begun told
unfolding Process.step launch
told-Reach = next run (
    go (connected_with with_table) Process.Event.signal
      (record (connected_with with_table).process { cancelled = true }) refl refl)

launched-IsOrdered_example : IsOrdered counters http.header_name tls told.process.stage told.process
launched-IsOrdered_example =
    launched-IsOrdered http counters tls sample_connector no_cells told told-Reach

launched-Ends_example : Ends http counters tls told
unfolding launch
launched-Ends_example =
    launched-Ends http counters tls sample_connector no_cells told told-Reach refl
