-- ===== src/Proxy/Guard.antt =====
-- images/dataplane/src/proxy.rs: `ActiveConnGuard`, which counts a request for its endpoint while the
-- request is in flight.
pub mod Counts
pub mod Fewest
use argon.Prelude.{Option, none, some}
use argon.Atomics.{Heap, Address, fetch_add, fetch_sub}

pub record ActiveConnGuard : Type 0 where
  pub counter : Option Address

-- `ActiveConnGuard::new`
unfoldable pub open_guard : Heap → Option Address → Heap × ActiveConnGuard
unfolding fetch_add
open_guard h none = (h, record { counter = none })
open_guard h (some c) = ((fetch_add h c 1).0, record { counter = some c })

-- `Drop::drop`
drop_counter : Heap → Option Address → Heap
unfolding fetch_sub
drop_counter h none = h
drop_counter h (some c) = (fetch_sub h c 1).0

unfoldable pub drop_guard : Heap → ActiveConnGuard → Heap
unfolding drop_counter
drop_guard h g = drop_counter h g.counter
