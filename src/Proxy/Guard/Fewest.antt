-- ===== src/Proxy/Guard/Fewest.antt =====
-- The least-connections policy where the counters of `ActiveConnGuard`
-- (images/dataplane/src/proxy.rs) are exact.
use argon.Prelude.{◌%◌, ◌≤◌, ◌<◌, ◌≡◌, Option, none, some, List, [], ◌∷◌, arith, nat_eq, length}
use argon.Atomics.{Address, usize_mod}
use argon.Proxy.Guard.{ActiveConnGuard}
use argon.Proxy.Guard.Counts.{counts_on, in_flight}

counts_on-le : (a : Address) (c : Option Address) → counts_on a c ≤ 1
counts_on-le a none = omega arith
counts_on-le a (some b) = ground arith

in_flight-le-length : (a : Address) (gs : List ActiveConnGuard) → in_flight a gs ≤ length gs
in_flight-le-length a [] = omega arith
in_flight-le-length a (g ∷ gs) = omega (arith, counts_on-le a g.counter, in_flight-le-length a gs)

-- Fewer than 2 ^ 64 guards are counted without a wrap.
pub in_flight_mod :
    (a : Address) (gs : List ActiveConnGuard)
    → length gs < usize_mod
    → in_flight a gs % usize_mod ≡ in_flight a gs
in_flight_mod a gs few = omega (arith, in_flight-le-length a gs)
