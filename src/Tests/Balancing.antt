-- ===== src/Tests/Balancing.antt =====
-- Balancing over the sample endpoints.
use argon.Prelude.{
  ◌+◌, ◌%◌, ◌≡◌, false, none, some, [], ◌++◌, map, arith, if◌then◌else◌, ◌==◌, nat_eq, list_eq,
  get_elem?,
}
use argon.Text.{codes}
use argon.Prelude.Int.{pos}
use argon.Atomics.{Heap, load, usize_mod, store}
use argon.Config.{Endpoint}
use argon.Cluster.{
  round_robin, h1, ClusterRule, build_map, counter_for_index, selected_at, pick_round_robin,
}
use argon.Cluster.Wiring.{IsWired, build_map-IsWired}
use argon.Cluster.Balance.{turn, pick_round_robin-turn}
use argon.Cluster.Rounds.{row, picks, picks_round}
use argon.Tests.Maps.{counters}
use argon.Tests.Samples.{sample_endpoints, no_cells}

-- Three counters in the cells 0 to 2, and the cursor in cell 3, at 1.
abbrev rule : ClusterRule counters
rule = record {
  name = codes "";
  lb_policy = round_robin;
  endpoints = sample_endpoints;
  timeout_ms = pos 1000;
  retries = pos 3;
  backend_protocol = h1;
  request_headers = [];
  backend_tls_insecure_skip_verify = false;
  rr_cursor = 3;
  least_conn_cursor = (build_map counters no_cells sample_endpoints).1;
  auth = none;
}

abbrev heap : Heap
heap = record { next = 4; cell = λ a. if a == 3 then 1 else 0 }

build_map-IsWired_example :
    IsWired counters 0 sample_endpoints (build_map counters no_cells sample_endpoints).1
build_map-IsWired_example = build_map-IsWired counters no_cells sample_endpoints

pick_round_robin-turn_example :
    (ep : Endpoint) × (get_elem? sample_endpoints (turn counters heap rule) ≡ some ep)
    × (pick_round_robin counters heap rule ≡ (
      record heap { cell = store heap.cell 3 ((heap.cell 3 + 1) % usize_mod) },
      some (record {
        endpoint = ep;
        counter = counter_for_index counters rule (turn counters heap rule);
      }),
    ))
pick_round_robin-turn_example = pick_round_robin-turn counters heap rule (omega arith)

picks_round_example :
    picks counters 3 heap rule ≡ map (selected_at counters rule) (row 1 2 ++ row 0 1)
unfolding load
picks_round_example = picks_round counters heap rule (omega arith) (omega arith)
