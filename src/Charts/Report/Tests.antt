-- ===== src/Charts/Report/Tests.antt =====
-- The numbers of the reports on a few runs.
use patroni_routing_bench.Prelude.{
  ℕ, ◌+◌, ◌*◌, ◌/◌, String, ◌≡◌, refl, Bool, true, false, none, some, Option, List, [], ◌∷◌, select,
  nat_eq, bool_eq, option_eq, string_eq,
}
use mathlib.Core.List.Permᴰ as Permᴰ
use patroni_routing_bench.Prelude.Int.{pos, sub_ℕ}
use patroni_routing_bench.Charts.{ClientEvent}
use patroni_routing_bench.Charts.Dict.{get, update, group_from}
use patroni_routing_bench.Charts.Milestones.{extract_milestones}
use patroni_routing_bench.Charts.Failures.{Failure, empty, cat_data, failure_table, total_failures}
use patroni_routing_bench.Charts.Failures.Counts.{
  occurrences, Descending, shown, failure_table-Descending,
}
use patroni_routing_bench.Charts.Iterations.{MetaRow, CsvRow, iteration_rows}
use patroni_routing_bench.Charts.Iterations.Pairing.{
  Ascending, SameRuns, paired, firsts, rows_of, ids_of, paired-iteration_rows,
}
use patroni_routing_bench.Charts.Medians.{
  Offsets, compute_waterfall, since, offsets_from, run_offsets,
}
use patroni_routing_bench.Charts.Medians.Order.{compute_waterfall-Perm}
use patroni_routing_bench.Charts.Medians.Query.{IsTwofold, run_offsets-extract_milestones}
use patroni_routing_bench.Charts.Window.{load_run_data, load_window, is_large}
use patroni_routing_bench.Charts.Report.{
  FailoverWindow, Run, iteration_of, iterations_from, iterations, status_of, comparison_groups,
}
use patroni_routing_bench.Charts.Report.Groups.{downtimes, comparison_groups-iterations}

abbrev failure : String → Failure
failure error = record { error = some error; latency_us = some 7 }

abbrev failures : List Failure
failures =
    failure "Connection refused"
    ∷ record { error = none; latency_us = none }
    ∷ failure "connection refused"
    ∷ []

failure_table-Descending_example :
    ((cat : String) → (get cat empty (cat_data failures)).count ≡ occurrences cat failures)
    × Descending (failure_table failures)
    × (shown (failure_table failures) ≡ 3)
    × (total_failures failures ≡ 3)
failure_table-Descending_example = failure_table-Descending failures

abbrev meta : String → String → ℕ → MetaRow
meta id kind started = record { id = id; failover_type = some kind; started_at = started }

abbrev result : String → CsvRow
result scenario = record {
  scenario = scenario;
  iteration = "1";
  leader_killed = "p1";
  downtime_s = "5.0";
  failed_queries = "12";
  status = "SUCCESS";
}

abbrev metas : List MetaRow
metas = meta "r2" "hard_stop" 2 ∷ meta "r1" "hard_stop" 1 ∷ meta "r3" "pause" 3 ∷ []

abbrev results : List CsvRow
results = result "hard_stop" ∷ result "pause" ∷ result "hard_stop" ∷ result "hard_stop" ∷ []

paired-iteration_rows_example :
    (runs : List MetaRow) × Ascending runs
    × SameRuns runs metas
    × (paired "hard_stop" (iteration_rows metas [] results)
        ≡ firsts (rows_of "hard_stop" results) (ids_of "hard_stop" runs))
paired-iteration_rows_example = paired-iteration_rows "hard_stop" metas [] results

abbrev offsets : ℕ → Offsets
offsets n = record {
  t0 = some (pos n);
  t1 = none;
  t2 = some (pos (n + 1));
  t3 = none;
  t4 = none;
  tc = some (pos (n + 5));
}

compute_waterfall-Perm_example :
    compute_waterfall (offsets 1 ∷ offsets 8 ∷ []) ≡ compute_waterfall (offsets 8 ∷ offsets 1 ∷ [])
compute_waterfall-Perm_example =
    compute_waterfall-Perm (offsets 1 ∷ offsets 8 ∷ []) (offsets 8 ∷ offsets 1 ∷ [])
      (Permᴰ.swap refl refl)

abbrev query : ℕ → Bool → ClientEvent
query now ok = record { ts = now; success = ok }

-- One query succeeds between the failures.
abbrev queries : List ClientEvent
queries = query 1 true ∷ query 2 false ∷ query 3 true ∷ query 4 false ∷ query 9 true ∷ []

recovered : run_offsets [] queries ≡ some (offsets_from 2 [] queries)
unfolding run_offsets select
recovered = refl

downtime : (offsets_from 2 [] queries).tc ≡ some (pos 7)
unfolding offsets_from since select
downtime = refl

run_offsets-extract_milestones_example :
    (f : ℕ) × (r : ℕ) × (l : ℕ) × (t : ℕ) × ((extract_milestones [] queries).first_client_failure
      ≡ some f)
    × ((extract_milestones [] queries).first_recovery ≡ some r)
    × IsTwofold queries f r l t
    × (sub_ℕ t f ≡ pos 7)
run_offsets-extract_milestones_example =
    run_offsets-extract_milestones [] queries (offsets_from 2 [] queries) (pos 7) recovered downtime

abbrev run_of : String → Option FailoverWindow → Run
run_of id fw = record {
  id = id;
  failover_type = some "pause";
  rows = record { obs = []; cli = queries };
  fw = fw;
}

abbrev lasted : ℕ → Option FailoverWindow
lasted n = some (record { downtime = some n; total_failures = 2 })

abbrev session : List Run
session = run_of "a" (lasted 120000) ∷ run_of "b" none ∷ run_of "c" (lasted 340000) ∷ []

-- One decimal of a second, ties upwards.
abbrev tenths : ℕ → ℕ
tenths d = (d + 50000) / 100000 * 100000

grouped :
    comparison_groups (iterations tenths session) ≡ some (("pause", 100000 ∷ 300000 ∷ []) ∷ [])
unfolding comparison_groups iterations iterations_from iteration_of status_of load_run_data
    load_window is_large group_from update select
grouped = refl

comparison_groups-iterations_example :
    get "pause" [] (("pause", 100000 ∷ 300000 ∷ []) ∷ []) ≡ downtimes tenths "pause" session
comparison_groups-iterations_example =
    comparison_groups-iterations tenths "pause" session (("pause", 100000 ∷ 300000 ∷ []) ∷ [])
      grouped
