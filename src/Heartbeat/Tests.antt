-- ===== src/Heartbeat/Tests.antt =====
-- The heartbeat client on a short failover.
use patroni_routing_bench.Prelude.{
  ℕ, ◌≡◌, refl, true, false, none, some, List, [], ◌∷◌, ◌++◌, map, nat_eq, bool_eq, option_eq,
  string_eq, All,
}
use patroni_routing_bench.Heartbeat.{
  QueryResult, Client, ObserverRow, Db, State, Round, tag_row, handle_auto_test_run, loop, run,
  ClientRow, flush_results, on_failure,
}
use patroni_routing_bench.Heartbeat.Rounds.{served}
use patroni_routing_bench.Prelude.Text.{codes}
use patroni_routing_bench.Emitter.{accepted}
use patroni_routing_bench.Heartbeat.Rounds.{served}
use patroni_routing_bench.Heartbeat.Detection.{Tracks, history, loop-Tracks}
use patroni_routing_bench.Heartbeat.Delivered.{account, samples, of_row, of_result}
use patroni_routing_bench.Heartbeat.Run.{run_exact}
use patroni_routing_bench.Heartbeat.Stamps.{late_stamp}
use patroni_routing_bench.Heartbeat.Clock.{strftime}
use patroni_routing_bench.Heartbeat.Invariant.{IsCoherent, IsTagged, loop-IsCoherent, recovery_tags}

abbrev good : ℕ → Round
good now = record {
  wall_ts = now;
  mono_start = 1000;
  mono_end = 5000;
  failure = none;
  run_inserted = true;
  events_tagged = true;
  flushed = accepted;
  signalled = false;
}

abbrev bad : ℕ → Round
bad now = record (good now) { failure = some (codes "timeout") }

abbrev rounds : List Round
rounds = good 10 ∷ bad 20 ∷ good 30 ∷ good 40 ∷ record (good 50) { signalled = true } ∷ good 60 ∷ []

abbrev client : Client
client = record {
  timescale_connstring = codes "db";
  combination_id = codes "c";
  test_run_id = [];
  running = true;
  sequence = 0;
  results = [];
  batch_size = 50;
  auto_test_run = true;
  in_failover = false;
  current_test_run_id = [];
  failover_start_ts = none;
  consecutive_successes = 0;
  failover_count = 0;
  success_count = 0;
  failure_count = 0;
}

abbrev db : Db
db = record {
  client_events = [];
  test_runs = [];
  observer_events =
      record { ts = 25; test_run_id = none } ∷ record { ts = 99; test_run_id = none } ∷ [];
}

abbrev state : State
state = record { client = client; db = db }

abbrev recovering : State
recovering = record state {
  client = record client {
    in_failover = true;
    test_run_id = codes "c_1";
    current_test_run_id = codes "c_1";
    failover_start_ts = some 20;
    consecutive_successes = 2;
    failover_count = 1;
  };
}

tracks : Tracks [] client
tracks = record { auto = refl; streak_exact = refl; down_exact = refl; count_exact = refl }

coherent : IsCoherent client
coherent = record { started = refl; recovering = refl; counted = refl; labelled = refl }

IsCoherent-later : IsCoherent recovering.client
IsCoherent-later = record { started = refl; recovering = refl; counted = refl; labelled = refl }

run_exact_example :
    (map of_row (run accepted rounds state).db.client_events
      ≡ account state ++ samples 0 (served rounds))
    × ((run accepted rounds state).client.results ≡ [])
run_exact_example = run_exact rounds state refl refl (refl, (refl, (refl, (refl, (refl, tt)))))

loop-Tracks_example : Tracks (history (served rounds) []) (loop rounds state).client
loop-Tracks_example = loop-Tracks [] rounds state refl tracks

loop-IsCoherent_example : IsCoherent (loop rounds state).client
loop-IsCoherent_example = loop-IsCoherent rounds state refl coherent

abbrev third : QueryResult
third = record {
  wall_ts = 50;
  mono_ns = 0;
  success = true;
  latency_us = 4;
  error = [];
  sequence = 5;
}

recovery_tags_example :
    ((handle_auto_test_run (good 50) third recovering).client.in_failover ≡ false)
    × ((start : ℕ) × (some 20 ≡ some start)
        × ((handle_auto_test_run (good 50) third recovering).db.observer_events
            ≡ map (tag_row (codes "c_1") start 50) db.observer_events)
        × ((row : ObserverRow)
            → IsTagged (codes "c_1") start 50 row (tag_row (codes "c_1") start 50 row)))
recovery_tags_example =
    recovery_tags (good 50) third recovering IsCoherent-later refl refl refl refl refl

abbrev waiting : State
waiting = record state {
  client = record client {
    results =
        record {
          wall_ts = 10;
          mono_ns = 1;
          success = true;
          latency_us = 4;
          error = [];
          sequence = 1;
        }
        ∷ [];
  };
}

late_stamp_example :
    (rows : List ClientRow) × ((flush_results accepted
        (on_failure true 20 waiting)).db.client_events
      ≡ [] ++ rows)
    × (map of_row rows ≡ map of_result waiting.client.results)
    × All (λ r. r.test_run_id ≡ codes "c" ++ b'_' ∷ strftime 20) rows
late_stamp_example = late_stamp true 20 waiting refl refl
