-- ===== src/Emitter/Tests.antt =====
-- The emitter on a small session.
use patroni_routing_bench.Prelude.{
  String, ◌≡◌, ◌≢◌, refl, Bool, ◌==◌, true, inl, List, [], ◌∷◌, map, arith, nat_eq, bool_eq,
  option_eq, string_eq, ne_of_bne,
}
use patroni_routing_bench.Emitter.{
  plain, Event, Emitter, Site, accepted, broken, row_of, flush, Op, emits, ticks, run, emitted,
}
use patroni_routing_bench.Emitter.Session.{run-Kept, retry-duplicates, Kept}
use patroni_routing_bench.Emitter.Bounds.{IsShort, run-IsShort}
use patroni_routing_bench.Emitter.Threads.Sessions.{between, run-Reach}
use patroni_routing_bench.Emitter.Threads.Exact.{count, drained-once, drained-ordered}
use patroni_routing_bench.Emitter.Threads.{
  Reach, here, next, append, take_buffer, insert, finish, daemon, sending, idle, start, Shared,
  Held,
}
use patroni_routing_bench.Emitter.Threads.Safety.{Reach-Held}

abbrev first : Event
first = record {
  ts = 1;
  event_type = "role_change";
  new_value = "primary";
  old_value = "replica";
  detail = plain "";
}

abbrev second : Event
second = record {
  ts = 2;
  event_type = "role_change";
  new_value = "replica";
  old_value = "primary";
  detail = plain "";
}

abbrev session : List Op
session = emits accepted first ∷ ticks accepted ∷ emits accepted second ∷ []

abbrev failing : List Op
failing = emits accepted first ∷ ticks (broken 0) ∷ emits accepted second ∷ []

abbrev emitter : List Event → Emitter
emitter events = record {
  timescale_connstring = "host=db";
  combination_id = "c";
  test_run_id = "r";
  node_name = "n";
  component = "patroni";
  batch_size = 5;
  buffer = events;
}

abbrev site : List Event → Site
site events = record { emitter = emitter events; table = [] }

configured : ◌≢◌ {A = String} "host=db" ""
configured = ne_of_bne "host=db" "" refl

run-Kept_example : Kept first (run failing (site []))
run-Kept_example = run-Kept failing (site []) first configured (inl refl)

run-IsShort_example : IsShort (run session (site []))
run-IsShort_example = run-IsShort session (site []) (omega arith) tt

retry-duplicates_example :
    (flush accepted (flush (broken 1) (site (first ∷ second ∷ [])))).table
    ≡ map (row_of (emitter (first ∷ second ∷ []))) (first ∷ first ∷ second ∷ [])
retry-duplicates_example = retry-duplicates 1 (site (first ∷ second ∷ [])) configured

abbrev appended : Shared
appended = record {
  configured = true;
  buffer = first ∷ [];
  by_watcher = idle;
  by_daemon = idle;
  table = [];
  emitted = first ∷ [];
}

abbrev Reach-appended : Reach start appended
Reach-appended = next here (append first start refl)

Reach-Held_example : Held first appended
Reach-Held_example = Reach-Held Reach-appended first (inl refl)

-- The daemon takes the event, inserts it and ends.
abbrev taken_state : Shared
taken_state = record appended { buffer = []; by_daemon = sending (first ∷ []) (first ∷ []) }

abbrev inserted : Shared
inserted = record taken_state { by_daemon = sending (first ∷ []) []; table = first ∷ [] }

abbrev delivered : Shared
delivered = record inserted { by_daemon = idle }

pending_first : first ∷ [] ≢ []
pending_first q = absurd (ground (arith, q))

abbrev Reach-delivered : Reach start delivered
Reach-delivered =
    next
      (next (next Reach-appended (take_buffer daemon appended refl pending_first))
        (insert daemon taken_state (first ∷ []) [] first refl refl))
      (finish daemon inserted (first ∷ []) refl refl)

abbrev is_first : Event → Bool
is_first e = e.ts == 1

drained-once_example : count is_first delivered.table ≡ count is_first delivered.emitted
drained-once_example =
    drained-once Reach-delivered (tt, (tt, (tt, (tt, tt)))) refl refl refl is_first

drained-ordered_example : delivered.table ≡ delivered.emitted
drained-ordered_example =
    drained-ordered Reach-delivered (tt, (tt, (tt, (tt, tt)))) (tt, (tt, (refl, (tt, tt)))) refl
      refl refl

run-Reach_example : Reach (between (site []) []) (between (run failing (site [])) (emitted failing))
run-Reach_example = run-Reach failing (site []) [] configured
