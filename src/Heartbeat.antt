-- ===== src/Heartbeat.antt =====
-- tool/clients/failover/heartbeat.py: `HeartbeatClient`, the loop that sends INSERTs to the cluster,
-- batches their outcomes and finds the failovers among them. The state is the client and the tables
-- that it writes; each round is handed what the outside did in it: clocks, the query's outcome, the
-- outcomes of the writes to TimescaleDB, and whether a signal arrived. A time is in microseconds.
pub mod Clock
pub mod Rounds
pub mod Detection
pub mod Delivered
pub mod Stamps
pub mod Run
pub mod Invariant
mod Tests
use patroni_routing_bench.Prelude.{
  ℕ, zero, suc, ◌+◌, ◌-◌, ◌*◌, ◌/◌, ◌%◌, ◌≤◌, ◌<◌, String, ◌≡◌, ◌≢◌, refl, sym, ap, ◌∙◌, Bool, true,
  false, not, ◌&&◌, ◌||◌, ◌⊎◌, ◌↔◌, inl, inr, Option, none, some, List, [], ◌∷◌, ◌++◌, map,
  append_assoc, append-nil, length, take, drop, head?, get_last?, select, arith, leb, ltb, ◌==◌,
  ◌!=◌, nat_eq, bool_eq, option_eq, string_eq, eq_of_beq, beq_refl, Bool-cases, Option-cases,
  is_some, if◌then◌else◌, All, All-append, In, In_left, In_right, In-append, length-append,
  take-append-drop,
}
use patroni_routing_bench.Prelude.Text.{Text}
use patroni_routing_bench.Emitter.{Delivery, accepted, broken}
use Clock.{strftime}

pub record QueryResult : Type 0 where
  pub wall_ts : ℕ
  pub mono_ns : ℕ
  pub success : Bool
  pub latency_us : ℕ
  pub error : Text
  pub sequence : ℕ

pub record Client : Type 0 where
  pub timescale_connstring : Text
  pub combination_id : Text
  pub test_run_id : Text
  pub running : Bool
  pub sequence : ℕ
  pub results : List QueryResult
  pub batch_size : ℕ
  pub auto_test_run : Bool
  pub in_failover : Bool
  pub current_test_run_id : Text
  pub failover_start_ts : Option ℕ
  pub consecutive_successes : ℕ
  pub failover_count : ℕ
  -- the counters of `run`
  pub success_count : ℕ
  pub failure_count : ℕ

-- A row of client_events.
pub record ClientRow : Type 0 where
  pub ts : ℕ
  pub combination_id : Text
  pub test_run_id : Text
  pub sequence : ℕ
  pub success : Bool
  pub latency_us : ℕ
  pub error : Text

-- A row of test_runs; dcs, provider and failover_type are constants of the INSERT.
pub record TestRun : Type 0 where
  pub id : Text
  pub combination_id : Text
  pub started_at : ℕ

-- What the UPDATE reads and writes of a row of observer_events.
pub record ObserverRow : Type 0 where
  pub ts : ℕ
  pub test_run_id : Option Text

pub record Db : Type 0 where
  pub client_events : List ClientRow
  pub test_runs : List TestRun
  pub observer_events : List ObserverRow

pub record State : Type 0 where
  pub client : Client
  pub db : Db

-- What the outside does in one round of the loop. `failure` is the text of the exception.
pub record Round : Type 0 where
  pub wall_ts : ℕ
  pub mono_start : ℕ
  pub mono_end : ℕ
  pub failure : Option Text
  pub run_inserted : Bool
  pub events_tagged : Bool
  pub flushed : Delivery
  pub signalled : Bool

abbrev pub is_empty : Text → Bool
is_empty [] = true
is_empty (c ∷ s) = false

unfoldable pub init : Text → Text → Text → Client
init timescale_connstring combination_id test_run_id = record {
  timescale_connstring = timescale_connstring;
  combination_id = combination_id;
  test_run_id = test_run_id;
  running = true;
  sequence = 0;
  results = [];
  batch_size = 50;
  auto_test_run = is_empty test_run_id;
  in_failover = false;
  current_test_run_id = test_run_id;
  failover_start_ts = none;
  consecutive_successes = 0;
  failover_count = 0;
  success_count = 0;
  failure_count = 0;
}

-- `_attempt_query`: the result, its sequence number being the one that is stored.
unfoldable pub attempt_query : Round → Client → QueryResult
attempt_query r c = record {
  wall_ts = r.wall_ts;
  mono_ns = r.mono_start;
  success = elim r.failure [ none ↦ true | some e ↦ false ];
  latency_us = (r.mono_end - r.mono_start) / 1000;
  error = elim r.failure [ none ↦ [] | some e ↦ take 500 e ];
  sequence = c.sequence + 1;
}

unfoldable pub row_of : Client → QueryResult → ClientRow
row_of c q = record {
  ts = q.wall_ts;
  combination_id = c.combination_id;
  test_run_id = c.test_run_id;
  sequence = q.sequence;
  success = q.success;
  latency_us = q.latency_us;
  error = q.error;
}

pub flush_batch : Delivery → List QueryResult → State → State
flush_batch accepted results s = record {
  client = record s.client { results = [] };
  db = record s.db { client_events = s.db.client_events ++ map (row_of s.client) results };
}
flush_batch (broken n) results s = record s {
  db = record s.db { client_events = s.db.client_events ++ map (row_of s.client) (take n results) };
}

pub flush_pending : Delivery → List QueryResult → State → State
unfolding flush_batch
flush_pending d [] s = record s { client = record s.client { results = [] } }
flush_pending d (q ∷ results) s =
    if is_empty s.client.timescale_connstring
    then record s { client = record s.client { results = [] } }
    else flush_batch d (q ∷ results) s

unfoldable pub flush_results : Delivery → State → State
unfolding flush_pending
flush_results d s = flush_pending d s.client.results s

-- UPDATE … WHERE ts BETWEEN start AND end AND (test_run_id IS NULL OR test_run_id = '')
unfoldable pub tag_row : Text → ℕ → ℕ → ObserverRow → ObserverRow
tag_row id start end row =
    let untagged : Bool = elim row.test_run_id [ none ↦ true | some t ↦ is_empty t ] in
    if leb start row.ts && (leb row.ts end && untagged)
    then record row { test_run_id = some id }
    else row

-- The `try` around the UPDATE: a missing start time raises there, and nothing is tagged.
pub tag_events : Bool → Option ℕ → ℕ → Text → Db → Db
unfolding tag_row
tag_events ok none end id db = db
tag_events false (some start) end id db = db
tag_events true (some start) end id db = record db {
  observer_events = map (tag_row id start end) db.observer_events;
}

unfoldable pub on_success : Bool → ℕ → State → State
unfolding tag_events
on_success tagged now s =
    let c = record s.client { consecutive_successes = s.client.consecutive_successes + 1 } in
    if c.in_failover && leb 3 c.consecutive_successes
    then record {
      client = record c { in_failover = false };
      db = tag_events tagged c.failover_start_ts now c.current_test_run_id s.db;
    }
    else record s { client = c }

unfoldable pub on_failure : Bool → ℕ → State → State
on_failure inserted now s =
    let c = record s.client { consecutive_successes = 0 } in
    let id = c.combination_id ++ b'_' ∷ strftime now in
    let new_run : TestRun = record {
      id = id;
      combination_id = c.combination_id;
      started_at = now;
    } in
    if c.in_failover then record s { client = c } else record {
      client = record c {
        in_failover = true;
        failover_count = c.failover_count + 1;
        failover_start_ts = some now;
        current_test_run_id = id;
        test_run_id = id;
      };
      db = record s.db {
        test_runs = if inserted then s.db.test_runs ++ new_run ∷ [] else s.db.test_runs;
      };
    }

unfoldable pub handle_auto_test_run : Round → QueryResult → State → State
handle_auto_test_run r q s =
    if s.client.auto_test_run
    then if q.success
      then on_success r.events_tagged q.wall_ts s
      else on_failure r.run_inserted q.wall_ts s
    else s

unfoldable pub count_result : Bool → Client → Client
count_result true c = record c { success_count = c.success_count + 1 }
count_result false c = record c { failure_count = c.failure_count + 1 }

-- `self.sequence += 1` and `self.results.append(result)`.
unfoldable pub record_result : QueryResult → State → State
record_result q s = record s {
  client = record s.client { sequence = q.sequence; results = s.client.results ++ q ∷ [] };
}

unfoldable pub flush_if_full : Delivery → State → State
flush_if_full d s =
    if leb s.client.batch_size (length s.client.results) then flush_results d s else s

unfoldable pub shutdown : Bool → State → State
shutdown signalled s =
    if signalled then record s { client = record s.client { running = false } } else s

-- One round of `while self.running`; a signal handler runs at some point of it.
unfoldable pub cycle : Round → State → State
cycle r s =
    let q = attempt_query r s.client in
    let t = handle_auto_test_run r q (record_result q s) in
    shutdown r.signalled
      (flush_if_full r.flushed (record t { client = count_result q.success t.client }))

unfoldable pub loop : List Round → State → State
loop [] s = s
loop (r ∷ rounds) s = let rest = loop rounds (cycle r s) in if s.client.running then rest else s

-- `run`: the loop and the final flush.
unfoldable pub run : Delivery → List Round → State → State
run final rounds s = flush_results final (loop rounds s)
