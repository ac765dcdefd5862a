-- ===== src/Emitter.antt =====
-- tool/observers/core/emitter.py: the buffer of events and its flush to the observer_events table.
-- An operation takes the emitter with the rows of the table and returns both. The database is
-- outside the repository: each flush is handed a `Delivery`, what psycopg made of that attempt.
-- The connection is in autocommit mode, so rows inserted before a failure stay.
pub mod Flush
pub mod Session
pub mod Bounds
pub mod Local
pub mod Threads
mod Tests
use patroni_routing_bench.Prelude.{
  ℕ, String, Bool, true, false, List, [], ◌∷◌, ◌++◌, map, length, take, leb, ◌==◌, string_eq,
  if◌then◌else◌,
}

-- A value inside a detail object.
pub data Json : Type 0 where
  null : Json
  text : String → Json
  num : ℕ → Json
  bool : Bool → Json

-- Free text, or the `json.dumps` of an object; the rendering to text is left out.
pub data Detail : Type 0 where
  plain : String → Detail
  dumps : List (String × Json) → Detail

pub record Event : Type 0 where
  pub ts : ℕ
  pub event_type : String
  pub new_value : String
  pub old_value : String
  pub detail : Detail

-- A row of observer_events.
pub record Row : Type 0 where
  pub event : Event
  pub combination_id : String
  pub test_run_id : String
  pub component : String
  pub node : String

pub record Emitter : Type 0 where
  pub timescale_connstring : String
  pub combination_id : String
  pub test_run_id : String
  pub node_name : String
  pub component : String
  pub batch_size : ℕ
  pub buffer : List Event

-- `accepted`: all went through. `broken n`: an exception was raised with `n` rows inserted, 0 if
-- the connection itself failed.
pub data Delivery : Type 0 where
  accepted : Delivery
  broken : ℕ → Delivery

-- An emitter and the table that it writes to.
pub record Site : Type 0 where
  pub emitter : Emitter
  pub table : List Row

unfoldable pub init : String → String → String → String → String → Emitter
init timescale_connstring combination_id test_run_id node_name component = record {
  timescale_connstring = timescale_connstring;
  combination_id = combination_id;
  test_run_id = test_run_id;
  node_name = node_name;
  component = component;
  batch_size = 5;
  buffer = [];
}

unfoldable pub row_of : Emitter → Event → Row
row_of em event = record {
  event = event;
  combination_id = em.combination_id;
  test_run_id = em.test_run_id;
  component = em.component;
  node = em.node_name;
}

-- The `try` of `flush`, after the buffer was taken: insert row by row, put back on an exception.
pub deliver : Delivery → List Event → Site → Site
deliver accepted events s = record s { table = s.table ++ map (row_of s.emitter) events }
deliver (broken n) events s = record {
  emitter = record s.emitter { buffer = events ++ s.emitter.buffer };
  table = s.table ++ map (row_of s.emitter) (take n events);
}

pub flush_events : Delivery → List Event → Site → Site
unfolding deliver
flush_events d [] s = s
flush_events d (e ∷ events) s =
    let taken = record s { emitter = record s.emitter { buffer = [] } } in
    if s.emitter.timescale_connstring == "" then taken else deliver d (e ∷ events) taken

unfoldable pub flush : Delivery → Site → Site
unfolding flush_events
flush d s = flush_events d s.emitter.buffer s

unfoldable pub append_event : Event → Site → Site
append_event event s = record s {
  emitter = record s.emitter { buffer = s.emitter.buffer ++ event ∷ [] };
}

unfoldable pub emit : Delivery → Event → Site → Site
unfolding append_event
emit d event s =
    let t = append_event event s in
    if leb t.emitter.batch_size (length t.emitter.buffer) then flush d t else t

-- The arguments of a call of `emit_now`.
pub record Emission : Type 0 where
  pub event_type : String
  pub new_value : String
  pub old_value : String
  pub detail : Detail

unfoldable pub event_at : ℕ → Emission → Event
event_at now m = record {
  ts = now;
  event_type = m.event_type;
  new_value = m.new_value;
  old_value = m.old_value;
  detail = m.detail;
}

unfoldable pub emit_now : Delivery → ℕ → Emission → Site → Site
unfolding event_at
emit_now d now m s = emit d (event_at now m) s

-- What the outside makes happen: an emission by the watcher, a round of `_flush_loop`.
pub data Op : Type 0 where
  emits : Delivery → Event → Op
  ticks : Delivery → Op

unfoldable pub step : Op → Site → Site
step (emits d e) s = emit d e s
step (ticks d) s = flush d s

-- A session in which each operation is over before the next begins, so that no two flushes overlap;
-- Threads has the steps of `flush` one by one, and with them the sessions in which two do.
unfoldable pub run : List Op → Site → Site
run [] s = s
run (o ∷ ops) s = run ops (step o s)

-- `stop`: the last round of the joined flush thread, and the final flush.
unfoldable pub stop : Delivery → Delivery → Site → Site
stop d d' s = flush d' (flush d s)

abbrev pub emitted : List Op → List Event
emitted [] = []
emitted (emits d e ∷ ops) = e ∷ emitted ops
emitted (ticks d ∷ ops) = emitted ops

abbrev pub AllAccepted : List Op → Type 0
AllAccepted [] = Unit
AllAccepted (emits accepted e ∷ ops) = AllAccepted ops
AllAccepted (emits (broken n) e ∷ ops) = ⊥
AllAccepted (ticks accepted ∷ ops) = AllAccepted ops
AllAccepted (ticks (broken n) ∷ ops) = ⊥
