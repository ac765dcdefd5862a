-- ===== src/Emitter/Threads.antt =====
-- `Emitter` as its two threads run it: the watcher's thread emits and may flush, the daemon thread
-- flushes. Each `with self._lock` block and each INSERT is one step, so a flush is open between
-- taking the buffer and its end, and the steps of the two threads interleave in any order.
pub mod Safety
pub mod Exact
pub mod Liveness
pub mod Sessions
use patroni_routing_bench.Prelude.{
  ◌≡◌, ◌≢◌, refl, Bool, true, false, ◌⊎◌, inl, inr, List, [], ◌∷◌, ◌++◌, nat_eq, bool_eq, option_eq,
  string_eq, In, In_left, In_right,
}
use mathlib.Core.Path.{subst}
use patroni_routing_bench.Emitter.{Event}

pub data Thread : Type 0 where
  watcher daemon : Thread

-- A thread outside `flush`, or one with the events that it took and those still to insert.
pub data Flight : Type 0 where
  idle : Flight
  sending : List Event → List Event → Flight

-- `configured`: there is a connection string.
pub record Shared : Type 0 where
  pub configured : Bool
  pub buffer : List Event
  pub by_watcher : Flight
  pub by_daemon : Flight
  pub table : List Event
  pub emitted : List Event

abbrev pub flight : Thread → Shared → Flight
flight watcher s = s.by_watcher
flight daemon s = s.by_daemon

abbrev pub set_flight : Thread → Flight → Shared → Shared
set_flight watcher f s = record s { by_watcher = f }
set_flight daemon f s = record s { by_daemon = f }

-- The table holds events here: the row of an event is fixed by the emitter.
pub data Step : Shared → Shared → Type 0 where
  append :
      (e : Event) (s : Shared)
      → s.by_watcher ≡ idle
      → Step s (record s { buffer = s.buffer ++ e ∷ []; emitted = s.emitted ++ e ∷ [] })
  take_buffer :
      (t : Thread) (s : Shared)
      → flight t s ≡ idle
      → s.buffer ≢ []
      → Step s (set_flight t (sending s.buffer s.buffer) (record s { buffer = [] }))
  discard :
      (t : Thread) (s : Shared) (taken : List Event)
      → s.configured ≡ false
      → flight t s ≡ sending taken taken
      → Step s (set_flight t idle s)
  insert :
      (t : Thread) (s : Shared) (taken rest : List Event) (e : Event)
      → s.configured ≡ true
      → flight t s ≡ sending taken (e ∷ rest)
      → Step s (set_flight t (sending taken rest) (record s { table = s.table ++ e ∷ [] }))
  finish :
      (t : Thread) (s : Shared) (taken : List Event)
      → s.configured ≡ true
      → flight t s ≡ sending taken []
      → Step s (set_flight t idle s)
  put_back :
      (t : Thread) (s : Shared) (taken rest : List Event)
      → s.configured ≡ true
      → flight t s ≡ sending taken rest
      → Step s (set_flight t idle (record s { buffer = taken ++ s.buffer }))

pub data Reach (s : Shared) : Shared → Type 0 where
  here : Reach s s
  next : {t u : Shared} → Reach s t → Step t u → Reach s u

-- An emitter with a database, as it is made.
abbrev pub start : Shared
start = record {
  configured = true;
  buffer = [];
  by_watcher = idle;
  by_daemon = idle;
  table = [];
  emitted = [];
}

abbrev pub InFlight : Event → Flight → Type 0
InFlight e idle = ⊥
InFlight e (sending taken rest) = In e taken

-- Where an event can be: the buffer, one of the two open flushes, or the table.
pub data Held (e : Event) (s : Shared) : Type 0 where
  buffered : In e s.buffer → Held e s
  carried : (t : Thread) → InFlight e (flight t s) → Held e s
  stored : In e s.table → Held e s

-- What an open flush has taken is still to insert or in the table.
abbrev pub IsAccounted : List Event → Flight → Type 0
IsAccounted table idle = Unit
IsAccounted table (sending taken rest) = (e : Event) → In e taken → In e rest ⊎ In e table

pub record Safe (s : Shared) : Type 0 where
  pub on : s.configured ≡ true
  pub held : (e : Event) → In e s.emitted → Held e s
  pub accounted : (t : Thread) → IsAccounted s.table (flight t s)

pub start-Safe : Safe start
start-Safe = record {
  on = refl;
  held = λ e i. absurd i;
  accounted = elim [ watcher ↦ tt | daemon ↦ tt ];
}
