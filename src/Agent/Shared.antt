-- ===== src/Agent/Shared.antt =====
-- tool/observers/core/agent.py, `_run_multi_target` while it runs: one watcher and one emitter for each
-- target, all in threads of one process and all with the same table. The threads' operations come in
-- any order: a move names the worker whose emitter makes it, by its position among the targets. A move is
-- a whole operation, so these are the sessions in which no two flushes overlap.
pub mod Alone
pub mod Rows
pub mod Logs
use patroni_routing_bench.Prelude.{ℕ, zero, suc, Bool, List, [], ◌∷◌, ◌++◌, map}
use patroni_routing_bench.Emitter.{Row, Emitter, Delivery, Site, Op, ticks, step, stop}
use patroni_routing_bench.Watcher as Watcher
use patroni_routing_bench.Watcher.{Polled, Base, Ended}

-- What the process holds at a time: the emitters in the order of their targets, and the table.
pub record Shared : Type 0 where
  pub emitters : List Emitter
  pub table : List Row

-- An operation of one emitter: what its watcher and its flush thread do, and `em.stop()`.
pub data Act : Type 0 where
  runs : Op → Act
  stops : Delivery → Delivery → Act

unfoldable pub act : Act → Site → Site
act (runs o) s = step o s
act (stops d d') s = stop d d' s

-- The acts of one emitter after another.
unfoldable pub acts : List Act → Site → Site
acts [] s = s
acts (a ∷ rest) s = acts rest (act a s)

-- The emitter at a position acts on the table that all share.
unfoldable pub turn : Act → ℕ → List Emitter → List Row → Shared
turn a i [] table = record { emitters = []; table = table }
turn a zero (em ∷ ems) table =
    let s = act a (record { emitter = em; table = table }) in
    record { emitters = s.emitter ∷ ems; table = s.table }
turn a (suc i) (em ∷ ems) table =
    let s = turn a i ems table in record { emitters = em ∷ s.emitters; table = s.table }

unfoldable pub moves : List (ℕ × Act) → Shared → Shared
moves [] s = s
moves ((i, a) ∷ rest) s = moves rest (turn a i s.emitters s.table)

-- What happens around the stop of one emitter: the rounds of the flush threads that still run when
-- the loop comes to it, and the two flushes of the stop.
pub record Closing : Type 0 where
  pub rounds : List (ℕ × Delivery)
  pub last : Delivery
  pub final : Delivery

abbrev pub flushes : List (ℕ × Delivery) → List (ℕ × Act)
flushes [] = []
flushes ((i, d) ∷ rounds) = (i, runs (ticks d)) ∷ flushes rounds

-- `for em in emitters: em.stop()`
unfoldable pub stop_all : ℕ → List Closing → List (ℕ × Act)
stop_all i [] = []
stop_all i (c ∷ closings) =
    flushes c.rounds ++ (i, stops c.last c.final) ∷ stop_all (suc i) closings

-- What the outside makes of one worker: its watcher as it is made, the answer to `setup`, whether
-- the signal comes during it, and its rounds.
pub record Thread (S I : Type 0) : Type 0 where
  pub base : Base S
  pub answer : I
  pub stopped : Bool
  pub rounds : List (I × Bool)

module _ {S I : Type 0} where
  -- The threads to their end, then the stops. `session` are the emitters' operations until all
  -- threads have been joined.
  unfoldable pub multi_target :
      (I → S → Polled S)
      → (I → S → Polled S)
      → List (Thread S I)
      → List (ℕ × Op)
      → List Closing
      → Shared
      → List (Ended S) × Shared
  multi_target setup poll threads session closings s = (
    map (λ t. Watcher.run setup poll t.answer t.stopped t.rounds t.base) threads,
    moves (map (λ m. (m.0, runs m.1)) session ++ stop_all 0 closings) s,
  )
