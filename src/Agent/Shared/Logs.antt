-- ===== src/Agent/Shared/Logs.antt =====
-- `_run_multi_target` for Patroni nodes, from the watchers' polls to the table.
use patroni_routing_bench.Prelude.{
  ℕ, zero, suc, ◌<◌, ◌≡◌, ◌≢◌, sym, ap, ◌∙◌, Bool, false, none, some, List, [], ◌∷◌, ◌++◌, map,
  arith, length, All,
}
use mathlib.Core.Path.{subst}
use patroni_routing_bench.Emitter.{Row, Emitter, Op, row_of, emitted, AllAccepted}
use patroni_routing_bench.Watcher.{Ended}
use patroni_routing_bench.Watcher.Log.{Log}
use patroni_routing_bench.Watcher.Patroni as Patroni
use patroni_routing_bench.Watcher.Patroni.{PatroniWatcher, Status, Reply, answered}
use patroni_routing_bench.Watcher.Patroni.Events.{role_view, state_view}
use patroni_routing_bench.Agent.Session.{
  Carries, emissions_of, emissions_of-map, fresh, patroni_run, patroni_run-Log,
}
use patroni_routing_bench.Agent.Shared.{Shared, Closing, stop_all, Thread, multi_target}
use patroni_routing_bench.Agent.Shared.Alone.{rows_of, own, get_elem?, OthersDiffer}
use patroni_routing_bench.Agent.Shared.Rows.{IsFlush, own_ops, multi_target-rows}
use patroni_routing_bench.Emitter.Local.{at}

-- A new watcher whose first poll is answered.
abbrev pub patroni_thread : Status → List (Reply × Bool) → Thread PatroniWatcher Reply
patroni_thread st rounds = record {
  base = fresh;
  answer = answered st;
  stopped = false;
  rounds = rounds;
}

get_elem?-map :
    {A B : Type 0} (f : A → B) (xs : List A) (k : ℕ) (x : A)
    → get_elem? xs k ≡ some x
    → get_elem? (map f xs) k ≡ some (f x)
get_elem?-map f [] k x h = absurd (ground (arith, h))
get_elem?-map f (y ∷ xs) zero x h = let e : y ≡ x = ground (arith, h) in ap (λ z. some (f z)) e
get_elem?-map f (y ∷ xs) (suc k) x h = get_elem?-map f xs k x h

ended-multi_target :
    (threads : List (Thread PatroniWatcher Reply)) (session : List (ℕ × Op))
    (closings : List Closing) (s : Shared) (k : ℕ) (st : Status) (rounds : List (Reply × Bool))
    → get_elem? threads k ≡ some (patroni_thread st rounds)
    → get_elem? (multi_target Patroni.setup Patroni.poll threads session closings s).0 k
      ≡ some (patroni_run st rounds)
unfolding multi_target
ended-multi_target threads session closings s k st rounds h =
    get_elem?-map _ threads k (patroni_thread st rounds) h

-- An agent on several Patroni nodes, and one of them whose first poll is answered, whose name no other
-- target has, and whose emitter has a database and starts with an empty buffer. If its emitter's
-- operations carry the watcher's emissions in order, no two flushes overlap, and the database
-- accepts this emitter's flushes up to its stop, then at the end its watcher has not failed, and the
-- rows that were added of this node lead from no role and no state to those that the watcher holds: each
-- change once, in order, and with the value before it, unless that is unknown or the empty string,
-- whatever happened to the other targets.
pub multi_target-Log :
    (threads : List (Thread PatroniWatcher Reply)) (session : List (ℕ × Op))
    (closings : List Closing) (s : Shared) (k : ℕ) (em : Emitter) (st : Status)
    (rounds : List (Reply × Bool))
    → get_elem? threads k ≡ some (patroni_thread st rounds)
    → get_elem? s.emitters k ≡ some em
    → OthersDiffer k em.node_name s.emitters
    → em.timescale_connstring ≢ ""
    → em.buffer ≡ []
    → AllAccepted (own_ops k session)
    → Carries (own_ops k session) (patroni_run st rounds).emissions
    → All IsFlush (own k (stop_all 0 closings))
    → k < length closings
    → let (ended, final) = multi_target Patroni.setup Patroni.poll threads session closings s in
      (e : Ended PatroniWatcher) × (new : List Row) × (get_elem? ended k ≡ some e)
      × (rows_of em.node_name final.table ≡ rows_of em.node_name s.table ++ new)
      × Log role_view none (emissions_of new) e.base.inner.last_role
      × Log state_view none (emissions_of new) e.base.inner.last_state
      × (e.crashed ≡ false)
multi_target-Log threads session closings s k em st rounds runs here others configured empty accepts
      carries closes bound =
    let e = patroni_run st rounds in
    let (roles, states, alive) = patroni_run-Log st rounds in
    let new = map (row_of em) (emitted (own_ops k session)) in
    let same : emissions_of new ≡ e.emissions =
      emissions_of-map (at em []) (emitted (own_ops k session)) ∙ carries in
    (
      e,
      new,
      ended-multi_target threads session closings s k st rounds runs,
      multi_target-rows Patroni.setup Patroni.poll threads session closings s k em here others
          configured empty accepts closes bound,
      subst (λ ms. Log role_view none ms e.base.inner.last_role) (sym same) roles,
      subst (λ ms. Log state_view none ms e.base.inner.last_state) (sym same) states,
      alive,
    )
