-- ===== src/Agent/Tests.antt =====
-- The agent on small inputs.
use patroni_routing_bench.Prelude.{
  ℕ, String, ◌≡◌, refl, sym, ap, ◌∙◌, none, false, List, Bool, true, some, [], ◌∷◌, ◌++◌, map,
  nat_eq, bool_eq, option_eq, string_eq, ne_of_bne, select, select-skip, All, ◌==◌, arith,
}
use mathlib.Core.Path.{subst}
use patroni_routing_bench.Prelude.Text.{Text, codes}
use patroni_routing_bench.Agent.{is_space, strip_left, strip_right, parse_targets}
use patroni_routing_bench.Agent.Targets.{IsTarget, print_targets, parse_targets-print_targets}
use patroni_routing_bench.Emitter.{Row, Site, accepted, Op, emits, AllAccepted, Emission, event_at}
use patroni_routing_bench.Watcher.Log.{Log}
use patroni_routing_bench.Watcher.Patroni as Patroni
use patroni_routing_bench.Watcher.Patroni.{Status, Reply, answered, unreachable, invalid}
use patroni_routing_bench.Watcher.Patroni.Events.{role_view, state_view}
use patroni_routing_bench.Watcher.{Ended}
use patroni_routing_bench.Watcher.Patroni.{PatroniWatcher}
use patroni_routing_bench.Emitter.{Emitter, broken, ticks, emitted}
use patroni_routing_bench.Agent.Shared.{Shared, Closing, Thread, stop_all, multi_target}
use patroni_routing_bench.Agent.Shared.Alone.{rows_of, own, get_elem?}
use patroni_routing_bench.Agent.Shared.Rows.{IsFlush, own_ops}
use patroni_routing_bench.Agent.Shared.Logs.{patroni_thread, multi_target-Log}
use patroni_routing_bench.Agent.Session.{
  emission_of, single_target, Carries, emissions_of, fresh, patroni_run, single_target-Log,
}

abbrev target : Text × Text
target = (codes "p1", codes "u:1")

target-IsTarget : IsTarget target
unfolding strip_left strip_right is_space
target-IsTarget = (
  ((refl, refl), (refl, (refl, tt)), (refl, (refl, tt))),
  ((refl, refl), (refl, (refl, (refl, tt)))),
)

parse_targets-print_targets_example :
    parse_targets (print_targets (target ∷ target ∷ [])) ≡ target ∷ target ∷ []
parse_targets-print_targets_example =
    parse_targets-print_targets (target ∷ target ∷ []) (target-IsTarget, (target-IsTarget, tt))

abbrev role_of : String → Status
role_of role = record {
  role = some role;
  state = some "running";
  timeline = some 1;
  server_version = none;
}

abbrev answers : List (Reply × Bool)
answers =
    (unreachable "refused", false) ∷ (answered (role_of "primary"), true) ∷ (invalid, false) ∷ []

-- Each emission at once.
abbrev ops_of : List Emission → List Op
ops_of [] = []
ops_of (m ∷ ms) = emits accepted (event_at 5 m) ∷ ops_of ms

ops_of-AllAccepted : (ms : List Emission) → AllAccepted (ops_of ms)
ops_of-AllAccepted [] = tt
ops_of-AllAccepted (m ∷ ms) = ops_of-AllAccepted ms

ops_of-Carries : (ms : List Emission) → Carries (ops_of ms) ms
unfolding emission_of event_at
ops_of-Carries [] = refl
ops_of-Carries (m ∷ ms) = ap (λ l. m ∷ l) (ops_of-Carries ms)

abbrev site : Site
site = record {
  emitter = record {
    timescale_connstring = "host=db";
    combination_id = "c";
    test_run_id = "r";
    node_name = "n";
    component = "patroni";
    batch_size = 5;
    buffer = [];
  };
  table = [];
}

abbrev sent : List Op
sent = ops_of (patroni_run (role_of "replica") answers).emissions

single_target-Log_example :
    let c =
      single_target Patroni.setup Patroni.poll
        (answered (role_of "replica"))
        false
        answers
        fresh
        sent
        accepted
        accepted
        site in
    (rows : List Row) × (c.site.table ≡ [] ++ rows)
    × Log role_view none (emissions_of rows) c.ended.base.inner.last_role
    × Log state_view none (emissions_of rows) c.ended.base.inner.last_state
    × (c.failed ≡ false)
single_target-Log_example =
    single_target-Log (role_of "replica") answers sent site (ne_of_bne "host=db" "" refl) refl
      (ops_of-AllAccepted (patroni_run (role_of "replica") answers).emissions)
      (ops_of-Carries (patroni_run (role_of "replica") answers).emissions)

-- Two workers; the second one's flushes all fail.
abbrev other : Emitter
other = record site.emitter { node_name = "m" }

abbrev both : Shared
both = record { emitters = site.emitter ∷ other ∷ []; table = [] }

abbrev threads : List (Thread PatroniWatcher Reply)
threads = patroni_thread (role_of "replica") answers ∷ patroni_thread (role_of "primary") [] ∷ []

abbrev numbered : List Op → List (ℕ × Op)
numbered [] = []
numbered (o ∷ ops) = (0, o) ∷ numbered ops

own_ops-numbered : (ops : List Op) → own_ops 0 (numbered ops) ≡ ops
unfolding select
own_ops-numbered [] = refl
own_ops-numbered (o ∷ ops) = ap (λ l. o ∷ l) (own_ops-numbered ops)

abbrev session : List (ℕ × Op)
session = (1, ticks (broken 2)) ∷ numbered sent

abbrev closings : List Closing
closings =
    (record { rounds = (1, broken 0) ∷ (0, accepted) ∷ []; last = accepted; final = accepted })
    ∷ (record { rounds = []; last = broken 1; final = broken 0 })
    ∷ []

own_ops-session : own_ops 0 session ≡ sent
own_ops-session =
    ap (map (λ m. m.1)) (select-skip (λ m. m.0 == 0) (1, ticks (broken 2)) (numbered sent) refl)
    ∙ own_ops-numbered sent

closings-IsFlush : All IsFlush (own 0 (stop_all 0 closings))
unfolding select stop_all
closings-IsFlush = (tt, (tt, tt))

multi_target-Log_example :
    let (ended, final) = multi_target Patroni.setup Patroni.poll threads session closings both in
    (e : Ended PatroniWatcher) × (new : List Row) × (get_elem? ended 0 ≡ some e)
    × (rows_of "n" final.table ≡ rows_of "n" [] ++ new)
    × Log role_view none (emissions_of new) e.base.inner.last_role
    × Log state_view none (emissions_of new) e.base.inner.last_state
    × (e.crashed ≡ false)
multi_target-Log_example =
    let ms = (patroni_run (role_of "replica") answers).emissions in
    multi_target-Log threads session closings both 0 site.emitter (role_of "replica") answers refl
      refl (ne_of_bne "m" "n" refl, tt) (ne_of_bne "host=db" "" refl) refl
      (subst AllAccepted (sym own_ops-session) (ops_of-AllAccepted ms))
      (ap (λ ops. map emission_of (emitted ops)) own_ops-session ∙ ops_of-Carries ms)
      closings-IsFlush (omega arith)
