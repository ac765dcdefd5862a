-- ===== src/Charts/Report.antt =====
-- What the session report of generate_charts.py computes: the iterations of `cmd_combo_report`, the
-- numbers of its header, the groups of `_render_comparison_section`, the event timeline and
-- `_infer_killed_leader`. Other numbers than an iteration's downtime are shown rounded, and the statistics of a group are Python's.
pub mod Groups
pub mod Timeline
mod Tests
use patroni_routing_bench.Prelude.{
  ℕ, zero, suc, ◌+◌, ◌-◌, ◌*◌, ◌/◌, String, Bool, true, false, not, ◌&&◌, ◌||◌, Option, none, some,
  List, [], ◌∷◌, ◌++◌, map, length, take, select, ltb, leb, ◌==◌, nat_eq, bool_eq, option_eq,
  string_eq, is_some, if◌then◌else◌,
}
use mathlib.Core.Option as Option
use patroni_routing_bench.Prelude.Text.{Text, codes}
use patroni_routing_bench.Prelude.Int.{ℤ, pos, sub_ℕ, ◌+ℤ◌}
use patroni_routing_bench.Charts.{ObserverEvent, ClientEvent, min_ts, is_failure}
use patroni_routing_bench.Charts.Dict.{Dict, group_from}
use patroni_routing_bench.Charts.Gantt.{remove, least}
use patroni_routing_bench.Charts.Window.{Loaded, load_run_data}

-- The answer of `load_failover_window`; the downtime is in microseconds.
pub record FailoverWindow : Type 0 where
  pub downtime : Option ℕ
  pub total_failures : ℕ

pub record Run : Type 0 where
  pub id : String
  pub failover_type : Option String
  pub rows : Loaded
  pub fw : Option FailoverWindow

-- `none` is shown as a dash; the downtime is the number that its text stands for.
pub record Iteration : Type 0 where
  pub num : ℕ
  pub scenario : String
  pub leader : Option Text
  pub downtime : Option ℕ
  pub failed_queries : Option ℕ
  pub status : String
  pub run_id : String

abbrev pub is_demotion : ObserverEvent → Bool
is_demotion e =
    e.component == "patroni"
    && (e.event_type == "role_change"
        && ((e.old_value == some "primary" || e.old_value == some "running")
            && (e.new_value == some "stopped"
                || (e.new_value == some "unreachable" || e.new_value == some "replica"))))

abbrev pub first_node : List ObserverEvent → Option Text
first_node [] = none
first_node (e ∷ es) = some (remove (codes "patroni-") zero (codes e.node))

unfoldable pub infer_killed_leader : List ObserverEvent → Option Text
infer_killed_leader obs = first_node (select is_demotion obs)

-- `if fw and fw.get("downtime_ms")`: 0 is no downtime.
abbrev pub positive : Option ℕ → Option ℕ
positive none = none
positive (some zero) = none
positive (some (suc n)) = some (suc n)

abbrev pub downtime_of : Option FailoverWindow → Option ℕ
downtime_of none = none
downtime_of (some fw) = positive fw.downtime

abbrev pub all_succeed : List ClientEvent → Bool
all_succeed [] = true
all_succeed (e ∷ es) = e.success && all_succeed es

abbrev pub is_quiet : List ClientEvent → Bool
is_quiet [] = false
is_quiet (e ∷ es) = all_succeed (e ∷ es)

unfoldable pub status_of : Option ℕ → List ClientEvent → String
status_of (some downtime) cli = "SUCCESS"
status_of none cli = if is_quiet cli then "SUCCESS" else "UNKNOWN"

abbrev pub or_unknown : Option String → String
or_unknown none = "unknown"
or_unknown (some t) = if t == "" then "unknown" else t

-- `one_decimal`: what `float` reads back from a downtime that was formatted with one decimal.
module _ (one_decimal : ℕ → ℕ) where
  unfoldable pub iteration_of : ℕ → Run → Iteration
  iteration_of i run =
      let loaded = load_run_data run.rows in
      let downtime_s = downtime_of run.fw in
      record {
        num = i;
        scenario = or_unknown run.failover_type;
        leader = infer_killed_leader loaded.obs;
        downtime = Option.map one_decimal downtime_s;
        failed_queries = elim run.fw [ none ↦ none | some fw ↦ some fw.total_failures ];
        status = status_of downtime_s loaded.cli;
        run_id = run.id;
      }

  unfoldable pub iterations_from : ℕ → List Run → List Iteration
  iterations_from i [] = []
  iterations_from i (run ∷ runs) = iteration_of i run ∷ iterations_from (suc i) runs

  unfoldable pub iterations : List Run → List Iteration
  iterations runs = iterations_from 1 runs

abbrev pub is_success : Iteration → Bool
is_success it = it.status == "SUCCESS"

-- The counts of `_render_header`: all, the successes, and their share in percent.
unfoldable pub header_counts : List Iteration → ℕ × (ℕ × ℕ)
header_counts its =
    let total = length its in
    let ok = length (select is_success its) in
    (total, (ok, if total == 0 then 0 else ok * 100 / total))

-- The iterations with a number for a downtime: a dash raises a ValueError.
abbrev pub timed : List Iteration → List (String × ℕ)
timed [] = []
timed (it ∷ its) = elim it.downtime [ none ↦ timed its | some d ↦ (it.scenario, d) ∷ timed its ]

abbrev pub if_filled : Dict (List ℕ) → Option (Dict (List ℕ))
if_filled [] = none
if_filled (g ∷ gs) = some (g ∷ gs)

-- `by_scen`; none: no section.
unfoldable pub comparison_groups : List Iteration → Option (Dict (List ℕ))
comparison_groups its =
    let ok = select is_success its in
    let by_scen = if_filled (group_from (λ p. p.0) (λ p. p.1) [] (timed ok)) in
    if ltb (length ok) 2 then none else by_scen

abbrev pub is_significant : ObserverEvent → Bool
is_significant e =
    e.event_type == "role_change"
    || (e.event_type == "leader_key_deleted"
        || (e.event_type == "leader_key_created"
            || (e.event_type == "leader_key_change"
                || (e.event_type == "timeline_change"
                    || (e.event_type == "backend_state_change"
                        || (e.event_type == "vip_state_change"
                            || (e.event_type == "pg_promote_requested"
                                || e.event_type == "pg_ready_accept_connections")))))))

-- A row of the timeline: the time since the first failure, and the event.
abbrev pub TimelineRow : Type 0
TimelineRow = ℤ × ObserverEvent

-- `t0`: the first failure, or the first event of a chart with events.
abbrev pub origin : ObserverEvent → List ObserverEvent → Option ℕ → ℕ
origin o obs (some t) = t
origin o obs none = least o.ts (map (λ e. e.ts) obs)

abbrev pub or_all : List ObserverEvent → List ObserverEvent → List ObserverEvent
or_all [] obs = take 120 obs
or_all (e ∷ es) obs = e ∷ es

-- The rows, and whether the caption says that some events are not shown; the frame is in the order of
-- its times.
unfoldable pub event_timeline : List ObserverEvent → List ClientEvent → List TimelineRow × Bool
event_timeline [] cli = ([], false)
event_timeline (o ∷ obs) cli =
    let t0 = origin o obs (min_ts (select is_failure cli)) in
    let df = or_all (take 120 (select is_significant (o ∷ obs))) (o ∷ obs) in
    (map (λ e. (sub_ℕ e.ts t0, e)) df, ltb (length df) (length (o ∷ obs)))
