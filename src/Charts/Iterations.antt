-- ===== src/Charts/Iterations.antt =====
-- `_render_per_iteration_table` of generate_charts.py: the rows of the batch's results for one
-- combination, each with the test run that it is taken to describe and with that run's milestones. A
-- time of a milestone is in whole microseconds; the numbers are shown rounded.
pub mod Pairing
pub mod Delay
use patroni_routing_bench.Prelude.{
  ℕ, zero, suc, ◌+◌, String, Bool, true, false, ◌&&◌, Option, none, some, List, [], ◌∷◌, ◌++◌, map,
  ltb, ◌==◌, nat_eq, bool_eq, option_eq, string_eq, if◌then◌else◌,
}
use patroni_routing_bench.Prelude.Int.{ℤ, pos, ltb_ℤ, ◌+ℤ◌, ◌-ℤ◌}
use patroni_routing_bench.Charts.Dict.{Dict, get, update, group_from}
use patroni_routing_bench.Charts.Labels.{find}
use patroni_routing_bench.Charts.Hero.{Medians, max_from, server_vals}

-- A row of test_runs; `id` is its primary key.
pub record MetaRow : Type 0 where
  pub id : String
  pub failover_type : Option String
  pub started_at : ℕ

pub record CsvRow : Type 0 where
  pub scenario : String
  pub iteration : String
  pub leader_killed : String
  pub downtime_s : String
  pub failed_queries : String
  pub status : String

pub record TableRow : Type 0 where
  pub csv : CsvRow
  pub run_id : Option String
  pub milestones : Medians
  pub server_done : Option ℤ
  pub client_delay : Option ℤ
  pub highlight : Bool

-- `sorted(rows, key=started_at)`, which keeps the order of rows of one time.
unfoldable pub insert : MetaRow → List MetaRow → List MetaRow
insert x [] = x ∷ []
insert x (y ∷ ys) =
    let rest = insert x ys in if ltb y.started_at x.started_at then y ∷ rest else x ∷ (y ∷ ys)

unfoldable pub sort : List MetaRow → List MetaRow
sort [] = []
sort (x ∷ xs) = insert x (sort xs)

abbrev pub scenario_of : MetaRow → String
scenario_of r = elim r.failover_type [
  | none ↦ "unknown"
  | some t ↦ if t == "" then "unknown" else t
]

unfoldable pub runs_by_scenario : List MetaRow → Dict (List String)
runs_by_scenario rows = group_from scenario_of (λ r. r.id) [] (sort rows)

-- `scenario_runs[i]`, none for an IndexError.
abbrev pub nth {ℓ} : {A : Type ℓ} → ℕ → List A → Option A
nth n [] = none
nth zero (x ∷ xs) = some x
nth (suc n) (x ∷ xs) = nth n xs

abbrev pub no_milestones : Medians
no_milestones = record { t0 = none; t1 = none; t2 = none; t3 = none; tc = none }

abbrev pub or_none : Option Medians → Medians
or_none none = no_milestones
or_none (some m) = m

-- `milestone_by_rid.get(run_id, {}) if run_id else {}`
abbrev pub milestones_of : Dict Medians → Option String → Medians
milestones_of by_rid none = no_milestones
milestones_of by_rid (some id) = if id == "" then no_milestones else or_none (find id by_rid)

abbrev pub max_of : List ℤ → Option ℤ
max_of [] = none
max_of (t ∷ ts) = some (max_from t ts)

abbrev pub not_negative : ℤ → ℤ
not_negative d = if ltb_ℤ d (pos 0) then pos 0 else d

unfoldable pub delay_of : Option ℤ → Option ℤ → Option ℤ
delay_of none tc = none
delay_of (some done) none = none
delay_of (some done) (some tc) = some (not_negative (tc -ℤ done))

unfoldable pub is_highlighted : Option ℤ → Option ℤ → Bool
is_highlighted none delay = false
is_highlighted (some done) none = false
is_highlighted (some done) (some delay) = ltb_ℤ (pos 0) done && ltb_ℤ (done +ℤ (done +ℤ done)) delay

unfoldable pub table_row : CsvRow → Option String → Medians → TableRow
table_row csv run_id ms =
    let server_done = max_of (server_vals ms) in
    let client_delay = delay_of server_done ms.tc in
    record {
      csv = csv;
      run_id = run_id;
      milestones = ms;
      server_done = server_done;
      client_delay = client_delay;
      highlight = is_highlighted server_done client_delay;
    }

-- The loop over the rows of the results, with `scenario_counter`.
unfoldable pub rows_from : Dict (List String) → Dict Medians → Dict ℕ → List CsvRow → List TableRow
rows_from runs by_rid counter [] = []
rows_from runs by_rid counter (row ∷ rows) =
    let run_id = nth (get row.scenario 0 counter) (get row.scenario [] runs) in
    table_row row run_id (milestones_of by_rid run_id)
    ∷ rows_from runs by_rid (update row.scenario 0 (λ n. n + 1) counter) rows

unfoldable pub iteration_rows : List MetaRow → Dict Medians → List CsvRow → List TableRow
iteration_rows meta by_rid rows = rows_from (runs_by_scenario meta) by_rid [] rows
