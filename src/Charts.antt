-- ===== src/Charts.antt =====
-- tool/charts/generate_charts.py: what the charts and the report compute from the events of a test
-- run. A data frame is the list of its rows, in the order of the query; a time is in microseconds.
-- Plotly's figures and the text of the HTML are left out.
pub mod Milestones
pub mod Recovery
pub mod Phases
pub mod Overlap
pub mod Runs
pub mod Labels
pub mod Dict
pub mod Failures
pub mod Iterations
pub mod Medians
pub mod Report
pub mod Latency
pub mod Comparison
pub mod Batch
pub mod Gantt
pub mod Window
pub mod Hero
pub mod Waterfall
mod Tests
use patroni_routing_bench.Prelude.{
  ℕ, zero, suc, ◌+◌, ◌-◌, ◌*◌, ◌/◌, ◌%◌, ◌≤◌, ◌<◌, String, ◌≡◌, ◌≢◌, refl, sym, ap, ◌∙◌, Bool, true,
  false, not, ◌&&◌, ◌||◌, ◌⊎◌, ◌↔◌, inl, inr, Option, none, some, List, [], ◌∷◌, ◌++◌, map,
  append_assoc, append-nil, length, take, drop, head?, get_last?, select, arith, leb, ltb, ◌==◌,
  ◌!=◌, nat_eq, bool_eq, option_eq, string_eq, eq_of_beq, beq_refl, ne_of_bne, bne_of_eq,
  Bool-cases, Option-cases, is_some, if◌then◌else◌, if_true, if_false, All, All-append, In, In_left,
  In_right, In-append, length-append, take-append-drop,
}
use patroni_routing_bench.Prelude.Text.{Text, codes, contains}

-- A row of `load_observer_events`.
pub record ObserverEvent : Type 0 where
  pub ts : ℕ
  pub component : String
  pub node : String
  pub event_type : String
  pub old_value : Option String
  pub new_value : Option String
  pub detail : Option String

-- A row of `load_client_events`.
pub record ClientEvent : Type 0 where
  pub ts : ℕ
  pub success : Bool

-- `series.min()`; none for an empty frame.
abbrev pub min_ts : List ClientEvent → Option ℕ
min_ts [] = none
min_ts (e ∷ es) = elim (min_ts es) [
  | none ↦ some e.ts
  | some m ↦ if ltb e.ts m then some e.ts else some m
]

abbrev pub max_ts : List ClientEvent → Option ℕ
max_ts [] = none
max_ts (e ∷ es) = elim (max_ts es) [
  | none ↦ some e.ts
  | some m ↦ if ltb m e.ts then some e.ts else some m
]

abbrev pub is_failure : ClientEvent → Bool
is_failure e = not e.success

abbrev pub succeeds_after : ℕ → ClientEvent → Bool
succeeds_after t e = e.success && ltb t e.ts

abbrev pub recovery_after : Option ℕ → List ClientEvent → Option ℕ
recovery_after none cli = none
recovery_after (some t) cli = min_ts (select (succeeds_after t) cli)

abbrev pub first_ts : List ObserverEvent → Option ℕ
first_ts [] = none
first_ts (e ∷ es) = some e.ts

abbrev pub last_ts : List ObserverEvent → Option ℕ
last_ts [] = none
last_ts (e ∷ es) = elim (last_ts es) [ none ↦ some e.ts | some t ↦ some t ]

-- `frame[frame["ts"] >= t]` if `t` is there.
abbrev pub from_ts : Option ℕ → List ObserverEvent → List ObserverEvent
from_ts none obs = obs
from_ts (some t) obs = select (λ e. leb t e.ts) obs

-- `column.str.contains("primary_backend", na=False)`
abbrev pub mentions_primary : Option String → Bool
mentions_primary none = false
mentions_primary (some detail) = contains (codes detail) (codes "primary_backend")
