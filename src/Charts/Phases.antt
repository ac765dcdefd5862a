-- ===== src/Charts/Phases.antt =====
-- `build_phase_chart` and `_render_phase_breakdown` of generate_charts.py: the phases of a failover
-- one after the other, and the shares of the total.
pub mod Totals
use patroni_routing_bench.Prelude.{
  ℕ, zero, suc, ◌+◌, ◌-◌, ◌*◌, ◌/◌, ◌%◌, ◌≤◌, ◌<◌, String, ◌≡◌, ◌≢◌, refl, sym, ap, ◌∙◌, Bool, true,
  false, not, ◌&&◌, ◌||◌, ◌⊎◌, ◌↔◌, inl, inr, Option, none, some, List, [], ◌∷◌, ◌++◌, map,
  append_assoc, append-nil, length, take, drop, head?, get_last?, select, arith, leb, ltb, ◌==◌,
  ◌!=◌, nat_eq, bool_eq, option_eq, string_eq, eq_of_beq, beq_refl, ne_of_bne, bne_of_eq,
  Bool-cases, Option-cases, is_some, if◌then◌else◌, if_true, if_false, All, All-append, In, In_left,
  In_right, In-append, length-append, take-append-drop,
}
use patroni_routing_bench.Charts.{
  ObserverEvent, ClientEvent, min_ts, max_ts, is_failure, succeeds_after, recovery_after, first_ts,
  last_ts, from_ts, mentions_primary,
}
use patroni_routing_bench.Prelude.Int.{
  ℤ, pos, negsuc, pos_part, neg_part, sub_ℕ, ◌+ℤ◌, ◌-ℤ◌, int_laws,
}
use patroni_routing_bench.Charts.Milestones.{Milestones, extract_milestones}

abbrev pub Phase : Type 0
Phase = String × ℤ

abbrev pub stage : String → Option ℕ → List (String × ℕ)
stage label none = []
stage label (some t) = (label, t) ∷ []

abbrev pub promotion : Option ℕ → Option ℕ → List (String × ℕ)
promotion (some t) patroni_promoted = ("PG Promotion", t) ∷ []
promotion none patroni_promoted = stage "Patroni Promotion" patroni_promoted

-- The milestones behind the first failure that are there, each with the label of the phase that it ends.
abbrev pub available : Milestones → List (String × ℕ)
available ms =
    stage "DCS Detection" ms.consul_leader_deleted
    ++ (promotion ms.pg_promoted ms.patroni_promoted
        ++ (stage "Routing Detection" ms.haproxy_up ++ stage "Client Recovery" ms.first_recovery))

-- The durations between consecutive milestones, from `t` on.
unfoldable pub durations : ℕ → List (String × ℕ) → List Phase
durations t [] = []
durations t ((label, u) ∷ more) = (label, pos u -ℤ pos t) ∷ durations u more

-- Nothing without a first failure.
abbrev pub phases_from : Option ℕ → List (String × ℕ) → List Phase
phases_from none stages = []
phases_from (some t0) stages = durations t0 stages

unfoldable pub phases : Milestones → List Phase
phases ms = phases_from ms.first_client_failure (available ms)

-- `phases.get(name)`
unfoldable pub get : String → List Phase → Option ℤ
get name [] = none
get name ((label, d) ∷ more) = let rest = get name more in if label == name then some d else rest

pub record Bar : Type 0 where
  pub name : String
  pub base : ℤ
  pub duration : ℤ

-- The loop over `phase_order`: the bars, and `cumulative` in the end.
unfoldable pub stack : List String → List Phase → ℤ → List Bar × ℤ
stack [] ps cumulative = ([], cumulative)
stack (name ∷ order) ps cumulative = elim (get name ps) [
  | none ↦ stack order ps cumulative
  | some d ↦
      let (bars, total) = stack order ps (cumulative +ℤ d) in
      (record { name = name; base = cumulative; duration = d } ∷ bars, total)
]

abbrev pub phase_order : List String
phase_order =
    "DCS Detection" ∷ "PG Promotion" ∷ "Patroni Promotion" ∷ "Routing Detection" ∷ "Client Recovery"
    ∷ []

-- The bars of the chart and the number of its "Total" label, if there is a chart.
unfoldable pub build_phase_chart : Milestones → Option (List Bar × ℤ)
build_phase_chart ms =
    let ps = phases ms in
    elim ps [ [] ↦ none | p ∷ more ↦ some (stack phase_order (p ∷ more) (pos 0)) ]

-- `sum(phases.values())`
unfoldable pub total : List Phase → ℤ
total [] = pos 0
total ((name, d) ∷ more) = d +ℤ total more

abbrev pub breakdown_order : List String
breakdown_order =
    "DCS Detection" ∷ "Patroni Promotion" ∷ "Routing Detection" ∷ "Client Recovery" ∷ []

abbrev pub rows : List String → List Phase → List Phase
rows [] ps = []
rows (name ∷ names) ps = elim (get name ps) [
  | none ↦ rows names ps
  | some d ↦ (name, d) ∷ rows names ps
]

-- The rows of the breakdown and the number in its last row, "Total"; no text without phases.
unfoldable pub render_phase_breakdown : List Phase → Option (List Phase × ℤ)
render_phase_breakdown [] = none
render_phase_breakdown (p ∷ ps) = some (rows breakdown_order (p ∷ ps), total (p ∷ ps))
