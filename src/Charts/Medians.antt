-- ===== src/Charts/Medians.antt =====
-- `_compute_waterfall` of generate_charts.py and its query: the offsets of the milestones of one test
-- run from its first failure, and their medians over the runs of a combination. Offsets are whole
-- microseconds; a median is given twice, so that the mean of two of them is whole.
pub mod Order
pub mod Query
use patroni_routing_bench.Prelude.{
  ℕ, zero, suc, ◌+◌, ◌-◌, ◌*◌, ◌/◌, ◌%◌, String, Bool, true, false, not, ◌&&◌, ◌||◌, Option, none,
  some, List, [], ◌∷◌, ◌++◌, map, length, drop, head?, select, ltb, ◌==◌, nat_eq, bool_eq,
  option_eq, string_eq, if◌then◌else◌,
}
use patroni_routing_bench.Prelude.Text.{codes, contains}
use patroni_routing_bench.Prelude.Int.{ℤ, pos, ltb_ℤ, ◌+ℤ◌, ◌-ℤ◌, sub_ℕ}
use patroni_routing_bench.Charts.{
  ObserverEvent, ClientEvent, min_ts, max_ts, is_failure, succeeds_after, recovery_after,
}

-- A row of the query; the id of the run is left out.
pub record Offsets : Type 0 where
  pub t0 : Option ℤ
  pub t1 : Option ℤ
  pub t2 : Option ℤ
  pub t3 : Option ℤ
  pub t4 : Option ℤ
  pub tc : Option ℤ

-- `MIN(oe.ts) FILTER (WHERE ...)`
unfoldable pub min_event : List ObserverEvent → Option ℕ
min_event [] = none
min_event (e ∷ es) = elim (min_event es) [
  | none ↦ some e.ts
  | some m ↦ if ltb e.ts m then some e.ts else some m
]

abbrev pub is_pg_promote : ObserverEvent → Bool
is_pg_promote e =
    e.component == "postgres"
    && (e.event_type == "pg_promote_requested" || e.event_type == "pg_promote_detected")

abbrev pub is_patroni_primary : ObserverEvent → Bool
is_patroni_primary e =
    e.component == "patroni" && (e.event_type == "role_change" && e.new_value == some "primary")

abbrev pub is_consul_key : ObserverEvent → Bool
is_consul_key e = e.component == "consul" && e.event_type == "leader_key_created"

-- `detail IS NULL OR detail LIKE '%primary_backend%'`; `_` would stand for any character, and the details
-- have no other one there.
abbrev pub of_primary : Option String → Bool
of_primary none = true
of_primary (some detail) = contains (codes detail) (codes "primary_backend")

abbrev pub is_haproxy_up : ObserverEvent → Bool
is_haproxy_up e =
    e.component == "haproxy"
    && (e.event_type == "backend_state_change" && (e.new_value == some "UP" && of_primary e.detail))

abbrev pub is_pg_ready : ObserverEvent → Bool
is_pg_ready e = e.component == "postgres" && e.event_type == "pg_ready_accept_connections"

-- `EXTRACT(EPOCH FROM (t - t_first_fail))`
unfoldable pub since : ℕ → Option ℕ → Option ℤ
since t_first_fail none = none
since t_first_fail (some t) = some (sub_ℕ t t_first_fail)

-- The row of a run with a failure: the join takes the events behind the first one.
unfoldable pub offsets_from : ℕ → List ObserverEvent → List ClientEvent → Offsets
offsets_from t_first_fail observed cli =
    let obs = select (λ e. ltb t_first_fail e.ts) observed in
    let at : (ObserverEvent → Bool) → Option ℤ =
      λ p. since t_first_fail (min_event (select p obs)) in
    record {
      t0 = at is_pg_promote;
      t1 = at is_patroni_primary;
      t2 = at is_consul_key;
      t3 = at is_haproxy_up;
      t4 = at is_pg_ready;
      tc = since t_first_fail (recovery_after (max_ts (select is_failure cli)) cli);
    }

abbrev pub if_failed : Option ℕ → List ObserverEvent → List ClientEvent → Option Offsets
if_failed none obs cli = none
if_failed (some t) obs cli = some (offsets_from t obs cli)

unfoldable pub run_offsets : List ObserverEvent → List ClientEvent → Option Offsets
run_offsets obs cli = if_failed (min_ts (select is_failure cli)) obs cli

-- `statistics.median`, twice; the code does not call it on an empty list.
unfoldable pub insert : ℤ → List ℤ → List ℤ
insert x [] = x ∷ []
insert x (y ∷ ys) = let rest = insert x ys in if ltb_ℤ y x then y ∷ rest else x ∷ (y ∷ ys)

unfoldable pub sort : List ℤ → List ℤ
sort [] = []
sort (x ∷ xs) = insert x (sort xs)

abbrev pub at : ℕ → List ℤ → ℤ
at n [] = pos 0
at zero (x ∷ xs) = x
at (suc n) (x ∷ xs) = at n xs

unfoldable pub median : List ℤ → ℤ
median xs =
    let half = length xs / 2 in
    let sorted = sort xs in
    if length xs % 2 == 1
    then at half sorted +ℤ at half sorted
    else at (half - 1) sorted +ℤ at half sorted

-- A bucket leaves out what is None or NaN.
unfoldable pub bucket : (Offsets → Option ℤ) → List Offsets → List ℤ
bucket phase [] = []
bucket phase (row ∷ rows) = elim (phase row) [
  | none ↦ bucket phase rows
  | some v ↦ v ∷ bucket phase rows
]

unfoldable pub median_or_none : List ℤ → Option ℤ
median_or_none [] = none
median_or_none (v ∷ vals) = some (median (v ∷ vals))

-- `none` for no rows.
unfoldable pub compute_waterfall : List Offsets → Option Offsets
compute_waterfall [] = none
compute_waterfall (r ∷ rows) = some (record {
  t0 = median_or_none (bucket (λ o. o.t0) (r ∷ rows));
  t1 = median_or_none (bucket (λ o. o.t1) (r ∷ rows));
  t2 = median_or_none (bucket (λ o. o.t2) (r ∷ rows));
  t3 = median_or_none (bucket (λ o. o.t3) (r ∷ rows));
  t4 = median_or_none (bucket (λ o. o.t4) (r ∷ rows));
  tc = median_or_none (bucket (λ o. o.tc) (r ∷ rows));
})
