-- ===== src/Charts/Failures.antt =====
-- The counting of `_render_client_failure_analysis` of generate_charts.py: the failed queries of a
-- combination by the kind of their error. The average latency of a kind is given as its sum and its
-- number; the rounding of the numbers that are shown is left out.
pub mod Counts
use patroni_routing_bench.Prelude.{
  ℕ, suc, ◌+◌, ◌-◌, ◌*◌, ◌≤◌, String, ◌≡◌, refl, sym, ap, ◌∙◌, Bool, true, false, inl, inr, Option,
  none, some, List, [], ◌∷◌, ◌++◌, map, length, select, arith, leb, ltb, ◌==◌, nat_eq, bool_eq,
  option_eq, string_eq, eq_of_beq, beq_refl, Bool-cases, if◌then◌else◌, if_true, if_false, All,
  select-take, select-skip,
}
use mathlib.Core.Path.{subst}
use patroni_routing_bench.Prelude.Text.{Text, codes}
use patroni_routing_bench.Charts.Dict.{Dict, get, update, get-update-same, get-update-other}
use patroni_routing_bench.Charts.Labels.{categorize_error}

-- A row of the query: the text of the error and the latency, which may be NULL.
pub record Failure : Type 0 where
  pub error : Option String
  pub latency_us : Option ℕ

pub record Entry : Type 0 where
  pub count : ℕ
  pub latencies : List ℕ

pub record Row : Type 0 where
  pub category : String
  pub count : ℕ
  pub sum_us : ℕ
  pub samples : ℕ
  pub max_us : Option ℕ
  pub highlight : Bool

abbrev pub category : Failure → String
category r = categorize_error (elim r.error [ none ↦ [] | some e ↦ codes e ])

abbrev pub empty : Entry
empty = record { count = 0; latencies = [] }

abbrev pub with_latency : Option ℕ → List ℕ → List ℕ
with_latency none ls = ls
with_latency (some l) ls = ls ++ l ∷ []

unfoldable pub add_failure : Failure → Entry → Entry
add_failure r e = record { count = e.count + 1; latencies = with_latency r.latency_us e.latencies }

-- The loop over the rows, with the dictionary that it fills.
unfoldable pub count_from : Dict Entry → List Failure → Dict Entry
count_from d [] = d
count_from d (r ∷ rows) = count_from (update (category r) empty (add_failure r) d) rows

unfoldable pub cat_data : List Failure → Dict Entry
cat_data rows = count_from [] rows

-- `sorted(cat_data.items(), key=lambda x: -x[1]["count"])`
unfoldable pub insert : String × Entry → Dict Entry → Dict Entry
insert x [] = x ∷ []
insert x (y ∷ ys) =
    let rest = insert x ys in if ltb x.1.count y.1.count then y ∷ rest else x ∷ (y ∷ ys)

unfoldable pub sort : Dict Entry → Dict Entry
sort [] = []
sort (x ∷ xs) = insert x (sort xs)

abbrev pub sum : List ℕ → ℕ
sum [] = 0
sum (n ∷ ns) = n + sum ns

abbrev pub max_of : List ℕ → Option ℕ
max_of [] = none
max_of (n ∷ ns) = elim (max_of ns) [ none ↦ some n | some m ↦ if ltb m n then some n else some m ]

-- `avg_us > 1_000_000`, where the average of no latencies is 0.
unfoldable pub row_of : String × Entry → Row
row_of (cat, entry) = record {
  category = cat;
  count = entry.count;
  sum_us = sum entry.latencies;
  samples = length entry.latencies;
  max_us = max_of entry.latencies;
  highlight = ltb (1000000 * length entry.latencies) (sum entry.latencies);
}

unfoldable pub failure_table : List Failure → List Row
failure_table rows = map row_of (sort (cat_data rows))

abbrev pub total : Dict Entry → ℕ
total [] = 0
total (x ∷ xs) = x.1.count + total xs

unfoldable pub total_failures : List Failure → ℕ
total_failures rows = total (cat_data rows)
