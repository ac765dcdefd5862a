-- ===== src/Charts/Batch.antt =====
-- The batch report of generate_charts.py: the table of its combinations and the bars of the routing
-- families. A row of the batch has numbers where `pd.to_numeric` reads one; downtimes are in whole
-- microseconds. A median leaves out what is not a number and is given twice, so that it is whole.
pub mod Totals
pub mod Agreement
mod Tests
use patroni_routing_bench.Prelude.{
  ℕ, String, Bool, true, false, not, Option, none, some, List, [], ◌∷◌, ◌++◌, map, length, ltb,
  select, ◌==◌, nat_eq, bool_eq, option_eq, string_eq, if◌then◌else◌,
}
use patroni_routing_bench.Prelude.Text.{codes}
use patroni_routing_bench.Prelude.Int.{ℤ, ltb_ℤ}
use patroni_routing_bench.Charts.Gantt.{before}
use patroni_routing_bench.Charts.Medians.{median_or_none}

pub record BatchRow : Type 0 where
  pub combo_dir : String
  pub scenario : String
  pub status : String
  pub downtime_s : Option ℤ
  pub failed_queries : Option ℤ

-- `Series.median`, none for NaN.
unfoldable pub numbers : List (Option ℤ) → List ℤ
numbers [] = []
numbers (none ∷ vs) = numbers vs
numbers (some v ∷ vs) = v ∷ numbers vs

abbrev pub median : List (Option ℤ) → Option ℤ
median vs = median_or_none (numbers vs)

-- `Series.unique`, in the order in which the values come.
unfoldable pub unique : List String → List String
unique [] = []
unique (x ∷ xs) = x ∷ select (λ y. not (y == x)) (unique xs)

-- `sorted`
unfoldable pub insert : String → List String → List String
insert x [] = x ∷ []
insert x (y ∷ ys) =
    let rest = insert x ys in if before (codes y) (codes x) then y ∷ rest else x ∷ (y ∷ ys)

unfoldable pub sort : List String → List String
sort [] = []
sort (x ∷ xs) = insert x (sort xs)

-- `df[df["status"] == "SUCCESS"]`
abbrev pub successes : List BatchRow → List BatchRow
successes df = select (λ r. r.status == "SUCCESS") df

abbrev pub of_combo : String → List BatchRow → List BatchRow
of_combo combo df = select (λ r. r.combo_dir == combo) df

abbrev pub combos : List BatchRow → List String
combos df = map (λ r. r.combo_dir) df

pub record Summary : Type 0 where
  pub combo : String
  pub ok : ℕ
  pub total : ℕ
  pub med_dt : Option ℤ
  pub med_fq : Option ℤ

-- A row of the table; no success leaves the medians out.
unfoldable pub summary : List BatchRow → String → Summary
summary df combo =
    let sub = of_combo combo (successes df) in
    record {
      combo = combo;
      ok = length sub;
      total = length (of_combo combo df);
      med_dt = if ltb 0 (length sub) then median (map (λ r. r.downtime_s) sub) else none;
      med_fq = if ltb 0 (length sub) then median (map (λ r. r.failed_queries) sub) else none;
    }

unfoldable pub summary_table : List BatchRow → List Summary
summary_table df = map (summary df) (sort (unique (combos df)))

-- A bar of a family, with its annotation.
pub record Bar : Type 0 where
  pub combo : String
  pub med : Option ℤ
  pub ok : ℕ
  pub total : ℕ

unfoldable pub bar : List BatchRow → List BatchRow → String → Bar
bar rows full_df combo = record {
  combo = combo;
  med = median (map (λ r. r.downtime_s) (of_combo combo rows));
  ok = length (of_combo combo rows);
  total = length (of_combo combo full_df);
}

-- `sort_values`: what is not a number comes last.
abbrev pub less : Option ℤ → Option ℤ → Bool
less none b = false
less (some a) none = true
less (some a) (some b) = ltb_ℤ a b

unfoldable pub insert_bar : Bar → List Bar → List Bar
insert_bar x [] = x ∷ []
insert_bar x (y ∷ ys) =
    let rest = insert_bar x ys in if less y.med x.med then y ∷ rest else x ∷ (y ∷ ys)

unfoldable pub sort_values : List Bar → List Bar
sort_values [] = []
sort_values (x ∷ xs) = insert_bar x (sort_values xs)

unfoldable pub hbar : List BatchRow → List BatchRow → List Bar
hbar rows full_df = sort_values (map (bar rows full_df) (sort (unique (combos rows))))

abbrev pub member : String → List String → Bool
member x [] = false
member x (y ∷ ys) = let rest = member x ys in if y == x then true else rest

abbrev pub haproxy_family : List String
haproxy_family =
    "06-haproxy-rest-polling" ∷ "06-haproxy-rest-polling-tuned" ∷ "07-consul-template-reload"
    ∷ "08-consul-template-runtime-api" ∷ "09-patroni-callback-haproxy" ∷ []

abbrev pub vip_family : List String
vip_family = "03-vip-manager-poll" ∷ "04-vip-patroni-callback" ∷ []

-- A chart with its heading, if it has data.
unfoldable pub family : String → List BatchRow → List BatchRow → List (String × List Bar)
family title [] full_df = []
family title (r ∷ rows) full_df = (title, hbar (r ∷ rows) full_df) ∷ []

unfoldable pub family_charts : List BatchRow → List (String × List Bar)
family_charts df =
    let success = successes df in
    family "HAProxy Variants" (select (λ r. member r.combo_dir haproxy_family) success) df
    ++ (family "VIP Manager Variants" (select (λ r. member r.combo_dir vip_family) success) df
        ++ family "Overall Leaderboard" success df)
