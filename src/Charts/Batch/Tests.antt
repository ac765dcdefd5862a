-- ===== src/Charts/Batch/Tests.antt =====
-- The batch report on three runs of two combinations.
use patroni_routing_bench.Prelude.{String, ◌≡◌, some, none, List, [], ◌∷◌, map, length, All}
use patroni_routing_bench.Prelude.Int.{pos}
use patroni_routing_bench.Charts.Batch.{BatchRow, successes, summary_table, family_charts}
use patroni_routing_bench.Charts.Batch.Totals.{sum, summary_table-totals}
use patroni_routing_bench.Charts.Batch.Agreement.{IsBacked, family_charts-IsBacked}

abbrev row : String → String → BatchRow
row combo status = record {
  combo_dir = combo;
  scenario = "hard_stop";
  status = status;
  downtime_s = some (pos 7000000);
  failed_queries = none;
}

abbrev batch : List BatchRow
batch =
    row "03-vip-manager-poll" "SUCCESS"
    ∷ row "02-consul-dns" "UNKNOWN"
    ∷ row "03-vip-manager-poll" "UNKNOWN"
    ∷ []

summary_table-totals_example :
    (sum (map (λ s. s.total) (summary_table batch)) ≡ length batch)
    × (sum (map (λ s. s.ok) (summary_table batch)) ≡ length (successes batch))
summary_table-totals_example = summary_table-totals batch

family_charts-IsBacked_example : All (λ c. All (IsBacked batch) c.1) (family_charts batch)
family_charts-IsBacked_example = family_charts-IsBacked batch
