-- ===== src/Charts/Latency.antt =====
-- `_render_client_latency_timeline` of generate_charts.py and its query: the run that stands for a
-- combination, and the points of its plot. Downtimes and latencies are whole microseconds.
pub mod Points
use patroni_routing_bench.Prelude.{
  ℕ, zero, suc, ◌+◌, ◌-◌, ◌*◌, String, Bool, true, false, not, ◌&&◌, Option, none, some, List, [],
  ◌∷◌, map, select, ltb, leb, if◌then◌else◌,
}
use patroni_routing_bench.Prelude.Int.{ℤ, pos, pos_part, neg_part, ltb_ℤ, ◌+ℤ◌, ◌-ℤ◌, sub_ℕ}
use patroni_routing_bench.Charts.{ClientEvent, min_ts, max_ts, is_failure, recovery_after}
use patroni_routing_bench.Charts.Iterations.{nth}
use patroni_routing_bench.Charts.Medians.{median}
use patroni_routing_bench.Charts.Window.{second}

-- `dropna`
abbrev pub numbers : List (Option ℤ) → List ℤ
numbers [] = []
numbers (none ∷ ds) = numbers ds
numbers (some d ∷ ds) = d ∷ numbers ds

-- Twice the distance of a downtime from a median that is given twice.
unfoldable pub distance : ℤ → ℤ → ℕ
distance twice d = let gap = (d +ℤ d) -ℤ twice in pos_part gap + neg_part gap

-- `idxmin()`: the least value with its first position.
unfoldable pub idxmin_from : ℕ → ℕ → List ℕ → ℕ × ℕ
idxmin_from i v [] = (v, i)
idxmin_from i v (u ∷ us) =
    let (m, j) = idxmin_from (suc i) u us in if leb v m then (v, i) else (m, j)

abbrev pub closest : ℤ → List ℤ → Option ℕ
closest twice [] = none
closest twice (d ∷ ds) = some (idxmin_from 0 (distance twice d) (map (distance twice) ds)).1

abbrev pub run_at : List String → Option ℕ → Option String
run_at run_ids none = none
run_at run_ids (some i) = nth i run_ids

-- The run of the combination: none where it is skipped.
unfoldable pub representative : List (Option ℤ) → List String → Option String
representative downtimes run_ids =
    let hs = numbers downtimes in run_at run_ids (closest (median hs) hs)

pub record LatencyRow : Type 0 where
  pub event : ClientEvent
  pub latency_us : ℕ

-- A point with its distance from the first failure.
pub record Point : Type 0 where
  pub offset : ℤ
  pub success : Bool
  pub latency_us : ℕ

-- `COALESCE(first_recovery, first_failure + 60 s) + 2 s`
abbrev pub last_shown : ℕ → Option ℕ → ℕ
last_shown failure none = failure + 60 * second + 2 * second
last_shown failure (some recovery) = recovery + 2 * second

abbrev pub events_of : List LatencyRow → List ClientEvent
events_of rows = map (λ r. r.event) rows

abbrev pub in_plot : ℕ → Option ℕ → LatencyRow → Bool
in_plot failure recovery r =
    leb failure (r.event.ts + 2 * second) && leb r.event.ts (last_shown failure recovery)

-- `max(latency, 0.01)` in milliseconds.
unfoldable pub point_of : ℕ → LatencyRow → Point
point_of failure r = record {
  offset = sub_ℕ r.event.ts failure;
  success = r.event.success;
  latency_us = if ltb r.latency_us 10 then 10 else r.latency_us;
}

abbrev pub plot_from : Option ℕ → Option ℕ → List LatencyRow → List LatencyRow
plot_from none recovery rows = []
plot_from (some failure) recovery rows = select (in_plot failure recovery) rows

-- The rows of the query.
unfoldable pub plotted : List LatencyRow → List LatencyRow
plotted rows =
    let fail = select is_failure (events_of rows) in
    plot_from (min_ts fail) (recovery_after (max_ts fail) (events_of rows)) rows

abbrev pub failed : LatencyRow → Bool
failed r = is_failure r.event

-- The red points with their sizes, and the green ones.
abbrev pub size_of : Point → ℕ
size_of p = if ltb 1000000 p.latency_us then 12 else 5

unfoldable pub fail_points : ℕ → List LatencyRow → List (Point × ℕ)
fail_points failure rows =
    map (λ r. let p = point_of failure r in (p, size_of p)) (select failed rows)

unfoldable pub ok_points : ℕ → List LatencyRow → List Point
ok_points failure rows = map (point_of failure) (select (λ r. not (failed r)) rows)
