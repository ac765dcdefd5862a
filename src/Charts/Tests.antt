-- ===== src/Charts/Tests.antt =====
-- The charts on a small test run.
use patroni_routing_bench.Prelude.{
  ℕ, ◌≡◌, refl, Bool, true, false, none, some, List, [], ◌∷◌, arith, nat_eq, bool_eq, option_eq,
  string_eq, All,
}
use patroni_routing_bench.Charts.{ObserverEvent, ClientEvent}
use patroni_routing_bench.Prelude.Int.{ℤ, ◌≤ℤ◌, pos, ◌-ℤ◌}
use patroni_routing_bench.Charts.Milestones.{Milestones, extract_milestones}
use patroni_routing_bench.Charts.Recovery.{IsOutage, IsOutage-exact}
use patroni_routing_bench.Charts.Phases.{Bar, total, build_phase_chart}
use patroni_routing_bench.Charts.Phases.Totals.{chart_total}
use patroni_routing_bench.Charts.Hero.{Medians, Point, hero_point, IsDivided, IsLatest, hero_split}
use patroni_routing_bench.Charts.Waterfall.{Offsets, chain, waterfall, total-waterfall}

abbrev query : ℕ → Bool → ClientEvent
query now ok = record { ts = now; success = ok }

abbrev queries : List ClientEvent
queries = query 1 true ∷ query 2 false ∷ query 3 false ∷ query 5 true ∷ []

abbrev deleted : ObserverEvent
deleted = record {
  ts = 4;
  component = "consul";
  node = "n";
  event_type = "leader_key_deleted";
  old_value = some "p1";
  new_value = some "none";
  detail = none;
}

abbrev milestones : Milestones
milestones = record {
  first_client_failure = some 2;
  first_recovery = some 9;
  consul_leader_deleted = some 4;
  patroni_promoted = some 7;
  haproxy_up = none;
  pg_promoted = some 6;
}

IsOutage-exact_example :
    let ms = extract_milestones (deleted ∷ []) queries in
    IsOutage queries ms.first_client_failure ms.first_recovery
IsOutage-exact_example = IsOutage-exact (deleted ∷ []) queries

chart_total_example :
    (bars : List Bar) × (build_phase_chart milestones ≡ some (bars, pos 9 -ℤ pos 2))
chart_total_example = chart_total milestones 2 9 refl refl

abbrev later_queries : List ClientEvent
later_queries = query 2 false ∷ query 3 false ∷ query 5 true ∷ []

abbrev medians : Medians
medians = record { t0 = some (pos 4); t1 = none; t2 = some (pos 2); t3 = none; tc = some (pos 9) }

hero_split_example :
    (p : Point) × (server : ℤ) × (hero_point (some medians) ≡ some p)
    × IsLatest server (some (pos 4) ∷ none ∷ some (pos 2) ∷ none ∷ [])
    × IsDivided server (pos 9) p
hero_split_example = hero_split medians (pos 9) refl

abbrev offsets : Offsets
offsets = record {
  t0 = some (pos 4);
  t1 = some (pos 6);
  t2 = some (pos 5);
  t3 = none;
  t4 = none;
  tc = pos 9;
}

from_failure : All (λ x. pos 0 ≤ℤ x.1) (chain offsets)
unfolding chain
from_failure = (omega arith, (omega arith, (omega arith, (omega arith, tt))))

before_client : All (λ x. x.1 ≤ℤ offsets.tc) (chain offsets)
unfolding chain
before_client = (omega arith, (omega arith, (omega arith, (omega arith, tt))))

total-waterfall_example : total (waterfall offsets) ≡ pos 9
total-waterfall_example = total-waterfall offsets from_failure before_client
