-- ===== src/Charts/Gantt/Tests.antt =====
-- The lanes and the window of a small test run.
use patroni_routing_bench.Prelude.{
  ℕ, String, ◌≡◌, refl, Bool, true, false, none, some, Option, List, [], ◌∷◌, arith, nat_eq,
  bool_eq, option_eq, string_eq, select,
}
use patroni_routing_bench.Charts.{ObserverEvent, ClientEvent}
use patroni_routing_bench.Charts.Window.{load_window, find_failover_anchor, newest}
use patroni_routing_bench.Charts.Milestones.{extract_milestones}
use patroni_routing_bench.Charts.Window.Outage.{Shows, load_window-Shows}

abbrev no_json : String → Option (List (String × String))
no_json s = none

abbrev leader_event : ℕ → String → ObserverEvent
leader_event now event_type = record {
  ts = now;
  component = "consul";
  node = "n";
  event_type = event_type;
  old_value = some "p1";
  new_value = some "p2";
  detail = none;
}

abbrev query : ℕ → Bool → ClientEvent
query now ok = record { ts = now; success = ok }

abbrev lost : ObserverEvent
lost = leader_event 20000000 "leader_key_deleted"

abbrev found : List ObserverEvent
found = leader_event 25000000 "leader_key_created" ∷ []

abbrev queries : List ClientEvent
queries = query 10000000 false ∷ query 28000000 true ∷ query 200000000 true ∷ []

anchored : find_failover_anchor (lost ∷ found) ≡ some 20000000
unfolding find_failover_anchor newest select
anchored = refl

outage : Shows 10000000 28000000 (record { obs = lost ∷ found; cli = queries })
unfolding extract_milestones select
outage = (refl, refl)

load_window-Shows_example :
    Shows 10000000 28000000 (load_window 45 (record { obs = lost ∷ found; cli = queries }))
load_window-Shows_example =
    load_window-Shows 45 (record { obs = lost ∷ found; cli = queries }) 20000000 10000000 28000000
      anchored (omega arith) (omega arith) outage
