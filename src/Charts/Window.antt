-- ===== src/Charts/Window.antt =====
-- `find_failover_anchor`, `load_run_data` and the window of `cmd_iteration` of generate_charts.py: which
-- rows of a test run the charts read. The rows of the run are the two lists; a query selects among them.
pub mod Outage
use patroni_routing_bench.Prelude.{
  ℕ, ◌+◌, ◌-◌, ◌*◌, ◌≤◌, String, Bool, true, false, not, ◌&&◌, ◌||◌, Option, none, some, List, [],
  ◌∷◌, length, select, leb, ltb, ◌==◌, nat_eq, bool_eq, option_eq, string_eq, if◌then◌else◌,
}
use patroni_routing_bench.Charts.{ObserverEvent, ClientEvent, min_ts, max_ts}

abbrev pub second : ℕ
second = 1000000

-- `old_value NOT IN ('none', 'uninitialized')`, which is not true of NULL.
abbrev pub was_member : Option String → Bool
was_member none = false
was_member (some v) = not (v == "none" || v == "uninitialized")

abbrev pub is_anchor : ObserverEvent → Bool
is_anchor e =
    e.event_type == "leader_key_deleted"
    || (e.event_type == "role_change" && (e.new_value == some "primary" && was_member e.old_value))

-- `ORDER BY ts DESC LIMIT 1`
unfoldable pub newest : List ObserverEvent → Option ℕ
newest [] = none
newest (e ∷ es) = elim (newest es) [
  | none ↦ some e.ts
  | some t ↦ if ltb t e.ts then some e.ts else some t
]

unfoldable pub find_failover_anchor : List ObserverEvent → Option ℕ
find_failover_anchor obs = newest (select is_anchor obs)

-- `ts BETWEEN start AND end`
abbrev pub between : ℕ → ℕ → ℕ → Bool
between start end ts = leb start ts && leb ts end

pub record Loaded : Type 0 where
  pub obs : List ObserverEvent
  pub cli : List ClientEvent

abbrev pub load_windowed : ℕ → ℕ → Loaded → Loaded
load_windowed start end r = record {
  obs = select (λ e. between start end e.ts) r.obs;
  cli = select (λ e. between start end e.ts) r.cli;
}

-- `max - min` of the times is more than 120 s.
abbrev pub is_long : Option ℕ → Option ℕ → Bool
is_long none last = false
is_long (some first) none = false
is_long (some first) (some last) = ltb (120 * second) (last - first)

unfoldable pub is_large : List ClientEvent → Bool
is_large cli = ltb 5000 (length cli) || is_long (min_ts cli) (max_ts cli)

-- The rows that are left with `tail` seconds behind the anchor.
abbrev pub cut : ℕ → Option ℕ → Loaded → Loaded
cut tail none r = r
cut tail (some anchor) r = load_windowed (anchor - 15 * second) (anchor + tail * second) r

unfoldable pub load_window : ℕ → Loaded → Loaded
load_window tail r =
    let windowed = cut tail (find_failover_anchor r.obs) r in if is_large r.cli then windowed else r

unfoldable pub load_run_data : Loaded → Loaded
load_run_data = load_window 45

-- The frames of `cmd_iteration`; none: sys.exit(1).
abbrev pub if_events : Loaded → List ObserverEvent → Option Loaded
if_events r [] = none
if_events r (e ∷ es) = some r

unfoldable pub iteration_frames : Loaded → Option Loaded
iteration_frames r = let l = load_window 30 r in if_events l l.obs

-- `_find_latest_failover_window`: `resolved` is the id of the run, or empty where there is none.
unfoldable pub find_latest_failover_window :
    String → Option String → (String → Option ℕ) → Option (ℕ × ℕ) × String
find_latest_failover_window trid latest anchor_of =
    let resolved = if trid == "" then elim latest [ none ↦ "" | some id ↦ id ] else trid in
    let found = elim (anchor_of resolved) as (λ o. Option (ℕ × ℕ)) [
      | none ↦ none
      | some anchor ↦ some (anchor - 15 * second, anchor + 30 * second)
    ] in
    if resolved == "" then (none, resolved) else (found, resolved)
