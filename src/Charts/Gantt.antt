-- ===== src/Charts/Gantt.antt =====
-- The lanes of the observers in `build_gantt_chart` of generate_charts.py. A base and a width are
-- microseconds from the start of the window; the texts that show when hovering and the marks of
-- timeline changes are left out. The json module is Python's: `loads` gives the members of an object,
-- or none where the code meets an exception. `str.contains` takes a pattern; the names of the nodes
-- have no special characters of patterns.
pub mod Lanes
mod Tests
use patroni_routing_bench.Prelude.{
  ℕ, zero, suc, ◌+◌, ◌-◌, ◌≤◌, String, ◌≡◌, Bool, true, false, not, ◌&&◌, ◌||◌, Option, none, some,
  List, [], ◌∷◌, ◌++◌, map, length, select, leb, ltb, ◌==◌, nat_eq, bool_eq, option_eq, string_eq,
  if◌then◌else◌,
}
use patroni_routing_bench.Prelude.Text.{Text, codes, contains, starts_with}
use patroni_routing_bench.Charts.{ObserverEvent, ClientEvent}
use patroni_routing_bench.Charts.Labels.{get_state_color, get_consul_color, haproxy_aggregate_color}

pub data Lane : Type 0 where
  haproxy consul : Lane
  patroni : Text → Lane

pub record Bar : Type 0 where
  pub base : ℕ
  pub width : ℕ
  pub color : String

-- `node.replace("patroni-", "")`; the number counts the characters of an occurrence still to leave out.
unfoldable pub remove : Text → ℕ → Text → Text
remove p n [] = []
remove p (suc n) (c ∷ s) = remove p n s
remove p zero (c ∷ s) = elim (starts_with (c ∷ s) p) [
  | true ↦ remove p (length p - 1) s
  | false ↦ c ∷ remove p zero s
]

unfoldable pub before : Text → Text → Bool
before [] s = true
before (c ∷ s) [] = false
before (c ∷ s) (d ∷ t) = let rest = before s t in if c == d then rest else ltb c d

-- `sorted(nodes.unique())`
unfoldable pub insert_node : String → List String → List String
insert_node n [] = n ∷ []
insert_node n (m ∷ ms) =
    let rest = insert_node n ms in
    if n == m then m ∷ ms else if before (codes n) (codes m) then n ∷ (m ∷ ms) else m ∷ rest

unfoldable pub sorted_nodes : List String → List String
sorted_nodes [] = []
sorted_nodes (n ∷ ns) = insert_node n (sorted_nodes ns)

abbrev pub of_component : String → List ObserverEvent → List ObserverEvent
of_component name obs = select (λ e. e.component == name) obs

abbrev pub if_any : List ObserverEvent → Lane → List Lane
if_any [] lane = []
if_any (e ∷ es) lane = lane ∷ []

-- `lane_order`, behind the client's lane.
unfoldable pub lane_order : List ObserverEvent → List Lane
lane_order obs =
    if_any (of_component "haproxy" obs) haproxy
    ++ (if_any (of_component "consul" obs) consul
        ++ map (λ n. patroni (remove (codes "patroni-") zero (codes n)))
            (sorted_nodes (map (λ e. e.node) (of_component "patroni" obs))))

-- `lane.split("/ ")[1]`: the name up to the next separator.
unfoldable pub suffix : Text → Text
suffix [] = []
suffix (c ∷ s) = elim (starts_with (c ∷ s) (codes "/ ")) [ true ↦ [] | false ↦ c ∷ suffix s ]

abbrev pub on_node : Text → ObserverEvent → Bool
on_node sfx e = e.component == "patroni" && contains (codes e.node) sfx

abbrev pub on_lane : Lane → ObserverEvent → Bool
on_lane haproxy e = e.component == "haproxy"
on_lane consul e = e.component == "consul"
on_lane (patroni name) e = on_node (suffix name) e

abbrev pub is_timeline : ObserverEvent → Bool
is_timeline e = e.event_type == "timeline_change"

unfoldable pub lane_events : Lane → List ObserverEvent → List ObserverEvent
lane_events lane obs = select (on_lane lane) (select (λ e. not (is_timeline e)) obs)

abbrev pub least : ℕ → List ℕ → ℕ
least t [] = t
least t (u ∷ us) = let rest = least u us in if leb t rest then t else rest

abbrev pub greatest : ℕ → List ℕ → ℕ
greatest t [] = t
greatest t (u ∷ us) = let rest = greatest u us in if leb rest t then t else rest

-- `w_start` and `w_end`; the first event is handed on its own, since a chart has one.
unfoldable pub window : ObserverEvent → List ObserverEvent → List ClientEvent → ℕ × ℕ
window o obs cli =
    let all_ts = map (λ e. e.ts) obs ++ map (λ e. e.ts) cli in
    (least o.ts all_ts, greatest o.ts all_ts)

-- `duration.total_seconds() or 0.1`
abbrev pub drawn : ℕ → ℕ
drawn zero = 100000
drawn (suc n) = suc n

abbrev pub or_empty : Option String → String
or_empty none = ""
or_empty (some s) = s

-- `str(value)`
abbrev pub str_of : Option String → String
str_of none = "None"
str_of (some s) = s

abbrev pub States : Type 0
States = List ((String × String) × String)

unfoldable pub set_state : String × String → String → States → States
set_state key status [] = (key, status) ∷ []
set_state key status ((key', status') ∷ states) =
    let rest = set_state key status states in
    if key'.0 == key.0 && key'.1 == key.1 then (key', status) ∷ states else (key', status') ∷ rest

abbrev pub member : String → List (String × String) → String
member key [] = ""
member key ((name, value) ∷ members) =
    let rest = member key members in if name == key then value else rest

-- The bar before the first event, of a lane with events.
unfoldable pub patroni_color : Option String → String
patroni_color old_value =
    let old_v = or_empty old_value in
    get_state_color
      (if old_v == "none" || (old_v == "uninitialized" || old_v == "") then "replica" else old_v)

unfoldable pub consul_color : ObserverEvent → String
consul_color e =
    if e.event_type == "leader_key_deleted"
    then "#2ecc71"
    else get_consul_color e.event_type (or_empty e.old_value)

-- The bar of a node without events, if the text that selects the node is not empty.
abbrev pub whole : Text → ℕ × ℕ → List Bar
whole [] w = []
whole (c ∷ sfx) w = record { base = 0; width = drawn (w.1 - w.0); color = "#3498db" } ∷ []

abbrev pub silent_bars : Lane → ℕ × ℕ → List Bar
silent_bars haproxy w = []
silent_bars consul w = []
silent_bars (patroni name) w = whole (suffix name) w

module _ (loads : String → Option (List (String × String))) where
  abbrev pub members : Option String → Option (List (String × String))
  members none = some []
  members (some detail) = if detail == "" then some [] else loads detail

  -- The backend and the server in a detail, where it has both.
  abbrev pub named : Option (List (String × String)) → Option (String × String)
  named none = none
  named (some detail) =
      let b = member "backend" detail in
      let s = member "server" detail in if b == "" || s == "" then none else some (b, s)

  abbrev pub server_of : Option String → Option (String × String)
  server_of detail = named (members detail)

  unfoldable pub haproxy_color : ObserverEvent → String
  haproxy_color e = elim (server_of e.detail) [
    | none ↦ "#2ecc71"
    | some key ↦ haproxy_aggregate_color ((key, str_of e.old_value) ∷ [])
  ]

  abbrev pub init_color : Lane → ObserverEvent → String
  init_color haproxy e = haproxy_color e
  init_color consul e = consul_color e
  init_color (patroni name) e = patroni_color e.old_value

  -- `ha_states` after an event.
  unfoldable pub note : Lane → ObserverEvent → States → States
  note haproxy e states = elim (server_of e.detail) [
    | none ↦ states
    | some key ↦ set_state key (str_of e.new_value) states
  ]
  note consul e states = states
  note (patroni name) e states = states

  abbrev pub event_color : Lane → ObserverEvent → States → String
  event_color haproxy e states = haproxy_aggregate_color states
  event_color consul e states = get_consul_color e.event_type (or_empty e.new_value)
  event_color (patroni name) e states = get_state_color (or_empty e.new_value)

  abbrev pub next_ts : List ObserverEvent → ℕ → ℕ
  next_ts [] w_end = w_end
  next_ts (e ∷ es) w_end = e.ts

  unfoldable pub state_bars : Lane → ℕ × ℕ → States → List ObserverEvent → List Bar
  state_bars lane w states [] = []
  state_bars lane w states (e ∷ es) =
      let now = note lane e states in
      record {
        base = e.ts - w.0;
        width = drawn (next_ts es w.1 - e.ts);
        color = event_color lane e now;
      }
      ∷ state_bars lane w now es

  unfoldable pub init_bar : Lane → ℕ × ℕ → ObserverEvent → List Bar
  init_bar lane w e =
      let init_dur = e.ts - w.0 in
      if ltb 50000 init_dur
      then record { base = 0; width = init_dur; color = init_color lane e } ∷ []
      else []

  abbrev pub bars_of : Lane → ℕ × ℕ → List ObserverEvent → List Bar
  bars_of lane w [] = silent_bars lane w
  bars_of lane w (e ∷ es) = init_bar lane w e ++ state_bars lane w [] (e ∷ es)

  unfoldable pub lane_bars : Lane → ObserverEvent → List ObserverEvent → List ClientEvent → List Bar
  lane_bars lane o obs cli = bars_of lane (window o obs cli) (lane_events lane (o ∷ obs))
