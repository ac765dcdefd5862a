-- ===== src/Watcher/Haproxy.antt =====
-- tool/observers/watchers/haproxy_watcher.py: the status of HAProxy's servers. The csv module is
-- Python's: `read_csv` is handed in, and gives the rows as dictionaries with a cell for each column of
-- the header, as HAProxy writes them.
pub mod Events
pub mod View
use patroni_routing_bench.Prelude.{
  ℕ, zero, suc, ◌+◌, ◌-◌, ◌*◌, ◌/◌, ◌%◌, ◌≤◌, ◌<◌, String, ◌≡◌, ◌≢◌, refl, sym, ap, ◌∙◌, Bool, true,
  false, not, ◌&&◌, ◌||◌, ◌⊎◌, ◌↔◌, inl, inr, Option, none, some, List, [], ◌∷◌, ◌++◌, map,
  append_assoc, append-nil, length, take, drop, head?, get_last?, select, arith, leb, ltb, ◌==◌,
  ◌!=◌, nat_eq, bool_eq, option_eq, string_eq, eq_of_beq, beq_refl, ne_of_bne, bne_of_eq,
  Bool-cases, Option-cases, is_some, if◌then◌else◌, if_true, if_false, All, All-append, In, In_left,
  In_right, In-append, length-append, take-append-drop,
}
use patroni_routing_bench.Prelude.Text.{Text, codes, starts_with}
use patroni_routing_bench.Emitter.{text, plain, dumps, Emission}
use patroni_routing_bench.Watcher.{Polled, emission, or_else}

abbrev pub Row : Type 0
Row = List (String × String)

abbrev pub Key : Type 0
Key = String × String

abbrev pub States : Type 0
States = List (Key × String)

pub record HaproxyWatcher : Type 0 where
  pub server_states : States

-- The text of a page, or a RequestException.
pub data Reply : Type 0 where
  failed : Reply
  page : Text → Reply

unfoldable pub init : HaproxyWatcher
init = record { server_states = [] }

-- `row.get(column, "")`
unfoldable pub cell : String → Row → String
cell column [] = ""
cell column ((name, value) ∷ row) = if name == column then value else cell column row

abbrev pub same_key : Key → Key → Bool
same_key (backend, server) (backend', server') = backend == backend' && server == server'

unfoldable pub lookup : Key → States → Option String
lookup key [] = none
lookup key ((key', status) ∷ states) = if same_key key' key then some status else lookup key states

unfoldable pub store : Key → String → States → States
store key status [] = (key, status) ∷ []
store key status ((key', status') ∷ states) =
    if same_key key' key then (key', status) ∷ states else (key', status') ∷ store key status states

unfoldable pub is_server : Row → Bool
is_server row =
    let svname = cell "svname" row in
    not (svname == "FRONTEND" || (svname == "BACKEND" || svname == ""))

unfoldable pub key_of : Row → Key
key_of row = (cell "pxname" row, cell "svname" row)

unfoldable pub change : Option String → Row → Emission
change prev_status row =
    emission "backend_state_change" (or_else prev_status "none") (cell "status" row) (
      dumps (
        ("backend", text (cell "pxname" row))
        ∷ ("server", text (cell "svname" row))
        ∷ ("check_status", text (cell "check_status" row))
        ∷ ("check_duration", text (cell "check_duration" row))
        ∷ ("last_chk", text (cell "last_chk" row))
        ∷ []))

unfoldable pub report : Bool → Option String → Row → List Emission
report emit_initial prev_status row =
    if some (cell "status" row) != prev_status && (is_some prev_status || emit_initial)
    then change prev_status row ∷ []
    else []

-- The loop over the rows: `server_states` is the dictionary of the poll before, and stays as it is;
-- `current_states` grows.
unfoldable pub scan : Bool → States → List Row → States → States × List Emission
scan emit_initial server_states [] current_states = (current_states, [])
scan emit_initial server_states (row ∷ rows) current_states =
    if is_server row
    then (let status = cell "status" row in
        let (states, events) =
          scan emit_initial server_states rows (store (key_of row) status current_states) in
        (states, report emit_initial (lookup (key_of row) server_states) row ++ events))
    else scan emit_initial server_states rows current_states

unfoldable pub strip_mark : Text → Text
strip_mark content = if starts_with content (codes "# ") then drop 2 content else content

module _ (read_csv : Text → List Row) where
  unfoldable pub poll_stats : Bool → Reply → HaproxyWatcher → Polled HaproxyWatcher
  poll_stats emit_initial failed w = record { state = w; emissions = []; raised = false }
  poll_stats emit_initial (page content) w =
      let (current_states, events) =
        scan emit_initial w.server_states (read_csv (strip_mark content)) [] in
      record {
        state = record w { server_states = current_states };
        emissions = events;
        raised = false;
      }

  unfoldable pub setup : Reply → HaproxyWatcher → Polled HaproxyWatcher
  setup = poll_stats true

  unfoldable pub poll : Reply → HaproxyWatcher → Polled HaproxyWatcher
  poll = poll_stats false
