-- ===== src/Watcher/Patroni.antt =====
-- tool/observers/watchers/patroni_watcher.py: role, state and timeline of one node.
pub mod Events
pub mod Timeline
use patroni_routing_bench.Prelude.{
  ℕ, zero, suc, ◌+◌, ◌-◌, ◌*◌, ◌/◌, ◌%◌, ◌≤◌, ◌<◌, String, ◌≡◌, ◌≢◌, refl, sym, ap, ◌∙◌, Bool, true,
  false, not, ◌&&◌, ◌||◌, ◌⊎◌, ◌↔◌, inl, inr, Option, none, some, List, [], ◌∷◌, ◌++◌, map,
  append_assoc, append-nil, length, take, drop, head?, get_last?, select, arith, leb, ltb, ◌==◌,
  ◌!=◌, nat_eq, bool_eq, option_eq, string_eq, eq_of_beq, beq_refl, Bool-cases, Option-cases,
  is_some, if◌then◌else◌, All, All-append, In, In_left, In_right, In-append, length-append,
  take-append-drop,
}
use patroni_routing_bench.Prelude.Text.{Text, cut, show}
use patroni_routing_bench.Emitter.{Json, null, text, num, bool, Detail, plain, dumps, Emission}
use patroni_routing_bench.Watcher.{Polled, emission, or_else}

pub record PatroniWatcher : Type 0 where
  pub last_role : Option String
  pub last_state : Option String
  pub last_timeline : Option ℕ

-- The fields that the watcher reads of the JSON object at /patroni; `none` is a missing field.
pub record Status : Type 0 where
  pub role : Option String
  pub state : Option String
  pub timeline : Option ℕ
  pub server_version : Option ℕ

-- A `RequestException` with its text, a body that is no JSON, or an answer. Which of the first two a body
-- that is no JSON gives depends on the version of requests: where the exception of `json` is a
-- `RequestException` as well, it is `unreachable`, and `invalid` does not come up.
pub data Reply : Type 0 where
  unreachable : String → Reply
  invalid : Reply
  answered : Status → Reply

unfoldable pub init : PatroniWatcher
init = record { last_role = none; last_state = none; last_timeline = none }

abbrev pub get_or_unknown : Option String → String
get_or_unknown none = "unknown"
get_or_unknown (some s) = s

abbrev pub json_of : Option ℕ → Json
json_of none = null
json_of (some n) = num n

-- `str(timeline)`
unfoldable pub str_of : Option ℕ → String
str_of none = "None"
str_of (some n) = show n

abbrev Detected : Type 0
Detected = PatroniWatcher × List Emission

unfoldable pub detect_role : Bool → Status → PatroniWatcher → PatroniWatcher × List Emission
detect_role emit_initial st w =
    let role = get_or_unknown st.role in
    let state = get_or_unknown st.state in
    let event = emission "role_change" (or_else w.last_role "none") role (
      dumps (
        ("state", text state)
        ∷ ("timeline", json_of st.timeline)
        ∷ ("server_version", json_of st.server_version)
        ∷ [])) in
    if some role != w.last_role
    then (
      record w { last_role = some role },
      if is_some w.last_role || emit_initial then event ∷ [] else [],
    )
    else (w, [])

unfoldable pub detect_state : Bool → Status → PatroniWatcher → PatroniWatcher × List Emission
detect_state emit_initial st w =
    let role = get_or_unknown st.role in
    let state = get_or_unknown st.state in
    let event =
      emission "node_state_change" (or_else w.last_state "none") state
        (dumps (("role", text role) ∷ [])) in
    if some state != w.last_state
    then (
      record w { last_state = some state },
      if is_some w.last_state || emit_initial then event ∷ [] else [],
    )
    else (w, [])

unfoldable pub detect_timeline : Status → PatroniWatcher → PatroniWatcher × List Emission
detect_timeline st w =
    let role = get_or_unknown st.role in
    let state = get_or_unknown st.state in
    let event =
      emission "timeline_change" (str_of w.last_timeline) (str_of st.timeline)
        (dumps (("role", text role) ∷ ("state", text state) ∷ [])) in
    if st.timeline != w.last_timeline
    then (
      record w { last_timeline = st.timeline },
      if is_some w.last_timeline then event ∷ [] else [],
    )
    else (w, [])

-- The part of `_poll_state` behind its `try`.
unfoldable pub detect : Bool → Status → PatroniWatcher → PatroniWatcher × List Emission
detect emit_initial st w =
    let (w₁, by_role) = detect_role emit_initial st w in
    let (w₂, by_state) = detect_state emit_initial st w₁ in
    let (w₃, by_timeline) = detect_timeline st w₂ in (w₃, by_role ++ (by_state ++ by_timeline))

unfoldable pub poll_state : Bool → Reply → PatroniWatcher → Polled PatroniWatcher
poll_state emit_initial (unreachable e) w =
    let event =
      emission "node_state_change" (or_else w.last_state "unknown") "unreachable"
        (plain (cut 200 e)) in
    if w.last_state != some "unreachable"
    then record {
      state = record w { last_state = some "unreachable" };
      emissions = event ∷ [];
      raised = false;
    }
    else record { state = w; emissions = []; raised = false }
poll_state emit_initial invalid w = record { state = w; emissions = []; raised = false }
poll_state emit_initial (answered st) w =
    let (w', events) = detect emit_initial st w in
    record { state = w'; emissions = events; raised = false }

unfoldable pub setup : Reply → PatroniWatcher → Polled PatroniWatcher
setup = poll_state true

unfoldable pub poll : Reply → PatroniWatcher → Polled PatroniWatcher
poll = poll_state false
