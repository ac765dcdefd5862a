-- ===== src/Watcher/PostgresSql.antt =====
-- tool/observers/watchers/postgres_sql_watcher.py: recovery, timeline and reachability of one node,
-- asked by SQL.
pub mod Events
pub mod Session
use patroni_routing_bench.Prelude.{
  ℕ, zero, suc, ◌+◌, ◌-◌, ◌*◌, ◌/◌, ◌%◌, ◌≤◌, ◌<◌, String, ◌≡◌, ◌≢◌, refl, sym, ap, ◌∙◌, Bool, true,
  false, not, ◌&&◌, ◌||◌, ◌⊎◌, ◌↔◌, inl, inr, Option, none, some, List, [], ◌∷◌, ◌++◌, map,
  append_assoc, append-nil, length, take, drop, head?, get_last?, select, arith, leb, ltb, ◌==◌,
  ◌!=◌, nat_eq, bool_eq, option_eq, string_eq, eq_of_beq, beq_refl, ne_of_bne, bne_of_eq,
  Bool-cases, Option-cases, is_some, if◌then◌else◌, if_true, if_false, All, All-append, In, In_left,
  In_right, In-append, length-append, take-append-drop,
}
use patroni_routing_bench.Prelude.Text.{Text, cut, show}
use patroni_routing_bench.Emitter.{Json, null, text, num, bool, Detail, plain, dumps, Emission}
use patroni_routing_bench.Watcher.{Polled, emission, or_else}

pub record PostgresSqlWatcher : Type 0 where
  pub last_in_recovery : Option Bool
  pub last_timeline : Option ℕ
  pub last_reachable : Option Bool

pub record Answer : Type 0 where
  pub in_recovery : Bool
  pub timeline : ℕ
  pub conn_count : ℕ

-- The rows of the two queries, or the text of the exception that connecting or a query raised.
pub data Reply : Type 0 where
  answered : Answer → Reply
  failed : String → Reply

unfoldable pub init : PostgresSqlWatcher
init = record { last_in_recovery = none; last_timeline = none; last_reachable = none }

unfoldable pub detect_ready : Answer → PostgresSqlWatcher → PostgresSqlWatcher × List Emission
detect_ready a w =
    let event = emission "pg_ready_accept_connections" "unreachable" "accepting_connections" (
      dumps (
        ("in_recovery", bool a.in_recovery)
        ∷ ("timeline", num a.timeline)
        ∷ ("connections", num a.conn_count)
        ∷ [])) in
    (
      record w { last_reachable = some true },
      if w.last_reachable == some false then event ∷ [] else [],
    )

-- The events of the branch on a changed `in_recovery`.
unfoldable pub recovery_events : Bool → Answer → Option Bool → List Emission
recovery_events emit_initial a last =
    let detail = dumps (("timeline", num a.timeline) ∷ ("connections", num a.conn_count) ∷ []) in
    let promoted = emission "pg_promote_detected" "in_recovery" "primary" detail in
    let demoted = emission "pg_demote_detected" "primary" "in_recovery" detail in
    let first =
      emission "pg_state_detected" "none" (if not a.in_recovery then "primary" else "in_recovery")
        detail in
    if is_some last || emit_initial
    then (if last == some true && a.in_recovery == false
        then promoted ∷ []
        else if last == some false && a.in_recovery == true
        then demoted ∷ []
        else if emit_initial
        then first ∷ []
        else [])
    else []

unfoldable pub detect_recovery :
    Bool → Answer → PostgresSqlWatcher → PostgresSqlWatcher × List Emission
detect_recovery emit_initial a w =
    if some a.in_recovery != w.last_in_recovery
    then (
      record w { last_in_recovery = some a.in_recovery },
      recovery_events emit_initial a w.last_in_recovery,
    )
    else (w, [])

abbrev str_or_none : Option ℕ → String
str_or_none none = "None"
str_or_none (some n) = show n

unfoldable pub detect_timeline : Answer → PostgresSqlWatcher → PostgresSqlWatcher × List Emission
detect_timeline a w =
    let event =
      emission "pg_timeline_change" (str_or_none w.last_timeline) (show a.timeline)
        (dumps (("in_recovery", bool a.in_recovery) ∷ ("connections", num a.conn_count) ∷ [])) in
    if some a.timeline != w.last_timeline
    then (
      record w { last_timeline = some a.timeline },
      if is_some w.last_timeline then event ∷ [] else [],
    )
    else (w, [])

unfoldable pub detect : Bool → Answer → PostgresSqlWatcher → PostgresSqlWatcher × List Emission
detect emit_initial a w =
    let (w₁, by_ready) = detect_ready a w in
    let (w₂, by_recovery) = detect_recovery emit_initial a w₁ in
    let (w₃, by_timeline) = detect_timeline a w₂ in (w₃, by_ready ++ (by_recovery ++ by_timeline))

-- The `except` branch.
unfoldable pub lose : String → PostgresSqlWatcher → PostgresSqlWatcher × List Emission
lose e w =
    let event =
      emission "pg_connection_lost" "accepting_connections" "unreachable" (plain (cut 200 e)) in
    if w.last_reachable != some false
    then (
      record w { last_reachable = some false },
      if is_some w.last_reachable then event ∷ [] else [],
    )
    else (w, [])

unfoldable pub poll_state : Bool → Reply → PostgresSqlWatcher → Polled PostgresSqlWatcher
poll_state emit_initial (answered a) w =
    let (w', events) = detect emit_initial a w in
    record { state = w'; emissions = events; raised = false }
poll_state emit_initial (failed e) w =
    let (w', events) = lose e w in record { state = w'; emissions = events; raised = false }

unfoldable pub setup : Reply → PostgresSqlWatcher → Polled PostgresSqlWatcher
setup = poll_state true

unfoldable pub poll : Reply → PostgresSqlWatcher → Polled PostgresSqlWatcher
poll = poll_state false
