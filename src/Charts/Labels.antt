-- ===== src/Charts/Labels.antt =====
-- The texts and the choices of generate_charts.py that depend on one value: colours, the kind of a
-- client's error, the test run that is shown.
pub mod Errors
pub mod Resolved
use patroni_routing_bench.Prelude.{
  ℕ, zero, suc, ◌+◌, ◌-◌, ◌*◌, ◌/◌, ◌%◌, ◌≤◌, ◌<◌, String, ◌≡◌, ◌≢◌, refl, sym, ap, ◌∙◌, Bool, true,
  false, not, ◌&&◌, ◌||◌, ◌⊎◌, ◌↔◌, inl, inr, Option, none, some, List, [], ◌∷◌, ◌++◌, map,
  append_assoc, append-nil, length, take, drop, head?, get_last?, select, arith, leb, ltb, ◌==◌,
  ◌!=◌, nat_eq, bool_eq, option_eq, string_eq, eq_of_beq, beq_refl, ne_of_bne, bne_of_eq,
  Bool-cases, Option-cases, is_some, if◌then◌else◌, if_true, if_false, All, All-append, In, In_left,
  In_right, In-append, In-select, All-select, All-none, length-append, take-append-drop,
}
use patroni_routing_bench.Charts.{
  ObserverEvent, ClientEvent, min_ts, max_ts, is_failure, succeeds_after, recovery_after, first_ts,
  last_ts, from_ts, mentions_primary,
}
use patroni_routing_bench.Prelude.Text.{Text, codes, contains, starts_with, upper, lower}

-- STATE_COLORS
abbrev pub state_colors : List (String × String)
state_colors =
    ("primary", "#2ecc71")
    ∷ ("running", "#2ecc71")
    ∷ ("UP", "#2ecc71")
    ∷ ("ok", "#2ecc71")
    ∷ ("bound", "#2ecc71")
    ∷ ("replica", "#3498db")
    ∷ ("streaming", "#3498db")
    ∷ ("stopped", "#e74c3c")
    ∷ ("DOWN", "#e74c3c")
    ∷ ("fail", "#e74c3c")
    ∷ ("unreachable", "#95a5a6")
    ∷ ("starting", "#f39c12")
    ∷ ("creating replica", "#f39c12")
    ∷ ("promote_requested", "#f39c12")
    ∷ ("timeline_selected", "#f39c12")
    ∷ ("ready_accept_connections", "#2ecc71")
    ∷ ("ready_readonly", "#3498db")
    ∷ ("entering_standby", "#3498db")
    ∷ ("redo_starts", "#f39c12")
    ∷ ("consistent_recovery", "#3498db")
    ∷ ("streaming_started", "#3498db")
    ∷ []

abbrev pub find {ℓ} : {A : Type ℓ} → String → List (String × A) → Option A
find key [] = none
find key ((name, x) ∷ entries) = let rest = find key entries in if name == key then some x else rest

unfoldable pub get_state_color : String → String
get_state_color state = if state == "" then "#e74c3c" else elim (find state state_colors) [
  | some color ↦ color
  | none ↦
      if starts_with (upper (codes state)) (codes "UP")
      then "#2ecc71"
      else if starts_with (upper (codes state)) (codes "DOWN")
      then "#e74c3c"
      else "#95a5a6"
]

unfoldable pub get_consul_color : String → String → String
get_consul_color event_type new_value =
    if event_type == "leader_key_deleted"
    then "#e74c3c"
    else if (event_type == "leader_key_created" || event_type == "leader_key_change")
        && new_value != ""
    then "#2ecc71"
    else get_state_color new_value

-- The statuses by (backend, server).
unfoldable pub any_up : List ((String × String) × String) → Bool
any_up [] = false
any_up ((key, status) ∷ states) = starts_with (upper (codes status)) (codes "UP") || any_up states

unfoldable pub of_primary : List ((String × String) × String) → List ((String × String) × String)
of_primary states = select (λ s. s.0.0 == "primary_backend") states

unfoldable pub haproxy_aggregate_color : List ((String × String) × String) → String
haproxy_aggregate_color states = elim (of_primary states) as (λ p. String) [
  | [] ↦ "#f39c12"
  | s ∷ more ↦ if any_up (s ∷ more) then "#2ecc71" else "#e74c3c"
]

-- The chain of tests on the text in lower case.
unfoldable pub kind : Text → String
kind e =
    if contains e (codes "timeout") && contains e (codes "connect")
    then "Connect timeout"
    else if contains e (codes "timeout")
    then "Timeout"
    else if contains e (codes "connection refused")
    then "Connection refused"
    else if contains e (codes "resolve") || contains e (codes "name or service not known")
    then "DNS resolution failed"
    else if contains e (codes "shutting down")
    then "Server shutting down"
    else if contains e (codes "closed the connection unexpectedly")
        || contains e (codes "server closed")
    then "Connection closed by server"
    else if contains e (codes "read-write") || contains e (codes "target_session_attrs")
    then "Read-only (not primary)"
    else if contains e (codes "authentication")
    then "Authentication error"
    else "Other"

unfoldable pub categorize_error : Text → String
categorize_error [] = "Unknown"
categorize_error (c ∷ error_text) = kind (lower (c ∷ error_text))

-- The answers of the queries of `resolve_test_run`: the combination of a run in test_runs and in
-- observer_events, and the latest run of each.
pub record Queries : Type 0 where
  pub run_combination : String → Option String
  pub event_combination : String → Option String
  pub latest_run : Option (String × String)
  pub latest_event : Option (String × String)

abbrev pub first_of {ℓ} : {A : Type ℓ} → Option A → Option A → Option A
first_of none b = b
first_of (some a) b = some a

abbrev pub named : String → Option String → Option (String × String)
named id none = none
named id (some combination) = some (id, combination)

-- `none`: sys.exit(1).
unfoldable pub resolve_test_run : Queries → Option String → Option (String × String)
resolve_test_run q none = first_of q.latest_run q.latest_event
resolve_test_run q (some id) =
    if id == ""
    then first_of q.latest_run q.latest_event
    else first_of (named id (q.run_combination id)) (named id (q.event_combination id))
