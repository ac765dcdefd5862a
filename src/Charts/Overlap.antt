-- ===== src/Charts/Overlap.antt =====
-- `extract_overlap_phases` of generate_charts.py: the phases measured one by one, which may overlap.
pub mod Spans
pub mod Chart
use patroni_routing_bench.Prelude.{
  ℕ, zero, suc, ◌+◌, ◌-◌, ◌*◌, ◌/◌, ◌%◌, ◌≤◌, ◌<◌, String, ◌≡◌, ◌≢◌, refl, sym, ap, ◌∙◌, Bool, true,
  false, not, ◌&&◌, ◌||◌, ◌⊎◌, ◌↔◌, inl, inr, Option, none, some, List, [], ◌∷◌, ◌++◌, map,
  append_assoc, append-nil, length, take, drop, head?, get_last?, select, arith, leb, ltb, ◌==◌,
  ◌!=◌, nat_eq, bool_eq, option_eq, string_eq, eq_of_beq, beq_refl, ne_of_bne, bne_of_eq,
  Bool-cases, Option-cases, is_some, if◌then◌else◌, if_true, if_false, All, All-append, In, In_left,
  In_right, In-append, In-select, All-select, All-none, length-append, take-append-drop,
}
use patroni_routing_bench.Charts.{
  ObserverEvent, ClientEvent, min_ts, max_ts, is_failure, succeeds_after, recovery_after, first_ts,
  last_ts, from_ts, mentions_primary,
}
use patroni_routing_bench.Prelude.Text.{Text, codes, contains, starts_with, upper}

pub record Span : Type 0 where
  pub name : String
  pub start : ℕ
  pub end : ℕ
  pub instant : Bool

-- `str(value).upper().startswith("UP")`; the text of a missing value is "None".
unfoldable pub is_up : Option String → Bool
is_up none = starts_with (upper (codes "None")) (codes "UP")
is_up (some value) = starts_with (upper (codes value)) (codes "UP")

-- `_add`
abbrev pub add : String → Option ℕ → Option ℕ → List Span
add name none end = []
add name (some s) none = []
add name (some s) (some e) = record { name = name; start = s; end = e; instant = s == e } ∷ []

-- The rows that mention the primary's backend, or all where none does.
abbrev pub prefer_primary : List ObserverEvent → List ObserverEvent → List ObserverEvent
prefer_primary up [] = up
prefer_primary up (e ∷ es) = e ∷ es

unfoldable pub up_events : List ObserverEvent → List ObserverEvent
up_events after =
    let up = select (λ e. is_up e.new_value) after in
    prefer_primary up (select (λ e. mentions_primary e.detail) up)

abbrev pub of_type : String → List ObserverEvent → List ObserverEvent
of_type event_type obs = select (λ e. e.event_type == event_type) obs

unfoldable pub extract_overlap_phases : List ObserverEvent → List ClientEvent → List Span
extract_overlap_phases obs cli =
    let fail = select is_failure cli in
    let first_failure = min_ts fail in
    let last_failure = max_ts fail in
    let first_recovery = recovery_after last_failure cli in
    let leader_deleted = last_ts (of_type "leader_key_deleted" obs) in
    let pg_start = last_ts (of_type "pg_promote_requested" obs) in
    let pg_end = first_ts (from_ts pg_start (of_type "pg_ready_accept_connections" obs)) in
    let after = from_ts first_failure (of_type "backend_state_change" obs) in
    let ha_start = first_ts after in
    let ha_end = first_ts (up_events after) in
    add "DCS Detection" first_failure leader_deleted
    ++ (add "Patroni Promotion" pg_start pg_end
        ++ (add "Routing Detection" ha_start ha_end
            ++ add "Client Recovery" last_failure first_recovery))
