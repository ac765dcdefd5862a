-- ===== src/Charts/Milestones.antt =====
-- `extract_milestones` of generate_charts.py.
use patroni_routing_bench.Prelude.{
  ℕ, Bool, not, ◌&&◌, ◌||◌, Option, some, List, select, ◌==◌, nat_eq, bool_eq, option_eq, string_eq,
}
use patroni_routing_bench.Charts.{
  ObserverEvent, ClientEvent, min_ts, is_failure, recovery_after, first_ts, last_ts, from_ts,
  mentions_primary,
}

pub record Milestones : Type 0 where
  pub first_client_failure : Option ℕ
  pub first_recovery : Option ℕ
  pub consul_leader_deleted : Option ℕ
  pub patroni_promoted : Option ℕ
  pub haproxy_up : Option ℕ
  pub pg_promoted : Option ℕ

abbrev pub is_promotion : ObserverEvent → Bool
is_promotion e =
    e.event_type == "role_change"
    && (e.new_value == some "primary"
        && not (e.old_value == some "none" || e.old_value == some "uninitialized"))

abbrev pub is_backend_up : ObserverEvent → Bool
is_backend_up e =
    e.event_type == "backend_state_change"
    && (e.new_value == some "UP" && mentions_primary e.detail)

abbrev pub is_pg_promotion : ObserverEvent → Bool
is_pg_promotion e = e.event_type == "pg_promote_detected" || e.event_type == "pg_promote_requested"

unfoldable pub extract_milestones : List ObserverEvent → List ClientEvent → Milestones
extract_milestones obs cli =
    let first_client_failure = min_ts (select is_failure cli) in
    record {
      first_client_failure = first_client_failure;
      first_recovery = recovery_after first_client_failure cli;
      consul_leader_deleted = last_ts (select (λ e. e.event_type == "leader_key_deleted") obs);
      patroni_promoted = last_ts (select is_promotion obs);
      haproxy_up = first_ts (from_ts first_client_failure (select is_backend_up obs));
      pg_promoted = last_ts (select is_pg_promotion obs);
    }
