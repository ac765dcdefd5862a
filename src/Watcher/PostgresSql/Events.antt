-- ===== src/Watcher/PostgresSql/Events.antt =====
-- The events of `PostgresSqlWatcher` against the node's reachability and role.
use patroni_routing_bench.Prelude.{
  String, ◌≡◌, refl, Bool, true, false, ◌||◌, inl, inr, Option, none, some, arith, ◌==◌, ◌!=◌,
  nat_eq, bool_eq, option_eq, string_eq, ne_of_bne, Bool-cases, is_some, if◌then◌else◌,
}
use patroni_routing_bench.Watcher.Log.{View, Log, Log-append}
use patroni_routing_bench.Watcher.PostgresSql.{
  PostgresSqlWatcher, Answer, Reply, answered, failed, detect_ready, recovery_events,
  detect_recovery, detect_timeline, detect, lose, poll_state,
}

abbrev pub reach_view : View
reach_view e =
    if e.event_type == "pg_ready_accept_connections" || e.event_type == "pg_connection_lost"
    then some (some e.new_value)
    else none

abbrev pub role_view : View
role_view e =
    if e.event_type == "pg_promote_detected"
      || (e.event_type == "pg_demote_detected" || e.event_type == "pg_state_detected")
    then some (some e.new_value)
    else none

abbrev pub reach : Option Bool → Option String
reach none = none
reach (some true) = some "accepting_connections"
reach (some false) = some "unreachable"

abbrev pub role : Option Bool → Option String
role none = none
role (some true) = some "in_recovery"
role (some false) = some "primary"

abbrev pub IsKnown : Bool → Option Bool → Type 0
IsKnown emit_initial v = (is_some v || emit_initial) ≡ true

module _ (a : Answer) where
  reach-detect_ready :
      (l : Option Bool) (w : PostgresSqlWatcher)
      → w.last_reachable ≡ l
      → is_some l ≡ true
      → Log reach_view
          (reach w.last_reachable)
          (detect_ready a w).1
          (reach (detect_ready a w).0.last_reachable)
  unfolding detect_ready
  reach-detect_ready none w h k = absurd (ground arith)
  reach-detect_ready (some true) w h k = simp h
  reach-detect_ready (some false) w h k =
      simp h (inr refl, ne_of_bne (reach (some true)) (reach (some false)) refl, refl)

  role-detect_ready :
      (w : PostgresSqlWatcher)
      → Log role_view
          (role w.last_in_recovery)
          (detect_ready a w).1
          (role (detect_ready a w).0.last_in_recovery)
  unfolding detect_ready
  role-detect_ready w = elim (Bool-cases (w.last_reachable == some false)) [
    | inl back ↦ simp back
    | inr still ↦ simp still
  ]

  role-detect_recovery :
      (b now : Bool) (l : Option Bool) (w : PostgresSqlWatcher)
      → a.in_recovery ≡ now
      → w.last_in_recovery ≡ l
      → IsKnown b l
      → Log role_view
          (role w.last_in_recovery)
          (detect_recovery b a w).1
          (role (detect_recovery b a w).0.last_in_recovery)
  unfolding detect_recovery recovery_events
  role-detect_recovery true true none w p h k = simp (p, h) (tt, (cc), refl)
  role-detect_recovery true false none w p h k = simp (p, h) (tt, (cc), refl)
  role-detect_recovery false now none w p h k = absurd (ground arith)
  role-detect_recovery b true (some true) w p h k = simp (p, h)
  role-detect_recovery b false (some false) w p h k = simp (p, h)
  role-detect_recovery b true (some false) w p h k =
      simp (p, h) (inr refl, ne_of_bne (role (some true)) (role (some false)) refl, refl)
  role-detect_recovery b false (some true) w p h k =
      simp (p, h) (inr refl, ne_of_bne (role (some false)) (role (some true)) refl, refl)

  reach-detect_recovery :
      (b now : Bool) (l : Option Bool) (w : PostgresSqlWatcher)
      → a.in_recovery ≡ now
      → w.last_in_recovery ≡ l
      → Log reach_view
          (reach w.last_reachable)
          (detect_recovery b a w).1
          (reach (detect_recovery b a w).0.last_reachable)
  unfolding detect_recovery recovery_events
  reach-detect_recovery true true none w p h = simp (p, h)
  reach-detect_recovery true false none w p h = simp (p, h)
  reach-detect_recovery false now none w p h = simp (p, h)
  reach-detect_recovery b true (some true) w p h = simp (p, h)
  reach-detect_recovery b false (some false) w p h = simp (p, h)
  reach-detect_recovery b true (some false) w p h = simp (p, h)
  reach-detect_recovery b false (some true) w p h = simp (p, h)

  role-detect_timeline :
      (w : PostgresSqlWatcher)
      → Log role_view
          (role w.last_in_recovery)
          (detect_timeline a w).1
          (role (detect_timeline a w).0.last_in_recovery)
  unfolding detect_timeline
  role-detect_timeline w = elim (Bool-cases (some a.timeline != w.last_timeline)) [
    | inr same ↦ simp same
    | inl new ↦ elim (Bool-cases (is_some w.last_timeline)) [
      | inl k ↦ simp (new, k)
      | inr k ↦ simp (new, k)
    ]
  ]

  reach-detect_timeline :
      (w : PostgresSqlWatcher)
      → Log reach_view
          (reach w.last_reachable)
          (detect_timeline a w).1
          (reach (detect_timeline a w).0.last_reachable)
  unfolding detect_timeline
  reach-detect_timeline w = elim (Bool-cases (some a.timeline != w.last_timeline)) [
    | inr same ↦ simp same
    | inl new ↦ elim (Bool-cases (is_some w.last_timeline)) [
      | inl k ↦ simp (new, k)
      | inr k ↦ simp (new, k)
    ]
  ]

  in_recovery-detect_ready :
      (w : PostgresSqlWatcher) → (detect_ready a w).0.last_in_recovery ≡ w.last_in_recovery
  unfolding detect_ready
  in_recovery-detect_ready w = refl

module _ (e : String) where
  reach-lose :
      (l : Option Bool) (w : PostgresSqlWatcher)
      → w.last_reachable ≡ l
      → is_some l ≡ true
      → Log reach_view (reach w.last_reachable) (lose e w).1 (reach (lose e w).0.last_reachable)
  unfolding lose
  reach-lose none w h k = absurd (ground arith)
  reach-lose (some false) w h k = simp h
  reach-lose (some true) w h k =
      simp h (inr refl, ne_of_bne (reach (some false)) (reach (some true)) refl, refl)

  role-lose :
      (w : PostgresSqlWatcher)
      → Log role_view (role w.last_in_recovery) (lose e w).1 (role (lose e w).0.last_in_recovery)
  unfolding lose
  role-lose w = elim (Bool-cases (w.last_reachable != some false)) [
    | inr same ↦ simp same
    | inl new ↦ elim (Bool-cases (is_some w.last_reachable)) [
      | inl k ↦ simp (new, k)
      | inr k ↦ simp (new, k)
    ]
  ]

module _ (b : Bool) (w : PostgresSqlWatcher) where
  pub reach-poll_state :
      (r : Reply)
      → is_some w.last_reachable ≡ true
      → Log reach_view
          (reach w.last_reachable)
          (poll_state b r w).emissions
          (reach (poll_state b r w).state.last_reachable)
  unfolding poll_state detect
  reach-poll_state (answered a) k =
      let w₁ = (detect_ready a w).0 in
      let w₂ = (detect_recovery b a w₁).0 in
      Log-append reach_view (reach w.last_reachable) (reach w₁.last_reachable) _
        (detect_ready a w).1 _ (reach-detect_ready a w.last_reachable w refl k)
        (Log-append reach_view (reach w₁.last_reachable) (reach w₂.last_reachable) _
          (detect_recovery b a w₁).1 _
          (reach-detect_recovery a b a.in_recovery w₁.last_in_recovery w₁ refl refl)
          (reach-detect_timeline a w₂))
  reach-poll_state (failed e) k = reach-lose e w.last_reachable w refl k

  pub role-poll_state :
      (r : Reply)
      → IsKnown b w.last_in_recovery
      → Log role_view
          (role w.last_in_recovery)
          (poll_state b r w).emissions
          (role (poll_state b r w).state.last_in_recovery)
  unfolding poll_state detect
  role-poll_state (answered a) k =
      let w₁ = (detect_ready a w).0 in
      let w₂ = (detect_recovery b a w₁).0 in
      Log-append role_view (role w.last_in_recovery) (role w₁.last_in_recovery) _
        (detect_ready a w).1 _ (role-detect_ready a w)
        (Log-append role_view (role w₁.last_in_recovery) (role w₂.last_in_recovery) _
          (detect_recovery b a w₁).1 _
          (role-detect_recovery a b a.in_recovery w₁.last_in_recovery w₁ refl refl
            (rw (in_recovery-detect_ready a w) k))
          (role-detect_timeline a w₂))
  role-poll_state (failed e) k = role-lose e w
