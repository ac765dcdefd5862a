-- ===== src/Watcher/Patroni/Events.antt =====
-- The events of `PatroniWatcher` against the node's role and state.
use patroni_routing_bench.Prelude.{
  String, ◌≡◌, refl, sym, Bool, true, false, ◌||◌, inl, inr, Option, none, some, List, ◌++◌, arith,
  ◌==◌, ◌!=◌, nat_eq, bool_eq, option_eq, string_eq, eq_of_beq, ne_of_bne, Bool-cases, is_some,
  if◌then◌else◌,
}
use patroni_routing_bench.Watcher.{or_else}
use patroni_routing_bench.Watcher.Loop.{polls}
use patroni_routing_bench.Watcher.Log.{View, Shows, Log, Log-append, Log-polls}
use patroni_routing_bench.Watcher.Patroni.{
  PatroniWatcher, Status, Reply, unreachable, invalid, answered, init, get_or_unknown, detect_role,
  detect_state, detect_timeline, detect, poll_state, setup, poll,
}

abbrev pub role_view : View
role_view e = if e.event_type == "role_change" then some (some e.new_value) else none

abbrev pub state_view : View
state_view e = if e.event_type == "node_state_change" then some (some e.new_value) else none

-- A value is known once it was seen; the first poll of all emits it in any case.
abbrev pub IsKnown : Bool → Option String → Type 0
IsKnown emit_initial v = (is_some v || emit_initial) ≡ true

pub Shows-or_none : (v : Option String) → Shows v (or_else v "none")
Shows-or_none none = tt
Shows-or_none (some s) = elim (Bool-cases (s == "")) [
  | inl e ↦ inl (eq_of_beq s "" e)
  | inr f ↦ inr (rw f)
]

module _ (b : Bool) (st : Status) (w : PatroniWatcher) where
  role-detect_role :
      IsKnown b w.last_role
      → Log role_view w.last_role (detect_role b st w).1 (detect_role b st w).0.last_role
  unfolding detect_role
  role-detect_role k = elim (Bool-cases (some (get_or_unknown st.role) != w.last_role)) [
    | inr same ↦ simp same
    | inl new ↦ simp (new, k) (Shows-or_none w.last_role, ne_of_bne _ w.last_role new, refl)
  ]

  state-detect_role :
      Log state_view w.last_state (detect_role b st w).1 (detect_role b st w).0.last_state
  unfolding detect_role
  state-detect_role = elim (Bool-cases (some (get_or_unknown st.role) != w.last_role)) [
    | inr same ↦ simp same
    | inl new ↦ elim (Bool-cases (is_some w.last_role || b)) [
      | inl k ↦ simp (new, k)
      | inr k ↦ simp (new, k)
    ]
  ]

  state-detect_state :
      IsKnown b w.last_state
      → Log state_view w.last_state (detect_state b st w).1 (detect_state b st w).0.last_state
  unfolding detect_state
  state-detect_state k = elim (Bool-cases (some (get_or_unknown st.state) != w.last_state)) [
    | inr same ↦ simp same
    | inl new ↦ simp (new, k) (Shows-or_none w.last_state, ne_of_bne _ w.last_state new, refl)
  ]

  role-detect_state :
      Log role_view w.last_role (detect_state b st w).1 (detect_state b st w).0.last_role
  unfolding detect_state
  role-detect_state = elim (Bool-cases (some (get_or_unknown st.state) != w.last_state)) [
    | inr same ↦ simp same
    | inl new ↦ elim (Bool-cases (is_some w.last_state || b)) [
      | inl k ↦ simp (new, k)
      | inr k ↦ simp (new, k)
    ]
  ]

  role-detect_timeline :
      Log role_view w.last_role (detect_timeline st w).1 (detect_timeline st w).0.last_role
  unfolding detect_timeline
  role-detect_timeline = elim (Bool-cases (st.timeline != w.last_timeline)) [
    | inr same ↦ simp same
    | inl new ↦ elim (Bool-cases (is_some w.last_timeline)) [
      | inl k ↦ simp (new, k)
      | inr k ↦ simp (new, k)
    ]
  ]

  state-detect_timeline :
      Log state_view w.last_state (detect_timeline st w).1 (detect_timeline st w).0.last_state
  unfolding detect_timeline
  state-detect_timeline = elim (Bool-cases (st.timeline != w.last_timeline)) [
    | inr same ↦ simp same
    | inl new ↦ elim (Bool-cases (is_some w.last_timeline)) [
      | inl k ↦ simp (new, k)
      | inr k ↦ simp (new, k)
    ]
  ]

  last_state-detect_role : (detect_role b st w).0.last_state ≡ w.last_state
  unfolding detect_role
  last_state-detect_role = ground arith

pub Shows-or_unknown : (v : Option String) → Shows v (or_else v "unknown")
Shows-or_unknown none = tt
Shows-or_unknown (some s) = elim (Bool-cases (s == "")) [
  | inl e ↦ inl (eq_of_beq s "" e)
  | inr f ↦ inr (rw f)
]

module _ (b : Bool) (w : PatroniWatcher) where
  role-poll_state :
      (r : Reply)
      → IsKnown b w.last_role
      → Log role_view w.last_role (poll_state b r w).emissions (poll_state b r w).state.last_role
  unfolding poll_state detect
  role-poll_state (unreachable e) k = elim (Bool-cases (w.last_state != some "unreachable")) [
    | inl new ↦ simp new
    | inr same ↦ simp same
  ]
  role-poll_state invalid k = refl
  role-poll_state (answered st) k =
      let w₁ = (detect_role b st w).0 in
      let w₂ = (detect_state b st w₁).0 in
      Log-append role_view w.last_role w₁.last_role _ (detect_role b st w).1 _
        (role-detect_role b st w k)
        (Log-append role_view w₁.last_role w₂.last_role _ (detect_state b st w₁).1 _
          (role-detect_state b st w₁) (role-detect_timeline b st w₂))

  state-poll_state :
      (r : Reply)
      → IsKnown b w.last_state
      → Log state_view w.last_state (poll_state b r w).emissions (poll_state b r w).state.last_state
  unfolding poll_state detect
  state-poll_state (unreachable e) k = elim (Bool-cases (w.last_state != some "unreachable")) [
    | inl new ↦
        simp new (Shows-or_unknown w.last_state, (λ p. ne_of_bne w.last_state _ new (sym p)), refl)
    | inr same ↦ simp same
  ]
  state-poll_state invalid k = refl
  state-poll_state (answered st) k =
      let w₁ = (detect_role b st w).0 in
      let w₂ = (detect_state b st w₁).0 in
      Log-append state_view w.last_state w₁.last_state _ (detect_role b st w).1 _
        (state-detect_role b st w)
        (Log-append state_view w₁.last_state w₂.last_state _ (detect_state b st w₁).1 _
          (state-detect_state b st w₁ (rw (last_state-detect_role b st w) k))
          (state-detect_timeline b st w₂))

-- Both values have been seen.
abbrev pub IsSettled : PatroniWatcher → Type 0
IsSettled w = (is_some w.last_role ≡ true) × (is_some w.last_state ≡ true)

module _ (b : Bool) (w : PatroniWatcher) where
  detect-IsSettled : (st : Status) → IsSettled (detect b st w).0
  unfolding detect detect_role detect_state detect_timeline
  detect-IsSettled st = ground arith

  poll_state-IsSettled : (r : Reply) → IsSettled w → IsSettled (poll_state b r w).state
  unfolding poll_state
  poll_state-IsSettled (unreachable e) h = ground arith
  poll_state-IsSettled invalid h = h
  poll_state-IsSettled (answered st) h = detect-IsSettled st

pub known : (b : Bool) (v : Option String) → is_some v ≡ true → IsKnown b v
known b v h = ground arith

module _ (w : PatroniWatcher) (settled : IsSettled w) where
  -- Once a role and a state are known, the role_change events of any further polls lead from the role
  -- known before to the role known after them: each shows the role that it replaces and names another,
  -- and the last one names the role that the watcher holds. So do the node_state_change events for the
  -- state, where a node that cannot be reached counts as the state "unreachable".
  pub polls-Log :
      (replies : List Reply)
      → Log role_view w.last_role (polls poll replies w).1 (polls poll replies w).0.last_role
        × Log state_view w.last_state (polls poll replies w).1 (polls poll replies w).0.last_state
  unfolding poll
  polls-Log replies = (
    Log-polls role_view (λ v. v.last_role) IsSettled poll
        (λ r v h. (
          poll_state-IsSettled false v r h,
          role-poll_state false v r (known false v.last_role h.0),
        ))
        replies w settled,
    Log-polls state_view (λ v. v.last_state) IsSettled poll
        (λ r v h. (
          poll_state-IsSettled false v r h,
          state-poll_state false v r (known false v.last_state h.1),
        ))
        replies w settled,
  )

-- A watcher whose first answer came through reports from nothing on: the events of the setup and of
-- all polls together lead from no role and no state to those that the watcher holds in the end.
pub state-Log :
    (st : Status) (replies : List Reply)
    → let first = setup (answered st) init in
      let end = polls poll replies first.state in
      Log role_view none (first.emissions ++ end.1) end.0.last_role
      × Log state_view none (first.emissions ++ end.1) end.0.last_state
unfolding setup init
state-Log st replies =
    let first = poll_state true (answered st) init in
    let settled : IsSettled first.state = unfold poll_state in detect-IsSettled true init st in
    let (roles, states) = polls-Log first.state settled replies in
    (
      Log-append role_view none first.state.last_role _ first.emissions _
          (role-poll_state true init (answered st) refl) roles,
      Log-append state_view none first.state.last_state _ first.emissions _
          (state-poll_state true init (answered st) refl) states,
    )
