-- ===== src/Watcher/PostgresSql/Session.antt =====
-- The events of `PostgresSqlWatcher` from its start on, over any sequence of answers.
use patroni_routing_bench.Prelude.{
  ◌≡◌, refl, Bool, true, false, inl, inr, Option, none, some, List, ◌++◌, arith, ◌!=◌, nat_eq,
  bool_eq, option_eq, string_eq, bne_of_eq, Bool-cases, Option-cases, is_some,
}
use patroni_routing_bench.Emitter.{Emission}
use patroni_routing_bench.Watcher.{Polled}
use patroni_routing_bench.Watcher.Loop.{polls}
use patroni_routing_bench.Watcher.Log.{Log, Log-append, Log-polls}
use patroni_routing_bench.Watcher.PostgresSql.{
  PostgresSqlWatcher, Answer, Reply, answered, failed, init, detect_ready, detect_recovery,
  detect_timeline, detect, lose, poll_state, setup, poll,
}
use patroni_routing_bench.Watcher.PostgresSql.Events.{
  reach_view, role_view, reach, role, IsKnown, reach-poll_state, role-poll_state,
}

module _ (b : Bool) (w : PostgresSqlWatcher) where
  reach_known : (r : Reply) → is_some (poll_state b r w).state.last_reachable ≡ true
  unfolding poll_state detect detect_ready detect_recovery detect_timeline lose
  reach_known (answered a) = elim (Bool-cases (some a.in_recovery != w.last_in_recovery)) [
    | inl p ↦ elim (Bool-cases (some a.timeline != w.last_timeline)) [
      | inl q ↦ simp (p, q)
      | inr q ↦ simp (p, q)
    ]
    | inr p ↦ elim (Bool-cases (some a.timeline != w.last_timeline)) [
      | inl q ↦ simp (p, q)
      | inr q ↦ simp (p, q)
    ]
  ]
  reach_known (failed e) = elim (Option-cases w.last_reachable) [
    | inl p ↦ simp p
    | inr (true, p) ↦ simp p
    | inr (false, p) ↦ simp p
  ]

  role_known :
      (r : Reply)
      → is_some w.last_in_recovery ≡ true
      → is_some (poll_state b r w).state.last_in_recovery ≡ true
  unfolding poll_state detect detect_ready detect_recovery detect_timeline lose
  role_known (answered a) k = elim (Bool-cases (some a.in_recovery != w.last_in_recovery)) [
    | inl p ↦ elim (Bool-cases (some a.timeline != w.last_timeline)) [
      | inl q ↦ simp (p, q)
      | inr q ↦ simp (p, q)
    ]
    | inr p ↦ elim (Bool-cases (some a.timeline != w.last_timeline)) [
      | inl q ↦ simp (p, q, k)
      | inr q ↦ simp (p, q, k)
    ]
  ]
  role_known (failed e) k = elim (Bool-cases (w.last_reachable != some false)) [
    | inl p ↦ simp (p, k)
    | inr p ↦ simp (p, k)
  ]

seen_before : (v : Bool) (l : Option Bool) → (some v != l) ≡ false → is_some l ≡ true
seen_before v none p = absurd (ground (arith, bne_of_eq (some v) none))
seen_before v (some u) p = refl

role_first :
    (a : Answer) (w : PostgresSqlWatcher)
    → is_some (poll_state true (answered a) w).state.last_in_recovery ≡ true
unfolding poll_state detect detect_ready detect_recovery detect_timeline
role_first a w = elim (Bool-cases (some a.in_recovery != w.last_in_recovery)) [
  | inl p ↦ elim (Bool-cases (some a.timeline != w.last_timeline)) [
    | inl q ↦ simp (p, q)
    | inr q ↦ simp (p, q)
  ]
  | inr p ↦ elim (Bool-cases (some a.timeline != w.last_timeline)) [
    | inl q ↦ simp (p, q, seen_before a.in_recovery w.last_in_recovery p)
    | inr q ↦ simp (p, q, seen_before a.in_recovery w.last_in_recovery p)
  ]
]

IsKnown-later : (v : Option Bool) → is_some v ≡ true → IsKnown false v
IsKnown-later v h = ground arith

abbrev pub start : Reply → Polled PostgresSqlWatcher
start r = setup r init

abbrev pub session : Reply → List Reply → PostgresSqlWatcher × List Emission
session r replies = polls poll replies (start r).state

-- Whatever the first answer was, the events on reachability lead from the state that it showed to the
-- one that the watcher holds in the end, across any answers and errors in between.
pub reach-Log :
    (r : Reply) (replies : List Reply)
    → Log reach_view
        (reach (start r).state.last_reachable)
        (session r replies).1
        (reach (session r replies).0.last_reachable)
unfolding setup poll
reach-Log r replies =
    Log-polls reach_view (λ w. reach w.last_reachable) (λ w. is_some w.last_reachable ≡ true)
      (poll_state false) (λ i w k. (reach_known false w i, reach-poll_state false w i k)) replies
      (start r).state (reach_known true init r)

-- If the first answer came, the events on the role lead from no role at all to the role that the
-- watcher holds in the end: a promotion or a demotion that an outage hides is reported after it.
pub role-Log :
    (a : Answer) (replies : List Reply)
    → Log role_view none
        ((start (answered a)).emissions ++ (session (answered a) replies).1)
        (role (session (answered a) replies).0.last_in_recovery)
unfolding setup poll init
role-Log a replies =
    let first = start (answered a) in
    Log-append role_view none (role first.state.last_in_recovery) _ first.emissions _
      (role-poll_state true init (answered a) refl)
      (Log-polls role_view (λ w. role w.last_in_recovery) (λ w. is_some w.last_in_recovery ≡ true)
        (poll_state false)
        (λ i w k.
          (role_known false w i k, role-poll_state false w i (IsKnown-later w.last_in_recovery k)))
        replies first.state (role_first a init))
