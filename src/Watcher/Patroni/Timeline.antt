-- ===== src/Watcher/Patroni/Timeline.antt =====
-- What an answer leaves in `PatroniWatcher`, and what becomes of its timeline.
use patroni_routing_bench.Prelude.{
  ℕ, String, ◌≡◌, refl, sym, ap, Bool, false, inl, inr, Option, none, some, List, [], ◌∷◌, ◌++◌,
  arith, ◌==◌, ◌!=◌, nat_eq, bool_eq, option_eq, string_eq, eq_of_beq, bne_of_eq, Bool-cases,
  is_some, if◌then◌else◌, if_false,
}
use patroni_routing_bench.Prelude.Text.{show}
use patroni_routing_bench.Emitter.{Emission}
use patroni_routing_bench.Watcher.Loop.{polls}
use patroni_routing_bench.Watcher.Patroni.{
  PatroniWatcher, Status, answered, get_or_unknown, str_of, detect_role, detect_state,
  detect_timeline, detect, poll_state, poll,
}

-- The watcher holds what the answer says.
abbrev pub HasSeen : Status → PatroniWatcher → Type 0
HasSeen st w =
    (w.last_role ≡ some (get_or_unknown st.role))
    × (w.last_state ≡ some (get_or_unknown st.state))
    × (w.last_timeline ≡ st.timeline)

module _ (b : Bool) (st : Status) (w : PatroniWatcher) where
  detect-HasSeen : HasSeen st (detect b st w).0
  unfolding detect detect_role detect_state detect_timeline
  detect-HasSeen =
      let w₁ = (detect_role b st w).0 in
      let w₂ = (detect_state b st w₁).0 in
      ground (
        arith,
        eq_of_beq (some (get_or_unknown st.role)) w.last_role,
        eq_of_beq (some (get_or_unknown st.state)) w.last_state,
        eq_of_beq st.timeline w.last_timeline,
      )

  detect_seen : HasSeen st w → detect b st w ≡ (w, [])
  unfolding detect
  detect_seen (role, state, timeline) = rw (by_role, by_state, by_timeline)
    where
      by_role : detect_role b st w ≡ (w, [])
      by_role = unfold detect_role in if_false _ _ _ (bne_of_eq _ w.last_role (sym role))

      by_state : detect_state b st w ≡ (w, [])
      by_state = unfold detect_state in if_false _ _ _ (bne_of_eq _ w.last_state (sym state))

      by_timeline : detect_timeline st w ≡ (w, [])
      by_timeline =
          unfold detect_timeline in if_false _ _ _ (bne_of_eq st.timeline _ (sym timeline))

-- An answer that repeats the one before it emits nothing and changes nothing.
pub poll_idempotent :
    (st : Status) (w : PatroniWatcher)
    → let after = (poll (answered st) w).state in
      ((poll (answered st) after).emissions ≡ []) × ((poll (answered st) after).state ≡ after)
unfolding poll poll_state
poll_idempotent st w =
    let same = detect_seen false st (detect false st w).0 (detect-HasSeen false st w) in
    (
      ap (λ (d : PatroniWatcher × List Emission). d.1) same,
      ap (λ (d : PatroniWatcher × List Emission). d.0) same,
    )

-- The changes that the timeline_change events report.
abbrev pub timelines : List Emission → List (String × String)
timelines [] = []
timelines (e ∷ es) =
    let rest = timelines es in
    if e.event_type == "timeline_change" then (e.old_value, e.new_value) ∷ rest else rest

timelines-append : (es fs : List Emission) → timelines (es ++ fs) ≡ timelines es ++ timelines fs
timelines-append [] fs = refl
timelines-append (e ∷ es) fs = elim (Bool-cases (e.event_type == "timeline_change")) [
  | inl t ↦ simp (t, timelines-append es fs)
  | inr f ↦ simp (f, timelines-append es fs)
]

-- What is reported of a timeline that was `last` and is `now`.
abbrev timeline_report : Option ℕ → Option ℕ → List (String × String)
timeline_report last now =
    if now != last then (if is_some last then (str_of last, str_of now) ∷ [] else []) else []

module _ (b : Bool) (st : Status) (w : PatroniWatcher) where
  timelines-detect_role :
      (timelines (detect_role b st w).1 ≡ [])
      × ((detect_role b st w).0.last_timeline ≡ w.last_timeline)
  unfolding detect_role
  timelines-detect_role = ground arith

  timelines-detect_state :
      (timelines (detect_state b st w).1 ≡ [])
      × ((detect_state b st w).0.last_timeline ≡ w.last_timeline)
  unfolding detect_state
  timelines-detect_state = ground arith

  timelines-detect_timeline :
      timelines (detect_timeline st w).1 ≡ timeline_report w.last_timeline st.timeline
  unfolding detect_timeline
  timelines-detect_timeline = ground arith

timelines-poll :
    (st : Status) (w : PatroniWatcher)
    → timelines (poll (answered st) w).emissions ≡ timeline_report w.last_timeline st.timeline
unfolding poll poll_state detect
timelines-poll st w =
    let w₁ = (detect_role false st w).0 in
    let w₂ = (detect_state false st w₁).0 in
    let (none₁, same₁) = timelines-detect_role false st w in
    let (none₂, same₂) = timelines-detect_state false st w₁ in
    rw (
      timelines-append,
      timelines-append,
      none₁,
      none₂,
      timelines-detect_timeline false st w₂,
      same₂,
      same₁,
    )

last_timeline-poll :
    (st : Status) (w : PatroniWatcher) → (poll (answered st) w).state.last_timeline ≡ st.timeline
unfolding poll poll_state
last_timeline-poll st w = (detect-HasSeen false st w).2

-- A promotion from timeline `m` to timeline `n` during which one answer has no timeline is reported
-- as a change from `m` to "None", and the change to `n` is not reported.
pub timeline_lost :
    (m n : ℕ) (without : Status) (promoted : Status) (w : PatroniWatcher)
    → w.last_timeline ≡ some m
    → without.timeline ≡ none
    → promoted.timeline ≡ some n
    → timelines (polls poll (answered without ∷ answered promoted ∷ []) w).1 ≡ (show m, "None") ∷ []
unfolding str_of
timeline_lost m n without promoted w p q r =
    let w' = (poll (answered without) w).state in
    let now = last_timeline-poll without w in
    simp (timelines-append, timelines-poll without w, timelines-poll promoted w', now, p, q, r)
