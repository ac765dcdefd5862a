-- ===== src/Heartbeat/Invariant.antt =====
-- What holds of the client between two rounds of the loop, and what the UPDATE of a recovery tags.
use patroni_routing_bench.Prelude.{
  ℕ, ◌≤◌, ◌≡◌, refl, Bool, true, false, ◌⊎◌, inl, inr, Option, none, some, List, [], ◌∷◌, map,
  arith, nat_eq, bool_eq, option_eq, string_eq, Option-cases, is_some, not, ◌||◌, ltb,
}
use patroni_routing_bench.Heartbeat.{
  QueryResult, Client, ObserverRow, State, Round, attempt_query, tag_row, on_success, on_failure,
  handle_auto_test_run, count_result, record_result, flush_if_full, shutdown, cycle, loop,
}
use patroni_routing_bench.Heartbeat.Rounds.{
  settled, settled-flush_if_full, cycles, served, loop-served, handle_cases,
}
use patroni_routing_bench.Emitter.{Delivery}
use native.Mathlib.Decide.{dec_le}

pub record IsCoherent (c : Client) : Type 0 where
  -- `_failover_start_ts.isoformat()` is never called on None
  pub started : (not c.in_failover || is_some c.failover_start_ts) ≡ true
  pub recovering : (not c.in_failover || ltb c.consecutive_successes 3) ≡ true
  pub counted : (not c.in_failover || ltb 0 c.failover_count) ≡ true
  pub labelled : c.current_test_run_id ≡ c.test_run_id

IsCoherent-settled : (c : Client) → IsCoherent (settled c) → IsCoherent c
IsCoherent-settled c h = record {
  started = h.started;
  recovering = h.recovering;
  counted = h.counted;
  labelled = h.labelled;
}

settled-IsCoherent : (c : Client) → IsCoherent c → IsCoherent (settled c)
settled-IsCoherent c h = record {
  started = h.started;
  recovering = h.recovering;
  counted = h.counted;
  labelled = h.labelled;
}

IsCoherent-on_success :
    (b : Bool) (now : ℕ) (s : State) → IsCoherent s.client → IsCoherent (on_success b now s).client
unfolding on_success
IsCoherent-on_success b now s h = ground arith

IsCoherent-on_failure :
    (b : Bool) (now : ℕ) (s : State) → IsCoherent s.client → IsCoherent (on_failure b now s).client
unfolding on_failure
IsCoherent-on_failure b now s h = ground arith

IsCoherent-handle :
    (r : Round) (q : QueryResult) (s : State)
    → IsCoherent s.client
    → IsCoherent (handle_auto_test_run r q s).client
IsCoherent-handle r q s h =
    handle_cases (λ t. IsCoherent t.client) r q s
      (λ _ _. IsCoherent-on_success r.events_tagged q.wall_ts s h)
      (λ _ _. IsCoherent-on_failure r.run_inserted q.wall_ts s h) (λ _. h)

IsCoherent-count_result : (b : Bool) (c : Client) → IsCoherent c → IsCoherent (count_result b c)
unfolding count_result
IsCoherent-count_result b c h = ground arith

IsCoherent-shutdown :
    (b : Bool) (s : State) → IsCoherent s.client → IsCoherent (shutdown b s).client
unfolding shutdown
IsCoherent-shutdown b s h = ground arith

IsCoherent-flush_if_full :
    (d : Delivery) (s : State) → IsCoherent s.client → IsCoherent (flush_if_full d s).client
IsCoherent-flush_if_full d s h =
    IsCoherent-settled (flush_if_full d s).client
      (rw (settled-flush_if_full d s) (settled-IsCoherent s.client h))

IsCoherent-cycle : (r : Round) (s : State) → IsCoherent s.client → IsCoherent (cycle r s).client
unfolding cycle record_result
IsCoherent-cycle r s h = IsCoherent-shutdown r.signalled _ (
    IsCoherent-flush_if_full r.flushed _ (
      IsCoherent-count_result (attempt_query r s.client).success _ (
        IsCoherent-handle r (attempt_query r s.client) (record_result (attempt_query r s.client) s)
          (record {
            started = h.started;
            recovering = h.recovering;
            counted = h.counted;
            labelled = h.labelled;
          }))))

IsCoherent-cycles :
    (rounds : List Round) (s : State) → IsCoherent s.client → IsCoherent (cycles rounds s).client
unfolding cycles
IsCoherent-cycles [] s h = h
IsCoherent-cycles (r ∷ rounds) s h = IsCoherent-cycles rounds (cycle r s) (IsCoherent-cycle r s h)

-- Every run of the loop keeps a running client coherent: during a failover its start time is known,
-- fewer than three successes have been counted, and a failover has been counted; and the id for new
-- results is that of the current test run.
pub loop-IsCoherent :
    (rounds : List Round) (s : State)
    → s.client.running ≡ true
    → IsCoherent s.client
    → IsCoherent (loop rounds s).client
loop-IsCoherent rounds s on h = rw (loop-served rounds s on) (IsCoherent-cycles (served rounds) s h)

-- The rows that the UPDATE changes: those inside the window that carry no id.
abbrev pub IsTarget : ℕ → ℕ → ObserverRow → Type 0
IsTarget start end row =
    (start ≤ row.ts) × (row.ts ≤ end) × ((row.test_run_id ≡ none) ⊎ (row.test_run_id ≡ some []))

untagged_cases :
    (o : Option (List ℕ))
    → ((o ≡ none) ⊎ (o ≡ some [])) ⊎ ((c : ℕ) × (t : List ℕ) × (o ≡ some (c ∷ t)))
untagged_cases none = inl (inl refl)
untagged_cases (some []) = inl (inr refl)
untagged_cases (some (c ∷ t)) = inr (c, t, refl)

module _ (id : List ℕ) (start end : ℕ) (row : ObserverRow) where
  tag_row-target :
      IsTarget start end row → tag_row id start end row ≡ record row { test_run_id = some id }
  unfolding tag_row
  tag_row-target h = ground arith

  tag_row-tagged :
      (c : ℕ) (t : List ℕ) → row.test_run_id ≡ some (c ∷ t) → tag_row id start end row ≡ row
  unfolding tag_row
  tag_row-tagged c t e = ground arith

  tag_row-outside : ¬ ((start ≤ row.ts) × (row.ts ≤ end)) → tag_row id start end row ≡ row
  unfolding tag_row
  tag_row-outside h =
      let outside : start ≤ row.ts → ¬ (row.ts ≤ end) = λ a b. h (a, b) in ground arith

-- The row gets the id if it lies in the window and carries none, and is left as it was otherwise.
abbrev pub IsTagged : List ℕ → ℕ → ℕ → ObserverRow → ObserverRow → Type 0
IsTagged id start end row row' =
    (IsTarget start end row × (row' ≡ record row { test_run_id = some id }))
    ⊎ ((¬ IsTarget start end row) × (row' ≡ row))

tag_row-IsTagged :
    (id : List ℕ) (start end : ℕ) (row : ObserverRow)
    → IsTagged id start end row (tag_row id start end row)
tag_row-IsTagged id start end row = elim (untagged_cases row.test_run_id) [
  | inr (c, t, e) ↦ inr (not_target c t e, tag_row-tagged id start end row c t e)
  | inl u ↦ elim (dec_le start row.ts) [
    | no a ↦ inr (λ h. a h.0, tag_row-outside id start end row (λ h. a h.0))
    | yes a ↦ elim (dec_le row.ts end) [
      | no b ↦ inr (λ h. b h.1, tag_row-outside id start end row (λ h. b h.1))
      | yes b ↦ inl ((a, b, u), tag_row-target id start end row (a, b, u))
    ]
  ]
]
  where
    not_target : (c : ℕ) (t : List ℕ) → row.test_run_id ≡ some (c ∷ t) → ¬ IsTarget start end row
    not_target c t e h = ground arith

-- For a coherent client in automatic mode, the third success in a row in a failover ends it, and,
-- where the UPDATE goes through, gives the id of the current test run to the observer events from
-- the failover's start up to that query, both included, that carry no id, and leaves every other
-- event as it was.
pub recovery_tags :
    (r : Round) (q : QueryResult) (s : State)
    → IsCoherent s.client
    → s.client.auto_test_run ≡ true
    → s.client.in_failover ≡ true
    → s.client.consecutive_successes ≡ 2
    → q.success ≡ true
    → r.events_tagged ≡ true
    → ((handle_auto_test_run r q s).client.in_failover ≡ false)
      × ((start : ℕ) × (s.client.failover_start_ts ≡ some start)
          × ((handle_auto_test_run r q s).db.observer_events
              ≡ map (tag_row s.client.test_run_id start q.wall_ts) s.db.observer_events)
          × ((row : ObserverRow)
              → IsTagged s.client.test_run_id start q.wall_ts row
                  (tag_row s.client.test_run_id start q.wall_ts row)))
unfolding handle_auto_test_run on_success
recovery_tags r q s h auto failing two ok tagged = elim (Option-cases s.client.failover_start_ts) [
  | inl e ↦ absurd (ground arith)
  | inr (start, e) ↦ (
    simp (auto, ok, failing, two) refl,
    (
      start,
      e,
      simp (auto, ok, failing, two, tagged, e, h.labelled) refl,
      tag_row-IsTagged s.client.test_run_id start q.wall_ts,
    ),
  )
]
