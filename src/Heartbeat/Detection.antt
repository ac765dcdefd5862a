-- ===== src/Heartbeat/Detection.antt =====
-- The failover detector of `_handle_auto_test_run`, against the history of the queries' outcomes.
use patroni_routing_bench.Prelude.{
  ℕ, suc, ◌+◌, ◌≡◌, Bool, true, false, ◌&&◌, none, some, List, [], ◌∷◌, arith, ltb, nat_eq, bool_eq,
  option_eq, string_eq, if◌then◌else◌,
}
use patroni_routing_bench.Heartbeat.{
  QueryResult, Client, State, Round, init, attempt_query, on_success, on_failure,
  handle_auto_test_run, count_result, record_result, flush_if_full, shutdown, cycle, loop,
}
use patroni_routing_bench.Heartbeat.Rounds.{
  settled, settled-flush_if_full, cycles, served, loop-served, handle_cases,
}
use patroni_routing_bench.Emitter.{Delivery}

-- How long the run of successes is that ends the history. A history has its newest outcome first.
abbrev pub streak : List Bool → ℕ
streak [] = 0
streak (true ∷ h) = suc (streak h)
streak (false ∷ h) = 0

abbrev pub any_failure : List Bool → Bool
any_failure [] = false
any_failure (true ∷ h) = any_failure h
any_failure (false ∷ h) = true

-- A failover is under way: some query failed, and the last three did not all succeed.
abbrev pub is_down : List Bool → Bool
is_down h = any_failure h && ltb (streak h) 3

-- The failures that begin a failover: those at which none was under way.
abbrev pub episodes : List Bool → ℕ
episodes [] = 0
episodes (true ∷ h) = episodes h
episodes (false ∷ h) = let rest = episodes h in if is_down h then rest else rest + 1

abbrev pub outcome : Round → Bool
outcome r = elim r.failure [ none ↦ true | some e ↦ false ]

abbrev pub history : List Round → List Bool → List Bool
history [] h = h
history (r ∷ rounds) h = history rounds (outcome r ∷ h)

-- What the detector remembers is what the history says.
pub record Tracks (h : List Bool) (c : Client) : Type 0 where
  pub auto : c.auto_test_run ≡ true
  pub streak_exact : c.consecutive_successes ≡ streak h
  pub down_exact : c.in_failover ≡ is_down h
  pub count_exact : c.failover_count ≡ episodes h

Tracks-on_success :
    (h : List Bool) (b : Bool) (now : ℕ) (s : State)
    → Tracks h s.client
    → Tracks (true ∷ h) (on_success b now s).client
unfolding on_success
Tracks-on_success h b now s t = ground arith

Tracks-on_failure :
    (h : List Bool) (b : Bool) (now : ℕ) (s : State)
    → Tracks h s.client
    → Tracks (false ∷ h) (on_failure b now s).client
unfolding on_failure
Tracks-on_failure h b now s t = ground arith

-- The detector reads nothing of a client but what a flush leaves alone.
Tracks-settled : (h : List Bool) (c : Client) → Tracks h (settled c) → Tracks h c
Tracks-settled h c t = record {
  auto = t.auto;
  streak_exact = t.streak_exact;
  down_exact = t.down_exact;
  count_exact = t.count_exact;
}

settled-Tracks : (h : List Bool) (c : Client) → Tracks h c → Tracks h (settled c)
settled-Tracks h c t = record {
  auto = t.auto;
  streak_exact = t.streak_exact;
  down_exact = t.down_exact;
  count_exact = t.count_exact;
}

Tracks-flush_if_full :
    (h : List Bool) (d : Delivery) (s : State)
    → Tracks h s.client
    → Tracks h (flush_if_full d s).client
Tracks-flush_if_full h d s t =
    Tracks-settled h (flush_if_full d s).client
      (rw (settled-flush_if_full d s) (settled-Tracks h s.client t))

Tracks-count_result :
    (h : List Bool) (b : Bool) (c : Client) → Tracks h c → Tracks h (count_result b c)
unfolding count_result
Tracks-count_result h b c t = ground arith

Tracks-shutdown :
    (h : List Bool) (b : Bool) (s : State) → Tracks h s.client → Tracks h (shutdown b s).client
unfolding shutdown
Tracks-shutdown h b s t = ground arith

Tracks-handle :
    (h : List Bool) (r : Round) (q : QueryResult) (s : State)
    → Tracks h s.client
    → Tracks (q.success ∷ h) (handle_auto_test_run r q s).client
Tracks-handle h r q s t =
    handle_cases (λ u. Tracks (q.success ∷ h) u.client) r q s
      (λ _ ok. simp ok (Tracks-on_success h r.events_tagged q.wall_ts s t))
      (λ _ bad. simp bad (Tracks-on_failure h r.run_inserted q.wall_ts s t)) (λ manual. cc (t.auto))

Tracks-cycle :
    (h : List Bool) (r : Round) (s : State)
    → Tracks h s.client
    → Tracks (outcome r ∷ h) (cycle r s).client
unfolding cycle record_result attempt_query
Tracks-cycle h r s t = Tracks-shutdown (outcome r ∷ h) r.signalled _ (
    Tracks-flush_if_full (outcome r ∷ h) r.flushed _ (
      Tracks-count_result (outcome r ∷ h) (outcome r) _ (
        Tracks-handle h r (attempt_query r s.client) (record_result (attempt_query r s.client) s)
          (record {
            auto = t.auto;
            streak_exact = t.streak_exact;
            down_exact = t.down_exact;
            count_exact = t.count_exact;
          }))))

Tracks-cycles :
    (h : List Bool) (rounds : List Round) (s : State)
    → Tracks h s.client
    → Tracks (history rounds h) (cycles rounds s).client
unfolding cycles
Tracks-cycles h [] s t = t
Tracks-cycles h (r ∷ rounds) s t =
    Tracks-cycles (outcome r ∷ h) rounds (cycle r s) (Tracks-cycle h r s t)

-- From a client in automatic mode whose memory agrees with a history, after any rounds, with writes
-- to TimescaleDB failing or not: `_in_failover` holds exactly if some query of the history failed
-- and fewer than three have succeeded since the last failure, `_consecutive_successes` is the number
-- of successes behind the last failure, and `_failover_count` is the number of failures that found
-- no failover under way. The history counts the rounds up to the first signal.
pub loop-Tracks :
    (h : List Bool) (rounds : List Round) (s : State)
    → s.client.running ≡ true
    → Tracks h s.client
    → Tracks (history (served rounds) h) (loop rounds s).client
loop-Tracks h rounds s on t = rw (loop-served rounds s on) (Tracks-cycles h (served rounds) s t)

-- A client started without TEST_RUN_ID agrees with the empty history.
pub init-Tracks : (connstring combination : List ℕ) → Tracks [] (init connstring combination [])
unfolding init
init-Tracks connstring combination = ground arith
