-- ===== src/Heartbeat/Rounds.antt =====
-- What the steps of a round leave alone, and which rounds the loop runs.
use patroni_routing_bench.Prelude.{
  ℕ, ◌≡◌, refl, ap, Bool, true, false, inl, inr, List, [], ◌∷◌, length, arith, leb, nat_eq, bool_eq,
  option_eq, string_eq, Bool-cases, if◌then◌else◌,
}
use patroni_routing_bench.Heartbeat.{
  QueryResult, Client, State, Round, flush_pending, flush_results, on_success, on_failure,
  handle_auto_test_run, count_result, record_result, flush_if_full, shutdown, cycle, loop, is_empty,
}
use patroni_routing_bench.Emitter.{Delivery, accepted, broken}

-- The client apart from the results that wait to be flushed.
abbrev pub settled : Client → Client
settled c = record c { results = [] }

settled-flush_pending :
    (d : Delivery) (results : List QueryResult) (s : State)
    → settled (flush_pending d results s).client ≡ settled s.client
unfolding flush_pending
settled-flush_pending d [] s = refl
settled-flush_pending accepted (q ∷ qs) s =
    elim (Bool-cases (is_empty s.client.timescale_connstring)) [ inl e ↦ rw e | inr f ↦ rw f ]
settled-flush_pending (broken n) (q ∷ qs) s =
    elim (Bool-cases (is_empty s.client.timescale_connstring)) [ inl e ↦ rw e | inr f ↦ rw f ]

pub settled-flush_results :
    (d : Delivery) (s : State) → settled (flush_results d s).client ≡ settled s.client
unfolding flush_results
settled-flush_results d s = settled-flush_pending d s.client.results s

pub settled-flush_if_full :
    (d : Delivery) (s : State) → settled (flush_if_full d s).client ≡ settled s.client
unfolding flush_if_full
settled-flush_if_full d s = elim (Bool-cases (leb s.client.batch_size (length s.client.results))) [
  | inl full ↦ rw full (settled-flush_results d s)
  | inr room ↦ rw room
]

-- Every round in turn, whatever `running` says.
unfoldable pub cycles : List Round → State → State
cycles [] s = s
cycles (r ∷ rounds) s = cycles rounds (cycle r s)

-- The rounds up to the first in which a signal arrives, that one included.
abbrev pub served : List Round → List Round
served [] = []
served (r ∷ rounds) = r ∷ (let rest = served rounds in if r.signalled then [] else rest)

running-on_success :
    (b : Bool) (now : ℕ) (s : State) → (on_success b now s).client.running ≡ s.client.running
unfolding on_success
running-on_success b now s = ground arith

running-on_failure :
    (b : Bool) (now : ℕ) (s : State) → (on_failure b now s).client.running ≡ s.client.running
unfolding on_failure
running-on_failure b now s = ground arith

-- A property of the three outcomes of the tests in `handle_auto_test_run`.
pub handle_cases :
    (P : State → Type 0) (r : Round) (q : QueryResult) (s : State)
    → (s.client.auto_test_run ≡ true
        → q.success ≡ true
        → P (on_success r.events_tagged q.wall_ts s))
    → (s.client.auto_test_run ≡ true
        → q.success ≡ false
        → P (on_failure r.run_inserted q.wall_ts s))
    → (s.client.auto_test_run ≡ false → P s)
    → P (handle_auto_test_run r q s)
unfolding handle_auto_test_run
handle_cases P r q s up down off = elim (Bool-cases s.client.auto_test_run) [
  | inr manual ↦ simp manual (off manual)
  | inl auto ↦ simp auto (elim (Bool-cases q.success) [
    | inl ok ↦ simp ok (up auto ok)
    | inr bad ↦ simp bad (down auto bad)
  ])
]

running-handle :
    (r : Round) (q : QueryResult) (s : State)
    → (handle_auto_test_run r q s).client.running ≡ s.client.running
running-handle r q s =
    handle_cases (λ t. t.client.running ≡ s.client.running) r q s
      (λ _ _. running-on_success r.events_tagged q.wall_ts s)
      (λ _ _. running-on_failure r.run_inserted q.wall_ts s) (λ _. refl)

running-flush_if_full :
    (d : Delivery) (s : State) → (flush_if_full d s).client.running ≡ s.client.running
running-flush_if_full d s = ap (λ (c : Client). c.running) (settled-flush_if_full d s)

running-count_result : (b : Bool) (c : Client) → (count_result b c).running ≡ c.running
unfolding count_result
running-count_result true c = refl
running-count_result false c = refl

running-shutdown :
    (b : Bool) (s : State) → (shutdown b s).client.running ≡ (if b then false else s.client.running)
unfolding shutdown
running-shutdown true s = refl
running-shutdown false s = refl

running-cycle :
    (r : Round) (s : State)
    → (cycle r s).client.running ≡ (if r.signalled then false else s.client.running)
unfolding cycle record_result
running-cycle r s =
    rw (running-shutdown, running-flush_if_full, running-count_result, running-handle)

loop_stopped : (rounds : List Round) (s : State) → s.client.running ≡ false → loop rounds s ≡ s
unfolding loop
loop_stopped [] s h = refl
loop_stopped (r ∷ rounds) s h = rw h

-- From a running client the loop makes exactly the rounds up to the first in which a signal arrives,
-- that round to its end, and none behind it.
pub loop-served :
    (rounds : List Round) (s : State)
    → s.client.running ≡ true
    → loop rounds s ≡ cycles (served rounds) s
unfolding loop cycles
loop-served [] s h = refl
loop-served (r ∷ rounds) s h = elim (Bool-cases r.signalled) [
  | inl stop ↦ simp (h, stop) (loop_stopped rounds (cycle r s) (rw running-cycle (rw stop refl)))
  | inr on ↦ simp (h, on) (loop-served rounds (cycle r s) (rw running-cycle (simp on h)))
]
