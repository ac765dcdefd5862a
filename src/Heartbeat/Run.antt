-- ===== src/Heartbeat/Run.antt =====
-- Every query of a run reaches client_events or waits for the next flush.
use patroni_routing_bench.Prelude.{
  ◌+◌, ◌≡◌, refl, sym, ap, ◌∙◌, Bool, true, false, inl, inr, List, [], ◌∷◌, ◌++◌, map, append_assoc,
  append-nil, length, arith, leb, nat_eq, bool_eq, option_eq, string_eq, Bool-cases, All, In,
  In_left, In_right, In-append,
}
use patroni_routing_bench.Heartbeat.{
  QueryResult, Client, State, Round, attempt_query, flush_results, on_success, on_failure,
  handle_auto_test_run, count_result, record_result, flush_if_full, shutdown, cycle, run,
}
use patroni_routing_bench.Heartbeat.Rounds.{
  settled-flush_if_full, cycles, served, loop-served, handle_cases,
}
use mathlib.Core.List.{map-append}
use patroni_routing_bench.Emitter.{Delivery, accepted}
use patroni_routing_bench.Heartbeat.Delivered.{
  Sample, of_row, samples, account, IsConfigured, account-flush, flush-accepted-empty, In-flush,
}

-- What `_handle_auto_test_run` leaves alone.
record Untouched (s t : State) : Type 0 where
  rows : t.db.client_events ≡ s.db.client_events
  waiting : t.client.results ≡ s.client.results
  place : t.client.timescale_connstring ≡ s.client.timescale_connstring
  number : t.client.sequence ≡ s.client.sequence
  size : t.client.batch_size ≡ s.client.batch_size

Untouched-handle :
    (r : Round) (q : QueryResult) (s : State) → Untouched s (handle_auto_test_run r q s)
unfolding on_success on_failure
Untouched-handle r q s =
    handle_cases (Untouched s) r q s (λ _ _. ground arith) (λ _ _. ground arith)
      (λ _. record { rows = refl; waiting = refl; place = refl; number = refl; size = refl })

-- A round up to the test that may flush.
abbrev pub body : Round → State → State
body r s =
    let q = attempt_query r s.client in
    let t = handle_auto_test_run r q (record_result q s) in
    record t { client = count_result q.success t.client }

count_result-fields :
    (b : Bool) (c : Client)
    → ((count_result b c).results ≡ c.results)
      × ((count_result b c).timescale_connstring ≡ c.timescale_connstring)
      × ((count_result b c).sequence ≡ c.sequence)
      × ((count_result b c).batch_size ≡ c.batch_size)
unfolding count_result
count_result-fields true c = (refl, refl, refl, refl)
count_result-fields false c = (refl, refl, refl, refl)

account-body :
    (r : Round) (s : State) → account (body r s) ≡ account s ++ samples s.client.sequence (r ∷ [])
unfolding account record_result attempt_query
account-body r s =
    let q = attempt_query r s.client in
    let u = Untouched-handle r q (record_result q s) in
    rw ((count_result-fields q.success _).0, u.rows, u.waiting, map-append)
      (sym (append_assoc (map of_row s.db.client_events) _ _))

pub body-fields :
    (r : Round) (s : State)
    → ((body r s).client.timescale_connstring ≡ s.client.timescale_connstring)
      × ((body r s).client.sequence ≡ s.client.sequence + 1)
      × ((body r s).client.batch_size ≡ s.client.batch_size)
unfolding record_result attempt_query
body-fields r s =
    let q = attempt_query r s.client in
    let u = Untouched-handle r q (record_result q s) in
    let (a, b, c, d) =
      count_result-fields q.success (handle_auto_test_run r q (record_result q s)).client in
    (b ∙ u.place, c ∙ u.number, d ∙ u.size)

account-flush_if_full :
    (s : State) → IsConfigured s → account (flush_if_full accepted s) ≡ account s
unfolding flush_if_full
account-flush_if_full s c = elim (Bool-cases (leb s.client.batch_size (length s.client.results))) [
  | inl full ↦ simp full (account-flush s c)
  | inr room ↦ simp room
]

In-flush_if_full :
    (x : Sample) (d : Delivery) (s : State)
    → IsConfigured s
    → In x (account s)
    → In x (account (flush_if_full d s))
unfolding flush_if_full
In-flush_if_full x d s c i = elim (Bool-cases (leb s.client.batch_size (length s.client.results))) [
  | inl full ↦ simp full (In-flush x d s c i)
  | inr room ↦ simp room i
]

account-shutdown : (b : Bool) (s : State) → account (shutdown b s) ≡ account s
unfolding account shutdown
account-shutdown true s = refl
account-shutdown false s = refl

pub settled-shutdown :
    (b : Bool) (s : State)
    → ((shutdown b s).client.timescale_connstring ≡ s.client.timescale_connstring)
      × ((shutdown b s).client.sequence ≡ s.client.sequence)
      × ((shutdown b s).client.batch_size ≡ s.client.batch_size)
      × ((shutdown b s).client.results ≡ s.client.results)
unfolding shutdown
settled-shutdown true s = (refl, refl, refl, refl)
settled-shutdown false s = (refl, refl, refl, refl)

pub cycle-fields :
    (r : Round) (s : State)
    → ((cycle r s).client.timescale_connstring ≡ s.client.timescale_connstring)
      × ((cycle r s).client.sequence ≡ s.client.sequence + 1)
      × ((cycle r s).client.batch_size ≡ s.client.batch_size)
unfolding cycle
cycle-fields r s =
    let t = flush_if_full r.flushed (body r s) in
    let (a, b, c, d) = settled-shutdown r.signalled t in
    let (e, f, g) = body-fields r s in
    let same = settled-flush_if_full r.flushed (body r s) in
    (
      a ∙ (ap (λ (c : Client). c.timescale_connstring) same ∙ e),
      b ∙ (ap (λ (c : Client). c.sequence) same ∙ f),
      c ∙ (ap (λ (c : Client). c.batch_size) same ∙ g),
    )

body-IsConfigured : (r : Round) (s : State) → IsConfigured s → IsConfigured (body r s)
body-IsConfigured r s c = rw ((body-fields r s).0) c

cycle-IsConfigured : (r : Round) (s : State) → IsConfigured s → IsConfigured (cycle r s)
cycle-IsConfigured r s c = rw ((cycle-fields r s).0) c

cycles-IsConfigured :
    (rounds : List Round) (s : State) → IsConfigured s → IsConfigured (cycles rounds s)
unfolding cycles
cycles-IsConfigured [] s c = c
cycles-IsConfigured (r ∷ rounds) s c =
    cycles-IsConfigured rounds (cycle r s) (cycle-IsConfigured r s c)

abbrev pub AllAccepted : List Round → Type 0
AllAccepted = All (λ r. r.flushed ≡ accepted)

pub account-cycle :
    (r : Round) (s : State)
    → IsConfigured s
    → r.flushed ≡ accepted
    → account (cycle r s) ≡ account s ++ samples s.client.sequence (r ∷ [])
unfolding cycle
account-cycle r s c a =
    account-shutdown r.signalled (flush_if_full r.flushed (body r s))
    ∙ (simp a (account-flush_if_full (body r s) (body-IsConfigured r s c)) ∙ account-body r s)

account-cycles :
    (rounds : List Round) (s : State)
    → IsConfigured s
    → AllAccepted rounds
    → account (cycles rounds s) ≡ account s ++ samples s.client.sequence rounds
unfolding cycles
account-cycles [] s c a = sym (append-nil (account s))
account-cycles (r ∷ rounds) s c (a, rest) =
    account-cycles rounds (cycle r s) (cycle-IsConfigured r s c) rest
    ∙ rw (account-cycle r s c a, (cycle-fields r s).1) (append_assoc (account s) _ _)

-- Where TimescaleDB is configured and accepts every flush, `run` leaves in client_events, behind what
-- was there and what was waiting, one row for each query of the rounds that it served, in order,
-- with consecutive sequence numbers and that query's time, outcome, latency and error.
pub run_exact :
    (rounds : List Round) (s : State)
    → IsConfigured s
    → s.client.running ≡ true
    → AllAccepted (served rounds)
    → (map of_row (run accepted rounds s).db.client_events
        ≡ account s ++ samples s.client.sequence (served rounds))
      × ((run accepted rounds s).client.results ≡ [])
unfolding run
run_exact rounds s c on a = rw (loop-served rounds s on) (table, empty)
  where
    end_configured : IsConfigured (cycles (served rounds) s)
    end_configured = cycles-IsConfigured (served rounds) s c

    empty : (flush_results accepted (cycles (served rounds) s)).client.results ≡ []
    empty = flush-accepted-empty (cycles (served rounds) s) end_configured

    all_out : (t : State) → t.client.results ≡ [] → account t ≡ map of_row t.db.client_events
    all_out t h = unfold account in rw h (append-nil _)

    table :
        map of_row (flush_results accepted (cycles (served rounds) s)).db.client_events
        ≡ account s ++ samples s.client.sequence (served rounds)
    table =
        sym (all_out _ empty)
        ∙ (account-flush (cycles (served rounds) s) end_configured
            ∙ account-cycles (served rounds) s c a)

In-cycle :
    (x : Sample) (r : Round) (s : State)
    → IsConfigured s
    → In x (account s ++ samples s.client.sequence (r ∷ []))
    → In x (account (cycle r s))
unfolding cycle
In-cycle x r s c i =
    rw (account-shutdown r.signalled (flush_if_full r.flushed (body r s)))
      (In-flush_if_full x r.flushed (body r s) (body-IsConfigured r s c) (rw (account-body r s) i))

In-cycles :
    (x : Sample) (rounds : List Round) (s : State)
    → IsConfigured s
    → In x (account s ++ samples s.client.sequence rounds)
    → In x (account (cycles rounds s))
unfolding cycles
In-cycles x [] s c i = rw append-nil at i
In-cycles x (r ∷ rounds) s c i = In-cycles x rounds (cycle r s) (cycle-IsConfigured r s c) (
    simp ((cycle-fields r s).1)
      (elim (In-append x (account s) (samples s.client.sequence (r ∷ rounds)) i) [
        | inl old ↦ In_left x _ _ (In-cycle x r s c (In_left x (account s) _ old))
        | inr (inl new) ↦ In_left x _ _ (In-cycle x r s c (In_right x (account s) _ (inl new)))
        | inr (inr later) ↦ In_right x (account (cycle r s)) _ later
      ]))

-- Where TimescaleDB is configured, the outcome of every query of the served rounds is in the table
-- or waits in the client at the end of `run`, whichever flushes failed and wherever they broke off.
pub run_keeps :
    (final : Delivery) (rounds : List Round) (s : State) (x : Sample)
    → IsConfigured s
    → s.client.running ≡ true
    → In x (samples s.client.sequence (served rounds))
    → In x (account (run final rounds s))
unfolding run
run_keeps final rounds s x c on i = rw (loop-served rounds s on) (
    In-flush x final (cycles (served rounds) s) (cycles-IsConfigured (served rounds) s c)
      (In-cycles x (served rounds) s c (In_right x (account s) _ i)))
