-- ===== src/Emitter/Threads/Sessions.antt =====
-- The sessions of `run`, whose flushes do not overlap, among the interleavings of the two threads.
use patroni_routing_bench.Prelude.{
  ℕ, zero, suc, ◌≡◌, ◌≢◌, refl, sym, ap, ◌∙◌, true, List, [], ◌∷◌, ◌++◌, map, append_assoc,
  append-nil, take, arith,
}
use mathlib.Core.Path.{subst}
use mathlib.Core.List.{map-append}
use patroni_routing_bench.Emitter.{
  Event, Row, Emitter, Delivery, accepted, broken, Site, row_of, flush, append_event, Op, emits,
  ticks, step, run, emitted,
}
use patroni_routing_bench.Emitter.Flush.{
  IsConfigured, pending, flush-accepted-table, flush-accepted-empty, flush-broken-table,
}
use patroni_routing_bench.Emitter.Session.{emit_cases, step-IsConfigured, append_event-IsConfigured}
use patroni_routing_bench.Emitter.Threads.{
  Thread, watcher, daemon, idle, sending, flight, Shared, append, take_buffer, insert, put_back,
  Reach, here, next,
}
use patroni_routing_bench.Emitter.Threads.Safety.{moved}
use patroni_routing_bench.Emitter.Threads.Liveness.{Reach-trans, end_flight}

-- Both threads outside `flush`.
abbrev pub state : List Event → List Event → List Event → Shared
state buffer table done = record {
  configured = true;
  buffer = buffer;
  by_watcher = idle;
  by_daemon = idle;
  table = table;
  emitted = done;
}

abbrev pub events_of : List Row → List Event
events_of rows = map (λ r. r.event) rows

-- An emitter between two operations, `done` the events that it was given.
abbrev pub between : Site → List Event → Shared
between s done = state s.emitter.buffer (events_of s.table) done

events_of-row_of : (em : Emitter) (es : List Event) → events_of (map (row_of em) es) ≡ es
unfolding row_of
events_of-row_of em [] = refl
events_of-row_of em (e ∷ es) = ap (λ l. e ∷ l) (events_of-row_of em es)

events_of-append :
    (rows : List Row) (em : Emitter) (es : List Event)
    → events_of (rows ++ map (row_of em) es) ≡ events_of rows ++ es
events_of-append rows em es =
    map-append (λ r. r.event) rows (map (row_of em) es)
    ∙ ap (λ l. events_of rows ++ l) (events_of-row_of em es)

-- A flush under way inserts some of its events and fails.
break_flight :
    (t : Thread) (n : ℕ) (taken rest : List Event) (s : Shared)
    → s.configured ≡ true
    → flight t s ≡ sending taken rest
    → Reach s (moved t idle (taken ++ s.buffer) (s.table ++ take n rest) s)
break_flight watcher zero taken rest s on p =
    subst (λ l. Reach s (moved watcher idle (taken ++ s.buffer) l s)) (sym (append-nil s.table))
      (next here (put_back watcher s taken rest on p))
break_flight daemon zero taken rest s on p =
    subst (λ l. Reach s (moved daemon idle (taken ++ s.buffer) l s)) (sym (append-nil s.table))
      (next here (put_back daemon s taken rest on p))
break_flight watcher (suc n) taken [] s on p =
    subst (λ l. Reach s (moved watcher idle (taken ++ s.buffer) l s)) (sym (append-nil s.table))
      (next here (put_back watcher s taken [] on p))
break_flight daemon (suc n) taken [] s on p =
    subst (λ l. Reach s (moved daemon idle (taken ++ s.buffer) l s)) (sym (append-nil s.table))
      (next here (put_back daemon s taken [] on p))
break_flight watcher (suc n) taken (e ∷ rest) s on p =
    subst (λ l. Reach s (moved watcher idle (taken ++ s.buffer) l s))
      (append_assoc s.table (e ∷ []) (take n rest))
      (Reach-trans (next here (insert watcher s taken rest e on p)) (
        break_flight watcher n taken rest
          (moved watcher (sending taken rest) s.buffer (s.table ++ e ∷ []) s) on refl))
break_flight daemon (suc n) taken (e ∷ rest) s on p =
    subst (λ l. Reach s (moved daemon idle (taken ++ s.buffer) l s))
      (append_assoc s.table (e ∷ []) (take n rest))
      (Reach-trans (next here (insert daemon s taken rest e on p)) (
        break_flight daemon n taken rest
          (moved daemon (sending taken rest) s.buffer (s.table ++ e ∷ []) s) on refl))

-- One flush by either thread.
send :
    (t : Thread) (es table done : List Event)
    → es ≢ []
    → Reach (state es table done) (state [] (table ++ es) done)
send watcher es table done some_event =
    Reach-trans (next here (take_buffer watcher (state es table done) refl some_event)) (
      end_flight watcher es es (moved watcher (sending es es) [] table (state es table done)) refl
        refl)
send daemon es table done some_event =
    Reach-trans (next here (take_buffer daemon (state es table done) refl some_event)) (
      end_flight daemon es es (moved daemon (sending es es) [] table (state es table done)) refl
        refl)

fail :
    (t : Thread) (n : ℕ) (es table done : List Event)
    → es ≢ []
    → Reach (state es table done) (state es (table ++ take n es) done)
fail watcher n es table done some_event =
    subst (λ b. Reach (state es table done) (state b (table ++ take n es) done)) (append-nil es)
      (Reach-trans (next here (take_buffer watcher (state es table done) refl some_event)) (
        break_flight watcher n es es (moved watcher (sending es es) [] table (state es table done))
          refl refl))
fail daemon n es table done some_event =
    subst (λ b. Reach (state es table done) (state b (table ++ take n es) done)) (append-nil es)
      (Reach-trans (next here (take_buffer daemon (state es table done) refl some_event)) (
        break_flight daemon n es es (moved daemon (sending es es) [] table (state es table done))
          refl refl))

-- The same, where an empty buffer is left alone.
send_any :
    (t : Thread) (es table done : List Event)
    → Reach (state es table done) (state [] (table ++ es) done)
send_any t [] table done =
    subst (λ l. Reach (state [] table done) (state [] l done)) (sym (append-nil table)) here
send_any t (e ∷ es) table done = send t (e ∷ es) table done (λ q. absurd (ground (arith, q)))

fail_any :
    (t : Thread) (n : ℕ) (es table done : List Event)
    → Reach (state es table done) (state es (table ++ take n es) done)
fail_any t zero [] table done =
    subst (λ l. Reach (state [] table done) (state [] l done)) (sym (append-nil table)) here
fail_any t (suc n) [] table done =
    subst (λ l. Reach (state [] table done) (state [] l done)) (sym (append-nil table)) here
fail_any t n (e ∷ es) table done = fail t n (e ∷ es) table done (λ q. absurd (ground (arith, q)))

flush-Reach :
    (t : Thread) (d : Delivery) (s : Site) (done : List Event)
    → IsConfigured s
    → Reach (between s done) (between (flush d s) done)
unfolding pending
flush-Reach t accepted s done c =
    let table =
      ap events_of (flush-accepted-table s c)
      ∙ events_of-append s.table s.emitter s.emitter.buffer in
    subst (Reach (between s done))
      (sym (
        ap (λ b. state b (events_of (flush accepted s).table) done) (flush-accepted-empty s)
        ∙ ap (λ l. state [] l done) table))
      (send_any t s.emitter.buffer (events_of s.table) done)
flush-Reach t (broken n) s done c =
    let (rows, kept) = flush-broken-table n s c in
    let table = ap events_of rows ∙ events_of-append s.table s.emitter (take n s.emitter.buffer) in
    subst (Reach (between s done))
      (sym (
        ap (λ b. state b (events_of (flush (broken n) s).table) done) kept
        ∙ ap (λ l. state s.emitter.buffer l done) table))
      (fail_any t n s.emitter.buffer (events_of s.table) done)

append_event-Reach :
    (e : Event) (s : Site) (done : List Event)
    → Reach (between s done) (between (append_event e s) (done ++ e ∷ []))
unfolding append_event
append_event-Reach e s done = next here (append e (between s done) refl)

step-Reach :
    (o : Op) (s : Site) (done : List Event)
    → IsConfigured s
    → Reach (between s done) (between (step o s) (done ++ emitted (o ∷ [])))
unfolding step
step-Reach (ticks d) s done c =
    subst (λ l. Reach (between s done) (between (flush d s) l)) (sym (append-nil done))
      (flush-Reach daemon d s done c)
step-Reach (emits d e) s done c =
    let appended = append_event-Reach e s done in
    emit_cases (λ t. Reach (between s done) (between t (done ++ e ∷ []))) d e s appended
      (Reach-trans appended (
        flush-Reach watcher d (append_event e s) (done ++ e ∷ [])
          (append_event-IsConfigured e s c)))

emitted-cons : (o : Op) (ops : List Op) → emitted (o ∷ []) ++ emitted ops ≡ emitted (o ∷ ops)
emitted-cons (emits d e) ops = refl
emitted-cons (ticks d) ops = refl

-- Where a database is configured, each session of whole operations, with whatever outcomes of its flushes,
-- is one of the interleavings of the two threads: their locked blocks and INSERTs lead from the state before
-- it to that behind it, with the same buffer, the same events in the table and the same events emitted.
pub run-Reach :
    (ops : List Op) (s : Site) (done : List Event)
    → IsConfigured s
    → Reach (between s done) (between (run ops s) (done ++ emitted ops))
unfolding run
run-Reach [] s done c =
    subst (λ l. Reach (between s done) (between s l)) (sym (append-nil done)) here
run-Reach (o ∷ ops) s done c =
    subst (λ l. Reach (between s done) (between (run ops (step o s)) l))
      (append_assoc done (emitted (o ∷ [])) (emitted ops)
        ∙ ap (λ l. done ++ l) (emitted-cons o ops))
      (Reach-trans (step-Reach o s done c)
        (run-Reach ops (step o s) (done ++ emitted (o ∷ [])) (step-IsConfigured o s c)))
