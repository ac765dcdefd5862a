-- ===== src/Emitter/Session.antt =====
-- Whole sessions of an emitter, with the watcher's emissions and the rounds of the flush thread in
-- the order in which they ran.
use patroni_routing_bench.Prelude.{
  ℕ, ◌≡◌, refl, sym, ap, ◌∙◌, ◌⊎◌, inl, inr, List, [], ◌∷◌, ◌++◌, map, append_assoc, append-nil,
  length, take, leb, nat_eq, bool_eq, option_eq, string_eq, Bool-cases, In, In_left, In_right,
}
use mathlib.Core.List.{map-append}
use patroni_routing_bench.Emitter.{
  Event, Row, Delivery, accepted, broken, Site, row_of, flush, append_event, emit, Op, emits, ticks,
  step, run, stop, emitted, AllAccepted,
}
use patroni_routing_bench.Emitter.Flush.{
  pending, IsConfigured, row_of-flush, flush-IsConfigured, flush-accepted-table,
  flush-accepted-empty, flush-broken-table,
}

-- All that was handed to the emitter: the rows of the table, then the rows still to come.
pub account : Site → List Row
account s = s.table ++ pending s

pub account-flush : (s : Site) → IsConfigured s → account (flush accepted s) ≡ account s
unfolding account pending
account-flush s c = rw (flush-accepted-table s c, flush-accepted-empty s) (append-nil (account s))

pub account-append_event :
    (e : Event) (s : Site) → account (append_event e s) ≡ account s ++ row_of s.emitter e ∷ []
unfolding account pending append_event row_of
account-append_event e s = rw map-append (sym (append_assoc s.table _ _))

pub append_event-IsConfigured :
    (e : Event) (s : Site) → IsConfigured s → IsConfigured (append_event e s)
unfolding append_event
append_event-IsConfigured e s c = c

pub row_of-append_event :
    (e : Event) (s : Site) → row_of (append_event e s).emitter ≡ row_of s.emitter
unfolding append_event row_of
row_of-append_event e s = refl

-- A property of both outcomes of the test that ends `emit` holds of `emit`.
pub emit_cases :
    (P : Site → Type 0) (d : Delivery) (e : Event) (s : Site)
    → P (append_event e s)
    → P (flush d (append_event e s))
    → P (emit d e s)
unfolding emit
emit_cases P d e s kept flushed =
    elim (Bool-cases (leb s.emitter.batch_size (length (s.emitter.buffer ++ e ∷ [])))) [
      | inl full ↦ rw full flushed
      | inr room ↦ rw room kept
    ]

pub emit-IsConfigured :
    (d : Delivery) (e : Event) (s : Site) → IsConfigured s → IsConfigured (emit d e s)
emit-IsConfigured d e s c =
    let c' = append_event-IsConfigured e s c in
    emit_cases IsConfigured d e s c' (flush-IsConfigured d (append_event e s) c')

pub step-IsConfigured : (o : Op) (s : Site) → IsConfigured s → IsConfigured (step o s)
unfolding step
step-IsConfigured (emits d e) s c = emit-IsConfigured d e s c
step-IsConfigured (ticks d) s c = flush-IsConfigured d s c

pub row_of-emit :
    (d : Delivery) (e : Event) (s : Site) → row_of (emit d e s).emitter ≡ row_of s.emitter
row_of-emit d e s =
    let kept = row_of-append_event e s in
    emit_cases (λ t. row_of t.emitter ≡ row_of s.emitter) d e s kept
      (row_of-flush d (append_event e s) ∙ kept)

pub row_of-step : (o : Op) (s : Site) → row_of (step o s).emitter ≡ row_of s.emitter
unfolding step
row_of-step (emits d e) s = row_of-emit d e s
row_of-step (ticks d) s = row_of-flush d s

pub account-emit :
    (e : Event) (s : Site)
    → IsConfigured s
    → account (emit accepted e s) ≡ account s ++ row_of s.emitter e ∷ []
account-emit e s c =
    let kept = account-append_event e s in
    emit_cases (λ t. account t ≡ account s ++ row_of s.emitter e ∷ []) accepted e s kept
      (account-flush (append_event e s) (append_event-IsConfigured e s c) ∙ kept)

pub account-step :
    (o : Op) (ops : List Op) (s : Site)
    → IsConfigured s
    → AllAccepted (o ∷ ops)
    → account (step o s) ++ map (row_of s.emitter) (emitted ops)
      ≡ account s ++ map (row_of s.emitter) (emitted (o ∷ ops))
unfolding step
account-step (emits accepted e) ops s c a = rw (account-emit e s c) (append_assoc (account s) _ _)
account-step (emits (broken n) e) ops s c a = absurd a
account-step (ticks accepted) ops s c a = rw (account-flush s c)
account-step (ticks (broken n)) ops s c a = absurd a

pub rest-AllAccepted : (o : Op) (ops : List Op) → AllAccepted (o ∷ ops) → AllAccepted ops
rest-AllAccepted (emits accepted e) ops a = a
rest-AllAccepted (emits (broken n) e) ops a = absurd a
rest-AllAccepted (ticks accepted) ops a = a
rest-AllAccepted (ticks (broken n)) ops a = absurd a

pub account-run :
    (ops : List Op) (s : Site)
    → IsConfigured s
    → AllAccepted ops
    → account (run ops s) ≡ account s ++ map (row_of s.emitter) (emitted ops)
unfolding run
account-run [] s c a = sym (append-nil (account s))
account-run (o ∷ ops) s c a =
    account-run ops (step o s) (step-IsConfigured o s c) (rest-AllAccepted o ops a)
    ∙ (rw (row_of-step o s) (account-step o ops s c a))

pub run-IsConfigured : (ops : List Op) (s : Site) → IsConfigured s → IsConfigured (run ops s)
unfolding run
run-IsConfigured [] s c = c
run-IsConfigured (o ∷ ops) s c = run-IsConfigured ops (step o s) (step-IsConfigured o s c)

pub account-drained : (s : Site) → s.emitter.buffer ≡ [] → account s ≡ s.table
unfolding account pending
account-drained s h = rw h (append-nil s.table)

pub table-stop : (s : Site) → IsConfigured s → (stop accepted accepted s).table ≡ account s
unfolding stop
table-stop s c =
    let t = flush accepted s in
    sym (account-drained (flush accepted t) (flush-accepted-empty t))
    ∙ (account-flush t (flush-IsConfigured accepted s c) ∙ account-flush s c)

-- Where the database is configured and accepts every flush, stopping the emitter after a session
-- in which no two flushes overlap and that began with an empty buffer leaves in the table the rows of all emitted events, each once and
-- in the order of their emission, behind the rows that were there, and nothing in the buffer.
pub stop-run_exact :
    (ops : List Op) (s : Site)
    → IsConfigured s
    → s.emitter.buffer ≡ []
    → AllAccepted ops
    → ((stop accepted accepted (run ops s)).table ≡ s.table ++ map (row_of s.emitter) (emitted ops))
      × ((stop accepted accepted (run ops s)).emitter.buffer ≡ [])
unfolding stop
stop-run_exact ops s c h a = (
  table-stop (run ops s) (run-IsConfigured ops s c)
      ∙ (account-run ops s c a
          ∙ ap (λ t. t ++ map (row_of s.emitter) (emitted ops)) (account-drained s h)),
  flush-accepted-empty (flush accepted (run ops s)),
)

-- The buffer or the table holds the event.
abbrev pub Kept : Event → Site → Type 0
Kept e s = In e s.emitter.buffer ⊎ In (row_of s.emitter e) s.table

pub In-map : {A B : Type 0} (f : A → B) (a : A) (xs : List A) → In a xs → In (f a) (map f xs)
In-map f a [] i = absurd i
In-map f a (x ∷ xs) (inl e) = inl (ap f e)
In-map f a (x ∷ xs) (inr i) = inr (In-map f a xs i)

pub Kept-flush :
    (d : Delivery) (e : Event) (s : Site) → IsConfigured s → Kept e s → Kept e (flush d s)
unfolding pending
Kept-flush accepted e s c (inl i) = inr (
    rw (row_of-flush accepted s, flush-accepted-table s c)
      (In_right (row_of s.emitter e) s.table _ (In-map (row_of s.emitter) e s.emitter.buffer i)))
Kept-flush accepted e s c (inr i) = inr (
    rw (row_of-flush accepted s, flush-accepted-table s c)
      (In_left (row_of s.emitter e) s.table _ i))
Kept-flush (broken n) e s c (inl i) = inl (rw ((flush-broken-table n s c).1) i)
Kept-flush (broken n) e s c (inr i) = inr (
    rw (row_of-flush (broken n) s, (flush-broken-table n s c).0)
      (In_left (row_of s.emitter e) s.table _ i))

pub Kept-append_event : (e f : Event) (s : Site) → Kept e s → Kept e (append_event f s)
unfolding append_event row_of
Kept-append_event e f s (inl i) = inl (In_left e s.emitter.buffer (f ∷ []) i)
Kept-append_event e f s (inr i) = inr i

pub Kept-append_event_self : (e : Event) (s : Site) → Kept e (append_event e s)
unfolding append_event
Kept-append_event_self e s = inl (In_right e s.emitter.buffer (e ∷ []) (inl refl))

pub Kept-emit :
    (d : Delivery) (e f : Event) (s : Site)
    → IsConfigured s
    → Kept e (append_event f s)
    → Kept e (emit d f s)
Kept-emit d e f s c k =
    emit_cases (Kept e) d f s k
      (Kept-flush d e (append_event f s) (append_event-IsConfigured f s c) k)

pub Kept-step : (e : Event) (o : Op) (s : Site) → IsConfigured s → Kept e s → Kept e (step o s)
unfolding step
Kept-step e (emits d f) s c k = Kept-emit d e f s c (Kept-append_event e f s k)
Kept-step e (ticks d) s c k = Kept-flush d e s c k

pub Kept-run :
    (e : Event) (ops : List Op) (s : Site) → IsConfigured s → Kept e s → Kept e (run ops s)
unfolding run
Kept-run e [] s c k = k
Kept-run e (o ∷ ops) s c k =
    Kept-run e ops (step o s) (step-IsConfigured o s c) (Kept-step e o s c k)

-- Where a database is configured, every emitted event stands in the buffer or in the table at the
-- end of the session, whichever flushes failed and wherever they broke off.
pub run-Kept :
    (ops : List Op) (s : Site) (e : Event)
    → IsConfigured s
    → In e (emitted ops)
    → Kept e (run ops s)
unfolding run step
run-Kept [] s e c i = absurd i
run-Kept (emits d f ∷ ops) s e c (inl h) =
    Kept-run e ops (emit d f s) (emit-IsConfigured d f s c)
      (Kept-emit d e f s c (rw h (Kept-append_event_self f s)))
run-Kept (emits d f ∷ ops) s e c (inr i) = run-Kept ops (emit d f s) e (emit-IsConfigured d f s c) i
run-Kept (ticks d ∷ ops) s e c i = run-Kept ops (flush d s) e (flush-IsConfigured d s c) i

-- A flush that breaks off behind at least one inserted row is repeated whole by the next one: the
-- rows that had been inserted stand in the table twice.
pub retry-duplicates :
    (n : ℕ) (s : Site)
    → IsConfigured s
    → (flush accepted (flush (broken n) s)).table
      ≡ (s.table ++ map (row_of s.emitter) (take n s.emitter.buffer))
        ++ map (row_of s.emitter) s.emitter.buffer
unfolding pending
retry-duplicates n s c =
    let (rows, kept) = flush-broken-table n s c in
    flush-accepted-table (flush (broken n) s) (flush-IsConfigured (broken n) s c)
    ∙ rw (row_of-flush (broken n) s, rows, kept)
