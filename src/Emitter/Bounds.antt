-- ===== src/Emitter/Bounds.antt =====
-- The bound on the emitter's buffer.
use patroni_routing_bench.Prelude.{
  ℕ, ◌<◌, ◌≡◌, refl, false, inl, inr, List, [], ◌∷◌, ◌++◌, length, arith, leb, nat_eq, bool_eq,
  option_eq, string_eq, Bool-cases,
}
use patroni_routing_bench.Emitter.{
  Event, accepted, broken, Site, flush, append_event, emit, Op, emits, ticks, step, run,
  AllAccepted,
}
use patroni_routing_bench.Emitter.Flush.{batch_size-flush, flush-accepted-empty}
use patroni_routing_bench.Emitter.Session.{emit_cases, rest-AllAccepted}

leb-false : (a b : ℕ) → leb a b ≡ false → b < a
leb-false a b h = ground arith

batch_size-step : (o : Op) (s : Site) → (step o s).emitter.batch_size ≡ s.emitter.batch_size
unfolding step append_event
batch_size-step (emits d e) s =
    emit_cases (λ t. t.emitter.batch_size ≡ s.emitter.batch_size) d e s refl
      (batch_size-flush d (append_event e s))
batch_size-step (ticks d) s = batch_size-flush d s

-- Fewer events are pending than fill a batch.
abbrev pub IsShort : Site → Type 0
IsShort s = length s.emitter.buffer < s.emitter.batch_size

flush-IsShort : (s : Site) → 0 < s.emitter.batch_size → IsShort (flush accepted s)
flush-IsShort s h = rw (flush-accepted-empty s, batch_size-flush accepted s) h

emit-IsShort : (e : Event) (s : Site) → 0 < s.emitter.batch_size → IsShort (emit accepted e s)
unfolding emit append_event
emit-IsShort e s h =
    elim (Bool-cases (leb s.emitter.batch_size (length (s.emitter.buffer ++ e ∷ [])))) [
      | inl full ↦ rw full (flush-IsShort (append_event e s) h)
      | inr room ↦ rw room (leb-false s.emitter.batch_size _ room)
    ]

step-IsShort :
    (o : Op) (ops : List Op) (s : Site)
    → 0 < s.emitter.batch_size
    → AllAccepted (o ∷ ops)
    → IsShort (step o s)
unfolding step
step-IsShort (emits accepted e) ops s h a = emit-IsShort e s h
step-IsShort (emits (broken n) e) ops s h a = absurd a
step-IsShort (ticks accepted) ops s h a = flush-IsShort s h
step-IsShort (ticks (broken n)) ops s h a = absurd a

-- Between the operations of a session whose flushes are all accepted and do not overlap, and that began
-- with fewer pending events than fill a batch, there are never as many as fill one; this holds without a
-- database too.
pub run-IsShort : (ops : List Op) (s : Site) → IsShort s → AllAccepted ops → IsShort (run ops s)
unfolding run
run-IsShort [] s h a = h
run-IsShort (o ∷ ops) s h a =
    run-IsShort ops (step o s) (step-IsShort o ops s (omega arith) a) (rest-AllAccepted o ops a)
