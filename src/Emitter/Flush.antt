-- ===== src/Emitter/Flush.antt =====
-- What one flush or one emission does to the buffer and to the table.
use patroni_routing_bench.Prelude.{
  ℕ, zero, suc, ◌≡◌, ◌≢◌, refl, sym, inl, inr, List, [], ◌∷◌, ◌++◌, map, append-nil, take, ◌==◌,
  string_eq, eq_of_beq, Bool-cases,
}
use patroni_routing_bench.Emitter.{
  Event, Row, Delivery, accepted, broken, Site, row_of, flush_events, flush,
}

-- The rows that the pending events would become.
unfoldable pub pending : Site → List Row
pending s = map (row_of s.emitter) s.emitter.buffer

abbrev pub IsConfigured : Site → Type 0
IsConfigured s = s.emitter.timescale_connstring ≢ ""

-- A delivery changes nothing of the emitter but its buffer.
flush_events-setup :
    (d : Delivery) (events : List Event) (s : Site)
    → (row_of (flush_events d events s).emitter ≡ row_of s.emitter)
      × ((flush_events d events s).emitter.timescale_connstring ≡ s.emitter.timescale_connstring)
      × ((flush_events d events s).emitter.batch_size ≡ s.emitter.batch_size)
unfolding flush_events row_of
flush_events-setup d [] s = (refl, refl, refl)
flush_events-setup accepted (e ∷ es) s = elim (Bool-cases (s.emitter.timescale_connstring == "")) [
  | inl eq ↦ rw eq (refl, refl, refl)
  | inr ne ↦ rw ne (refl, refl, refl)
]
flush_events-setup (broken n) (e ∷ es) s =
    elim (Bool-cases (s.emitter.timescale_connstring == "")) [
      | inl eq ↦ rw eq (refl, refl, refl)
      | inr ne ↦ rw ne (refl, refl, refl)
    ]

pub flush_accepted :
    (events : List Event) (s : Site)
    → IsConfigured s
    → s.emitter.buffer ≡ events
    → ((flush_events accepted events s).table ≡ s.table ++ map (row_of s.emitter) events)
      × ((flush_events accepted events s).emitter.buffer ≡ [])
unfolding flush_events row_of
flush_accepted [] s c h = (sym (append-nil s.table), h)
flush_accepted (e ∷ es) s c h = elim (Bool-cases (s.emitter.timescale_connstring == "")) [
  | inl eq ↦ absurd (c (eq_of_beq s.emitter.timescale_connstring "" eq))
  | inr ne ↦ rw ne (refl, refl)
]

pub flush_broken :
    (n : ℕ) (events : List Event) (s : Site)
    → IsConfigured s
    → s.emitter.buffer ≡ events
    → ((flush_events (broken n) events s).table ≡ s.table ++ map (row_of s.emitter) (take n events))
      × ((flush_events (broken n) events s).emitter.buffer ≡ events)
unfolding flush_events row_of
flush_broken zero [] s c h = (sym (append-nil s.table), h)
flush_broken (suc n) [] s c h = (sym (append-nil s.table), h)
flush_broken n (e ∷ es) s c h = elim (Bool-cases (s.emitter.timescale_connstring == "")) [
  | inl eq ↦ absurd (c (eq_of_beq s.emitter.timescale_connstring "" eq))
  | inr ne ↦ rw ne (refl, append-nil (e ∷ es))
]

pub row_of-flush : (d : Delivery) (s : Site) → row_of (flush d s).emitter ≡ row_of s.emitter
unfolding flush
row_of-flush d s = (flush_events-setup d s.emitter.buffer s).0

pub flush-IsConfigured : (d : Delivery) (s : Site) → IsConfigured s → IsConfigured (flush d s)
unfolding flush
flush-IsConfigured d s c = rw ((flush_events-setup d s.emitter.buffer s).1) c

pub batch_size-flush :
    (d : Delivery) (s : Site) → (flush d s).emitter.batch_size ≡ s.emitter.batch_size
unfolding flush
batch_size-flush d s = (flush_events-setup d s.emitter.buffer s).2

-- An accepted flush moves the pending rows to the end of the table.
pub flush-accepted-table :
    (s : Site) → IsConfigured s → (flush accepted s).table ≡ s.table ++ pending s
unfolding flush pending
flush-accepted-table s c = (flush_accepted s.emitter.buffer s c refl).0

flush_events-accepted-empty :
    (events : List Event) (s : Site)
    → s.emitter.buffer ≡ events
    → (flush_events accepted events s).emitter.buffer ≡ []
unfolding flush_events
flush_events-accepted-empty [] s h = h
flush_events-accepted-empty (e ∷ es) s h =
    elim (Bool-cases (s.emitter.timescale_connstring == "")) [ inl eq ↦ rw eq | inr ne ↦ rw ne ]

-- Without a failure nothing stays in the buffer, with or without a database to write to.
pub flush-accepted-empty : (s : Site) → (flush accepted s).emitter.buffer ≡ []
unfolding flush
flush-accepted-empty s = flush_events-accepted-empty s.emitter.buffer s refl

-- A failed flush keeps every event, and the rows inserted before the failure stay as well.
pub flush-broken-table :
    (n : ℕ) (s : Site)
    → IsConfigured s
    → ((flush (broken n) s).table ≡ s.table ++ map (row_of s.emitter) (take n s.emitter.buffer))
      × ((flush (broken n) s).emitter.buffer ≡ s.emitter.buffer)
unfolding flush
flush-broken-table n s c = flush_broken n s.emitter.buffer s c refl
