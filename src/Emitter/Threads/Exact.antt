-- ===== src/Emitter/Threads/Exact.antt =====
-- What the two threads of an emitter write while the database accepts every flush.
use patroni_routing_bench.Prelude.{
  ℕ, ◌+◌, ◌≡◌, refl, sym, ap, ◌∙◌, Bool, true, ◌⊎◌, inl, inr, List, [], ◌∷◌, ◌++◌, append_assoc,
  append-nil, length, length-append, select, select-append, arith,
}
use patroni_routing_bench.Emitter.{Event}
use patroni_routing_bench.Emitter.Threads.{
  Thread, watcher, daemon, Flight, idle, sending, flight, Shared, Step, append, take_buffer,
  discard, insert, finish, put_back, Reach, here, next, start,
}
use patroni_routing_bench.Emitter.Threads.Safety.{Reach-configured}

-- No flush fails.
abbrev pub IsDelivered : {s t : Shared} → Step s t → Type 0
IsDelivered (append e s w) = Unit
IsDelivered (take_buffer t s p b) = Unit
IsDelivered (discard t s taken off p) = Unit
IsDelivered (insert t s taken rest e on p) = Unit
IsDelivered (finish t s taken on p) = Unit
IsDelivered (put_back t s taken rest on p) = ⊥

abbrev pub AllDelivered : {s t : Shared} → Reach s t → Type 0
AllDelivered here = Unit
AllDelivered (next r st) = IsDelivered st × AllDelivered r

abbrev pub other : Thread → Thread
other watcher = daemon
other daemon = watcher

-- No flush begins while the other thread's flush is under way.
abbrev pub IsAlone : {s t : Shared} → Step s t → Type 0
IsAlone (append e s w) = Unit
IsAlone (take_buffer t s p b) = flight (other t) s ≡ idle
IsAlone (discard t s taken off p) = Unit
IsAlone (insert t s taken rest e on p) = Unit
IsAlone (finish t s taken on p) = Unit
IsAlone (put_back t s taken rest on p) = Unit

abbrev pub AllAlone : {s t : Shared} → Reach s t → Type 0
AllAlone here = Unit
AllAlone (next r st) = IsAlone st × AllAlone r

abbrev rest_of : Flight → List Event
rest_of idle = []
rest_of (sending taken rest) = rest

module _ (p : Event → Bool) where
  -- How many events of a list pass a test.
  abbrev pub count : List Event → ℕ
  count es = length (select p es)

  count-append : (xs ys : List Event) → count (xs ++ ys) ≡ count xs + count ys
  count-append xs ys = ap length (select-append p xs ys) ∙ length-append (select p xs) (select p ys)

  count-nil : count [] ≡ 0
  unfolding select
  count-nil = refl

  count-cons : (e : Event) (es : List Event) → count (e ∷ es) ≡ count (e ∷ []) + count es
  count-cons e es = count-append (e ∷ []) es

  -- The events that are in the table or still to come.
  abbrev total : Shared → ℕ
  total s =
      count s.table
      + (count (rest_of s.by_watcher) + (count (rest_of s.by_daemon) + count s.buffer))

  Step-total :
      {s t : Shared} (st : Step s t)
      → s.configured ≡ true
      → IsDelivered st
      → total s ≡ count s.emitted
      → total t ≡ count t.emitted
  Step-total (append e s w) on d h =
      omega (arith, h, count-append s.buffer (e ∷ []), count-append s.emitted (e ∷ []))
  Step-total (take_buffer watcher s q b) on d h =
      omega (arith, h, count-nil, ap (λ f. count (rest_of f)) q)
  Step-total (take_buffer daemon s q b) on d h =
      omega (arith, h, count-nil, ap (λ f. count (rest_of f)) q)
  Step-total (discard t s taken off q) on d h = absurd (ground (arith, off, on))
  Step-total (insert watcher s taken rest e o q) on d h =
      omega
        (arith, h, count-append s.table (e ∷ []), count-cons e rest, ap (λ f. count (rest_of f)) q)
  Step-total (insert daemon s taken rest e o q) on d h =
      omega
        (arith, h, count-append s.table (e ∷ []), count-cons e rest, ap (λ f. count (rest_of f)) q)
  Step-total (finish watcher s taken o q) on d h = omega (arith, h, ap (λ f. count (rest_of f)) q)
  Step-total (finish daemon s taken o q) on d h = omega (arith, h, ap (λ f. count (rest_of f)) q)
  Step-total (put_back t s taken rest o q) on d h = absurd d

  Reach-total : {s : Shared} (r : Reach start s) → AllDelivered r → total s ≡ count s.emitted
  Reach-total here d = omega (arith, count-nil)
  Reach-total (next r st) (d, ds) = Step-total st (Reach-configured r) d (Reach-total r ds)

-- With a database that accepts every flush, and in any interleaving of the two threads: when no flush is
-- under way and the buffer is empty, of the emitted events the table holds as many that pass a test as
-- were emitted, whatever the test is: each exactly as often as it was emitted, in some order.
pub drained-once :
    {s : Shared} (r : Reach start s)
    → AllDelivered r
    → s.by_watcher ≡ idle
    → s.by_daemon ≡ idle
    → s.buffer ≡ []
    → (p : Event → Bool) → count p s.table ≡ count p s.emitted
drained-once {s} r ds w d b p = omega (
  arith,
  Reach-total p r ds,
  ap (λ f. count p (rest_of f)) w,
  ap (λ f. count p (rest_of f)) d,
  ap (count p) b,
  count-nil p,
)

-- At most one flush is under way, and all events are in order.
abbrev Ordered : Shared → Type 0
Ordered s =
    ((s.by_watcher ≡ idle) ⊎ (s.by_daemon ≡ idle))
    × ((s.table ++ (rest_of s.by_watcher ++ rest_of s.by_daemon)) ++ s.buffer ≡ s.emitted)

not_idle :
    {A : Type 0} (f : Flight) (taken rest : List Event) → f ≡ sending taken rest → f ≡ idle → A
not_idle f taken rest p q = absurd (ground (arith, p, q))

settled :
    (s : Shared)
    → s.by_watcher ≡ idle
    → s.by_daemon ≡ idle
    → s.table ++ s.buffer ≡ (s.table ++ (rest_of s.by_watcher ++ rest_of s.by_daemon)) ++ s.buffer
settled s w d =
    ap (λ l. l ++ s.buffer) (sym (append-nil s.table))
    ∙ ap (λ f. (s.table ++ (rest_of idle ++ rest_of f)) ++ s.buffer) (sym d)
    ∙ ap (λ f. (s.table ++ (rest_of f ++ rest_of s.by_daemon)) ++ s.buffer) (sym w)

Step-Ordered :
    {s t : Shared} (st : Step s t)
    → s.configured ≡ true
    → IsDelivered st
    → IsAlone st
    → Ordered s
    → Ordered t
Step-Ordered (append e s w) on d a (one, h) = (
  one,
  sym (append_assoc (s.table ++ (rest_of s.by_watcher ++ rest_of s.by_daemon)) s.buffer (e ∷ []))
      ∙ ap (λ l. l ++ e ∷ []) h,
)
Step-Ordered (take_buffer watcher s q b) on d a (one, h) = (
  inr a,
  append-nil (s.table ++ (s.buffer ++ rest_of s.by_daemon))
      ∙ ap (λ f. s.table ++ (s.buffer ++ rest_of f)) a
      ∙ ap (λ l. s.table ++ l) (append-nil s.buffer)
      ∙ settled s q a
      ∙ h,
)
Step-Ordered (take_buffer daemon s q b) on d a (one, h) = (
  inl a,
  append-nil (s.table ++ (rest_of s.by_watcher ++ s.buffer))
      ∙ ap (λ f. s.table ++ (rest_of f ++ s.buffer)) a
      ∙ settled s a q
      ∙ h,
)
Step-Ordered (discard t s taken off q) on d a h = absurd (ground (arith, off, on))
Step-Ordered (insert watcher s taken rest e o q) on d a (inl w, h) =
    not_idle s.by_watcher taken (e ∷ rest) q w
Step-Ordered (insert watcher s taken rest e o q) on d a (inr i, h) = (
  inr i,
  ap (λ l. l ++ s.buffer) (append_assoc s.table (e ∷ []) (rest ++ rest_of s.by_daemon))
      ∙ ap (λ f. (s.table ++ (rest_of f ++ rest_of s.by_daemon)) ++ s.buffer) (sym q)
      ∙ h,
)
Step-Ordered (insert daemon s taken rest e o q) on d a (inr i, h) =
    not_idle s.by_daemon taken (e ∷ rest) q i
Step-Ordered (insert daemon s taken rest e o q) on d a (inl w, h) = (
  inl w,
  ap (λ f. ((s.table ++ e ∷ []) ++ (rest_of f ++ rest)) ++ s.buffer) w
      ∙ ap (λ l. l ++ s.buffer) (append_assoc s.table (e ∷ []) rest)
      ∙ ap (λ f. (s.table ++ (rest_of f ++ e ∷ rest)) ++ s.buffer) (sym w)
      ∙ ap (λ f. (s.table ++ (rest_of s.by_watcher ++ rest_of f)) ++ s.buffer) (sym q)
      ∙ h,
)
Step-Ordered (finish watcher s taken o q) on d a (one, h) =
    (inl refl, ap (λ f. (s.table ++ (rest_of f ++ rest_of s.by_daemon)) ++ s.buffer) (sym q) ∙ h)
Step-Ordered (finish daemon s taken o q) on d a (one, h) =
    (inr refl, ap (λ f. (s.table ++ (rest_of s.by_watcher ++ rest_of f)) ++ s.buffer) (sym q) ∙ h)
Step-Ordered (put_back t s taken rest o q) on d a h = absurd d

Reach-Ordered : {s : Shared} (r : Reach start s) → AllDelivered r → AllAlone r → Ordered s
Reach-Ordered here d a = (inl refl, refl)
Reach-Ordered (next r st) (d, ds) (a, others) =
    Step-Ordered st (Reach-configured r) d a (Reach-Ordered r ds others)

-- With a database that accepts every flush, and where no flush begins while the other thread's flush is
-- under way: when no flush is under way and the buffer is empty, the table holds the emitted events,
-- each once and in the order of their emission.
pub drained-ordered :
    {s : Shared} (r : Reach start s)
    → AllDelivered r
    → AllAlone r
    → s.by_watcher ≡ idle
    → s.by_daemon ≡ idle
    → s.buffer ≡ []
    → s.table ≡ s.emitted
drained-ordered {s} r ds alone w d b =
    let (one, h) = Reach-Ordered r ds alone in
    sym (append-nil s.table) ∙ ap (λ l. s.table ++ l) (sym b) ∙ settled s w d ∙ h
