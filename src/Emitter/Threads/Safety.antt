-- ===== src/Emitter/Threads/Safety.antt =====
-- No interleaving of the two threads loses an event.
use patroni_routing_bench.Prelude.{
  ◌≡◌, refl, ◌∙◌, true, inl, inr, arith, In-append, List, [], ◌∷◌, ◌++◌, nat_eq, bool_eq, option_eq,
  string_eq, In, In_left, In_right,
}
use mathlib.Core.Path.{subst}
use patroni_routing_bench.Emitter.{Event}
use patroni_routing_bench.Emitter.Threads.{
  Thread, watcher, daemon, Flight, idle, sending, flight, Shared, set_flight, Step, append,
  take_buffer, discard, insert, finish, put_back, Reach, here, next, start, InFlight, Held,
  buffered, carried, stored, IsAccounted, Safe, start-Safe,
}

-- A step of thread `t` that leaves its flight at `f`, the buffer at `b` and the table at `l`.
abbrev pub moved : Thread → Flight → List Event → List Event → Shared → Shared
moved t f b l s = set_flight t f (record s { buffer = b; table = l })

module _ (e : Event) (s : Shared) where
  Held-buffer : (t : Thread) (f : Flight) (b l : List Event) → In e b → Held e (moved t f b l s)
  Held-buffer watcher f b l i = buffered i
  Held-buffer daemon f b l i = buffered i

  Held-flight :
      (t : Thread) (f : Flight) (b l : List Event) → InFlight e f → Held e (moved t f b l s)
  Held-flight watcher f b l i = carried watcher i
  Held-flight daemon f b l i = carried daemon i

  Held-table : (t : Thread) (f : Flight) (b l : List Event) → In e l → Held e (moved t f b l s)
  Held-table watcher f b l i = stored i
  Held-table daemon f b l i = stored i

  -- Only what the thread itself held and what the buffer and the table held has to be found again.
  Held-moved :
      (t : Thread) (f : Flight) (b l : List Event)
      → (In e s.buffer → Held e (moved t f b l s))
      → (InFlight e (flight t s) → Held e (moved t f b l s))
      → (In e s.table → In e l)
      → Held e s
      → Held e (moved t f b l s)
  Held-moved t f b l kb kf kl (buffered i) = kb i
  Held-moved t f b l kb kf kl (stored i) = Held-table t f b l (kl i)
  Held-moved watcher f b l kb kf kl (carried watcher i) = kf i
  Held-moved watcher f b l kb kf kl (carried daemon i) = carried daemon i
  Held-moved daemon f b l kb kf kl (carried watcher i) = carried watcher i
  Held-moved daemon f b l kb kf kl (carried daemon i) = kf i

IsAccounted-grow :
    (l l' : List Event) (f : Flight)
    → ((e : Event) → In e l → In e l')
    → IsAccounted l f
    → IsAccounted l' f
IsAccounted-grow l l' idle g h = tt
IsAccounted-grow l l' (sending taken rest) g h =
    λ e i. elim (h e i) [ inl r ↦ inl r | inr p ↦ inr (g e p) ]

module _ (s : Shared) (f : Flight) (b l : List Event)
    (g : (e : Event) → In e s.table → In e l) where
  IsAccounted-moved :
      (t : Thread)
      → IsAccounted l f
      → ((u : Thread) → IsAccounted s.table (flight u s))
      → (u : Thread) → IsAccounted (moved t f b l s).table (flight u (moved t f b l s))
  IsAccounted-moved watcher h hs watcher = h
  IsAccounted-moved watcher h hs daemon = IsAccounted-grow s.table l s.by_daemon g (hs daemon)
  IsAccounted-moved daemon h hs watcher = IsAccounted-grow s.table l s.by_watcher g (hs watcher)
  IsAccounted-moved daemon h hs daemon = h

emitted-moved :
    (t : Thread) (f : Flight) (b l : List Event) (s : Shared)
    → (moved t f b l s).emitted ≡ s.emitted
emitted-moved watcher f b l s = refl
emitted-moved daemon f b l s = refl

pub configured-moved :
    (t : Thread) (f : Flight) (b l : List Event) (s : Shared)
    → (moved t f b l s).configured ≡ s.configured
configured-moved watcher f b l s = refl
configured-moved daemon f b l s = refl

-- The invariant after a step of one thread, from the four facts about what it held.
Safe-moved :
    (t : Thread) (f : Flight) (b l : List Event) (s : Shared)
    → Safe s
    → ((e : Event) → In e s.buffer → Held e (moved t f b l s))
    → ((e : Event) → InFlight e (flight t s) → Held e (moved t f b l s))
    → ((e : Event) → In e s.table → In e l)
    → IsAccounted l f
    → Safe (moved t f b l s)
Safe-moved t f b l s h kb kf kl ka = record {
  on = configured-moved t f b l s ∙ h.on;
  held = λ e i.
      Held-moved e s t f b l (kb e) (kf e) (kl e)
        (h.held e (subst (In e) (emitted-moved t f b l s) i));
  accounted = IsAccounted-moved s f b l kl t ka h.accounted;
}

Step-Safe : {s t : Shared} → Step s t → Safe s → Safe t
Step-Safe (append e s w) h = record {
  on = h.on;
  held = λ f i. elim (In-append f s.emitted (e ∷ []) i) [
    | inr new ↦ buffered (In_right f s.buffer (e ∷ []) new)
    | inl old ↦ grown f (h.held f old)
  ];
  accounted = elim [ watcher ↦ h.accounted watcher | daemon ↦ h.accounted daemon ];
}
  where
    grown :
        (f : Event)
        → Held f s
        → Held f (record s { buffer = s.buffer ++ e ∷ []; emitted = s.emitted ++ e ∷ [] })
    grown f (buffered i) = buffered (In_left f s.buffer (e ∷ []) i)
    grown f (carried watcher i) = carried watcher i
    grown f (carried daemon i) = carried daemon i
    grown f (stored i) = stored i
Step-Safe (take_buffer t s p b) h =
    Safe-moved t (sending s.buffer s.buffer) [] s.table s h
      (λ e i. Held-flight e s t (sending s.buffer s.buffer) [] s.table i)
      (λ e i. absurd (subst (InFlight e) p i)) (λ e i. i) (λ e i. inl i)
Step-Safe (discard t s taken off p) h = absurd (ground (arith, off, h.on))
Step-Safe (insert t s taken rest e on p) h =
    Safe-moved t (sending taken rest) s.buffer (s.table ++ e ∷ []) s h
      (λ f i. Held-buffer f s t (sending taken rest) s.buffer (s.table ++ e ∷ []) i)
      (λ f i.
        Held-flight f s t (sending taken rest) s.buffer (s.table ++ e ∷ [])
          (subst (InFlight f) p i))
      (λ f i. In_left f s.table (e ∷ []) i)
      (λ f i. elim (subst (IsAccounted s.table) p (h.accounted t) f i) [
        | inl (inl q) ↦ inr (In_right f s.table (e ∷ []) (inl q))
        | inl (inr r) ↦ inl r
        | inr l ↦ inr (In_left f s.table (e ∷ []) l)
      ])
Step-Safe (finish t s taken on p) h =
    Safe-moved t idle s.buffer s.table s h (λ e i. Held-buffer e s t idle s.buffer s.table i)
      (λ e i. elim (subst (IsAccounted s.table) p (h.accounted t) e (subst (InFlight e) p i)) [
        | inl none_left ↦ absurd none_left
        | inr l ↦ Held-table e s t idle s.buffer s.table l
      ])
      (λ e i. i) tt
Step-Safe (put_back t s taken rest on p) h =
    Safe-moved t idle (taken ++ s.buffer) s.table s h
      (λ e i. Held-buffer e s t idle (taken ++ s.buffer) s.table (In_right e taken s.buffer i))
      (λ e i.
        Held-buffer e s t idle (taken ++ s.buffer) s.table
          (In_left e taken s.buffer (subst (InFlight e) p i)))
      (λ e i. i) tt

Reach-Safe : {s t : Shared} → Reach s t → Safe s → Safe t
Reach-Safe here h = h
Reach-Safe (next r st) h = Step-Safe st (Reach-Safe r h)

-- With a database configured: however the two threads interleave and whichever flushes fail, every
-- emitted event is in the buffer, in the hands of a flush that is under way, or in the table.
pub Reach-Held : {s : Shared} → Reach start s → (e : Event) → In e s.emitted → Held e s
Reach-Held r = (Reach-Safe r start-Safe).held

pub Reach-configured : {s : Shared} → Reach start s → s.configured ≡ true
Reach-configured r = (Reach-Safe r start-Safe).on

-- When no flush is under way and the buffer is empty, the table holds every emitted event.
pub Reach-drained :
    {s : Shared}
    → Reach start s
    → s.by_watcher ≡ idle
    → s.by_daemon ≡ idle
    → s.buffer ≡ []
    → (e : Event) → In e s.emitted
    → In e s.table
Reach-drained {s} r w d b e i = found (Reach-Held r e i)
  where
    found : Held e s → In e s.table
    found (buffered j) = absurd (subst (In e) b j)
    found (carried watcher j) = absurd (subst (InFlight e) w j)
    found (carried daemon j) = absurd (subst (InFlight e) d j)
    found (stored j) = j
