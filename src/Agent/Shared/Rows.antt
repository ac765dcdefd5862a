-- ===== src/Agent/Shared/Rows.antt =====
-- What a worker of `_run_multi_target` leaves in the table that all share.
use patroni_routing_bench.Prelude.{
  ℕ, zero, suc, ◌+◌, ◌<◌, ◌≡◌, ◌≢◌, refl, sym, ap, ◌∙◌, true, inl, inr, some, List, [], ◌∷◌, ◌++◌,
  map, arith, length, select, select-append, In, In_right, In-selected, nat_eq, bool_eq, option_eq,
  string_eq, ◌==◌, Bool-cases, All, beq_refl,
}
use mathlib.Core.Path.{subst}
use mathlib.Core.List.{map-append}
use patroni_routing_bench.Emitter.{
  Row, Emitter, Delivery, accepted, broken, Site, row_of, Op, emits, ticks, run, flush, stop, step,
  emitted, AllAccepted,
}
use patroni_routing_bench.Emitter.Flush.{IsConfigured, flush-IsConfigured, flush-accepted-empty}
use patroni_routing_bench.Emitter.Session.{
  In-map, account, account-flush, account-run, account-drained, run-IsConfigured,
}
use patroni_routing_bench.Emitter.Local.{at}
use patroni_routing_bench.Watcher.{Polled}
use patroni_routing_bench.Agent.Shared.{
  Shared, Act, runs, stops, act, acts, Closing, flushes, stop_all, Thread, multi_target,
}
use patroni_routing_bench.Agent.Shared.Alone.{rows_of, own, get_elem?, OthersDiffer, moves-alone}

-- A flush that the database accepts, by the flush thread or by the stop.
abbrev pub IsFlush : Act → Type 0
IsFlush (runs (emits d e)) = ⊥
IsFlush (runs (ticks accepted)) = Unit
IsFlush (runs (ticks (broken n))) = ⊥
IsFlush (stops accepted accepted) = Unit
IsFlush (stops accepted (broken n)) = ⊥
IsFlush (stops (broken n) d) = ⊥

-- The operations of the worker at a position, in their order.
abbrev pub own_ops : ℕ → List (ℕ × Op) → List Op
own_ops k session = map (λ m. m.1) (select (λ m. m.0 == k) session)

-- Configured and drained, with this account.
abbrev Drained : List Row → Site → Type 0
Drained rows s = IsConfigured s × (account s ≡ rows) × (s.emitter.buffer ≡ [])

act-Drained : (a : Act) (s : Site) → IsFlush a → IsConfigured s → Drained (account s) (act a s)
unfolding act step stop
act-Drained (runs (emits d e)) s f c = absurd f
act-Drained (runs (ticks (broken n))) s f c = absurd f
act-Drained (stops (broken n) d) s f c = absurd f
act-Drained (stops accepted (broken n)) s f c = absurd f
act-Drained (runs (ticks accepted)) s f c =
    (flush-IsConfigured accepted s c, account-flush s c, flush-accepted-empty s)
act-Drained (stops accepted accepted) s f c =
    let t = flush accepted s in
    let c' = flush-IsConfigured accepted s c in
    (
      flush-IsConfigured accepted t c',
      account-flush t c' ∙ account-flush s c,
      flush-accepted-empty t,
    )

acts-Drained :
    (rest : List Act) (s : Site) (rows : List Row)
    → All IsFlush rest
    → Drained rows s
    → Drained rows (acts rest s)
unfolding acts
acts-Drained [] s rows f h = h
acts-Drained (a ∷ rest) s rows (fa, f) (c, same, empty) =
    let (c', same', empty') = act-Drained a s fa c in
    acts-Drained rest (act a s) rows f (c', same' ∙ same, empty')

-- Accepted flushes, at least one, move all that is to come into the table.
table-flushes :
    (all : List Act) (s : Site)
    → All IsFlush all
    → all ≢ []
    → IsConfigured s
    → (acts all s).table ≡ account s
unfolding acts
table-flushes [] s f some_act c = absurd (some_act refl)
table-flushes (a ∷ rest) s (fa, f) some_act c =
    let (_, same, empty) = acts-Drained rest (act a s) (account s) f (act-Drained a s fa c) in
    sym (account-drained (acts rest (act a s)) empty) ∙ same

acts-append : (xs ys : List Act) (s : Site) → acts (xs ++ ys) s ≡ acts ys (acts xs s)
unfolding acts
acts-append [] ys s = refl
acts-append (a ∷ xs) ys s = acts-append xs ys (act a s)

acts-runs : (ops : List Op) (s : Site) → acts (map runs ops) s ≡ run ops s
unfolding acts act run
acts-runs [] s = refl
acts-runs (o ∷ ops) s = acts-runs ops (step o s)

own-append : (k : ℕ) (ms ns : List (ℕ × Act)) → own k (ms ++ ns) ≡ own k ms ++ own k ns
own-append k ms ns =
    ap (map (λ m. m.1)) (select-append (λ m. m.0 == k) ms ns) ∙ map-append (λ m. m.1) _ _

own-session :
    (k : ℕ) (session : List (ℕ × Op))
    → own k (map (λ m. (m.0, runs m.1)) session) ≡ map runs (own_ops k session)
unfolding select
own-session k [] = refl
own-session k ((i, o) ∷ session) = elim (Bool-cases (i == k)) [
  | inl e ↦ simp (e, own-session k session)
  | inr e ↦ simp (e, own-session k session)
]

-- The loop comes to each emitter.
stop_all-In :
    (i k j : ℕ) (closings : List Closing)
    → k < length closings
    → j ≡ i + k
    → (d : Delivery) × (d' : Delivery) × In (j, stops d d') (stop_all i closings)
unfolding stop_all
stop_all-In i k j [] h e = absurd (omega (arith, h))
stop_all-In i zero j (c ∷ closings) h e =
    let same : j ≡ i = omega (arith, e) in
    (
      c.last,
      c.final,
      In_right _ (flushes c.rounds) _ (inl (ap (λ n. (n, stops c.last c.final)) same)),
    )
stop_all-In i (suc k) j (c ∷ closings) h e =
    let (d, d', found) = stop_all-In (suc i) k j closings (omega (arith, h)) (omega (arith, e)) in
    (d, d', In_right _ (flushes c.rounds) _ (inr found))

not_empty : {A : Type 0} (a : A) (xs : List A) → In a xs → xs ≢ []
not_empty a xs i e = let none_left : In a [] = subst (In a) e i in absurd none_left

own-stop_all :
    (k : ℕ) (closings : List Closing) → k < length closings → own k (stop_all 0 closings) ≢ []
own-stop_all k closings h =
    let (d, d', found) = stop_all-In 0 k k closings h (omega arith) in
    let chosen =
      In-selected (λ m. true) (λ m. m.0 == k) (stop_all 0 closings) (k, stops d d') found
        (beq_refl k) in
    not_empty (stops d d') _
      (In-map (λ m. m.1) (k, stops d d') (select (λ m. m.0 == k) (stop_all 0 closings)) chosen)

-- A worker of several that has a node of its own, a database and an empty buffer: if the database
-- accepts its flushes, then at the end of the process the table has of its node the rows that it had
-- before, then the rows of the events that the worker emitted, each once and in order, whatever the
-- other workers did and whichever of their flushes failed.
pub multi_target-rows :
    {S I : Type 0} (setup poll : I → S → Polled S) (threads : List (Thread S I))
    (session : List (ℕ × Op)) (closings : List Closing) (s : Shared) (k : ℕ) (em : Emitter)
    → get_elem? s.emitters k ≡ some em
    → OthersDiffer k em.node_name s.emitters
    → em.timescale_connstring ≢ ""
    → em.buffer ≡ []
    → AllAccepted (own_ops k session)
    → All IsFlush (own k (stop_all 0 closings))
    → k < length closings
    → rows_of em.node_name (multi_target setup poll threads session closings s).1.table
      ≡ rows_of em.node_name s.table ++ map (row_of em) (emitted (own_ops k session))
unfolding multi_target
multi_target-rows setup poll threads session closings s k em here others configured empty accepts
      closes bound =
    let n = em.node_name in
    let x = at em (rows_of n s.table) in
    let ms = map (λ m. (m.0, runs m.1)) session in
    let ops = own_ops k session in
    let stopping = own k (stop_all 0 closings) in
    let (_, rows, _, _) =
      moves-alone (ms ++ stop_all 0 closings) k n s x (here, refl, refl, others) in
    let split : own k (ms ++ stop_all 0 closings) ≡ map runs ops ++ stopping =
      own-append k ms (stop_all 0 closings) ∙ ap (λ l. l ++ stopping) (own-session k session) in
    let ran : acts (own k (ms ++ stop_all 0 closings)) x ≡ acts stopping (run ops x) =
      ap (λ l. acts l x) split
      ∙ acts-append (map runs ops) stopping x
      ∙ ap (acts stopping) (acts-runs ops x) in
    rows
    ∙ ap (λ y. y.table) ran
    ∙ table-flushes stopping (run ops x) closes (own-stop_all k closings bound)
        (run-IsConfigured ops x configured)
    ∙ account-run ops x configured accepts
    ∙ ap (λ l. l ++ map (row_of em) (emitted ops)) (account-drained x empty)
