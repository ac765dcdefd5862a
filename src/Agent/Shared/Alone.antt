-- ===== src/Agent/Shared/Alone.antt =====
-- The workers of one process do not disturb each other: what the table has of one node is what its
-- emitter would have written alone.
use patroni_routing_bench.Prelude.{
  ℕ, zero, suc, String, ◌≡◌, ◌≢◌, refl, sym, ap, ◌∙◌, false, inl, inr, Option, none, some, List, [],
  ◌∷◌, ◌++◌, map, arith, append-nil, select, select-append, select_whole, select-none, nat_eq,
  bool_eq, option_eq, string_eq, ◌==◌, eq_of_beq, beq_refl, Bool-cases, All, All-imp,
}
use mathlib.Core.Path.{subst}
use patroni_routing_bench.Emitter.{Row, Emitter, Site}
use patroni_routing_bench.Emitter.Local.{at, Local, step-Local, stop-Local}
use patroni_routing_bench.Agent.Shared.{Shared, Act, runs, stops, act, acts, turn, moves}

-- The rows of a node, and the acts of the worker at a position, in their order.
abbrev pub rows_of : String → List Row → List Row
rows_of n table = select (λ r. r.node == n) table

abbrev pub own : ℕ → List (ℕ × Act) → List Act
own k ms = map (λ m. m.1) (select (λ m. m.0 == k) ms)

abbrev pub get_elem? {ℓ} : {A : Type ℓ} → List A → ℕ → Option A
get_elem? [] k = none
get_elem? (x ∷ xs) zero = some x
get_elem? (x ∷ xs) (suc k) = get_elem? xs k

-- No other emitter than the one at the position has the node's name.
abbrev pub OthersDiffer : ℕ → String → List Emitter → Type 0
OthersDiffer k n [] = Unit
OthersDiffer zero n (em ∷ ems) = All (λ e. e.node_name ≢ n) ems
OthersDiffer (suc k) n (em ∷ ems) = (em.node_name ≢ n) × OthersDiffer k n ems

-- The emitter at the position is this one, and the node's rows of the table are these.
abbrev pub Holds : ℕ → String → Site → Shared → Type 0
Holds k n own_site s =
    (get_elem? s.emitters k ≡ some own_site.emitter)
    × (rows_of n s.table ≡ own_site.table)
    × (own_site.emitter.node_name ≡ n)
    × OthersDiffer k n s.emitters

act-Local : (a : Act) → Local (act a)
unfolding act
act-Local (runs o) = step-Local o
act-Local (stops d d') = stop-Local d d'

differ : (a b : String) → a ≢ b → (a == b) ≡ false
differ a b ne = elim (Bool-cases (a == b)) [ inl e ↦ absurd (ne (eq_of_beq a b e)) | inr h ↦ h ]

rows_of-own : (n : String) (t : List Row) → All (λ r. r.node ≡ n) t → rows_of n t ≡ t
rows_of-own n t h =
    select_whole (λ r. r.node == n) t (All-imp _ _ (λ r e. ap (λ m. m == n) e ∙ beq_refl n) t h)

rows_of-other : (n m : String) (t : List Row) → m ≢ n → All (λ r. r.node ≡ m) t → rows_of n t ≡ []
rows_of-other n m t ne h =
    select-none (λ r. r.node == n) t (All-imp _ _ (λ r e. ap (λ x. x == n) e ∙ differ m n ne) t h)

-- The emitter with the node's rows, before and after its act on the whole table.
act-own :
    (a : Act) (em : Emitter) (t : List Row)
    → let n = em.node_name in
      let y = act a (at em (rows_of n t)) in
      ((act a (at em t)).emitter ≡ y.emitter)
      × (rows_of n (act a (at em t)).table ≡ y.table)
      × (y.emitter.node_name ≡ n)
act-own a em t =
    let n = em.node_name in
    let (same, added, mine, node) = act-Local a em t in
    let (same_y, added_y, _, _) = act-Local a em (rows_of n t) in
    let new = (act a (at em [])).table in
    (
      same ∙ sym same_y,
      ap (rows_of n) added
          ∙ select-append (λ r. r.node == n) t new
          ∙ ap (λ l. rows_of n t ++ l) (rows_of-own n new mine)
          ∙ sym added_y,
      ap (λ e. e.node_name) same_y ∙ node,
    )

act-other :
    (a : Act) (em : Emitter) (n : String) (t : List Row)
    → em.node_name ≢ n
    → (rows_of n (act a (at em t)).table ≡ rows_of n t) × ((act a (at em t)).emitter.node_name ≢ n)
act-other a em n t ne =
    let (same, added, mine, node) = act-Local a em t in
    let new = (act a (at em [])).table in
    (
      ap (rows_of n) added
          ∙ select-append (λ r. r.node == n) t new
          ∙ ap (λ l. rows_of n t ++ l) (rows_of-other n em.node_name new ne mine)
          ∙ append-nil (rows_of n t),
      λ e. ne (sym (ap (λ x. x.node_name) same ∙ node) ∙ e),
    )

turn-own :
    (a : Act) (k : ℕ) (ems : List Emitter) (t : List Row) (x : Site) (n : String)
    → Holds k n x (record { emitters = ems; table = t })
    → Holds k n (act a x) (turn a k ems t)
unfolding turn
turn-own a k [] t x n (here, rows, node, others) = absurd (ground (arith, here))
turn-own a zero (em ∷ ems) t x n (here, rows, node, others) =
    let e : em ≡ x.emitter = ground (arith, here) in
    let en : em.node_name ≡ n = ap (λ y. y.node_name) e ∙ node in
    let whole : at em (rows_of em.node_name t) ≡ x =
      ap (at em) (ap (λ m. rows_of m t) en ∙ rows) ∙ ap (λ y. at y x.table) e in
    let (emitter', rows', node') = act-own a em t in
    (
      ap some emitter' ∙ ap (λ y. some (act a y).emitter) whole,
      ap (λ m. rows_of m (act a (at em t)).table) (sym en)
          ∙ rows'
          ∙ ap (λ y. (act a y).table) whole,
      ap (λ y. (act a y).emitter.node_name) (sym whole) ∙ node' ∙ en,
      others,
    )
turn-own a (suc k) (em ∷ ems) t x n (there, rows, node, (ne, others)) =
    let (there', rows', node', others') = turn-own a k ems t x n (there, rows, node, others) in
    (there', rows', node', (ne, others'))

-- A turn among emitters that all have other names.
turn-strangers :
    (a : Act) (i : ℕ) (ems : List Emitter) (t : List Row) (n : String)
    → All (λ e. e.node_name ≢ n) ems
    → (rows_of n (turn a i ems t).table ≡ rows_of n t)
      × All (λ e. e.node_name ≢ n) (turn a i ems t).emitters
unfolding turn
turn-strangers a i [] t n h = (refl, tt)
turn-strangers a zero (em ∷ ems) t n (ne, h) =
    let (kept, still) = act-other a em n t ne in (kept, (still, h))
turn-strangers a (suc i) (em ∷ ems) t n (ne, h) =
    let (kept, still) = turn-strangers a i ems t n h in (kept, (ne, still))

turn-other :
    (a : Act) (i k : ℕ) (ems : List Emitter) (t : List Row) (x : Site) (n : String)
    → i ≢ k
    → Holds k n x (record { emitters = ems; table = t })
    → Holds k n x (turn a i ems t)
unfolding turn
turn-other a i k [] t x n ne h = h
turn-other a zero zero (em ∷ ems) t x n ne h = absurd (ne refl)
turn-other a zero (suc k) (em ∷ ems) t x n ne (there, rows, node, (other, others)) =
    let (kept, still) = act-other a em n t other in (there, kept ∙ rows, node, (still, others))
turn-other a (suc i) zero (em ∷ ems) t x n ne (here, rows, node, others) =
    let (kept, still) = turn-strangers a i ems t n others in (here, kept ∙ rows, node, still)
turn-other a (suc i) (suc k) (em ∷ ems) t x n ne (there, rows, node, (other, others)) =
    let (there', rows', node', others') =
      turn-other a i k ems t x n (λ e. ne (ap suc e)) (there, rows, node, others) in
    (there', rows', node', (other, others'))

-- Any moves of all the workers, in any order and with any outcomes of their flushes: a worker whose
-- node no other has ends with the same emitter, and the table with the same rows of its node, as if
-- its own moves had run alone on a table with the rows of its node.
pub moves-alone :
    (ms : List (ℕ × Act)) (k : ℕ) (n : String) (s : Shared) (x : Site)
    → Holds k n x s
    → Holds k n (acts (own k ms) x) (moves ms s)
unfolding moves acts select
moves-alone [] k n s x h = h
moves-alone ((i, a) ∷ ms) k n s x h = elim (Bool-cases (i == k)) [
  | inl e ↦ rw e (
      moves-alone ms k n _ (act a x) (
        subst (λ j. Holds k n (act a x) (turn a j s.emitters s.table)) (sym (eq_of_beq i k e))
          (turn-own a k s.emitters s.table x n h)))
  | inr e ↦ rw e (
      moves-alone ms k n _ x
        (turn-other a i k s.emitters s.table x n (λ p. absurd (ground (arith, e, p))) h))
]
