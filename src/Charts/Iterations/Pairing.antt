-- ===== src/Charts/Iterations/Pairing.antt =====
-- Which run each row of the results is paired with.
use patroni_routing_bench.Prelude.{
  ℕ, zero, suc, ◌+◌, ◌≤◌, ltb, length-append, select-append, All, All-imp, String, ◌≡◌, refl, sym,
  ap, ◌∙◌, Bool, inl, inr, Option, none, some, List, [], ◌∷◌, map, length, drop, select, arith,
  ◌==◌, nat_eq, bool_eq, option_eq, string_eq, eq_of_beq, Bool-cases, select-none, select-take,
  select-skip,
}
use patroni_routing_bench.Charts.Dict.{
  Dict, get, update, get-update-same, get-update-other, group_from, values_of, get-group_from,
}
use patroni_routing_bench.Charts.Hero.{Medians}
use patroni_routing_bench.Charts.Iterations.{
  MetaRow, CsvRow, TableRow, insert, sort, scenario_of, runs_by_scenario, nth, milestones_of,
  table_row, rows_from, iteration_rows,
}

module _ {A : Type 0} where
  -- The first `n` entries, and none for each that is missing.
  abbrev pub firsts : ℕ → List A → List (Option A)
  firsts zero xs = []
  firsts (suc n) [] = none ∷ firsts n []
  firsts (suc n) (x ∷ xs) = some x ∷ firsts n xs

  firsts-drop :
      (n k : ℕ) (xs : List A) → nth k xs ∷ firsts n (drop (suc k) xs) ≡ firsts (suc n) (drop k xs)
  firsts-drop n zero [] = refl
  firsts-drop n zero (x ∷ xs) = refl
  firsts-drop n (suc k) [] = refl
  firsts-drop n (suc k) (x ∷ xs) = firsts-drop n k xs

module _ (s : String) where
  abbrev pub ids_of : List MetaRow → List String
  ids_of rows = values_of scenario_of (λ r. r.id) s rows

  abbrev pub is_row : TableRow → Bool
  is_row t = t.csv.scenario == s

  abbrev pub paired : List TableRow → List (Option String)
  paired ts = map (λ t. t.run_id) (select is_row ts)

  abbrev pub rows_of : List CsvRow → ℕ
  rows_of rows = length (select (λ r. r.scenario == s) rows)

  module _ (runs : Dict (List String)) (by_rid : Dict Medians) where
    paired-rows_from :
        (counter : Dict ℕ) (rows : List CsvRow)
        → paired (rows_from runs by_rid counter rows)
          ≡ firsts (rows_of rows) (drop (get s 0 counter) (get s [] runs))
    unfolding rows_from table_row
    paired-rows_from counter [] =
        let left = drop (get s 0 counter) (get s [] runs) in
        ap (map (λ t. t.run_id)) (select-none is_row [] tt)
        ∙ sym (ap (λ l. firsts (length l) left) (select-none (λ r. r.scenario == s) [] tt))
    paired-rows_from counter (row ∷ rows) =
        let n = get s 0 counter in
        let ids = get s [] runs in
        let next = update row.scenario 0 (λ n. n + 1) counter in
        let run_id = nth (get row.scenario 0 counter) (get row.scenario [] runs) in
        let t = table_row row run_id (milestones_of by_rid run_id) in
        let more = rows_from runs by_rid next rows in
        let rest = paired-rows_from next rows in
        elim (Bool-cases (row.scenario == s)) [
          | inl b ↦
              let same : row.scenario ≡ s = eq_of_beq row.scenario s b in
              let counted : get s 0 next ≡ suc n =
                ap (λ k. get s 0 (update k 0 (λ n. n + 1) counter)) same
                ∙ (get-update-same s 0 (λ n. n + 1) counter ∙ omega arith) in
              ap (map (λ t. t.run_id)) (select-take is_row t more b)
              ∙ ap (λ l. run_id ∷ l) (rest ∙ ap (λ k. firsts (rows_of rows) (drop k ids)) counted)
              ∙ ap
                  (λ k.
                    nth (get k 0 counter) (get k [] runs)
                    ∷ firsts (rows_of rows) (drop (suc n) ids))
                  same
              ∙ firsts-drop (rows_of rows) n ids
              ∙ sym (
                  ap (λ l. firsts (length l) (drop n ids))
                    (select-take (λ r. r.scenario == s) row rows b))
          | inr b ↦
              ap (map (λ t. t.run_id)) (select-skip is_row t more b)
              ∙ rest
              ∙ ap (λ k. firsts (rows_of rows) (drop k ids))
                  (get-update-other row.scenario s 0 (λ n. n + 1) counter b)
              ∙ sym (
                  ap (λ l. firsts (length l) (drop n ids))
                    (select-skip (λ r. r.scenario == s) row rows b))
        ]

-- The runs in the order of their starts.
abbrev pub Ascending : List MetaRow → Type 0
Ascending [] = Unit
Ascending (x ∷ xs) = All (λ y. x.started_at ≤ y.started_at) xs × Ascending xs

-- Both lists have as many runs that pass the test, whatever the test is.
abbrev pub SameRuns : List MetaRow → List MetaRow → Type 0
SameRuns xs ys = (p : MetaRow → Bool) → length (select p xs) ≡ length (select p ys)

All-insert :
    (P : MetaRow → Type 0) (x : MetaRow) (ys : List MetaRow) → P x → All P ys → All P (insert x ys)
unfolding insert
All-insert P x [] p h = (p, tt)
All-insert P x (y ∷ ys) p (q, h) = elim (Bool-cases (ltb y.started_at x.started_at)) [
  | inl b ↦ simp b (q, All-insert P x ys p h)
  | inr b ↦ simp b (p, (q, h))
]

insert-Ascending : (x : MetaRow) (ys : List MetaRow) → Ascending ys → Ascending (insert x ys)
unfolding insert
insert-Ascending x [] h = (tt, tt)
insert-Ascending x (y ∷ ys) (q, h) = elim (Bool-cases (ltb y.started_at x.started_at)) [
  | inl b ↦ simp b (
    All-insert (λ z. y.started_at ≤ z.started_at) x ys (ground (arith, b)) q,
    insert-Ascending x ys h,
  )
  | inr b ↦
      let low : x.started_at ≤ y.started_at = ground (arith, b) in
      let lows = All-imp _ (λ z. x.started_at ≤ z.started_at) (λ z k. omega (arith, k, low)) ys q in
      simp b ((low, lows), (q, h))
]

sort-Ascending : (xs : List MetaRow) → Ascending (sort xs)
unfolding sort
sort-Ascending [] = tt
sort-Ascending (x ∷ xs) = insert-Ascending x (sort xs) (sort-Ascending xs)

module _ (p : MetaRow → Bool) where
  count_cons :
      (x : MetaRow) (xs : List MetaRow)
      → length (select p (x ∷ xs)) ≡ length (select p (x ∷ [])) + length (select p xs)
  count_cons x xs =
      ap length (select-append p (x ∷ []) xs) ∙ length-append (select p (x ∷ [])) (select p xs)

  count-insert :
      (x : MetaRow) (ys : List MetaRow)
      → length (select p (insert x ys)) ≡ length (select p (x ∷ ys))
  unfolding insert
  count-insert x [] = refl
  count-insert x (y ∷ ys) = elim (Bool-cases (ltb y.started_at x.started_at)) [
    | inl b ↦ simp b (
        omega (
          arith,
          count_cons y (insert x ys),
          count-insert x ys,
          count_cons x ys,
          count_cons x (y ∷ ys),
          count_cons y ys,
        ))
    | inr b ↦ simp b refl
  ]

  count-sort : (xs : List MetaRow) → length (select p (sort xs)) ≡ length (select p xs)
  unfolding sort
  count-sort [] = refl
  count-sort (x ∷ xs) =
      count-insert x (sort xs)
      ∙ omega (arith, count_cons x (sort xs), count_cons x xs, count-sort xs)

-- There is an order of the runs, ascending in their starts and with each run as often as it is in the table,
-- in which the rows of one scenario are paired with the runs of that scenario: the first row with the
-- first run, and so on, whatever rows of other scenarios stand between; a row for which no run is left
-- has none.
pub paired-iteration_rows :
    (s : String) (meta : List MetaRow) (by_rid : Dict Medians) (rows : List CsvRow)
    → (runs : List MetaRow) × Ascending runs
      × SameRuns runs meta
      × (paired s (iteration_rows meta by_rid rows) ≡ firsts (rows_of s rows) (ids_of s runs))
unfolding iteration_rows runs_by_scenario get
paired-iteration_rows s meta by_rid rows = (
  sort meta,
  sort-Ascending meta,
  λ p. count-sort p meta,
  paired-rows_from s (group_from scenario_of (λ r. r.id) [] (sort meta)) by_rid [] rows
      ∙ ap (firsts (rows_of s rows)) (get-group_from scenario_of (λ r. r.id) s [] (sort meta)),
)
