-- ===== src/Charts/Failures/Counts.antt =====
-- What the counts of the table of failures add up to.
use patroni_routing_bench.Prelude.{
  ℕ, suc, ◌+◌, ◌≤◌, String, ◌≡◌, refl, sym, ap, ◌∙◌, inl, inr, List, [], ◌∷◌, map, length, select,
  arith, ltb, ◌==◌, nat_eq, bool_eq, option_eq, string_eq, eq_of_beq, Bool-cases, if_true, if_false,
  select-none, select-take, select-skip,
}
use mathlib.Core.Path.{subst}
use patroni_routing_bench.Charts.Dict.{Dict, get, update, get-update-same, get-update-other}
use patroni_routing_bench.Charts.Failures.{
  Failure, Entry, Row, category, empty, add_failure, count_from, cat_data, insert, sort, row_of,
  failure_table, total, total_failures,
}

abbrev pub shown : List Row → ℕ
shown [] = 0
shown (r ∷ rows) = r.count + shown rows

total-update :
    (r : Failure) (key : String) (d : Dict Entry)
    → total (update key empty (add_failure r) d) ≡ suc (total d)
unfolding update add_failure
total-update r key [] = refl
total-update r key ((k, e) ∷ d) = elim (Bool-cases (k == key)) [
  | inl b ↦ simp b (omega arith)
  | inr b ↦ simp b (omega (arith, total-update r key d))
]

total-count_from :
    (d : Dict Entry) (rows : List Failure) → total (count_from d rows) ≡ total d + length rows
unfolding count_from
total-count_from d [] = omega arith
total-count_from d (r ∷ rows) =
    let rest = total-count_from (update (category r) empty (add_failure r) d) rows in
    omega (arith, rest, total-update r (category r) d)

total-insert : (x : String × Entry) (d : Dict Entry) → total (insert x d) ≡ x.1.count + total d
unfolding insert
total-insert x [] = refl
total-insert x (y ∷ ys) = elim (Bool-cases (ltb x.1.count y.1.count)) [
  | inl b ↦ ap total (if_true _ _ _ b) ∙ omega (arith, total-insert x ys)
  | inr b ↦ ap total (if_false _ _ _ b)
]

total-sort : (d : Dict Entry) → total (sort d) ≡ total d
unfolding sort
total-sort [] = refl
total-sort (x ∷ xs) = omega (arith, total-insert x (sort xs), total-sort xs)

shown-map : (d : Dict Entry) → shown (map row_of d) ≡ total d
unfolding row_of
shown-map [] = refl
shown-map (x ∷ xs) = omega (arith, shown-map xs)

abbrev pub Below : ℕ → List Row → Type 0
Below n [] = Unit
Below n (r ∷ rows) = (r.count ≤ n) × Below r.count rows

abbrev pub Descending : List Row → Type 0
Descending [] = Unit
Descending (r ∷ rows) = Below r.count rows

insert-Below :
    (n : ℕ) (x : String × Entry) (d : Dict Entry)
    → x.1.count ≤ n
    → Below n (map row_of d)
    → Below n (map row_of (insert x d))
unfolding insert row_of
insert-Below n x [] h k = (h, tt)
insert-Below n x (y ∷ ys) h (p, k) = elim (Bool-cases (ltb x.1.count y.1.count)) [
  | inl b ↦
      subst (λ l. Below n (map row_of l)) (sym (if_true _ _ _ b))
        (p, insert-Below y.1.count x ys (ground (arith, b)) k)
  | inr b ↦ subst (λ l. Below n (map row_of l)) (sym (if_false _ _ _ b)) (h, (ground (arith, b), k))
]

insert-Descending :
    (x : String × Entry) (d : Dict Entry)
    → Descending (map row_of d)
    → Descending (map row_of (insert x d))
unfolding insert row_of
insert-Descending x [] k = tt
insert-Descending x (y ∷ ys) k = elim (Bool-cases (ltb x.1.count y.1.count)) [
  | inl b ↦
      subst (λ l. Descending (map row_of l)) (sym (if_true _ _ _ b))
        (insert-Below y.1.count x ys (ground (arith, b)) k)
  | inr b ↦ subst (λ l. Descending (map row_of l)) (sym (if_false _ _ _ b)) (ground (arith, b), k)
]

sort-Descending : (d : Dict Entry) → Descending (map row_of (sort d))
unfolding sort
sort-Descending [] = tt
sort-Descending (x ∷ xs) = insert-Descending x (sort xs) (sort-Descending xs)

-- The number of the rows of one kind.
abbrev pub occurrences : String → List Failure → ℕ
occurrences cat rows = length (select (λ r. category r == cat) rows)

count-count_from :
    (cat : String) (d : Dict Entry) (rows : List Failure)
    → (get cat empty (count_from d rows)).count ≡ (get cat empty d).count + occurrences cat rows
unfolding count_from add_failure
count-count_from cat d [] = omega (arith, ap length (select-none (λ r. category r == cat) [] tt))
count-count_from cat d (r ∷ rows) =
    let rest = count-count_from cat (update (category r) empty (add_failure r) d) rows in
    elim (Bool-cases (category r == cat)) [
      | inl b ↦
          let same : category r ≡ cat = eq_of_beq (category r) cat b in
          let one =
            ap (λ e. e.count)
              (ap (λ k. get cat empty (update k empty (add_failure r) d)) same
                ∙ get-update-same cat empty (add_failure r) d) in
          let seen = ap length (select-take (λ r. category r == cat) r rows b) in
          omega (arith, rest, one, seen)
      | inr b ↦
          let none_more =
            ap (λ e. e.count) (get-update-other (category r) cat empty (add_failure r) d b) in
          let seen = ap length (select-skip (λ r. category r == cat) r rows b) in
          omega (arith, rest, none_more, seen)
    ]

-- The failures of a combination are counted exactly: each kind has as many as there are rows with an
-- error of that kind, and the counts of the table, which are in descending order, add up to the number of
-- the rows, so that no failure is left out or counted twice.
pub failure_table-Descending :
    (rows : List Failure)
    → ((cat : String) → (get cat empty (cat_data rows)).count ≡ occurrences cat rows)
      × Descending (failure_table rows)
      × (shown (failure_table rows) ≡ length rows)
      × (total_failures rows ≡ length rows)
unfolding cat_data failure_table total_failures get
failure_table-Descending rows =
    let all : total (count_from [] rows) ≡ length rows = omega (arith, total-count_from [] rows) in
    (
      λ cat. omega (arith, count-count_from cat [] rows),
      sort-Descending (count_from [] rows),
      shown-map (sort (count_from [] rows)) ∙ (total-sort (count_from [] rows) ∙ all),
      all,
    )
