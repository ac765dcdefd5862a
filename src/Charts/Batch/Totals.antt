-- ===== src/Charts/Batch/Totals.antt =====
-- The table of the batch report counts every row of the batch once.
use patroni_routing_bench.Prelude.{
  ℕ, suc, ◌+◌, String, ◌≡◌, ◌≢◌, refl, sym, ap, ◌∙◌, Bool, true, false, not, inl, inr, List, [],
  ◌∷◌, map, length, arith, select, select-take, select-skip, select-select, select-none,
  select-passes, select-All, each-All, In_first, Bool-cases, All, All-imp, In, ◌==◌, nat_eq,
  bool_eq, option_eq, string_eq, eq_of_beq, beq_refl,
}
use patroni_routing_bench.Prelude.Text.{codes}
use patroni_routing_bench.Charts.Gantt.{before}
use patroni_routing_bench.Charts.Batch.{
  BatchRow, unique, insert, sort, combos, of_combo, successes, Summary, summary, summary_table,
}

abbrev pub sum : List ℕ → ℕ
sum [] = 0
sum (n ∷ ns) = n + sum ns

-- How often a combination stands in a list.
abbrev pub times : String → List String → ℕ
times k ks = length (select (λ y. k == y) ks)

differs : (k x : String) → (k == x) ≡ false → k ≢ x
differs k x b e =
    let same : (k == x) ≡ true = ap (λ y. k == y) (sym e) ∙ beq_refl k in
    absurd (ground (arith, b, same))

not_both : (k x y : String) → (k == x) ≡ true → not (y == x) ≡ true → (k == y) ≡ false
not_both k x y b h = elim (Bool-cases (k == y)) [
  | inr c ↦ c
  | inl c ↦
      let same : (y == x) ≡ true = ap (λ z. z == x) (sym (eq_of_beq k y c)) ∙ b in
      absurd (ground (arith, h, same))
]

times-unique : (k : String) (xs : List String) → In k xs → times k (unique xs) ≡ 1
unfolding unique
times-unique k [] i = absurd i
times-unique k (x ∷ xs) i =
    let p : String → Bool = λ y. k == y in
    let q : String → Bool = λ y. not (y == x) in
    let rest = unique xs in
    elim (Bool-cases (k == x)) [
      | inl b ↦
          let gone : All (λ y. p y ≡ false) (select q rest) =
            All-imp _ _ (λ y h. not_both k x y b h) (select q rest) (select-passes q rest) in
          ap length (select-take p x (select q rest) b)
          ∙ ap (λ l. suc (length l)) (select-none p (select q rest) gone)
      | inr b ↦
          let kept : All (λ y. p y ≡ true → q y ≡ true) rest =
            each-All _ (λ y h. ap not (ap (λ z. z == x) (sym (eq_of_beq k y h)) ∙ b)) rest in
          let later : In k xs = elim (In_first k x xs i) [
            | inl e ↦ absurd (differs k x b e)
            | inr j ↦ j
          ] in
          ap length (select-skip p x (select q rest) b)
          ∙ ap length (select-select p q rest kept)
          ∙ times-unique k xs later
    ]

sum-insert :
    (f : String → ℕ) (x : String) (ks : List String)
    → sum (map f (insert x ks)) ≡ f x + sum (map f ks)
unfolding insert
sum-insert f x [] = refl
sum-insert f x (y ∷ ys) = elim (Bool-cases (before (codes y) (codes x))) [
  | inl b ↦ simp b (omega (arith, sum-insert f x ys))
  | inr b ↦ simp b refl
]

sum-sort : (f : String → ℕ) (ks : List String) → sum (map f (sort ks)) ≡ sum (map f ks)
unfolding sort
sum-sort f [] = refl
sum-sort f (k ∷ ks) = sum-insert f k (sort ks) ∙ ap (λ n. f k + n) (sum-sort f ks)

-- One more row counts where its combination stands.
sum-cons :
    (r : BatchRow) (rows : List BatchRow) (ks : List String)
    → sum (map (λ k. length (of_combo k (r ∷ rows))) ks)
      ≡ times r.combo_dir ks + sum (map (λ k. length (of_combo k rows)) ks)
unfolding select
sum-cons r rows [] = refl
sum-cons r rows (k ∷ ks) = elim (Bool-cases (r.combo_dir == k)) [
  | inl b ↦ simp b (omega (arith, sum-cons r rows ks))
  | inr b ↦ simp b (omega (arith, sum-cons r rows ks))
]

sum-none : (ks : List String) → sum (map (λ k. length (of_combo k [])) ks) ≡ 0
unfolding select
sum-none [] = refl
sum-none (k ∷ ks) = omega (arith, sum-none ks)

-- Rows whose combinations stand once in the list are each counted once.
sum-of_combo :
    (rows : List BatchRow) (ks : List String)
    → All (λ r. times r.combo_dir ks ≡ 1) rows
    → sum (map (λ k. length (of_combo k rows)) ks) ≡ length rows
sum-of_combo [] ks h = sum-none ks
sum-of_combo (r ∷ rows) ks (one, h) =
    sum-cons r rows ks ∙ omega (arith, one, sum-of_combo rows ks h)

pub combos-In : (rows : List BatchRow) → All (λ r. In r.combo_dir (combos rows)) rows
combos-In [] = tt
combos-In (r ∷ rows) = (inl refl, All-imp _ _ (λ s i. inr i) rows (combos-In rows))

sum-summary :
    (f : Summary → ℕ) (df : List BatchRow) (ks : List String)
    → sum (map f (map (summary df) ks)) ≡ sum (map (λ k. f (summary df k)) ks)
sum-summary f df [] = refl
sum-summary f df (k ∷ ks) = ap (λ n. f (summary df k) + n) (sum-summary f df ks)

-- The rows of the summary table share out the batch: their totals add up to the number of its runs, and
-- what they count as passed to the number of its runs with the status SUCCESS.
pub summary_table-totals :
    (df : List BatchRow)
    → (sum (map (λ s. s.total) (summary_table df)) ≡ length df)
      × (sum (map (λ s. s.ok) (summary_table df)) ≡ length (successes df))
unfolding summary_table summary
summary_table-totals df =
    let ks = unique (combos df) in
    let once : All (λ r. times r.combo_dir ks ≡ 1) df =
      All-imp _ _ (λ r i. times-unique r.combo_dir (combos df) i) df (combos-In df) in
    let passed = select-All (λ r. r.status == "SUCCESS") _ df once in
    (
      sum-summary (λ s. s.total) df (sort ks)
          ∙ sum-sort (λ k. length (of_combo k df)) ks
          ∙ sum-of_combo df ks once,
      sum-summary (λ s. s.ok) df (sort ks)
          ∙ sum-sort (λ k. length (of_combo k (successes df))) ks
          ∙ sum-of_combo (successes df) ks passed,
    )
