-- ===== src/Charts/Batch/Agreement.antt =====
-- The charts of the families and the table of the batch report agree.
use patroni_routing_bench.Prelude.{
  ◌<◌, String, ◌≡◌, refl, sym, ap, ◌∙◌, Bool, true, not, inl, inr, List, [], ◌∷◌, map, length,
  arith, ltb, select, select-All, Bool-cases, All, All-imp, each-All, In, In-selected, ◌==◌, nat_eq,
  bool_eq, option_eq, string_eq, eq_of_beq, beq_refl, if_true, select-select, select_whole,
  select-passes, All-append, All-both, All-map,
}
use mathlib.Core.Path.{subst}
use patroni_routing_bench.Prelude.Text.{codes}
use patroni_routing_bench.Emitter.Session.{In-map}
use patroni_routing_bench.Charts.Gantt.{before}
use patroni_routing_bench.Charts.Batch.{
  BatchRow, unique, insert, sort, combos, of_combo, successes, Summary, summary, summary_table, Bar,
  bar, less, insert_bar, sort_values, hbar, member, haproxy_family, vip_family, family,
  family_charts,
}
use patroni_routing_bench.Charts.Batch.Totals.{combos-In}

module _ (P : Bar → Type 0) where
  All-insert_bar : (x : Bar) (ys : List Bar) → P x → All P ys → All P (insert_bar x ys)
  unfolding insert_bar
  All-insert_bar x [] p h = (p, tt)
  All-insert_bar x (y ∷ ys) p (q, h) = elim (Bool-cases (less y.med x.med)) [
    | inl b ↦ simp b (q, All-insert_bar x ys p h)
    | inr b ↦ simp b (p, (q, h))
  ]

  All-sort_values : (xs : List Bar) → All P xs → All P (sort_values xs)
  unfolding sort_values
  All-sort_values [] h = tt
  All-sort_values (x ∷ xs) (p, h) = All-insert_bar x (sort_values xs) p (All-sort_values xs h)

module _ (P : String → Type 0) where
  All-insert : (x : String) (ys : List String) → P x → All P ys → All P (insert x ys)
  unfolding insert
  All-insert x [] p h = (p, tt)
  All-insert x (y ∷ ys) p (q, h) = elim (Bool-cases (before (codes y) (codes x))) [
    | inl b ↦ simp b (q, All-insert x ys p h)
    | inr b ↦ simp b (p, (q, h))
  ]

  All-sort : (xs : List String) → All P xs → All P (sort xs)
  unfolding sort
  All-sort [] h = tt
  All-sort (x ∷ xs) (p, h) = All-insert x (sort xs) p (All-sort xs h)

  All-unique : (xs : List String) → All P xs → All P (unique xs)
  unfolding unique
  All-unique [] h = tt
  All-unique (x ∷ xs) (p, h) = (p, select-All (λ y. not (y == x)) P (unique xs) (All-unique xs h))

  All-combos : (rows : List BatchRow) → All (λ r. P r.combo_dir) rows → All P (combos rows)
  All-combos [] h = tt
  All-combos (r ∷ rows) (p, h) = (p, All-combos rows h)

module _ (k : String) where
  In-insert_here : (x : String) (ys : List String) → k ≡ x → In k (insert x ys)
  unfolding insert
  In-insert_here x [] e = inl e
  In-insert_here x (y ∷ ys) e = elim (Bool-cases (before (codes y) (codes x))) [
    | inl b ↦ simp b (inr (In-insert_here x ys e))
    | inr b ↦ simp b (inl e)
  ]

  In-insert : (x : String) (ys : List String) → In k ys → In k (insert x ys)
  unfolding insert
  In-insert x [] i = absurd i
  In-insert x (y ∷ ys) (inl e) = elim (Bool-cases (before (codes y) (codes x))) [
    | inl b ↦ simp b (inl e)
    | inr b ↦ simp b (inr (inl e))
  ]
  In-insert x (y ∷ ys) (inr i) = elim (Bool-cases (before (codes y) (codes x))) [
    | inl b ↦ simp b (inr (In-insert x ys i))
    | inr b ↦ simp b (inr (inr i))
  ]

  In-sort : (xs : List String) → In k xs → In k (sort xs)
  unfolding sort
  In-sort [] i = absurd i
  In-sort (x ∷ xs) (inl e) = In-insert_here x (sort xs) e
  In-sort (x ∷ xs) (inr i) = In-insert x (sort xs) (In-sort xs i)

  In-unique : (xs : List String) → In k xs → In k (unique xs)
  unfolding unique
  In-unique [] i = absurd i
  In-unique (x ∷ xs) (inl e) = inl e
  In-unique (x ∷ xs) (inr i) = elim (Bool-cases (k == x)) [
    | inl b ↦ inl (eq_of_beq k x b)
    | inr b ↦ inr (
        In-selected (λ y. not (y == x)) (λ y. not (y == x)) (unique xs) k (In-unique xs i)
          (ap not b))
  ]

rows-In : (rows : List BatchRow) → All (λ r. In r rows) rows
rows-In [] = tt
rows-In (r ∷ rows) = (inl refl, All-imp _ _ (λ s i. inr i) rows (rows-In rows))

positive : {A : Type 0} (a : A) (xs : List A) → In a xs → 0 < length xs
positive a [] i = absurd i
positive a (x ∷ xs) i = omega arith

-- A row is among those of its combination.
own_rows : (rows : List BatchRow) (r : BatchRow) → In r rows → In r (of_combo r.combo_dir rows)
own_rows rows r i =
    let same : BatchRow → Bool = λ s. s.combo_dir == r.combo_dir in
    In-selected same same rows r i (beq_refl r.combo_dir)

-- A bar and a row of the table say the same.
abbrev pub Agrees : Bar → Summary → Type 0
Agrees b s = (b.combo ≡ s.combo) × (b.med ≡ s.med_dt) × (b.ok ≡ s.ok) × (b.total ≡ s.total)

-- A row of the table for the bar, which counts a success.
abbrev pub IsBacked : List BatchRow → Bar → Type 0
IsBacked df b = (s : Summary) × In s (summary_table df) × Agrees b s × (0 < s.ok)

bar-IsBacked :
    (df : List BatchRow) (k : String)
    → 0 < length (of_combo k (successes df))
    → In k (combos df)
    → IsBacked df (bar (successes df) df k)
unfolding summary_table summary bar
bar-IsBacked df k h i = (
  summary df k,
  In-map (summary df) k (sort (unique (combos df)))
      (In-sort k (unique (combos df)) (In-unique k (combos df) i)),
  (
    refl,
    sym (if_true (ltb 0 (length (of_combo k (successes df)))) _ _ (ground (arith, h))),
    refl,
    refl,
  ),
  h,
)

-- A choice of successes by their combinations keeps all of a chosen combination.
bar-select :
    (m : String → Bool) (df : List BatchRow) (k : String)
    → m k ≡ true
    → bar (select (λ r. m r.combo_dir) (successes df)) df k ≡ bar (successes df) df k
unfolding bar
bar-select m df k h =
    let whole : of_combo k (select (λ r. m r.combo_dir) (successes df))
        ≡ of_combo k (successes df) =
      select-select (λ r. r.combo_dir == k) (λ r. m r.combo_dir) (successes df)
        (each-All _ (λ r e. ap m (eq_of_beq r.combo_dir k e) ∙ h) (successes df)) in
    rw whole refl

-- The combinations of chosen successes: chosen, in the batch, and with a success.
chosen :
    (m : String → Bool) (df : List BatchRow)
    → All
        (λ k. (m k ≡ true) × ((0 < length (of_combo k (successes df))) × In k (combos df)))
        (combos (select (λ r. m r.combo_dir) (successes df)))
chosen m df =
    let rows = successes df in
    let p : BatchRow → Bool = λ r. m r.combo_dir in
    let listed =
      select-All (λ r. r.status == "SUCCESS") (λ r. In r.combo_dir (combos df)) df (combos-In df) in
    let counted = All-imp _ _ (λ r i. positive r _ (own_rows rows r i)) rows (rows-In rows) in
    All-combos _ (select p rows) (
      All-both _ _ (select p rows) (select-passes p rows)
        (select-All p _ rows (All-both _ _ rows counted listed)))

hbar-IsBacked :
    (m : String → Bool) (df : List BatchRow)
    → All (IsBacked df) (hbar (select (λ r. m r.combo_dir) (successes df)) df)
unfolding hbar
hbar-IsBacked m df =
    let rows = select (λ r. m r.combo_dir) (successes df) in
    let ks = sort (unique (combos rows)) in
    let facts = All-sort _ (unique (combos rows)) (All-unique _ (combos rows) (chosen m df)) in
    All-sort_values (IsBacked df) (map (bar rows df) ks) (
      All-map (IsBacked df) (bar rows df) ks (
        All-imp _ _
          (λ k (ok, (some_row, listed)).
            subst (IsBacked df) (sym (bar-select m df k ok)) (bar-IsBacked df k some_row listed))
          ks facts))

family-IsBacked :
    (title : String) (rows df : List BatchRow)
    → All (IsBacked df) (hbar rows df)
    → All (λ c. All (IsBacked df) c.1) (family title rows df)
unfolding family
family-IsBacked title [] df h = tt
family-IsBacked title (r ∷ rows) df h = (h, tt)

-- Each bar of the charts of the two routing families and of the overall leaderboard says of its
-- combination what the summary table says of it: the same median downtime, the same number of runs and
-- of successes, and at least one success.
pub family_charts-IsBacked :
    (df : List BatchRow) → All (λ c. All (IsBacked df) c.1) (family_charts df)
unfolding family_charts
family_charts-IsBacked df =
    let rows = successes df in
    let all_rows = select_whole (λ r. true) rows (each-All _ (λ r. refl) rows) in
    let overall =
      subst (λ l. All (IsBacked df) (hbar l df)) all_rows (hbar-IsBacked (λ k. true) df) in
    All-append _ _ _
      (family-IsBacked "HAProxy Variants" _ df (hbar-IsBacked (λ k. member k haproxy_family) df))
      (All-append _ _ _
        (family-IsBacked "VIP Manager Variants" _ df (hbar-IsBacked (λ k. member k vip_family) df))
        (family-IsBacked "Overall Leaderboard" rows df overall))
