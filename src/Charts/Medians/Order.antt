-- ===== src/Charts/Medians/Order.antt =====
-- The medians do not depend on the order in which the runs come.
use patroni_routing_bench.Prelude.{
  ℕ, suc, ◌-◌, ◌/◌, ◌%◌, ◌==◌, nat_eq, ◌≡◌, refl, sym, ap, ◌∙◌, true, false, inl, inr, Option, none,
  some, List, [], ◌∷◌, length, arith, Bool-cases, if◌then◌else◌, if_true, if_false,
}
use mathlib.Core.List.{Permᴰ}
use patroni_routing_bench.Prelude.Int.{ℤ, ltb_ℤ, ◌+ℤ◌, ◌≤ℤ◌, int_laws}
use patroni_routing_bench.Charts.Hero.{≤ℤ-ltb}
use patroni_routing_bench.Charts.Medians.{
  Offsets, at, insert, sort, median, bucket, median_or_none, compute_waterfall,
}

insert_past : (x y : ℤ) (ys : List ℤ) → ltb_ℤ y x ≡ true → insert x (y ∷ ys) ≡ y ∷ insert x ys
unfolding insert
insert_past x y ys h = if_true (ltb_ℤ y x) _ _ h

insert_here : (x y : ℤ) (ys : List ℤ) → ltb_ℤ y x ≡ false → insert x (y ∷ ys) ≡ x ∷ (y ∷ ys)
unfolding insert
insert_here x y ys h = if_false (ltb_ℤ y x) _ _ h

insert-nil : (x : ℤ) → insert x [] ≡ x ∷ []
unfolding insert
insert-nil x = refl

≤ℤ-antisym : (a b : ℤ) → a ≤ℤ b → b ≤ℤ a → a ≡ b
≤ℤ-antisym a b h k = omega (int_laws, h, k)

ltb_ℤ-asym : (a b : ℤ) → ltb_ℤ a b ≡ true → ltb_ℤ b a ≡ false
ltb_ℤ-asym a b h = ground arith

ltb_ℤ-trans : (a b c : ℤ) → a ≤ℤ b → ltb_ℤ b c ≡ true → ltb_ℤ a c ≡ true
ltb_ℤ-trans a b c h k = ground arith

-- Two insertions in front of a list, in either order.
both_front :
    (a b : ℤ) (l : List ℤ)
    → insert a l ≡ a ∷ l
    → insert b l ≡ b ∷ l
    → insert a (b ∷ l) ≡ insert b (a ∷ l)
both_front a b l ha hb = elim (Bool-cases (ltb_ℤ b a)) [
  | inl p ↦ insert_past a b l p ∙ ap (λ m. b ∷ m) ha ∙ sym (insert_here b a l (ltb_ℤ-asym b a p))
  | inr p ↦ elim (Bool-cases (ltb_ℤ a b)) [
    | inl q ↦ insert_here a b l p ∙ sym (insert_past b a l q ∙ ap (λ m. a ∷ m) hb)
    | inr q ↦
        let e = ≤ℤ-antisym a b (≤ℤ-ltb b a p) (≤ℤ-ltb a b q) in
        ap (λ x. insert x (b ∷ l)) e ∙ ap (λ x. insert b (x ∷ l)) (sym e)
  ]
]

insert-insert : (a b : ℤ) (l : List ℤ) → insert a (insert b l) ≡ insert b (insert a l)
insert-insert a b [] =
    ap (insert a) (insert-nil b)
    ∙ both_front a b [] (insert-nil a) (insert-nil b)
    ∙ sym (ap (insert b) (insert-nil a))
insert-insert a b (y ∷ ys) = elim (Bool-cases (ltb_ℤ y a)) [
  | inl p ↦ elim (Bool-cases (ltb_ℤ y b)) [
    | inl q ↦
        ap (insert a) (insert_past b y ys q)
        ∙ insert_past a y (insert b ys) p
        ∙ ap (λ m. y ∷ m) (insert-insert a b ys)
        ∙ sym (ap (insert b) (insert_past a y ys p) ∙ insert_past b y (insert a ys) q)
    | inr q ↦
        let under : ltb_ℤ b a ≡ true = ltb_ℤ-trans b y a (≤ℤ-ltb y b q) p in
        ap (insert a) (insert_here b y ys q)
        ∙ insert_past a b (y ∷ ys) under
        ∙ ap (λ m. b ∷ m) (insert_past a y ys p)
        ∙ sym (ap (insert b) (insert_past a y ys p) ∙ insert_here b y (insert a ys) q)
  ]
  | inr p ↦ elim (Bool-cases (ltb_ℤ y b)) [
    | inl q ↦
        let under : ltb_ℤ a b ≡ true = ltb_ℤ-trans a y b (≤ℤ-ltb y a p) q in
        ap (insert a) (insert_past b y ys q)
        ∙ insert_here a y (insert b ys) p
        ∙ sym (
            ap (insert b) (insert_here a y ys p)
            ∙ insert_past b a (y ∷ ys) under
            ∙ ap (λ m. a ∷ m) (insert_past b y ys q))
    | inr q ↦
        let ha = insert_here a y ys p in
        let hb = insert_here b y ys q in
        ap (insert a) hb ∙ both_front a b (y ∷ ys) ha hb ∙ sym (ap (insert b) ha)
  ]
]

length-insert : (x : ℤ) (xs : List ℤ) → length (insert x xs) ≡ suc (length xs)
unfolding insert
length-insert x [] = refl
length-insert x (y ∷ ys) = elim (Bool-cases (ltb_ℤ y x)) [
  | inl p ↦ ap length (if_true (ltb_ℤ y x) _ _ p) ∙ ap suc (length-insert x ys)
  | inr p ↦ ap length (if_false (ltb_ℤ y x) _ _ p)
]

length-sort : (xs : List ℤ) → length (sort xs) ≡ length xs
unfolding sort
length-sort [] = refl
length-sort (x ∷ xs) = length-insert x (sort xs) ∙ ap suc (length-sort xs)

length_of_sort : (xs ys : List ℤ) → sort xs ≡ sort ys → length xs ≡ length ys
length_of_sort xs ys e = sym (length-sort xs) ∙ ap length e ∙ length-sort ys

median_of_sort : (xs ys : List ℤ) → sort xs ≡ sort ys → median xs ≡ median ys
unfolding median
median_of_sort xs ys e =
    let from : ℕ → List ℤ → ℤ = λ n s.
      if n % 2 == 1 then at (n / 2) s +ℤ at (n / 2) s else at (n / 2 - 1) s +ℤ at (n / 2) s in
    ap (λ n. from n (sort xs)) (length_of_sort xs ys e) ∙ ap (from (length ys)) e

median_or_none_of_sort :
    (xs ys : List ℤ) → sort xs ≡ sort ys → median_or_none xs ≡ median_or_none ys
unfolding median_or_none
median_or_none_of_sort [] [] e = refl
median_or_none_of_sort [] (y ∷ ys) e = absurd (omega (arith, length_of_sort [] (y ∷ ys) e))
median_or_none_of_sort (x ∷ xs) [] e = absurd (omega (arith, length_of_sort (x ∷ xs) [] e))
median_or_none_of_sort (x ∷ xs) (y ∷ ys) e = ap some (median_of_sort (x ∷ xs) (y ∷ ys) e)

abbrev add : Option ℤ → List ℤ → List ℤ
add none l = l
add (some v) l = insert v l

add-add : (u v : Option ℤ) (l : List ℤ) → add u (add v l) ≡ add v (add u l)
add-add none v l = refl
add-add (some a) none l = refl
add-add (some a) (some b) l = insert-insert a b l

module _ (phase : Offsets → Option ℤ) where
  sort_added :
      (o : Option ℤ) (rest : List ℤ)
      → sort (elim o [ none ↦ rest | some v ↦ v ∷ rest ]) ≡ add o (sort rest)
  unfolding sort
  sort_added none rest = refl
  sort_added (some v) rest = refl

  sort-bucket :
      (row : Offsets) (rows : List Offsets)
      → sort (bucket phase (row ∷ rows)) ≡ add (phase row) (sort (bucket phase rows))
  unfolding bucket
  sort-bucket row rows = sort_added (phase row) (bucket phase rows)

  sort-Perm :
      {rows rows' : List Offsets}
      → Permᴰ rows rows'
      → sort (bucket phase rows) ≡ sort (bucket phase rows')
  sort-Perm Permᴰ.nil = refl
  sort-Perm (Permᴰ.cons {a} {b} {l₁ = xs} {l₂ = ys} e h) =
      sort-bucket a xs
      ∙ ap (λ r. add (phase r) (sort (bucket phase xs))) e
      ∙ ap (add (phase b)) (sort-Perm h)
      ∙ sym (sort-bucket b ys)
  sort-Perm (Permᴰ.swap {a} {b} {a' = c} {b' = d} {l} e f) =
      let rest = sort (bucket phase l) in
      sort-bucket a (b ∷ l)
      ∙ ap (add (phase a)) (sort-bucket b l)
      ∙ ap (λ r. add (phase r) (add (phase b) rest)) e
      ∙ ap (λ r. add (phase d) (add (phase r) rest)) f
      ∙ add-add (phase d) (phase c) rest
      ∙ sym (sort-bucket c (d ∷ l) ∙ ap (add (phase c)) (sort-bucket d l))
  sort-Perm (Permᴰ.trans g h) = sort-Perm g ∙ sort-Perm h

  median-Perm :
      {rows rows' : List Offsets}
      → Permᴰ rows rows'
      → median_or_none (bucket phase rows) ≡ median_or_none (bucket phase rows')
  median-Perm {rows} {rows'} h =
      median_or_none_of_sort (bucket phase rows) (bucket phase rows') (sort-Perm h)

module _ {A : Type 0} where
  length-Perm : {xs ys : List A} → Permᴰ xs ys → length xs ≡ length ys
  length-Perm Permᴰ.nil = refl
  length-Perm (Permᴰ.cons e h) = ap suc (length-Perm h)
  length-Perm (Permᴰ.swap e f) = refl
  length-Perm (Permᴰ.trans g h) = length-Perm g ∙ length-Perm h

-- The medians of the rows, whether there are any.
abbrev medians : List Offsets → Offsets
medians rows = record {
  t0 = median_or_none (bucket (λ o. o.t0) rows);
  t1 = median_or_none (bucket (λ o. o.t1) rows);
  t2 = median_or_none (bucket (λ o. o.t2) rows);
  t3 = median_or_none (bucket (λ o. o.t3) rows);
  t4 = median_or_none (bucket (λ o. o.t4) rows);
  tc = median_or_none (bucket (λ o. o.tc) rows);
}

medians-Perm : {rows rows' : List Offsets} → Permᴰ rows rows' → medians rows ≡ medians rows'
medians-Perm h =
    rw
      (
        median-Perm (λ o. o.t0) h,
        median-Perm (λ o. o.t1) h,
        median-Perm (λ o. o.t2) h,
        median-Perm (λ o. o.t3) h,
        median-Perm (λ o. o.t4) h,
        median-Perm (λ o. o.tc) h,
      )
      refl

-- The medians do not depend on the order in which the runs of a combination come.
pub compute_waterfall-Perm :
    (rows rows' : List Offsets)
    → Permᴰ rows rows'
    → compute_waterfall rows ≡ compute_waterfall rows'
unfolding compute_waterfall
compute_waterfall-Perm [] [] h = refl
compute_waterfall-Perm [] (r ∷ rows) h = absurd (omega (arith, length-Perm h))
compute_waterfall-Perm (r ∷ rows) [] h = absurd (omega (arith, length-Perm h))
compute_waterfall-Perm (r ∷ rows) (s ∷ rows') h = ap some (medians-Perm h)
