-- ===== src/Charts/Waterfall.antt =====
-- The waterfall of `_render_batch_waterfall` of generate_charts.py: a combination's milestones in the
-- order of their medians, and a bar for each step forward. The medians are whole microseconds.
use patroni_routing_bench.Prelude.{
  String, ◌≡◌, refl, sym, ap, ◌∙◌, inl, inr, Option, none, some, List, [], ◌∷◌, ◌++◌, arith, nat_eq,
  bool_eq, option_eq, string_eq, Bool-cases, if◌then◌else◌, if_true, if_false, All, In, In_right,
  All_In,
}
use mathlib.Core.Path.{subst}
use patroni_routing_bench.Prelude.Int.{ℤ, pos, pos_part, neg_part, ltb_ℤ, ◌-ℤ◌, ◌≤ℤ◌, int_laws}
use patroni_routing_bench.Charts.Phases.{Phase, total}
use patroni_routing_bench.Charts.Hero.{ltb-≤ℤ, ≤ℤ-ltb, ≤ℤ-trans}

pub record Offsets : Type 0 where
  pub t0 : Option ℤ
  pub t1 : Option ℤ
  pub t2 : Option ℤ
  pub t3 : Option ℤ
  pub t4 : Option ℤ
  pub tc : ℤ

abbrev pub Stage : Type 0
Stage = String × ℤ

abbrev pub stage : String → Option ℤ → List Stage
stage name none = []
stage name (some t) = (name, t) ∷ []

abbrev pub pg_stage : Option ℤ → Option ℤ → List Stage
pg_stage (some t0) t4 = ("PG Promotion", t0) ∷ []
pg_stage none t4 = stage "PG Promotion" t4

abbrev pub patroni_stage : Option ℤ → Option ℤ → List Stage
patroni_stage t1 (some t0) = []
patroni_stage t1 none = stage "Patroni Promotion" t1

unfoldable pub chain : Offsets → List Stage
chain m =
    ("Failure", pos 0)
    ∷ (stage "DCS Detection" m.t2
        ++ (pg_stage m.t0 m.t4
            ++ (patroni_stage m.t1 m.t0
                ++ (stage "Routing Detection" m.t3 ++ ("Client Recovery", m.tc) ∷ []))))

-- `chain.sort(key=lambda x: x[1])`, which keeps the order of stages at the same time.
unfoldable pub insert : Stage → List Stage → List Stage
insert x [] = x ∷ []
insert x (y ∷ ys) = let rest = insert x ys in if ltb_ℤ y.1 x.1 then y ∷ rest else x ∷ (y ∷ ys)

unfoldable pub sort : List Stage → List Stage
sort [] = []
sort (x ∷ xs) = insert x (sort xs)

unfoldable pub steps : ℤ → List Stage → List Phase
steps t [] = []
steps t ((name, u) ∷ more) =
    let rest = steps u more in if ltb_ℤ (pos 0) (u -ℤ t) then (name, u -ℤ t) ∷ rest else rest

abbrev pub steps_of : List Stage → List Phase
steps_of [] = []
steps_of (x ∷ xs) = steps x.1 xs

abbrev pub or_total : ℤ → List Phase → List Phase
or_total tc [] = ("Total failover", tc) ∷ []
or_total tc (p ∷ ps) = p ∷ ps

unfoldable pub waterfall : Offsets → List Phase
waterfall m = or_total m.tc (steps_of (sort (chain m)))

abbrev pub Ascending : ℤ → List Stage → Type 0
Ascending t [] = Unit
Ascending t (x ∷ xs) = (t ≤ℤ x.1) × Ascending x.1 xs

abbrev pub Sorted : List Stage → Type 0
Sorted [] = Unit
Sorted (x ∷ xs) = Ascending x.1 xs

insert-Ascending :
    (t : ℤ) (x : Stage) (xs : List Stage) → t ≤ℤ x.1 → Ascending t xs → Ascending t (insert x xs)
unfolding insert
insert-Ascending t x [] h k = (h, tt)
insert-Ascending t x (y ∷ ys) h (p, k) = elim (Bool-cases (ltb_ℤ y.1 x.1)) [
  | inl e ↦
      subst (Ascending t) (sym (if_true (ltb_ℤ y.1 x.1) _ _ e))
        (p, insert-Ascending y.1 x ys (ltb-≤ℤ y.1 x.1 e) k)
  | inr e ↦ subst (Ascending t) (sym (if_false (ltb_ℤ y.1 x.1) _ _ e)) (h, (≤ℤ-ltb y.1 x.1 e, k))
]

insert-Sorted : (x : Stage) (xs : List Stage) → Sorted xs → Sorted (insert x xs)
unfolding insert
insert-Sorted x [] k = tt
insert-Sorted x (y ∷ ys) k = elim (Bool-cases (ltb_ℤ y.1 x.1)) [
  | inl e ↦
      subst Sorted (sym (if_true (ltb_ℤ y.1 x.1) _ _ e))
        (insert-Ascending y.1 x ys (ltb-≤ℤ y.1 x.1 e) k)
  | inr e ↦ subst Sorted (sym (if_false (ltb_ℤ y.1 x.1) _ _ e)) (≤ℤ-ltb y.1 x.1 e, k)
]

sort-Sorted : (xs : List Stage) → Sorted (sort xs)
unfolding sort
sort-Sorted [] = tt
sort-Sorted (x ∷ xs) = insert-Sorted x (sort xs) (sort-Sorted xs)

abbrev pub end_of : ℤ → List Stage → ℤ
end_of t [] = t
end_of t (x ∷ xs) = end_of x.1 xs

total-steps : (t : ℤ) (xs : List Stage) → Ascending t xs → total (steps t xs) ≡ end_of t xs -ℤ t
unfolding steps total
total-steps t [] h = omega int_laws
total-steps t ((name, u) ∷ more) (p, h) =
    let e = total-steps u more h in
    elim (Bool-cases (ltb_ℤ (pos 0) (u -ℤ t))) [
      | inl d ↦
          ap total (if_true (ltb_ℤ (pos 0) (u -ℤ t)) _ _ d)
          ∙ omega (int_laws, ap pos_part e, ap neg_part e)
      | inr d ↦
          let same = ≤ℤ-ltb (pos 0) (u -ℤ t) d in
          ap total (if_false (ltb_ℤ (pos 0) (u -ℤ t)) _ _ d)
          ∙ omega (int_laws, ap pos_part e, ap neg_part e, same, p)
    ]

end_of-bound : (t : ℤ) (xs : List Stage) → Ascending t xs → t ≤ℤ end_of t xs
end_of-bound t [] h = omega arith
end_of-bound t (x ∷ xs) (p, h) = ≤ℤ-trans t x.1 (end_of x.1 xs) p (end_of-bound x.1 xs h)

abbrev pub IsWithin : ℤ → ℤ → Stage → Type 0
IsWithin bottom top x = (bottom ≤ℤ x.1) × (x.1 ≤ℤ top)

module _ (P : Stage → Type 0) where
  insert-All : (x : Stage) (xs : List Stage) → P x → All P xs → All P (insert x xs)
  unfolding insert
  insert-All x [] p h = (p, tt)
  insert-All x (y ∷ ys) p (q, h) = elim (Bool-cases (ltb_ℤ y.1 x.1)) [
    | inl e ↦ subst (All P) (sym (if_true (ltb_ℤ y.1 x.1) _ _ e)) (q, insert-All x ys p h)
    | inr e ↦ subst (All P) (sym (if_false (ltb_ℤ y.1 x.1) _ _ e)) (p, (q, h))
  ]

  All-insert : (x : Stage) (xs : List Stage) → All P (insert x xs) → P x × All P xs
  unfolding insert
  All-insert x [] h = h
  All-insert x (y ∷ ys) h = elim (Bool-cases (ltb_ℤ y.1 x.1)) [
    | inl e ↦
        let k : All P (y ∷ insert x ys) = subst (All P) (if_true (ltb_ℤ y.1 x.1) _ _ e) h in
        let (p, rest) = All-insert x ys k.1 in (p, (k.0, rest))
    | inr e ↦ subst (All P) (if_false (ltb_ℤ y.1 x.1) _ _ e) h
  ]

  sort-All : (xs : List Stage) → All P xs → All P (sort xs)
  unfolding sort
  sort-All [] h = tt
  sort-All (x ∷ xs) (p, h) = insert-All x (sort xs) p (sort-All xs h)

  All-sort : (xs : List Stage) → All P (sort xs) → All P xs
  unfolding sort
  All-sort [] h = tt
  All-sort (x ∷ xs) h = let (p, k) = All-insert x (sort xs) h in (p, All-sort xs k)

Ascending-All :
    (bottom t : ℤ) (xs : List Stage)
    → bottom ≤ℤ t
    → Ascending t xs
    → All (IsWithin bottom (end_of t xs)) xs
Ascending-All bottom t [] h k = tt
Ascending-All bottom t (x ∷ xs) h (p, k) =
    let low = ≤ℤ-trans bottom t x.1 h p in
    ((low, end_of-bound x.1 xs k), Ascending-All bottom x.1 xs low k)

end_of-≤ℤ : (t top : ℤ) (xs : List Stage) → t ≤ℤ top → All (λ x. x.1 ≤ℤ top) xs → end_of t xs ≤ℤ top
end_of-≤ℤ t top [] h k = h
end_of-≤ℤ t top (x ∷ xs) h (p, k) = end_of-≤ℤ x.1 top xs p k

total-or_total : (tc : ℤ) (ps : List Phase) → total ps ≡ tc → total (or_total tc ps) ≡ tc
unfolding total
total-or_total tc [] h = omega int_laws
total-or_total tc (p ∷ ps) h = h

client_last : (m : Offsets) → In ("Client Recovery", m.tc) (chain m)
unfolding chain
client_last m =
    let client : Stage = ("Client Recovery", m.tc) in
    inr (
      In_right client (stage "DCS Detection" m.t2) _ (
        In_right client (pg_stage m.t0 m.t4) _ (
          In_right client (patroni_stage m.t1 m.t0) _
            (In_right client (stage "Routing Detection" m.t3) _ (inl refl)))))

failure_first : (m : Offsets) → In ("Failure", pos 0) (chain m)
unfolding chain
failure_first m = inl refl

total-Sorted :
    (tc : ℤ) (s : List Stage)
    → Sorted s
    → All (λ x. pos 0 ≤ℤ x.1) s
    → All (λ x. x.1 ≤ℤ tc) s
    → ((bottom top : ℤ) → All (IsWithin bottom top) s → (bottom ≤ℤ pos 0) × (tc ≤ℤ top))
    → total (or_total tc (steps_of s)) ≡ tc
unfolding total
total-Sorted tc [] h low high k = omega int_laws
total-Sorted tc (x ∷ xs) h low high k =
    let end = end_of x.1 xs in
    let (first, last) =
      k x.1 end ((omega arith, end_of-bound x.1 xs h), Ascending-All x.1 x.1 xs (omega arith) h) in
    let below = end_of-≤ℤ x.1 tc xs high.0 high.1 in
    let sum = total-steps x.1 xs h in
    total-or_total tc (steps x.1 xs) (sum ∙ omega (int_laws, first, last, below, low.0))

-- If no median lies before the failure or behind the client's recovery, the bars of the waterfall add up
-- to the combination's median downtime, in whatever order the other medians are.
pub total-waterfall :
    (m : Offsets)
    → All (λ x. pos 0 ≤ℤ x.1) (chain m)
    → All (λ x. x.1 ≤ℤ m.tc) (chain m)
    → total (waterfall m) ≡ m.tc
unfolding waterfall
total-waterfall m low high =
    total-Sorted m.tc (sort (chain m)) (sort-Sorted (chain m))
      (sort-All (λ x. pos 0 ≤ℤ x.1) (chain m) low) (sort-All (λ x. x.1 ≤ℤ m.tc) (chain m) high)
      (λ bottom top h.
        let k = All-sort (IsWithin bottom top) (chain m) h in
        (
          (All_In (IsWithin bottom top) (chain m) ("Failure", pos 0) k (failure_first m)).0,
          (All_In (IsWithin bottom top) (chain m) ("Client Recovery", m.tc) k (client_last m)).1,
        ))
