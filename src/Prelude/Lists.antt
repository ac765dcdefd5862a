-- ===== src/Prelude/Lists.antt =====
-- Lists measured and cut by native numbers, and the predicates on lists that the components share.
use Prim.Native.Nat.{ℕ, zero, suc, ◌+◌}
use mathlib.Core.Path.{◌≡◌, refl, sym, ap, ◌∙◌, subst}
use mathlib.Core.Logic.{◌⊎◌, inl, inr}
use mathlib.Core.Bool.{Bool, true, false}
use mathlib.Core.Option.{Option, none, some}
use mathlib.Core.List.{List, [], ◌∷◌, ◌++◌, map}
use native.Mathlib.Omega.{arith}
use patroni_routing_bench.Prelude.Tests.{if◌then◌else◌, Bool-cases}

module _ {ℓ} {A : Type ℓ} where
  abbrev pub length : List A → ℕ
  length [] = 0
  length (x ∷ xs) = suc (length xs)

  abbrev pub take : ℕ → List A → List A
  take zero xs = []
  take (suc n) [] = []
  take (suc n) (x ∷ xs) = x ∷ take n xs

  abbrev pub drop : ℕ → List A → List A
  drop zero xs = xs
  drop (suc n) [] = []
  drop (suc n) (x ∷ xs) = drop n xs

  abbrev pub head? : List A → Option A
  head? [] = none
  head? (x ∷ xs) = some x

  abbrev pub get_last? : List A → Option A
  get_last? [] = none
  get_last? (x ∷ xs) = elim (get_last? xs) [ none ↦ some x | some y ↦ some y ]

  -- The entries that pass a test, in order: a boolean mask on a data frame.
  unfoldable pub select : (A → Bool) → List A → List A
  select p [] = []
  select p (x ∷ xs) = let rest = select p xs in if p x then x ∷ rest else rest

  abbrev pub All {κ} : (A → Type κ) → List A → Type κ
  All P [] = Unit
  All P (x ∷ xs) = P x × All P xs

  pub length-append : (xs ys : List A) → length (xs ++ ys) ≡ length xs + length ys
  length-append [] ys = omega arith
  length-append (x ∷ xs) ys = omega (arith, length-append xs ys)

  pub take-append-drop : (n : ℕ) (xs : List A) → take n xs ++ drop n xs ≡ xs
  take-append-drop zero xs = refl
  take-append-drop (suc n) [] = refl
  take-append-drop (suc n) (x ∷ xs) = ground (arith, take-append-drop n xs)

module _ {A : Type 0} where
  abbrev pub In : A → List A → Type 0
  In a [] = ⊥
  In a (x ∷ xs) = (a ≡ x) ⊎ In a xs

module _ {A : Type 0} (P : A → Type 0) where
  pub All-append : (xs ys : List A) → All P xs → All P ys → All P (xs ++ ys)
  All-append [] ys hx hy = hy
  All-append (x ∷ xs) ys (px, hx) hy = (px, All-append xs ys hx hy)

  pub All-left : (xs ys : List A) → All P (xs ++ ys) → All P xs
  All-left [] ys h = tt
  All-left (x ∷ xs) ys (px, h) = (px, All-left xs ys h)

  pub All-right : (xs ys : List A) → All P (xs ++ ys) → All P ys
  All-right [] ys h = h
  All-right (x ∷ xs) ys (px, h) = All-right xs ys h

  pub All_In : (xs : List A) (a : A) → All P xs → In a xs → P a
  All_In [] a h i = absurd i
  All_In (x ∷ xs) a (px, h) (inl e) = subst P (sym e) px
  All_In (x ∷ xs) a (px, h) (inr i) = All_In xs a h i

module _ {A : Type 0} (a : A) where
  abbrev pub In_first : (x : A) (xs : List A) → In a (x ∷ xs) → (a ≡ x) ⊎ In a xs
  In_first x xs i = i

  pub In_left : (xs ys : List A) → In a xs → In a (xs ++ ys)
  In_left [] ys i = absurd i
  In_left (x ∷ xs) ys (inl e) = inl e
  In_left (x ∷ xs) ys (inr i) = inr (In_left xs ys i)

  pub In_right : (xs ys : List A) → In a ys → In a (xs ++ ys)
  In_right [] ys i = i
  In_right (x ∷ xs) ys i = inr (In_right xs ys i)

  pub In-append : (xs ys : List A) → In a (xs ++ ys) → In a xs ⊎ In a ys
  In-append [] ys i = inr i
  In-append (x ∷ xs) ys (inl e) = inl (inl e)
  In-append (x ∷ xs) ys (inr i) = elim (In-append xs ys i) [ inl l ↦ inl (inr l) | inr r ↦ inr r ]

module _ {A : Type 0} (p : A → Bool) where
  -- What is selected stands in the list and passes the test.
  pub In-select : (xs : List A) (a : A) → In a (select p xs) → In a xs × (p a ≡ true)
  unfolding select
  In-select [] a i = absurd i
  In-select (x ∷ xs) a i = elim (Bool-cases (p x)) [
    | inr q ↦ let (j, r) = In-select xs a (rw q at i) in (inr j, r)
    | inl q ↦ elim (In_first a x (select p xs) (rw q at i)) [
      | inl r ↦ (inl r, ap p r ∙ q)
      | inr j ↦ let (k, r) = In-select xs a j in (inr k, r)
    ]
  ]

  -- What holds of the selected holds of each that the test accepts.
  pub All-select :
      (P : A → Type 0) (xs : List A) → All P (select p xs) → All (λ a. p a ≡ true → P a) xs
  unfolding select
  All-select P [] h = tt
  All-select P (x ∷ xs) h = elim (Bool-cases (p x)) [
    | inr q ↦ (λ r. absurd (ground arith), All-select P xs (rw q at h))
    | inl q ↦ let k : P x × All P (select p xs) = rw q at h in (λ r. k.0, All-select P xs k.1)
  ]

  -- The only way to select nothing is that nothing passes.
  pub All-none : (xs : List A) → select p xs ≡ [] → All (λ a. p a ≡ false) xs
  unfolding select
  All-none [] h = tt
  All-none (x ∷ xs) h = elim (Bool-cases (p x)) [
    | inr q ↦ (q, All-none xs (rw q at h))
    | inl q ↦ absurd (ground (arith, q))
  ]

  pub select-none : (xs : List A) → All (λ a. p a ≡ false) xs → select p xs ≡ []
  unfolding select
  select-none [] h = refl
  select-none (x ∷ xs) (q, h) = simp (q, select-none xs h)

  pub select-take : (x : A) (xs : List A) → p x ≡ true → select p (x ∷ xs) ≡ x ∷ select p xs
  unfolding select
  select-take x xs h = simp h

  pub select-skip : (x : A) (xs : List A) → p x ≡ false → select p (x ∷ xs) ≡ select p xs
  unfolding select
  select-skip x xs h = simp h

  pub select-passes : (xs : List A) → All (λ a. p a ≡ true) (select p xs)
  unfolding select
  select-passes [] = tt
  select-passes (x ∷ xs) = elim (Bool-cases (p x)) [
    | inl b ↦ simp b (refl, select-passes xs)
    | inr b ↦ simp b (select-passes xs)
  ]

  pub select-append : (xs ys : List A) → select p (xs ++ ys) ≡ select p xs ++ select p ys
  unfolding select
  select-append [] ys = refl
  select-append (x ∷ xs) ys = elim (Bool-cases (p x)) [
    | inl b ↦ simp (b, select-append xs ys)
    | inr b ↦ simp (b, select-append xs ys)
  ]

  pub select_whole : (xs : List A) → All (λ a. p a ≡ true) xs → select p xs ≡ xs
  unfolding select
  select_whole [] h = refl
  select_whole (x ∷ xs) (q, h) = simp (q, select_whole xs h)

  pub select-All : (P : A → Type 0) (xs : List A) → All P xs → All P (select p xs)
  unfolding select
  select-All P [] h = tt
  select-All P (x ∷ xs) (q, h) = elim (Bool-cases (p x)) [
    | inl b ↦ simp b (q, select-All P xs h)
    | inr b ↦ simp b (select-All P xs h)
  ]

module _ {A : Type 0} (P : A → Type 0) where
  pub each-All : ((a : A) → P a) → (xs : List A) → All P xs
  each-All f [] = tt
  each-All f (x ∷ xs) = (f x, each-All f xs)

module _ {A : Type 0} (P Q : A → Type 0) where
  pub All-imp : ((a : A) → P a → Q a) → (xs : List A) → All P xs → All Q xs
  All-imp f [] h = tt
  All-imp f (x ∷ xs) (p, h) = (f x p, All-imp f xs h)

  pub All-both : (xs : List A) → All P xs → All Q xs → All (λ a. P a × Q a) xs
  All-both [] h k = tt
  All-both (x ∷ xs) (p, h) (q, k) = ((p, q), All-both xs h k)

module _ {A B : Type 0} (P : B → Type 0) (f : A → B) where
  pub All-map : (xs : List A) → All (λ a. P (f a)) xs → All P (map f xs)
  All-map [] h = tt
  All-map (x ∷ xs) (p, h) = (p, All-map xs h)

module _ {A : Type 0} (p q : A → Bool) where
  pub select-swap : (xs : List A) → select p (select q xs) ≡ select q (select p xs)
  unfolding select
  select-swap [] = refl
  select-swap (x ∷ xs) = elim (Bool-cases (q x)) [
    | inl b ↦ elim (Bool-cases (p x)) [
      | inl c ↦ simp (b, c, select-swap xs)
      | inr c ↦ simp (b, c, select-swap xs)
    ]
    | inr b ↦ elim (Bool-cases (p x)) [
      | inl c ↦ simp (b, c, select-swap xs)
      | inr c ↦ simp (b, c, select-swap xs)
    ]
  ]

  pub In-selected : (xs : List A) (a : A) → In a xs → q a ≡ true → In a (select q xs)
  unfolding select
  In-selected [] a i h = i
  In-selected (x ∷ xs) a (inl e) h = let b : q x ≡ true = ap q (sym e) ∙ h in simp b (inl e)
  In-selected (x ∷ xs) a (inr i) h = elim (Bool-cases (q x)) [
    | inl b ↦ simp b (inr (In-selected xs a i h))
    | inr b ↦ simp b (In-selected xs a i h)
  ]

  -- A selection that leaves out nothing of what another one takes does not change that one.
  pub select-select :
      (xs : List A) → All (λ a. p a ≡ true → q a ≡ true) xs → select p (select q xs) ≡ select p xs
  unfolding select
  select-select [] h = refl
  select-select (x ∷ xs) (k, h) = elim (Bool-cases (q x)) [
    | inl b ↦ elim (Bool-cases (p x)) [
      | inl c ↦ simp (b, c, select-select xs h)
      | inr c ↦ simp (b, c, select-select xs h)
    ]
    | inr b ↦ elim (Bool-cases (p x)) [
      | inl c ↦ (let d = k c in absurd (ground (arith, b, d)))
      | inr c ↦ simp (b, c, select-select xs h)
    ]
  ]
