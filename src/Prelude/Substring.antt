-- ===== src/Prelude/Substring.antt =====
-- What `startswith` and `in` decide of two texts.
use mathlib.Core.Path.{◌≡◌, refl, ap}
use mathlib.Core.Bool.{true}
use mathlib.Core.List.{[], ◌∷◌, ◌++◌}
use mathlib.Core.Logic.{inl, inr}
use native.Mathlib.Omega.{arith}
use patroni_routing_bench.Prelude.Tests.{Bool-cases}
use patroni_routing_bench.Prelude.Equality.{nat_beq, nat_eq, eq_of_beq}
use patroni_routing_bench.Prelude.Text.{Text, starts_with, contains}

pub starts_with-append : (p s : Text) → starts_with (p ++ s) p ≡ true
unfolding starts_with
starts_with-append [] [] = refl
starts_with-append [] (c ∷ s) = refl
starts_with-append (c ∷ p) s = ground (arith, starts_with-append p s)

pub starts_with-split : (s p : Text) → starts_with s p ≡ true → (rest : Text) × (s ≡ p ++ rest)
unfolding starts_with
starts_with-split [] [] h = ([], refl)
starts_with-split (d ∷ s) [] h = (d ∷ s, refl)
starts_with-split [] (c ∷ p) h = absurd (ground arith)
starts_with-split (d ∷ s) (c ∷ p) h = elim (Bool-cases (nat_beq d c)) [
  | inr ne ↦ absurd (ground arith)
  | inl e ↦
      let (rest, q) = starts_with-split s p (ground arith) in
      (rest, cc (eq_of_beq ⦃e = nat_eq⦄ d c e, q))
]

contains_of_starts_with : (s p : Text) → starts_with s p ≡ true → contains s p ≡ true
unfolding contains
contains_of_starts_with [] p h = h
contains_of_starts_with (c ∷ s) p h = rw h

pub contains-append : (before p after : Text) → contains (before ++ (p ++ after)) p ≡ true
unfolding contains
contains-append [] p after = contains_of_starts_with (p ++ after) p (starts_with-append p after)
contains-append (c ∷ before) p after = ground (arith, contains-append before p after)

pub contains-split :
    (s p : Text)
    → contains s p ≡ true
    → (before : Text) × (after : Text) × (s ≡ before ++ (p ++ after))
unfolding contains
contains-split [] p h = let (after, e) = starts_with-split [] p h in ([], after, e)
contains-split (c ∷ s) p h = elim (Bool-cases (starts_with (c ∷ s) p)) [
  | inl now ↦ let (after, e) = starts_with-split (c ∷ s) p now in ([], after, e)
  | inr later ↦
      let (before, after, e) = contains-split s p (rw later at h) in
      (c ∷ before, after, ap (λ t. c ∷ t) e)
]
