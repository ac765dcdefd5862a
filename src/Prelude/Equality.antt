-- ===== src/Prelude/Equality.antt =====
-- Python's `==` and `!=` at the types that the program compares, as one interface.
use Prim.Native.Nat.{ℕ, compare, Ordering}
use Prim.Native.String.{String}
use mathlib.Core.Path.{◌≡◌, refl}
use mathlib.Core.Logic.{◌↔◌, ◌≢◌}
use mathlib.Core.Bool.{Bool, true, false, not}
use mathlib.Core.Option.{Option, none, some}
use native.Mathlib.Omega.{arith}
use text.Mathlib.Text.{◌==◌ as str_eq}
use text.Mathlib.TextEquality.{eq_iff}

-- A test that holds of a value and itself, and of no two values that differ.
pub record Comparable {ℓ} (A : Type ℓ) : Type ℓ where
  pub beq : A → A → Bool
  pub beq_sound : (a b : A) → beq a b ≡ true → a ≡ b
  pub beq_same : (a : A) → beq a a ≡ true

infix 50 ◌==◌ ◌!=◌
abbrev pub ◌==◌ {ℓ} : {A : Type ℓ} ⦃e : Comparable A⦄ → A → A → Bool
◌==◌ ⦃e⦄ = e.beq

abbrev pub ◌!=◌ {ℓ} : {A : Type ℓ} ⦃e : Comparable A⦄ → A → A → Bool
◌!=◌ ⦃e⦄ a b = not (e.beq a b)

abbrev pub nat_beq : ℕ → ℕ → Bool
nat_beq a b = elim (compare a b) [ Ordering.eq ↦ true | _ ↦ false ]

pub nat_beq_iff : (a b : ℕ) → (nat_beq a b ≡ true) ↔ (a ≡ b)
nat_beq_iff a b = ground arith

instance abbrev pub nat_eq : Comparable ℕ
nat_eq = record {
  beq = nat_beq;
  beq_sound = λ a b h. (nat_beq_iff a b).0 h;
  beq_same = λ a. (nat_beq_iff a a).1 refl;
}

instance abbrev pub string_eq : Comparable String
string_eq = record {
  beq = str_eq;
  beq_sound = λ a b h. (eq_iff a b).0 h;
  beq_same = λ a. (eq_iff a a).1 refl;
}

abbrev pub bool_beq : Bool → Bool → Bool
bool_beq true b = b
bool_beq false b = not b

pub bool_beq_iff : (a b : Bool) → (bool_beq a b ≡ true) ↔ (a ≡ b)
bool_beq_iff a b = ground arith

instance abbrev pub bool_eq : Comparable Bool
bool_eq = record {
  beq = bool_beq;
  beq_sound = λ a b h. (bool_beq_iff a b).0 h;
  beq_same = λ a. (bool_beq_iff a a).1 refl;
}

not-true : (b : Bool) → b ≡ true → not b ≡ true → ⊥
not-true true p q = ground arith
not-true false p q = ground arith

module _ {ℓ} {A : Type ℓ} ⦃e : Comparable A⦄ where
  abbrev pub option_beq : Option A → Option A → Bool
  option_beq none none = true
  option_beq none (some b) = false
  option_beq (some a) none = false
  option_beq (some a) (some b) = e.beq a b

  pub option_beq_iff : (a b : Option A) → (option_beq a b ≡ true) ↔ (a ≡ b)
  option_beq_iff none none = ground arith
  option_beq_iff none (some b) = ground arith
  option_beq_iff (some a) none = ground arith
  option_beq_iff (some a) (some b) = ground (arith, e.beq_sound a b, e.beq_same a)

  pub option_beq_same : (a : Option A) → option_beq a a ≡ true
  option_beq_same a = (option_beq_iff a a).1 refl

  instance abbrev pub option_eq : Comparable (Option A)
  option_eq = record {
    beq = option_beq;
    beq_sound = λ a b h. (option_beq_iff a b).0 h;
    beq_same = option_beq_same;
  }

  pub beq_refl : (a : A) → e.beq a a ≡ true
  beq_refl a = e.beq_same a

  beq_eq : (a b : A) → a ≡ b → e.beq a b ≡ true
  beq_eq a b p = rw p (e.beq_same b)

  pub eq_of_beq : (a b : A) → e.beq a b ≡ true → a ≡ b
  eq_of_beq a b h = e.beq_sound a b h

  pub ne_of_bne : (a b : A) → not (e.beq a b) ≡ true → a ≢ b
  ne_of_bne a b h p = not-true (e.beq a b) (beq_eq a b p) h

  pub bne_of_eq : (a b : A) → a ≡ b → not (e.beq a b) ≡ false
  bne_of_eq a b p = rw (beq_eq a b p)
