-- ===== src/Charts/Gantt/Lanes.antt =====
-- What the bars of an observer's lane cover.
use patroni_routing_bench.Prelude.{
  ℕ, ◌-◌, ◌≤◌, ◌≡◌, sym, inl, inr, ◌⊎◌, List, [], ◌∷◌, arith, leb, nat_eq, bool_eq, option_eq,
  string_eq, Bool-cases, if_true, if_false, All, All-imp,
}
use mathlib.Core.Path.{subst}
use patroni_routing_bench.Prelude.Text.{Text}
use patroni_routing_bench.Charts.{ObserverEvent}
use patroni_routing_bench.Charts.Gantt.{Bar, least, greatest, drawn}

-- The rows are in the order of their times.
abbrev pub Ordered : ℕ → List ObserverEvent → Type 0
Ordered t [] = Unit
Ordered t (e ∷ es) = (t ≤ e.ts) × Ordered e.ts es

-- Stretches of time, each from the end of the one before it, the first from `t` and the last to `u`, with
-- a bar for each. The bar of a stretch of no length is drawn 0.1 s wide.
abbrev pub Tiles : ℕ → List Bar → ℕ → Type 0
Tiles t [] u = t ≡ u
Tiles t (b ∷ bs) u =
    (b.base ≡ t) × ((end : ℕ) × (t ≤ end) × (b.width ≡ drawn (end - t)) × Tiles end bs u)

pub least-≤ : (t : ℕ) (us : List ℕ) → (least t us ≤ t) × All (λ u. least t us ≤ u) us
least-≤ t [] = (omega arith, tt)
least-≤ t (u ∷ us) =
    let rest = least u us in
    let (low, lows) = least-≤ u us in
    let Bound : ℕ → Type 0 = λ m. (m ≤ t) × All (λ v. m ≤ v) (u ∷ us) in
    let lower : (m : ℕ) → m ≤ rest → m ≤ t → Bound m = λ m h k. (
      k,
      (
        omega (arith, h, low),
        All-imp (λ v. rest ≤ v) (λ v. m ≤ v) (λ v i. omega (arith, i, h)) us lows,
      ),
    ) in
    elim (Bool-cases (leb t rest)) [
      | inl b ↦
          subst Bound (sym (if_true (leb t rest) t rest b))
            (lower t (ground (arith, b)) (omega arith))
      | inr b ↦
          subst Bound (sym (if_false (leb t rest) t rest b))
            (lower rest (omega arith) (ground (arith, b)))
    ]

pub greatest-≤ : (t : ℕ) (us : List ℕ) → (t ≤ greatest t us) × All (λ u. u ≤ greatest t us) us
greatest-≤ t [] = (omega arith, tt)
greatest-≤ t (u ∷ us) =
    let rest = greatest u us in
    let (high, highs) = greatest-≤ u us in
    let Bound : ℕ → Type 0 = λ m. (t ≤ m) × All (λ v. v ≤ m) (u ∷ us) in
    let upper : (m : ℕ) → rest ≤ m → t ≤ m → Bound m = λ m h k. (
      k,
      (
        omega (arith, h, high),
        All-imp (λ v. v ≤ rest) (λ v. v ≤ m) (λ v i. omega (arith, i, h)) us highs,
      ),
    ) in
    elim (Bool-cases (leb rest t)) [
      | inl b ↦
          subst Bound (sym (if_true (leb rest t) t rest b))
            (upper t (ground (arith, b)) (omega arith))
      | inr b ↦
          subst Bound (sym (if_false (leb rest t) t rest b))
            (upper rest (omega arith) (ground (arith, b)))
    ]

abbrev pub IsInside : ℕ × ℕ → ObserverEvent → Type 0
IsInside w e = (w.0 ≤ e.ts) × (e.ts ≤ w.1)

-- A lane has no bar, or its bars cover the window.
abbrev pub IsCovered : ℕ × ℕ → List Bar → Type 0
IsCovered w bars = (start : ℕ) × (start ≤ 50000) × Tiles start bars (w.1 - w.0)

abbrev pub IsShown : ℕ × ℕ → List ObserverEvent → List Bar → Type 0
IsShown w events bars = ((events ≡ []) × (bars ≡ [])) ⊎ IsCovered w bars
