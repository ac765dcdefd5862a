-- ===== src/Charts/Latency/Points.antt =====
-- Which queries the latency plot shows, and which run it takes.
use patroni_routing_bench.Prelude.{
  ℕ, zero, suc, ◌*◌, ◌+◌, ◌≤◌, ◌≡◌, refl, sym, ap, ◌∙◌, true, ◌&&◌, inl, inr, some, List, [], ◌∷◌,
  map, select, arith, leb, Bool-cases, Option-cases, if_true, if_false, All, All-imp, select-select,
  All-select, In-select,
}
use mathlib.Core.Path.{subst}
use patroni_routing_bench.Prelude.Int.{ℤ}
use patroni_routing_bench.Charts.{min_ts, max_ts, is_failure, succeeds_after, recovery_after}
use patroni_routing_bench.Charts.Recovery.{min_ts-least, some_inj}
use patroni_routing_bench.Charts.Iterations.{nth}
use patroni_routing_bench.Charts.Medians.Query.{max_ts-All}
use patroni_routing_bench.Charts.Window.{second}
use patroni_routing_bench.Charts.Latency.{
  distance, idxmin_from, closest, LatencyRow, events_of, in_plot, plot_from, plotted, failed,
}

-- The value at the position `j`, which is the index `k` counted from `i`, is the least.
abbrev IsBest : ℕ → List ℕ → ℕ × ℕ → Type 0
IsBest i us (m, k) = (j : ℕ) × (k ≡ i + j) × (nth j us ≡ some m) × All (λ u. m ≤ u) us

idxmin_from-IsBest : (i v : ℕ) (us : List ℕ) → IsBest i (v ∷ us) (idxmin_from i v us)
unfolding idxmin_from
idxmin_from-IsBest i v [] = (0, omega arith, refl, (omega arith, tt))
idxmin_from-IsBest i v (u ∷ us) =
    let r = idxmin_from (suc i) u us in
    let (j, e, n, all) = idxmin_from-IsBest (suc i) u us in
    elim (Bool-cases (leb v r.0)) [
      | inl b ↦ subst (IsBest i (v ∷ (u ∷ us))) (sym (if_true (leb v r.0) (v, i) (r.0, r.1) b)) (
        0,
        omega arith,
        refl,
        (
          omega arith,
          All-imp (λ x. r.0 ≤ x) (λ x. v ≤ x) (λ x h. ground (arith, b, h)) (u ∷ us) all,
        ),
      )
      | inr b ↦
          subst (IsBest i (v ∷ (u ∷ us))) (sym (if_false (leb v r.0) (v, i) (r.0, r.1) b))
            (suc j, omega (arith, e), n, (ground (arith, b), all))
    ]

nth-map :
    {A B : Type 0} (f : A → B) (j : ℕ) (xs : List A) (b : B)
    → nth j (map f xs) ≡ some b
    → (a : A) × (nth j xs ≡ some a) × (some (f a) ≡ some b)
nth-map f j [] b h = absurd (ground arith)
nth-map f zero (x ∷ xs) b h = (x, refl, h)
nth-map f (suc j) (x ∷ xs) b h = nth-map f j xs b h

All-map :
    {A B : Type 0} (f : A → B) (P : B → Type 0) (xs : List A)
    → All P (map f xs)
    → All (λ a. P (f a)) xs
All-map f P [] h = tt
All-map f P (x ∷ xs) (p, h) = (p, All-map f P xs h)

-- The run is taken at the index of a downtime that no other one is nearer to the median than.
pub closest-least :
    (twice : ℤ) (hs : List ℤ) (i : ℕ)
    → closest twice hs ≡ some i
    → (d : ℤ) × (nth i hs ≡ some d) × All (λ x. distance twice d ≤ distance twice x) hs
closest-least twice [] i h = absurd (ground arith)
closest-least twice (d ∷ ds) i h =
    let r = idxmin_from 0 (distance twice d) (map (distance twice) ds) in
    let (j, e, n, all) = idxmin_from-IsBest 0 (distance twice d) (map (distance twice) ds) in
    let index : r.1 ≡ i = some_inj r.1 i h in
    let same : j ≡ i = omega (arith, e, index) in
    let (x, at, q) = nth-map (distance twice) j (d ∷ ds) r.0 n in
    let least : distance twice x ≡ r.0 = some_inj (distance twice x) r.0 q in
    (
      x,
      ap (λ k. nth k (d ∷ ds)) (sym same) ∙ at,
      subst (λ m. All (λ y. m ≤ distance twice y) (d ∷ ds)) (sym least)
          (All-map (distance twice) (λ u. r.0 ≤ u) (d ∷ ds) all),
    )

module _ (P Q : LatencyRow → Type 0) where
  All-zip : (rows : List LatencyRow) → All P rows → All Q rows → All (λ r. P r × Q r) rows
  All-zip [] h k = tt
  All-zip (r ∷ rows) (p, h) (q, k) = ((p, q), All-zip rows h k)

shown :
    (f last t ts : ℕ)
    → f ≤ ts
    → ts ≤ last
    → suc last ≤ t
    → (leb f (ts + 2 * second) && leb ts (t + 2 * second)) ≡ true
shown f last t ts h k l = ground arith

-- A run with a recovery has all its failed queries in the plot, between 2 s before the first failure and
-- 2 s behind the recovery.
pub plotted-failures :
    (rows : List LatencyRow) (f t : ℕ)
    → min_ts (select is_failure (events_of rows)) ≡ some f
    → recovery_after (max_ts (select is_failure (events_of rows))) (events_of rows) ≡ some t
    → select failed (plotted rows) ≡ select failed rows
unfolding plotted
plotted-failures rows f t hf ht =
    let events = events_of rows in
    let fail = select is_failure events in
    elim (Option-cases (max_ts fail)) [
      | inl p ↦ absurd (ground (arith, ap (λ o. recovery_after o events) (sym p) ∙ ht))
      | inr (last, p) ↦
          let first : min_ts (select (succeeds_after last) events) ≡ some t =
            ap (λ o. recovery_after o events) (sym p) ∙ ht in
          let (all, (e, i, r)) = min_ts-least _ t first in
          let (j, k) = In-select (succeeds_after last) events e i in
          let behind : suc last ≤ t = ground (arith, k, r) in
          let low =
            All-map (λ r. r.event) (λ e. is_failure e ≡ true → f ≤ e.ts) rows
              (All-select is_failure (λ e. f ≤ e.ts) events (min_ts-least fail f hf).0) in
          let high =
            All-map (λ r. r.event) (λ e. is_failure e ≡ true → e.ts ≤ last) rows
              (All-select is_failure (λ e. e.ts ≤ last) events (max_ts-All fail last p)) in
          let inside : All (λ r. failed r ≡ true → in_plot f (some t) r ≡ true) rows =
            All-imp _ _ (λ r (l, h) b. shown f last t r.event.ts (l b) (h b) behind) rows
              (All-zip _ _ rows low high) in
          ap (λ o. select failed (plot_from o (recovery_after (max_ts fail) events) rows)) hf
          ∙ ap (λ o. select failed (plot_from (some f) o rows)) ht
          ∙ select-select failed (in_plot f (some t)) rows inside
    ]
