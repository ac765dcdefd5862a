-- ===== src/Charts/Report/Timeline.antt =====
-- The rows of the event timeline.
use patroni_routing_bench.Prelude.{
  ℕ, zero, suc, ◌≤◌, ◌≡◌, ◌≢◌, refl, sym, ap, Bool, true, false, ◌⊎◌, inl, inr, List, [], ◌∷◌, map,
  length, take, select, arith, nat_eq, bool_eq, option_eq, string_eq, Bool-cases, All, All-none,
  select-none, select-take, select-skip,
}
use mathlib.Core.Path.{subst}
use patroni_routing_bench.Prelude.Int.{sub_ℕ}
use patroni_routing_bench.Charts.{ObserverEvent, ClientEvent, min_ts, is_failure}
use patroni_routing_bench.Charts.Report.{
  TimelineRow, is_significant, origin, or_all, event_timeline,
}

module _ {A : Type 0} where
  length-take : (n : ℕ) (xs : List A) → length (take n xs) ≤ n
  length-take zero xs = omega arith
  length-take (suc n) [] = omega arith
  length-take (suc n) (x ∷ xs) = omega (arith, length-take n xs)

  take-All : (P : A → Type 0) (n : ℕ) (xs : List A) → All P xs → All P (take n xs)
  take-All P zero xs h = tt
  take-All P (suc n) [] h = tt
  take-All P (suc n) (x ∷ xs) (p, h) = (p, take-All P n xs h)

  selected : (p : A → Bool) (xs : List A) → All (λ a. p a ≡ true) (select p xs)
  selected p [] = subst (All (λ a. p a ≡ true)) (sym (select-none p [] tt)) tt
  selected p (x ∷ xs) = elim (Bool-cases (p x)) [
    | inl b ↦ rw (select-take p x xs b) (b, selected p xs)
    | inr b ↦ rw (select-skip p x xs b) (selected p xs)
  ]

  take-nil : (n : ℕ) (xs : List A) → take (suc n) xs ≡ [] → xs ≡ []
  take-nil n [] h = refl
  take-nil n (x ∷ xs) h = absurd (ground arith)

abbrev pub AllSignificant : List ObserverEvent → Type 0
AllSignificant = All (λ e. is_significant e ≡ true)

-- The rows are at most 120 and not none, and they are significant, or no event is.
abbrev pub IsChosen : List ObserverEvent → List ObserverEvent → Type 0
IsChosen obs df =
    (length df ≤ 120) × (df ≢ []) × (AllSignificant df ⊎ All (λ e. is_significant e ≡ false) obs)

or_all-IsChosen :
    (o : ObserverEvent) (obs sel : List ObserverEvent)
    → take 120 (select is_significant (o ∷ obs)) ≡ sel
    → IsChosen (o ∷ obs) (or_all sel (o ∷ obs))
or_all-IsChosen o obs [] h = (
  length-take 120 (o ∷ obs),
  λ p. absurd (ground (arith, take-nil 119 (o ∷ obs) p)),
  inr (All-none is_significant (o ∷ obs) (take-nil 119 _ h)),
)
or_all-IsChosen o obs (e ∷ es) h = (
  subst (λ l. length l ≤ 120) h (length-take 120 (select is_significant (o ∷ obs))),
  λ p. absurd (ground arith),
  inl (
      subst AllSignificant h
        (take-All (λ e. is_significant e ≡ true) 120 _ (selected is_significant (o ∷ obs)))),
)

module _ (t0 : ℕ) where
  abbrev row_at : ObserverEvent → TimelineRow
  row_at e = (sub_ℕ e.ts t0, e)

  events : (df : List ObserverEvent) → map (λ r. r.1) (map row_at df) ≡ df
  events [] = refl
  events (e ∷ es) = ap (λ l. e ∷ l) (events es)

  elapsed : (df : List ObserverEvent) → All (λ r. r.0 ≡ sub_ℕ r.1.ts t0) (map row_at df)
  elapsed [] = tt
  elapsed (e ∷ es) = (refl, elapsed es)

-- The timeline of a run with events has at least one and at most 120 rows. They show significant events
-- only, unless the run has none, and each has its time since the first failure, or since the first event
-- where no query failed.
pub event_timeline-IsChosen :
    (o : ObserverEvent) (obs : List ObserverEvent) (cli : List ClientEvent)
    → let rows = (event_timeline (o ∷ obs) cli).0 in
      IsChosen (o ∷ obs) (map (λ r. r.1) rows)
      × All (λ r. r.0 ≡ sub_ℕ r.1.ts (origin o obs (min_ts (select is_failure cli)))) rows
unfolding event_timeline
event_timeline-IsChosen o obs cli =
    let t0 = origin o obs (min_ts (select is_failure cli)) in
    let df = or_all (take 120 (select is_significant (o ∷ obs))) (o ∷ obs) in
    (subst (IsChosen (o ∷ obs)) (sym (events t0 df)) (or_all-IsChosen o obs _ refl), elapsed t0 df)
