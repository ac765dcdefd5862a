-- ===== src/Charts/Recovery.antt =====
-- The client's outage between its first failure and its recovery.
use patroni_routing_bench.Prelude.{
  ℕ, ◌≤◌, ◌≡◌, refl, ap, ◌∙◌, Bool, true, false, ◌&&◌, inl, inr, Option, none, some, List, [], ◌∷◌,
  select, arith, ltb, nat_eq, bool_eq, option_eq, string_eq, Bool-cases, Option-cases, All, In,
  In-select, All-select, All-none,
}
use patroni_routing_bench.Charts.{
  ObserverEvent, ClientEvent, min_ts, is_failure, succeeds_after, recovery_after,
}
use patroni_routing_bench.Charts.Milestones.{extract_milestones}

pub some_inj : (a b : ℕ) → some a ≡ some b → a ≡ b
some_inj a b h = ap (λ o. elim o [ none ↦ 0 | some n ↦ n ]) h

later_weaken :
    (n m : ℕ) (es : List ClientEvent) → m ≤ n → All (λ e. n ≤ e.ts) es → All (λ e. m ≤ e.ts) es
later_weaken n m [] l h = tt
later_weaken n m (e ∷ es) l (p, h) = (omega (arith, p, l), later_weaken n m es l h)

pub min_ts-none : (es : List ClientEvent) → min_ts es ≡ none → es ≡ []
min_ts-none [] h = refl
min_ts-none (e ∷ es) h = elim (Option-cases (min_ts es)) [
  | inl p ↦ absurd (ground (arith, p))
  | inr (n, p) ↦ absurd (ground (arith, p))
]

pub min_ts-least :
    (es : List ClientEvent) (m : ℕ)
    → min_ts es ≡ some m
    → All (λ e. m ≤ e.ts) es × ((e : ClientEvent) × In e es × (e.ts ≡ m))
min_ts-least [] m h = absurd (ground arith)
min_ts-least (e ∷ es) m h = elim (Option-cases (min_ts es)) [
  | inl p ↦
      let q : e.ts ≡ m = some_inj _ _ (simp p at h) in
      ((omega (arith, q), rw (min_ts-none es p) tt), (e, inl refl, q))
  | inr (n, p) ↦
      let (all, (f, i, r)) = min_ts-least es n p in
      elim (Bool-cases (ltb e.ts n)) [
        | inl l ↦
            let q : e.ts ≡ m = some_inj _ _ (simp (p, l) at h) in
            ((omega (arith, q), later_weaken n m es (ground (arith, q)) all), (e, inl refl, q))
        | inr l ↦
            let q : n ≡ m = some_inj _ _ (simp (p, l) at h) in
            ((ground (arith, q), later_weaken n m es (omega (arith, q)) all), (f, inr i, r ∙ q))
      ]
]

none_before :
    (p : ClientEvent → Bool) (r : ℕ) (es : List ClientEvent)
    → All (λ e. p e ≡ true → r ≤ e.ts) es
    → All (λ e. (p e && ltb e.ts r) ≡ false) es
none_before p r [] h = tt
none_before p r (e ∷ es) (q, h) = (
  elim (Bool-cases (p e)) [ inl b ↦ (let l = q b in ground (arith, l)) | inr b ↦ rw b refl ],
  none_before p r es h,
)

-- The least time of the events that pass the test: none if no event passes, else the time of one that
-- does, and of none before it.
abbrev pub IsFirst : (ClientEvent → Bool) → List ClientEvent → Option ℕ → Type 0
IsFirst p es none = All (λ e. p e ≡ false) es
IsFirst p es (some t) =
    ((e : ClientEvent) × In e es × (p e ≡ true) × (e.ts ≡ t))
    × All (λ e. (p e && ltb e.ts t) ≡ false) es

pub min_ts-IsFirst :
    (p : ClientEvent → Bool) (es : List ClientEvent) (o : Option ℕ)
    → min_ts (select p es) ≡ o
    → IsFirst p es o
min_ts-IsFirst p es none h = All-none p es (min_ts-none (select p es) h)
min_ts-IsFirst p es (some t) h =
    let (all, (e, i, q)) = min_ts-least (select p es) t h in
    let (j, r) = In-select p es e i in
    ((e, j, r, q), none_before p t es (All-select p (λ e. t ≤ e.ts) es all))

-- The outage that the milestones show.
abbrev pub IsOutage : List ClientEvent → Option ℕ → Option ℕ → Type 0
IsOutage cli none recovery = All (λ e. is_failure e ≡ false) cli × (recovery ≡ none)
IsOutage cli (some failure) recovery =
    IsFirst is_failure cli (some failure) × IsFirst (succeeds_after failure) cli recovery

IsOutage-of :
    (cli : List ClientEvent) (o : Option ℕ)
    → min_ts (select is_failure cli) ≡ o
    → IsOutage cli o (recovery_after o cli)
IsOutage-of cli none h = (min_ts-IsFirst is_failure cli none h, refl)
IsOutage-of cli (some f) h =
    (min_ts-IsFirst is_failure cli (some f) h, min_ts-IsFirst (succeeds_after f) cli _ refl)

-- `extract_milestones` takes the first failed query for the failure, and for the recovery the first
-- successful one strictly behind it; it finds no failure only if no query failed, and no recovery only
-- if no query succeeded behind the failure. The order of the rows does not matter.
pub IsOutage-exact :
    (obs : List ObserverEvent) (cli : List ClientEvent)
    → let ms = extract_milestones obs cli in IsOutage cli ms.first_client_failure ms.first_recovery
unfolding extract_milestones
IsOutage-exact obs cli = IsOutage-of cli (min_ts (select is_failure cli)) refl
