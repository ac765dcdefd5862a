-- ===== src/Charts/Medians/Query.antt =====
-- The offsets of one run, and its downtime against the one that the milestones of the run give.
use patroni_routing_bench.Prelude.{
  ℕ, suc, ◌≤◌, ◌≡◌, refl, sym, ap, ◌∙◌, Bool, true, inl, inr, Option, none, some, List, [], ◌∷◌,
  select, arith, ltb, nat_eq, bool_eq, option_eq, string_eq, Bool-cases, Option-cases, All, All-imp,
  All_In, In, All-select, In-select, In-selected,
}
use mathlib.Core.Path.{subst}
use patroni_routing_bench.Prelude.Int.{ℤ, pos, ◌≤ℤ◌, sub_ℕ}
use patroni_routing_bench.Charts.{
  ObserverEvent, ClientEvent, min_ts, max_ts, is_failure, succeeds_after, recovery_after,
}
use patroni_routing_bench.Charts.Milestones.{extract_milestones}
use patroni_routing_bench.Charts.Recovery.{
  IsFirst, IsOutage, min_ts-IsFirst, min_ts-least, min_ts-none, some_inj,
}
use patroni_routing_bench.Charts.Medians.{
  Offsets, min_event, is_pg_promote, is_patroni_primary, is_consul_key, is_haproxy_up, is_pg_ready,
  since, offsets_from, if_failed, run_offsets,
}

min_event-In :
    (es : List ObserverEvent) (m : ℕ)
    → min_event es ≡ some m
    → (e : ObserverEvent) × In e es × (e.ts ≡ m)
unfolding min_event
min_event-In [] m h = absurd (ground arith)
min_event-In (e ∷ es) m h = elim (Option-cases (min_event es)) [
  | inl p ↦ (e, inl refl, some_inj _ _ (simp p at h))
  | inr (n, p) ↦ elim (Bool-cases (ltb e.ts n)) [
    | inl l ↦ (e, inl refl, some_inj _ _ (simp (p, l) at h))
    | inr l ↦ let (f, i, r) = min_event-In es n p in (f, inr i, r ∙ some_inj _ _ (simp (p, l) at h))
  ]
]

max_ts-none : (es : List ClientEvent) → max_ts es ≡ none → es ≡ []
max_ts-none [] h = refl
max_ts-none (e ∷ es) h = elim (Option-cases (max_ts es)) [
  | inl p ↦ absurd (ground (arith, p))
  | inr (n, p) ↦ absurd (ground (arith, p))
]

pub max_ts-All : (es : List ClientEvent) (m : ℕ) → max_ts es ≡ some m → All (λ e. e.ts ≤ m) es
max_ts-All [] m h = tt
max_ts-All (e ∷ es) m h = elim (Option-cases (max_ts es)) [
  | inl p ↦ (
    (let q = some_inj _ _ (simp p at h) in omega (arith, q)),
    subst (All (λ e. e.ts ≤ m)) (sym (max_ts-none es p)) tt,
  )
  | inr (n, p) ↦
      let all = max_ts-All es n p in
      elim (Bool-cases (ltb n e.ts)) [
        | inl l ↦
            let q : e.ts ≡ m = some_inj _ _ (simp (p, l) at h) in
            (
              omega (arith, q),
              All-imp (λ x. x.ts ≤ n) (λ x. x.ts ≤ m) (λ x i. ground (arith, i, l, q)) es all,
            )
        | inr l ↦
            let q : n ≡ m = some_inj _ _ (simp (p, l) at h) in
            (
              ground (arith, l, q),
              All-imp (λ x. x.ts ≤ n) (λ x. x.ts ≤ m) (λ x i. omega (arith, i, q)) es all,
            )
      ]
]

succeeds_earlier :
    (f g : ℕ) (e : ClientEvent) → f ≤ g → succeeds_after g e ≡ true → succeeds_after f e ≡ true
succeeds_earlier f g e h k = ground arith

-- An offset that is there is positive.
abbrev pub IsPositive : Option ℤ → Type 0
IsPositive none = Unit
IsPositive (some t) = pos 1 ≤ℤ t

since-IsPositive :
    (f : ℕ) (o : Option ℕ) → ((t : ℕ) → o ≡ some t → suc f ≤ t) → IsPositive (since f o)
unfolding since
since-IsPositive f none h = tt
since-IsPositive f (some t) h = let l = h t refl in ground (arith, l)

behind :
    (f : ℕ) (observed : List ObserverEvent) (p : ObserverEvent → Bool) (t : ℕ)
    → min_event (select p (select (λ e. ltb f e.ts) observed)) ≡ some t
    → suc f ≤ t
behind f observed p t h =
    let (e, i, r) = min_event-In _ t h in
    let (j, k) = In-select p (select (λ e. ltb f e.ts) observed) e i in
    let (l, m) = In-select (λ e. ltb f e.ts) observed e j in ground (arith, m, r)

-- The recovery behind the last failure is behind the first one.
recovered :
    (cli : List ClientEvent) (f t : ℕ)
    → min_ts (select is_failure cli) ≡ some f
    → recovery_after (max_ts (select is_failure cli)) cli ≡ some t
    → (e : ClientEvent) × In e (select (succeeds_after f) cli) × (e.ts ≡ t)
recovered cli f t hf ht = elim (Option-cases (max_ts (select is_failure cli))) [
  | inl p ↦ absurd (ground (arith, ap (λ o. recovery_after o cli) (sym p) ∙ ht))
  | inr (last, p) ↦
      let h : min_ts (select (succeeds_after last) cli) ≡ some t =
        ap (λ o. recovery_after o cli) (sym p) ∙ ht in
      let (all, (e, i, r)) = min_ts-least _ t h in
      let (j, k) = In-select (succeeds_after last) cli e i in
      let (all', (g, i', r')) = min_ts-least _ f hf in
      let order = All_In (λ x. x.ts ≤ last) (select is_failure cli) g (max_ts-All _ last p) i' in
      (
        e,
        In-selected (succeeds_after f) (succeeds_after f) cli e j
            (succeeds_earlier f last e (omega (arith, order, r')) k),
        r,
      )
]

-- The offsets of the milestones and of the recovery.
abbrev pub AllPositive : Offsets → Type 0
AllPositive o =
    IsPositive o.t0
    × IsPositive o.t1
    × IsPositive o.t2
    × IsPositive o.t3
    × IsPositive o.t4
    × IsPositive o.tc

offsets_from-AllPositive :
    (f : ℕ) (obs : List ObserverEvent) (cli : List ClientEvent)
    → min_ts (select is_failure cli) ≡ some f
    → AllPositive (offsets_from f obs cli)
unfolding offsets_from
offsets_from-AllPositive f obs cli hf = (
  since-IsPositive f _ (behind f obs is_pg_promote),
  since-IsPositive f _ (behind f obs is_patroni_primary),
  since-IsPositive f _ (behind f obs is_consul_key),
  since-IsPositive f _ (behind f obs is_haproxy_up),
  since-IsPositive f _ (behind f obs is_pg_ready),
  since-IsPositive f _ (λ t h.
      let (e, i, r) = recovered cli f t hf h in
      let (j, k) = In-select (succeeds_after f) cli e i in ground (arith, k, r)),
)

abbrev AllPositiveIf : Option Offsets → Type 0
AllPositiveIf none = Unit
AllPositiveIf (some o) = AllPositive o

if_failed-AllPositive :
    (o : Option ℕ) (obs : List ObserverEvent) (cli : List ClientEvent)
    → min_ts (select is_failure cli) ≡ o
    → AllPositiveIf (if_failed o obs cli)
if_failed-AllPositive none obs cli h = tt
if_failed-AllPositive (some f) obs cli h = offsets_from-AllPositive f obs cli h

-- In the row of a run, every offset that is there is positive: no milestone of the servers, and no
-- recovery, is at the first failure or before it.
pub run_offsets-AllPositive :
    (obs : List ObserverEvent) (cli : List ClientEvent) (o : Offsets)
    → run_offsets obs cli ≡ some o
    → AllPositive o
unfolding run_offsets
run_offsets-AllPositive obs cli o h =
    subst AllPositiveIf h (if_failed-AllPositive (min_ts (select is_failure cli)) obs cli refl)

min_ts-In :
    (es : List ClientEvent) (e : ClientEvent)
    → In e es
    → (m : ℕ) × (min_ts es ≡ some m) × (m ≤ e.ts)
min_ts-In es e i = elim (Option-cases (min_ts es)) [
  | inl p ↦ absurd (subst (In e) (min_ts-none es p) i)
  | inr (m, p) ↦ (m, p, All_In (λ x. m ≤ x.ts) es e (min_ts-least es m p).0 i)
]

abbrev tc_of : Option Offsets → Option ℤ
tc_of none = none
tc_of (some o) = o.tc

abbrev value : Option ℤ → ℤ
value none = pos 0
value (some t) = t

max_ts-In :
    (es : List ClientEvent) (m : ℕ) → max_ts es ≡ some m → (e : ClientEvent) × In e es × (e.ts ≡ m)
max_ts-In [] m h = absurd (ground arith)
max_ts-In (e ∷ es) m h = elim (Option-cases (max_ts es)) [
  | inl p ↦ (e, inl refl, some_inj _ _ (simp p at h))
  | inr (n, p) ↦ elim (Bool-cases (ltb n e.ts)) [
    | inl l ↦ (e, inl refl, some_inj _ _ (simp (p, l) at h))
    | inr l ↦ let (f, i, r) = max_ts-In es n p in (f, inr i, r ∙ some_inj _ _ (simp (p, l) at h))
  ]
]

-- A query failed at this time, and none failed later.
abbrev pub IsLastFailure : List ClientEvent → ℕ → Type 0
IsLastFailure cli l =
    ((e : ClientEvent) × In e cli × (is_failure e ≡ true) × (e.ts ≡ l))
    × All (λ e. is_failure e ≡ true → e.ts ≤ l) cli

max_ts-IsLastFailure :
    (cli : List ClientEvent) (l : ℕ) → max_ts (select is_failure cli) ≡ some l → IsLastFailure cli l
max_ts-IsLastFailure cli l h =
    let (e, i, q) = max_ts-In (select is_failure cli) l h in
    let (j, r) = In-select is_failure cli e i in
    (
      (e, j, r, q),
      All-select is_failure (λ e. e.ts ≤ l) cli (max_ts-All (select is_failure cli) l h),
    )

-- What the two say of a run: `f` is the first failure, `r` the first success behind it, `l` the last failure
-- and `t` the first success behind that.
abbrev pub IsTwofold : List ClientEvent → ℕ → ℕ → ℕ → ℕ → Type 0
IsTwofold cli f r l t =
    IsOutage cli (some f) (some r)
    × IsLastFailure cli l
    × IsFirst (succeeds_after l) cli (some t)
    × (r ≤ t)

module _ (cli : List ClientEvent) (tc : ℤ) where
  abbrev Behind : ℕ → Type 0
  Behind f =
      (r : ℕ) × (l : ℕ) × (t : ℕ) × (recovery_after (some f) cli ≡ some r)
      × IsTwofold cli f r l t
      × (sub_ℕ t f ≡ tc)

  twofold :
      (f l t : ℕ)
      → min_ts (select is_failure cli) ≡ some f
      → max_ts (select is_failure cli) ≡ some l
      → recovery_after (some l) cli ≡ some t
      → since f (recovery_after (max_ts (select is_failure cli)) cli) ≡ some tc
      → Behind f
  unfolding since
  twofold f l t hf hl ht h =
      let found : recovery_after (max_ts (select is_failure cli)) cli ≡ some t =
        ap (λ o. recovery_after o cli) hl ∙ ht in
      let end : sub_ℕ t f ≡ tc = ap value (ap (since f) (sym found) ∙ h) in
      let (e, i, q) = recovered cli f t hf found in
      let (r, k, low) = min_ts-In (select (succeeds_after f) cli) e i in
      (
        r,
        l,
        t,
        k,
        (
          (
            min_ts-IsFirst is_failure cli (some f) hf,
            min_ts-IsFirst (succeeds_after f) cli (some r) k,
          ),
          max_ts-IsLastFailure cli l hl,
          min_ts-IsFirst (succeeds_after l) cli (some t) ht,
          omega (arith, low, q),
        ),
        end,
      )

  failure-Behind :
      (f : ℕ)
      → min_ts (select is_failure cli) ≡ some f
      → since f (recovery_after (max_ts (select is_failure cli)) cli) ≡ some tc
      → Behind f
  unfolding since
  failure-Behind f hf h = elim (Option-cases (max_ts (select is_failure cli))) [
    | inl p ↦ absurd (ground (arith, ap (λ o. since f (recovery_after o cli)) (sym p) ∙ h))
    | inr (l, p) ↦ elim (Option-cases (recovery_after (some l) cli)) [
      | inr (t, q) ↦ twofold f l t hf p q h
      | inl q ↦
          let lost = ap (λ o. since f (recovery_after o cli)) (sym p) ∙ h in
          absurd (ground (arith, ap (since f) (sym q) ∙ lost))
    ]
  ]

-- If the row of a run has a downtime, it is the time from the run's first failure to the first success
-- behind its last failure, while the milestones of the run take for the recovery the first success
-- behind the first failure, which is never later.
pub run_offsets-extract_milestones :
    (obs : List ObserverEvent) (cli : List ClientEvent) (o : Offsets) (tc : ℤ)
    → run_offsets obs cli ≡ some o
    → o.tc ≡ some tc
    → (f : ℕ) × (r : ℕ) × (l : ℕ) × (t : ℕ) × ((extract_milestones obs cli).first_client_failure
        ≡ some f)
      × ((extract_milestones obs cli).first_recovery ≡ some r)
      × IsTwofold cli f r l t
      × (sub_ℕ t f ≡ tc)
unfolding run_offsets offsets_from extract_milestones
run_offsets-extract_milestones obs cli o tc h k =
    elim (Option-cases (min_ts (select is_failure cli))) [
      | inl p ↦ absurd (ground (arith, ap (λ x. if_failed x obs cli) (sym p) ∙ h))
      | inr (f, p) ↦
          let whole : if_failed (some f) obs cli ≡ some o =
            ap (λ x. if_failed x obs cli) (sym p) ∙ h in
          let (r, l, t, e, both, end) = failure-Behind cli tc f p (ap tc_of whole ∙ k) in
          (f, r, l, t, p, ap (λ x. recovery_after x cli) p ∙ e, both, end)
    ]
