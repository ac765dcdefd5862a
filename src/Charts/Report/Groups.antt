-- ===== src/Charts/Report/Groups.antt =====
-- The groups of downtimes that the comparison of the scenarios shows.
use patroni_routing_bench.Prelude.{
  ℕ, zero, suc, String, ◌≡◌, refl, sym, ap, ◌∙◌, true, inl, inr, Option, none, some, List, [], ◌∷◌,
  ◌++◌, if◌then◌else◌, length, select, arith, ltb, ◌==◌, nat_eq, bool_eq, option_eq, string_eq,
  is_some, Bool-cases, Option-cases, if_true, if_false, All, select-none, select-take, select-skip,
}
use mathlib.Core.Option as Option
use patroni_routing_bench.Charts.{ClientEvent}
use patroni_routing_bench.Charts.Dict.{Dict, get, group_from, values_of, get-group_from}
use patroni_routing_bench.Charts.Window.{load_run_data}
use patroni_routing_bench.Charts.Report.{
  Run, Iteration, FailoverWindow, or_unknown, positive, downtime_of, status_of, iteration_of,
  iterations_from, iterations, is_success, timed, if_filled, comparison_groups,
}

-- An iteration with a downtime is a success.
abbrev IsTruthful : Iteration → Type 0
IsTruthful it = is_some it.downtime ≡ true → is_success it ≡ true

status_of-success :
    (o : Option ℕ) (cli : List ClientEvent)
    → is_some o ≡ true
    → (status_of o cli == "SUCCESS") ≡ true
unfolding status_of
status_of-success none cli h = absurd (ground arith)
status_of-success (some d) cli h = refl

is_some-map : (f : ℕ → ℕ) (o : Option ℕ) → is_some (Option.map f o) ≡ is_some o
is_some-map f none = refl
is_some-map f (some d) = refl

-- The downtimes of a scenario's runs, for which the table of the windows has one that is not 0.
abbrev pub rounded : (ℕ → ℕ) → Option ℕ → List ℕ
rounded one_decimal none = []
rounded one_decimal (some zero) = []
rounded one_decimal (some (suc d)) = one_decimal (suc d) ∷ []

abbrev pub listed : (ℕ → ℕ) → Option FailoverWindow → List ℕ
listed one_decimal none = []
listed one_decimal (some fw) = rounded one_decimal fw.downtime

abbrev pub downtimes : (ℕ → ℕ) → String → List Run → List ℕ
downtimes one_decimal s [] = []
downtimes one_decimal s (run ∷ runs) =
    (if or_unknown run.failover_type == s then listed one_decimal run.fw else [])
    ++ downtimes one_decimal s runs

module _ (one_decimal : ℕ → ℕ) where
  iterations_from-IsTruthful :
      (i : ℕ) (runs : List Run) → All IsTruthful (iterations_from one_decimal i runs)
  unfolding iterations_from iteration_of
  iterations_from-IsTruthful i [] = tt
  iterations_from-IsTruthful i (run ∷ runs) = (
    λ h.
        status_of-success (downtime_of run.fw) (load_run_data run.rows).cli
          (sym (is_some-map one_decimal (downtime_of run.fw)) ∙ h),
    iterations_from-IsTruthful (suc i) runs,
  )

timed-select :
    (its : List Iteration) → All IsTruthful its → timed (select is_success its) ≡ timed its
timed-select [] h = ap timed (select-none is_success [] tt)
timed-select (it ∷ its) (p, h) = elim (Option-cases it.downtime) [
  | inr (d, e) ↦
      let rest = timed-select its h in
      ap timed (select-take is_success it its (p (ap is_some e))) ∙ simp (e, rest)
  | inl e ↦ elim (Bool-cases (is_success it)) [
    | inl b ↦
        let rest = timed-select its h in ap timed (select-take is_success it its b) ∙ simp (e, rest)
    | inr b ↦
        let rest = timed-select its h in ap timed (select-skip is_success it its b) ∙ simp (e, rest)
  ]
]

filled-get :
    (s : String) (d groups : Dict (List ℕ))
    → if_filled d ≡ some groups
    → get s [] groups ≡ get s [] d
filled-get s [] groups h = absurd (ground arith)
filled-get s (g ∷ gs) groups h =
    ap (λ o. elim o [ none ↦ get s [] groups | some x ↦ get s [] x ]) (sym h)

abbrev entry : String → Option ℕ → List (String × ℕ) → List (String × ℕ)
entry scenario none rest = rest
entry scenario (some d) rest = (scenario, d) ∷ rest

abbrev values : String → List (String × ℕ) → List ℕ
values s ps = values_of (λ p. p.0) (λ p. p.1) s ps

values-entry :
    (f : ℕ → ℕ) (s scenario : String) (o : Option ℕ) (rest : List (String × ℕ))
    → values s (entry scenario (Option.map f (positive o)) rest)
      ≡ (if scenario == s then rounded f o else []) ++ values s rest
unfolding select
values-entry f s scenario none rest = elim (Bool-cases (scenario == s)) [
  | inl b ↦ simp b
  | inr b ↦ simp b
]
values-entry f s scenario (some zero) rest = elim (Bool-cases (scenario == s)) [
  | inl b ↦ simp b
  | inr b ↦ simp b
]
values-entry f s scenario (some (suc d)) rest = elim (Bool-cases (scenario == s)) [
  | inl b ↦ simp b
  | inr b ↦ simp b
]

values-run :
    (f : ℕ → ℕ) (s scenario : String) (fw : Option FailoverWindow) (rest : List (String × ℕ))
    → values s (entry scenario (Option.map f (downtime_of fw)) rest)
      ≡ (if scenario == s then listed f fw else []) ++ values s rest
values-run f s scenario none rest = values-entry f s scenario none rest
values-run f s scenario (some fw) rest = values-entry f s scenario fw.downtime rest

timed-cons :
    (it : Iteration) (its : List Iteration)
    → timed (it ∷ its) ≡ entry it.scenario it.downtime (timed its)
timed-cons it its = elim (Option-cases it.downtime) [ inl e ↦ simp e | inr (d, e) ↦ simp e ]

values-timed :
    (one_decimal : ℕ → ℕ) (s : String) (i : ℕ) (runs : List Run)
    → values_of (λ p. p.0) (λ p. p.1) s (timed (iterations_from one_decimal i runs))
      ≡ downtimes one_decimal s runs
unfolding iterations_from iteration_of select
values-timed one_decimal s i [] = refl
values-timed one_decimal s i (run ∷ runs) =
    let its = iterations_from one_decimal (suc i) runs in
    let scenario = or_unknown run.failover_type in
    ap (values s) (timed-cons (iteration_of one_decimal i run) its)
    ∙ values-run one_decimal s scenario run.fw (timed its)
    ∙ ap (λ l. (if scenario == s then listed one_decimal run.fw else []) ++ l)
        (values-timed one_decimal s (suc i) runs)

-- Where the comparison is shown, the group of each scenario holds the downtimes of all runs of the
-- scenario that have one, in the order of the runs, each rounded to one decimal of a second.
pub comparison_groups-iterations :
    (one_decimal : ℕ → ℕ) (s : String) (runs : List Run) (groups : Dict (List ℕ))
    → comparison_groups (iterations one_decimal runs) ≡ some groups
    → get s [] groups ≡ downtimes one_decimal s runs
unfolding comparison_groups iterations get
comparison_groups-iterations one_decimal s runs groups h =
    let its = iterations_from one_decimal 1 runs in
    let ok = select is_success its in
    let d = group_from (λ p. p.0) (λ p. p.1) [] (timed ok) in
    elim (Bool-cases (ltb (length ok) 2)) [
      | inl b ↦ absurd (ground (arith, sym (if_true (ltb (length ok) 2) none (if_filled d) b) ∙ h))
      | inr b ↦
          filled-get s d groups (sym (if_false (ltb (length ok) 2) none (if_filled d) b) ∙ h)
          ∙ get-group_from (λ p. p.0) (λ p. p.1) s [] (timed ok)
          ∙ ap (values_of (λ p. p.0) (λ p. p.1) s)
              (timed-select its (iterations_from-IsTruthful one_decimal 1 runs))
          ∙ values-timed one_decimal s 1 runs
    ]
