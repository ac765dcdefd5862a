-- ===== src/Charts/Phases/Totals.antt =====
-- The sums of the phases of a failover: of the bars of the chart and of the rows of the breakdown.
use patroni_routing_bench.Prelude.{
  ℕ, suc, arith, String, ◌≡◌, ◌≢◌, refl, ap, ◌∙◌, Option, none, some, List, [], ◌∷◌, ◌++◌, nat_eq,
  bool_eq, option_eq, string_eq, sym,
}
use patroni_routing_bench.Prelude.Int.{ℤ, pos, pos_part, neg_part, ◌+ℤ◌, ◌-ℤ◌, int_laws}
use patroni_routing_bench.Charts.Milestones.{Milestones}
use patroni_routing_bench.Charts.Phases.{
  Phase, stage, promotion, available, durations, phases_from, phases, get, Bar, stack, phase_order,
  build_phase_chart, total, breakdown_order, rows, render_phase_breakdown,
}

abbrev pub end_of : ℕ → List (String × ℕ) → ℕ
end_of t [] = t
end_of t ((label, u) ∷ more) = end_of u more

total-durations :
    (t : ℕ) (stages : List (String × ℕ))
    → total (durations t stages) ≡ pos (end_of t stages) -ℤ pos t
unfolding total durations
total-durations t [] = omega int_laws
total-durations t ((label, u) ∷ more) =
    let e = total-durations u more in omega (int_laws, ap pos_part e, ap neg_part e)

stages : Option ℕ → Option ℕ → Option ℕ → Option ℕ → Option ℕ → List (String × ℕ)
stages a p q c d =
    stage "DCS Detection" a
    ++ (promotion p q ++ (stage "Routing Detection" c ++ stage "Client Recovery" d))

stack-total :
    (t : ℕ) (a p q c d : Option ℕ)
    → (stack phase_order (durations t (stages a p q c d)) (pos 0)).1
      ≡ total (durations t (stages a p q c d))
unfolding stages stack durations get total
stack-total t none none none none none = omega int_laws
stack-total t none none none none (some d) = omega int_laws
stack-total t none none none (some c) none = omega int_laws
stack-total t none none none (some c) (some d) = omega int_laws
stack-total t none (some p) q none none = omega int_laws
stack-total t none (some p) q none (some d) = omega int_laws
stack-total t none (some p) q (some c) none = omega int_laws
stack-total t none (some p) q (some c) (some d) = omega int_laws
stack-total t none none (some q) none none = omega int_laws
stack-total t none none (some q) none (some d) = omega int_laws
stack-total t none none (some q) (some c) none = omega int_laws
stack-total t none none (some q) (some c) (some d) = omega int_laws
stack-total t (some a) none none none none = omega int_laws
stack-total t (some a) none none none (some d) = omega int_laws
stack-total t (some a) none none (some c) none = omega int_laws
stack-total t (some a) none none (some c) (some d) = omega int_laws
stack-total t (some a) (some p) q none none = omega int_laws
stack-total t (some a) (some p) q none (some d) = omega int_laws
stack-total t (some a) (some p) q (some c) none = omega int_laws
stack-total t (some a) (some p) q (some c) (some d) = omega int_laws
stack-total t (some a) none (some q) none none = omega int_laws
stack-total t (some a) none (some q) none (some d) = omega int_laws
stack-total t (some a) none (some q) (some c) none = omega int_laws
stack-total t (some a) none (some q) (some c) (some d) = omega int_laws

chart_of : List Phase → Option (List Bar × ℤ)
chart_of [] = none
chart_of (p ∷ ps) = some (stack phase_order (p ∷ ps) (pos 0))

phases-available :
    (ms : Milestones) (t0 : ℕ)
    → ms.first_client_failure ≡ some t0
    → phases ms ≡ durations t0 (available ms)
unfolding phases
phases-available ms t0 p = ap (λ t. phases_from t (available ms)) p

chart-stages :
    (t : ℕ) (stages : List (String × ℕ))
    → stages ≢ []
    → chart_of (durations t stages) ≡ some (stack phase_order (durations t stages) (pos 0))
unfolding durations chart_of
chart-stages t [] h = absurd (h refl)
chart-stages t (stage ∷ stages) h = refl

build_phase_chart-phases : (ms : Milestones) → build_phase_chart ms ≡ chart_of (phases ms)
unfolding build_phase_chart chart_of
build_phase_chart-phases ms =
    elim (phases ms)
      as (λ ps.
        elim ps [ [] ↦ none | p ∷ more ↦ some (stack phase_order (p ∷ more) (pos 0)) ]
        ≡ chart_of ps) [ [] ↦ refl | p ∷ more ↦ refl ]

end_of-append : (t : ℕ) (xs ys : List (String × ℕ)) → end_of t (xs ++ ys) ≡ end_of (end_of t xs) ys
end_of-append t [] ys = refl
end_of-append t ((label, u) ∷ xs) ys = end_of-append u xs ys

-- A milestone if it is there, and the other one if not.
abbrev pub or_else : Option ℕ → Option ℕ → Option ℕ
or_else none other = other
or_else (some t) other = some t

abbrev pub at_least : ℕ → Option ℕ → ℕ
at_least t none = t
at_least t (some u) = u

end_of-stage : (t : ℕ) (label : String) (o : Option ℕ) → end_of t (stage label o) ≡ at_least t o
end_of-stage t label none = refl
end_of-stage t label (some u) = refl

end_of-promotion : (t : ℕ) (p q : Option ℕ) → end_of t (promotion p q) ≡ at_least t (or_else p q)
end_of-promotion t none q = end_of-stage t "Patroni Promotion" q
end_of-promotion t (some u) q = refl

-- The recovery, and without one the milestone that comes closest to it in the order of the phases: the
-- router's, the promotion, or the loss of the leader.
abbrev pub last_milestone : Milestones → Option ℕ
last_milestone ms = or_else ms.first_recovery (
    or_else ms.haproxy_up
      (or_else (or_else ms.pg_promoted ms.patroni_promoted) ms.consul_leader_deleted))

at_least-last :
    (t u : ℕ) (a p c d : Option ℕ)
    → or_else d (or_else c (or_else p a)) ≡ some u
    → at_least (at_least (at_least (at_least t a) p) c) d ≡ u
at_least-last t u a p c (some v) h = ground (arith, h)
at_least-last t u a p (some v) none h = ground (arith, h)
at_least-last t u a (some v) none none h = ground (arith, h)
at_least-last t u (some v) none none none h = ground (arith, h)
at_least-last t u none none none none h = absurd (ground (arith, h))

end_of-available :
    (ms : Milestones) (t u : ℕ) → last_milestone ms ≡ some u → end_of t (available ms) ≡ u
end_of-available ms t u h =
    let a = ms.consul_leader_deleted in
    let first = stage "DCS Detection" a in
    let second = promotion ms.pg_promoted ms.patroni_promoted in
    let third = stage "Routing Detection" ms.haproxy_up in
    let fourth = stage "Client Recovery" ms.first_recovery in
    end_of-append t first (second ++ (third ++ fourth))
    ∙ end_of-append (end_of t first) second (third ++ fourth)
    ∙ end_of-append (end_of (end_of t first) second) third fourth
    ∙ end_of-stage (end_of (end_of (end_of t first) second) third) "Client Recovery"
        ms.first_recovery
    ∙ ap (λ v. at_least v ms.first_recovery)
        (end_of-stage (end_of (end_of t first) second) "Routing Detection" ms.haproxy_up
          ∙ ap (λ v. at_least v ms.haproxy_up)
              (end_of-promotion (end_of t first) ms.pg_promoted ms.patroni_promoted
                ∙ ap (λ v. at_least v (or_else ms.pg_promoted ms.patroni_promoted))
                    (end_of-stage t "DCS Detection" a)))
    ∙ at_least-last t u a (or_else ms.pg_promoted ms.patroni_promoted) ms.haproxy_up
        ms.first_recovery h

-- With a first failure and a milestone behind it there is a chart, and its "Total" is the time from the
-- first failure to the client's recovery, or without one to the router's milestone, the promotion or
-- the loss of the leader, the first of these that is there, in whatever order in time they stand.
pub chart_total :
    (ms : Milestones) (t0 u : ℕ)
    → ms.first_client_failure ≡ some t0
    → last_milestone ms ≡ some u
    → (bars : List Bar) × (build_phase_chart ms ≡ some (bars, pos u -ℤ pos t0))
unfolding stages
chart_total ms t0 u p l =
    let drawn = stack phase_order (durations t0 (available ms)) (pos 0) in
    let some_stage : available ms ≢ [] = λ q.
      let same = end_of-available ms (suc u) u l in
      let moved = ap (end_of (suc u)) q in absurd (omega (arith, same, moved)) in
    let sum : drawn.1 ≡ pos u -ℤ pos t0 =
      stack-total t0 ms.consul_leader_deleted ms.pg_promoted ms.patroni_promoted ms.haproxy_up
        ms.first_recovery
      ∙ total-durations t0 (available ms)
      ∙ ap (λ v. pos v -ℤ pos t0) (end_of-available ms t0 u l) in
    (
      drawn.0,
      build_phase_chart-phases ms
          ∙ ap chart_of (phases-available ms t0 p)
          ∙ chart-stages t0 (available ms) some_stage
          ∙ ap (λ x. some (drawn.0, x)) sum,
    )

abbrev pub duration_or_zero : Option ℤ → ℤ
duration_or_zero none = pos 0
duration_or_zero (some d) = d

breakdown-stages :
    (t : ℕ) (a p q c d : Option ℕ)
    → let ps = durations t (stages a p q c d) in
      total ps ≡ total (rows breakdown_order ps) +ℤ duration_or_zero (get "PG Promotion" ps)
unfolding stages durations get total
breakdown-stages t none none none none none = omega int_laws
breakdown-stages t none none none none (some d) = omega int_laws
breakdown-stages t none none none (some c) none = omega int_laws
breakdown-stages t none none none (some c) (some d) = omega int_laws
breakdown-stages t none (some p) q none none = omega int_laws
breakdown-stages t none (some p) q none (some d) = omega int_laws
breakdown-stages t none (some p) q (some c) none = omega int_laws
breakdown-stages t none (some p) q (some c) (some d) = omega int_laws
breakdown-stages t none none (some q) none none = omega int_laws
breakdown-stages t none none (some q) none (some d) = omega int_laws
breakdown-stages t none none (some q) (some c) none = omega int_laws
breakdown-stages t none none (some q) (some c) (some d) = omega int_laws
breakdown-stages t (some a) none none none none = omega int_laws
breakdown-stages t (some a) none none none (some d) = omega int_laws
breakdown-stages t (some a) none none (some c) none = omega int_laws
breakdown-stages t (some a) none none (some c) (some d) = omega int_laws
breakdown-stages t (some a) (some p) q none none = omega int_laws
breakdown-stages t (some a) (some p) q none (some d) = omega int_laws
breakdown-stages t (some a) (some p) q (some c) none = omega int_laws
breakdown-stages t (some a) (some p) q (some c) (some d) = omega int_laws
breakdown-stages t (some a) none (some q) none none = omega int_laws
breakdown-stages t (some a) none (some q) none (some d) = omega int_laws
breakdown-stages t (some a) none (some q) (some c) none = omega int_laws
breakdown-stages t (some a) none (some q) (some c) (some d) = omega int_laws

render-stages :
    (t : ℕ) (stages : List (String × ℕ))
    → stages ≢ []
    → render_phase_breakdown (durations t stages)
      ≡ some (rows breakdown_order (durations t stages), total (durations t stages))
unfolding render_phase_breakdown durations
render-stages t [] h = absurd (h refl)
render-stages t (stage ∷ stages) h = refl

-- With a first failure and a milestone behind it there is a breakdown. Its "Total" is the sum of its rows
-- and of the phase "PG Promotion", which has no row: the rows add up to it only if that phase is missing
-- or takes no time.
pub breakdown_total :
    (ms : Milestones) (t0 : ℕ)
    → ms.first_client_failure ≡ some t0
    → available ms ≢ []
    → (shown : List Phase) × (sum : ℤ) × (render_phase_breakdown (phases ms) ≡ some (shown, sum))
      × (sum ≡ total shown +ℤ duration_or_zero (get "PG Promotion" (phases ms)))
unfolding stages
breakdown_total ms t0 p h =
    let e = phases-available ms t0 p in
    let ps = durations t0 (available ms) in
    (
      rows breakdown_order ps,
      total ps,
      ap render_phase_breakdown e ∙ render-stages t0 (available ms) h,
      breakdown-stages t0 ms.consul_leader_deleted ms.pg_promoted ms.patroni_promoted ms.haproxy_up
            ms.first_recovery
          ∙ ap (λ qs. total (rows breakdown_order ps) +ℤ duration_or_zero (get "PG Promotion" qs))
              (sym e),
    )
