-- ===== src/Charts/Labels/Resolved.antt =====
-- `resolve_test_run` of generate_charts.py.
use patroni_routing_bench.Prelude.{
  String, ◌≡◌, ◌≢◌, sym, ap, false, Option, none, some, arith, ◌==◌, nat_eq, bool_eq, option_eq,
  string_eq, eq_of_beq,
}
use patroni_routing_bench.Charts.Labels.{Queries, first_of, named, resolve_test_run}

found_id :
    (id found c combination : String)
    → ◌≡◌ {A = Option (String × String)} (some (id, c)) (some (found, combination))
    → (found ≡ id) × (c ≡ combination)
found_id id found c combination e =
    let p : ◌≡◌ {A = String × String} (id, c) (found, combination) =
      ap (λ o. elim o [ none ↦ (id, c) | some x ↦ x ]) e in
    (ap (λ x. x.0) (sym p), ap (λ x. x.1) p)

first_named :
    (id : String) (a b : Option String) (found combination : String)
    → first_of (named id a) (named id b) ≡ some (found, combination)
    → (found ≡ id) × (some combination ≡ first_of a b)
first_named id (some a) b found combination e =
    let (p, q) = found_id id found a combination e in (p, ap (λ c. some c) (sym q))
first_named id none (some b) found combination e =
    let (p, q) = found_id id found b combination e in (p, ap (λ c. some c) (sym q))
first_named id none none found combination e = absurd (ground arith)

-- A test run that is asked for is never replaced by another: the answer has its id, with the combination
-- of test_runs, or where that has none, of the observer's events.
pub resolved_id :
    (q : Queries) (id found combination : String)
    → id ≢ ""
    → resolve_test_run q (some id) ≡ some (found, combination)
    → (found ≡ id) × (some combination ≡ first_of (q.run_combination id) (q.event_combination id))
unfolding resolve_test_run
resolved_id q id found combination h e =
    let given : (id == "") ≡ false = ground (arith, h, eq_of_beq id "") in
    first_named id (q.run_combination id) (q.event_combination id) found combination
      (simp given at e)
