-- ===== src/Charts/Overlap/Spans.antt =====
-- What the phases of the overlap chart span, and the one that this repository's watchers leave out.
use patroni_routing_bench.Prelude.{
  ℕ, String, ◌≡◌, ◌≢◌, refl, false, Option, none, some, List, [], ◌∷◌, ◌++◌, select, arith, ◌==◌,
  nat_eq, bool_eq, option_eq, string_eq, eq_of_beq, ne_of_bne, All, select-none,
}
use patroni_routing_bench.Charts.{
  ObserverEvent, ClientEvent, min_ts, max_ts, is_failure, recovery_after, first_ts, last_ts,
  from_ts,
}
use patroni_routing_bench.Charts.Overlap.{Span, add, up_events, of_type, extract_overlap_phases}

abbrev pub Unnamed : String → List Span → Type 0
Unnamed name = All (λ s. s.name ≢ name)

add-Unnamed :
    (name other : String) (s e : Option ℕ) (rest : List Span)
    → other ≢ name
    → Unnamed name rest
    → Unnamed name (add other s e ++ rest)
add-Unnamed name other none e rest h k = k
add-Unnamed name other (some s) none rest h k = k
add-Unnamed name other (some s) (some e) rest h k = (h, k)

recovery-Unnamed : (e f : Option ℕ) → Unnamed "Patroni Promotion" (add "Client Recovery" e f)
recovery-Unnamed none f = tt
recovery-Unnamed (some e) none = tt
recovery-Unnamed (some e) (some f) = (ne_of_bne "Client Recovery" "Patroni Promotion" refl, tt)

abbrev others : Option ℕ → Option ℕ → Option ℕ → Option ℕ → Option ℕ → Option ℕ → List Span
others a b c d e f =
    add "DCS Detection" a b ++ (add "Routing Detection" c d ++ add "Client Recovery" e f)

others-Unnamed : (a b c d e f : Option ℕ) → Unnamed "Patroni Promotion" (others a b c d e f)
others-Unnamed a b c d e f =
    add-Unnamed "Patroni Promotion" "DCS Detection" a b
      (add "Routing Detection" c d ++ add "Client Recovery" e f)
      (ne_of_bne "DCS Detection" "Patroni Promotion" refl)
      (add-Unnamed "Patroni Promotion" "Routing Detection" c d (add "Client Recovery" e f)
        (ne_of_bne "Routing Detection" "Patroni Promotion" refl) (recovery-Unnamed e f))

no_match :
    (t : String) (obs : List ObserverEvent)
    → All (λ e. e.event_type ≢ t) obs
    → All (λ e. (e.event_type == t) ≡ false) obs
no_match t [] h = tt
no_match t (e ∷ obs) (p, h) = (ground (arith, p, eq_of_beq e.event_type t), no_match t obs h)

of_type-none :
    (t : String) (obs : List ObserverEvent) → All (λ e. e.event_type ≢ t) obs → of_type t obs ≡ []
of_type-none t obs h = select-none (λ e. e.event_type == t) obs (no_match t obs h)

-- A test run in which no event is a pg_promote_requested has no phase "Patroni Promotion" in the
-- overlap chart, whatever the cluster and the clients did in it.
pub promotion_missing :
    (obs : List ObserverEvent) (cli : List ClientEvent)
    → All (λ e. e.event_type ≢ "pg_promote_requested") obs
    → Unnamed "Patroni Promotion" (extract_overlap_phases obs cli)
unfolding extract_overlap_phases
promotion_missing obs cli h =
    let fail = select is_failure cli in
    let after = from_ts (min_ts fail) (of_type "backend_state_change" obs) in
    simp (of_type-none "pg_promote_requested" obs h) (
      others-Unnamed (min_ts fail) (last_ts (of_type "leader_key_deleted" obs)) (first_ts after)
        (first_ts (up_events after)) (max_ts fail) (recovery_after (max_ts fail) cli))
