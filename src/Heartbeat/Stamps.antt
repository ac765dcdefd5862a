-- ===== src/Heartbeat/Stamps.antt =====
-- The id of the test run that the rows of client_events get.
use patroni_routing_bench.Prelude.{
  ℕ, ◌≡◌, refl, sym, ap, ◌∙◌, Bool, false, List, [], ◌∷◌, ◌++◌, map, append-nil, nat_eq, bool_eq,
  option_eq, string_eq, All,
}
use mathlib.Core.Path.{subst}
use patroni_routing_bench.Emitter.{accepted}
use patroni_routing_bench.Heartbeat.{
  QueryResult, Client, ClientRow, State, row_of, flush_pending, flush_results, on_failure, is_empty,
}
use patroni_routing_bench.Heartbeat.Clock.{strftime}
use patroni_routing_bench.Heartbeat.Delivered.{of_result, of_row, of_row-row_of, IsConfigured}

stamped :
    (c : Client) (qs : List QueryResult)
    → All (λ r. r.test_run_id ≡ c.test_run_id) (map (row_of c) qs)
unfolding row_of
stamped c [] = tt
stamped c (q ∷ qs) = (refl, stamped c qs)

flushed :
    (qs : List QueryResult) (s : State)
    → IsConfigured s
    → (flush_pending accepted qs s).db.client_events
      ≡ s.db.client_events ++ map (row_of s.client) qs
unfolding flush_pending
flushed [] s h = sym (append-nil s.db.client_events)
flushed (q ∷ qs) s h = simp h

begins :
    (inserted : Bool) (now : ℕ) (s : State)
    → s.client.in_failover ≡ false
    → let t = on_failure inserted now s in
      (t.client.results ≡ s.client.results)
      × (t.db.client_events ≡ s.db.client_events)
      × (t.client.test_run_id ≡ s.client.combination_id ++ b'_' ∷ strftime now)
      × (t.client.timescale_connstring ≡ s.client.timescale_connstring)
unfolding on_failure
begins inserted now s k = simp k (refl, refl, refl, refl)

-- A failover's first failure gives its id to all queries that still wait for a flush, whenever they were
-- sent: to the successes before it, and to failures and the recovery of the failover before.
pub late_stamp :
    (inserted : Bool) (now : ℕ) (s : State)
    → IsConfigured s
    → s.client.in_failover ≡ false
    → (rows : List ClientRow) × ((flush_results accepted
          (on_failure inserted now s)).db.client_events
        ≡ s.db.client_events ++ rows)
      × (map of_row rows ≡ map of_result s.client.results)
      × All (λ r. r.test_run_id ≡ s.client.combination_id ++ b'_' ∷ strftime now) rows
unfolding flush_results
late_stamp inserted now s h k =
    let t = on_failure inserted now s in
    let (results, table, id, target) = begins inserted now s k in
    (
      map (row_of t.client) t.client.results,
      flushed t.client.results t (ap is_empty target ∙ h)
          ∙ ap (λ l. l ++ map (row_of t.client) t.client.results) table,
      of_row-row_of t.client t.client.results ∙ ap (map of_result) results,
      subst (λ x. All (λ r. r.test_run_id ≡ x) (map (row_of t.client) t.client.results)) id
          (stamped t.client t.client.results),
    )
