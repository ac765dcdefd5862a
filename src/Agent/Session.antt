-- ===== src/Agent/Session.antt =====
-- A watcher together with its emitter, as agent.py runs them in its mode of one target: `watcher.run`,
-- whose calls of `emit_now` go to the emitter between the rounds of its flush thread, and `emitter.stop`
-- in the `finally` behind it.
use patroni_routing_bench.Prelude.{
  ◌≡◌, refl, sym, ap, ◌∙◌, Bool, true, false, none, List, [], ◌∷◌, ◌++◌, map, nat_eq, bool_eq,
  option_eq, string_eq, if_false,
}
use mathlib.Core.Path.{subst}
use patroni_routing_bench.Emitter.{
  Event, Row, Delivery, accepted, Site, row_of, Op, run, stop, emitted, AllAccepted, Emission,
}
use patroni_routing_bench.Emitter.Flush.{IsConfigured}
use patroni_routing_bench.Emitter.Session.{stop-run_exact}
use patroni_routing_bench.Watcher as Watcher
use patroni_routing_bench.Watcher.{Polled, Base, Ended, loop}
use patroni_routing_bench.Watcher.Loop.{served, loop-polls}
use patroni_routing_bench.Watcher.Log.{Log}
use patroni_routing_bench.Watcher.Patroni as Patroni
use patroni_routing_bench.Watcher.Patroni.{PatroniWatcher, Status, answered}
use patroni_routing_bench.Watcher.Patroni.Events.{role_view, state_view, state-Log}

-- What an event keeps of the call that made it: all but the time.
unfoldable pub emission_of : Event → Emission
emission_of e = record {
  event_type = e.event_type;
  new_value = e.new_value;
  old_value = e.old_value;
  detail = e.detail;
}

-- The end of the process: the watcher's, the emitter with the table, and whether it exits with 1.
pub record Closed {ℓ} (S : Type ℓ) : Type ℓ where
  pub ended : Ended S
  pub site : Site
  pub failed : Bool

module _ {S I : Type 0} where
  -- `ops` are the emitter's calls and flushes in the order in which they happened, for a session in which
  -- no two of them overlap, `last` and `final` the two flushes of `stop`.
  unfoldable pub single_target :
      (I → S → Polled S)
      → (I → S → Polled S)
      → I
      → Bool
      → List (I × Bool)
      → Base S
      → List Op
      → Delivery
      → Delivery
      → Site
      → Closed S
  single_target setup poll answer stopped rounds b ops last final s =
      let ended = Watcher.run setup poll answer stopped rounds b in
      record { ended = ended; site = stop last final (run ops s); failed = ended.crashed }

-- The operations carry these emissions, each once and in order.
abbrev pub Carries : List Op → List Emission → Type 0
Carries ops ms = map emission_of (emitted ops) ≡ ms

abbrev pub emissions_of : List Row → List Emission
emissions_of rows = map (λ r. emission_of r.event) rows

pub emissions_of-map :
    (s : Site) (es : List Event) → emissions_of (map (row_of s.emitter) es) ≡ map emission_of es
unfolding row_of
emissions_of-map s [] = refl
emissions_of-map s (e ∷ es) = ap (λ l. emission_of e ∷ l) (emissions_of-map s es)

abbrev pub fresh : Base PatroniWatcher
fresh = record { running = true; inner = Patroni.init }

abbrev pub patroni_run : Status → List (Patroni.Reply × Bool) → Ended PatroniWatcher
patroni_run st rounds = Watcher.run Patroni.setup Patroni.poll (answered st) false rounds fresh

-- What the watcher has emitted and holds at the end of its loop.
pub patroni_run-Log :
    (st : Status) (rounds : List (Patroni.Reply × Bool))
    → let e = patroni_run st rounds in
      Log role_view none e.emissions e.base.inner.last_role
      × Log state_view none e.emissions e.base.inner.last_state
      × (e.crashed ≡ false)
unfolding Watcher.run
patroni_run-Log st rounds =
    let first = Patroni.setup (answered st) Patroni.init in
    let raised : first.raised ≡ false = unfold Patroni.setup Patroni.poll_state in refl in
    let e : Ended PatroniWatcher = record {
      base = record { running = true; inner = first.state };
      emissions = first.emissions;
      crashed = first.raised;
    } in
    let (inner, out, crashed) = loop-polls Patroni.poll rounds e refl in
    let (roles, states) = state-Log st (served rounds) in
    let whole = if_false first.raised e (loop Patroni.poll rounds e) raised in
    let Good : Ended PatroniWatcher → Type 0 = λ x.
      Log role_view none x.emissions x.base.inner.last_role
      × Log state_view none x.emissions x.base.inner.last_state
      × (x.crashed ≡ false) in
    subst Good (sym whole) (rw (inner, out, crashed) (roles, states, raised))

-- An agent on a Patroni node whose first poll is answered does not fail. If its emitter has a database
-- and starts with an empty buffer, its operations carry the watcher's emissions in order, no two of its
-- flushes overlap, and the database accepts them, then the rows that it adds to the table lead from no role
-- and no state to those that the watcher holds at the end: each change is in the table once, in order,
-- and with the value before it, unless that is unknown or the empty string.
pub single_target-Log :
    (st : Status) (rounds : List (Patroni.Reply × Bool)) (ops : List Op) (s : Site)
    → IsConfigured s
    → s.emitter.buffer ≡ []
    → AllAccepted ops
    → Carries ops (patroni_run st rounds).emissions
    → let c =
        single_target Patroni.setup Patroni.poll
          (answered st)
          false
          rounds
          fresh
          ops
          accepted
          accepted
          s in
      (rows : List Row) × (c.site.table ≡ s.table ++ rows)
      × Log role_view none (emissions_of rows) c.ended.base.inner.last_role
      × Log state_view none (emissions_of rows) c.ended.base.inner.last_state
      × (c.failed ≡ false)
unfolding single_target
single_target-Log st rounds ops s configured empty accepts carries =
    let (roles, states, alive) = patroni_run-Log st rounds in
    let (table, left) = stop-run_exact ops s configured empty accepts in
    let rows = map (row_of s.emitter) (emitted ops) in
    let same : emissions_of rows ≡ (patroni_run st rounds).emissions =
      emissions_of-map s (emitted ops) ∙ carries in
    let end = (patroni_run st rounds).base.inner in
    (
      rows,
      table,
      subst (λ ms. Log role_view none ms end.last_role) (sym same) roles,
      subst (λ ms. Log state_view none ms end.last_state) (sym same) states,
      alive,
    )
