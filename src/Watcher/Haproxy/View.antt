-- ===== src/Watcher/Haproxy/View.antt =====
-- What a HAProxy watcher promises of a sequence of pages, on an abstract view: the status of each
-- server as a function of its key, without the order or the repetitions of the stored list.
use patroni_routing_bench.Prelude.{
  String, ◌≡◌, refl, ap, ◌∙◌, Bool, false, Option, none, List, [], ◌∷◌, ◌++◌, nat_eq, bool_eq,
  option_eq, string_eq, inl, inr, Bool-cases, if◌then◌else◌,
}
use mathlib.Core.Path.{fun_ext}
use patroni_routing_bench.Prelude.Text.{Text}
use patroni_routing_bench.Emitter.{Emission}
use patroni_routing_bench.Watcher.Loop.{polls}
use patroni_routing_bench.Watcher.Haproxy.{
  Row, Key, States, HaproxyWatcher, Reply, failed, page, lookup, is_server, key_of, report, scan,
  strip_mark, poll_stats, poll,
}
use patroni_routing_bench.Watcher.Haproxy.Events.{latest, states_exact}

abbrev pub View : Type 0
View = Key → Option String

abbrev pub view : HaproxyWatcher → View
view w = λ key. lookup key w.server_states

-- The events of a page, row by row, each against the view before the page.
unfoldable pub page_events : Bool → View → List Row → List Emission
page_events b v [] = []
page_events b v (row ∷ rows) =
    let rest = page_events b v rows in
    if is_server row then report b (v (key_of row)) row ++ rest else rest

module _ (read_csv : Text → List Row) where
  -- A page replaces the view by the last status of each server on it; a request that fails leaves it.
  abbrev pub observe : Reply → View → View × List Emission
  observe failed v = (v, [])
  observe (page content) v =
      let rows = read_csv (strip_mark content) in
      (λ key. latest key rows none, page_events false v rows)

  abbrev pub observes : List Reply → View → View × List Emission
  observes [] v = (v, [])
  observes (reply ∷ replies) v =
      let (v', events) = observe reply v in
      let (v'', later) = observes replies v' in (v'', events ++ later)

events-scan :
    (b : Bool) (old : States) (rows : List Row) (current : States)
    → (scan b old rows current).1 ≡ page_events b (λ key. lookup key old) rows
unfolding scan page_events
events-scan b old [] current = refl
events-scan b old (row ∷ rows) current = elim (Bool-cases (is_server row)) [
  | inl e ↦ simp (e, events-scan b old rows _)
  | inr e ↦ simp (e, events-scan b old rows current)
]

module _ (read_csv : Text → List Row) where
  poll-observe :
      (reply : Reply) (w : HaproxyWatcher)
      → (view (poll read_csv reply w).state ≡ (observe read_csv reply (view w)).0)
        × ((poll read_csv reply w).emissions ≡ (observe read_csv reply (view w)).1)
  unfolding poll poll_stats
  poll-observe failed w = (refl, refl)
  poll-observe (page content) w = (
    fun_ext λ key. states_exact read_csv false content w key,
    events-scan false w.server_states (read_csv (strip_mark content)) [],
  )

  -- The watcher's polls refine the abstract view: after any sequence of pages and failed requests, its
  -- list of states stands for the view that the pages alone determine, and it has emitted the events of
  -- that view, in order.
  pub polls-observes :
      (replies : List Reply) (w : HaproxyWatcher)
      → (view (polls (poll read_csv) replies w).0 ≡ (observes read_csv replies (view w)).0)
        × ((polls (poll read_csv) replies w).1 ≡ (observes read_csv replies (view w)).1)
  polls-observes [] w = (refl, refl)
  polls-observes (reply ∷ replies) w =
      let (states, events) = poll-observe reply w in
      let (last, later) = polls-observes replies (poll read_csv reply w).state in
      (
        last ∙ ap (λ v. (observes read_csv replies v).0) states,
        ap (λ l. l ++ (polls (poll read_csv) replies (poll read_csv reply w).state).1) events
            ∙ ap (λ l. (observe read_csv reply (view w)).1 ++ l)
                (later ∙ ap (λ v. (observes read_csv replies v).1) states),
      )
