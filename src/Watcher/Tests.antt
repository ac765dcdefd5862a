-- ===== src/Watcher/Tests.antt =====
-- The watchers on short sequences of answers.
use patroni_routing_bench.Prelude.{
  ℕ, ◌+◌, String, ◌≡◌, refl, true, false, ◌↔◌, none, some, List, [], ◌∷◌, ◌++◌, nat_eq, bool_eq,
  option_eq, string_eq, In, All,
}
use patroni_routing_bench.Prelude.Text.{Text, codes, show, starts_with}
use patroni_routing_bench.Emitter.{Emission}
use patroni_routing_bench.Watcher.{Polled, Ended, loop}
use patroni_routing_bench.Watcher.Loop.{polls, loop-stop}
use patroni_routing_bench.Watcher.Log.{Log}
use patroni_routing_bench.Watcher.Patroni
use patroni_routing_bench.Watcher.Patroni.{PatroniWatcher, Status, answered, unreachable}
use patroni_routing_bench.Watcher.Patroni.Events.{role_view, state_view, state-Log}
use patroni_routing_bench.Watcher.Patroni.Timeline.{timelines, timeline_lost}
use patroni_routing_bench.Watcher.Consul
use patroni_routing_bench.Watcher.Consul.{ConsulWatcher, Entry, not_found, entry, base64}
use patroni_routing_bench.Watcher.Consul.Events.{leader_view, leader-Log}
use patroni_routing_bench.Watcher.Vip
use patroni_routing_bench.Watcher.Vip.{output, timed_out, is_bound, word}
use patroni_routing_bench.Watcher.Vip.Events.{bound_view, shown, bound-Log}
use patroni_routing_bench.Watcher.PostgresSql
use patroni_routing_bench.Watcher.PostgresSql.{Answer, failed}
use patroni_routing_bench.Watcher.PostgresSql.Events
use patroni_routing_bench.Watcher.PostgresSql.Events.{reach_view, reach, role}
use patroni_routing_bench.Watcher.PostgresSql.Session.{start, session, reach-Log, role-Log}
use patroni_routing_bench.Watcher.Haproxy
use patroni_routing_bench.Watcher.Haproxy.{Row, HaproxyWatcher, page, lookup}
use patroni_routing_bench.Watcher.Haproxy.View.{view, observes, polls-observes}
use patroni_routing_bench.Watcher.Haproxy.Events.{
  latest, IsChange, event_of, changes_exact, return_silent, Names,
}

abbrev replica : Status
replica = record {
  role = some "replica";
  state = some "running";
  timeline = some 1;
  server_version = none;
}

abbrev primary : Status
primary = record {
  role = some "primary";
  state = some "running";
  timeline = some 2;
  server_version = none;
}

abbrev starting : Status
starting = record {
  role = some "primary";
  state = some "starting";
  timeline = none;
  server_version = none;
}

abbrev seen : PatroniWatcher
seen = record { last_role = some "replica"; last_state = some "running"; last_timeline = some 1 }

state-Log_example :
    let first = Patroni.setup (answered replica) Patroni.init in
    let end = polls Patroni.poll (unreachable "refused" ∷ answered primary ∷ []) first.state in
    Log role_view none (first.emissions ++ end.1) end.0.last_role
    × Log state_view none (first.emissions ++ end.1) end.0.last_state
state-Log_example = state-Log replica (unreachable "refused" ∷ answered primary ∷ [])

timeline_lost_example :
    timelines (polls Patroni.poll (answered starting ∷ answered primary ∷ []) seen).1
    ≡ (show 1, "None") ∷ []
timeline_lost_example = timeline_lost 1 2 starting primary seen refl refl refl

abbrev counting : ℕ → ℕ → Polled ℕ
counting i n = record { state = i + n; emissions = []; raised = false }

abbrev running : Ended ℕ
running = record { base = record { running = true; inner = 0 }; emissions = []; crashed = false }

abbrev key : String → Entry
key leader = record {
  modify_index = some 7;
  create_index = some 3;
  session = some "s";
  value = base64 leader;
}

leader-Log_example :
    let started = Consul.setup (λ s. some s) (entry (key "a")) Consul.init in
    let end = polls (Consul.poll (λ s. some s)) (not_found ∷ entry (key "b") ∷ []) started.state in
    Log leader_view none (started.emissions ++ end.1) end.0.last_leader
leader-Log_example = leader-Log (λ s. some s) (entry (key "a")) (not_found ∷ entry (key "b") ∷ [])

abbrev address : Text
address = codes "10.0.0.1"

bound-Log_example :
    let first = Vip.setup (output (codes "inet 10.0.0.1/24")) (Vip.init address "d") in
    let end = polls Vip.poll (timed_out ∷ output [] ∷ []) first.state in
    Log bound_view none (first.emissions ++ end.1) (shown end.0.last_bound)
bound-Log_example = bound-Log address (codes "inet 10.0.0.1/24") "d" (timed_out ∷ output [] ∷ [])

abbrev standby : Answer
standby = record { in_recovery = true; timeline = 1; conn_count = 4 }

abbrev leader : Answer
leader = record { in_recovery = false; timeline = 2; conn_count = 1 }

reach-Log_example :
    Log reach_view
      (reach (start (failed "refused")).state.last_reachable)
      (session (failed "refused") (PostgresSql.answered standby ∷ failed "gone" ∷ [])).1
      (reach
        (session
          (failed "refused")
          (PostgresSql.answered standby ∷ failed "gone" ∷ [])).0.last_reachable)
reach-Log_example = reach-Log (failed "refused") (PostgresSql.answered standby ∷ failed "gone" ∷ [])

role-Log_example :
    Log PostgresSql.Events.role_view none
      ((start (PostgresSql.answered standby)).emissions
        ++ (session
            (PostgresSql.answered standby)
            (failed "gone" ∷ PostgresSql.answered leader ∷ [])).1)
      (role
        (session
          (PostgresSql.answered standby)
          (failed "gone" ∷ PostgresSql.answered leader ∷ [])).0.last_in_recovery)
role-Log_example = role-Log standby (failed "gone" ∷ PostgresSql.answered leader ∷ [])

abbrev server : String → Row
server status = ("pxname", "primary_backend") ∷ ("svname", "pg1") ∷ ("status", status) ∷ []

-- A stand-in for the csv reader: a page with text lists a server that is up, an empty one none.
abbrev read_page : Text → List Row
read_page [] = []
read_page (c ∷ s) = server "UP" ∷ []

abbrev was_down : HaproxyWatcher
was_down = record { server_states = (("primary_backend", "pg1"), "DOWN") ∷ [] }

abbrev came_up : Emission
came_up = event_of was_down.server_states (server "UP")

changes_exact_example :
    In came_up (Haproxy.poll_stats read_page false (page (codes "# a")) was_down).emissions ↔ (
      (row : Row) × In row (read_page (Haproxy.strip_mark (codes "# a")))
      × IsChange false was_down.server_states row
      × (came_up ≡ event_of was_down.server_states row))
changes_exact_example = changes_exact read_page false (codes "# a") was_down came_up

-- Another server is on both pages and comes up, and the one of the watcher comes back.
abbrev second_server : String → Row
second_server status = ("pxname", "primary_backend") ∷ ("svname", "pg2") ∷ ("status", status) ∷ []

abbrev read_two : Text → List Row
read_two [] = second_server "DOWN" ∷ []
read_two (c ∷ s) = second_server "UP" ∷ server "UP" ∷ []

gone : latest ("primary_backend", "pg1") (read_two (Haproxy.strip_mark [])) none ≡ none
unfolding Haproxy.strip_mark starts_with Haproxy.key_of Haproxy.is_server Haproxy.cell
gone = refl

return_silent_example :
    All
      (λ e. ¬ Names ("primary_backend", "pg1") e.detail)
      (Haproxy.poll read_two
        (page (codes "ab"))
        (Haproxy.poll read_two (page []) was_down).state).emissions
return_silent_example =
    return_silent read_two [] (codes "ab") was_down ("primary_backend", "pg1") gone

polls-observes_example :
    let end =
      polls
        (Haproxy.poll read_page)
        (page (codes "# a") ∷ Haproxy.failed ∷ page [] ∷ [])
        was_down in
    let seen =
      observes read_page (page (codes "# a") ∷ Haproxy.failed ∷ page [] ∷ []) (view was_down) in
    (view end.0 ≡ seen.0) × (end.1 ≡ seen.1)
polls-observes_example =
    polls-observes read_page (page (codes "# a") ∷ Haproxy.failed ∷ page [] ∷ []) was_down

loop-stop_example :
    (loop counting ((1, false) ∷ ((2, true) ∷ (4, false) ∷ [])) running
      ≡ loop counting ((1, false) ∷ ((2, true) ∷ [])) running)
    × ((loop counting ((1, false) ∷ ((2, true) ∷ (4, false) ∷ [])) running).base.running ≡ false)
loop-stop_example = loop-stop counting ((1, false) ∷ []) 2 ((4, false) ∷ []) running
