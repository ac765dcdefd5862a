-- ===== src/Charts/Comparison.antt =====
-- `generate_comparison_phases` of generate_charts.py: the phases of each combination's latest run, and
-- `cmd_legacy`, which chooses what the command without a subcommand shows. The answers of the database
-- are arguments: the rows of a run, the latest run of a combination, the combination of a run.
use patroni_routing_bench.Prelude.{
  ℕ, ◌+◌, String, ◌≡◌, refl, Bool, not, ◌&&◌, Option, none, some, List, [], ◌∷◌, ltb, ◌==◌, nat_eq,
  bool_eq, option_eq, string_eq, if◌then◌else◌,
}
use patroni_routing_bench.Prelude.Int.{ℤ, pos, ◌+ℤ◌, ◌-ℤ◌, int_laws}
use patroni_routing_bench.Charts.{ObserverEvent}
use patroni_routing_bench.Charts.Milestones.{Milestones, extract_milestones}
use patroni_routing_bench.Charts.Window.{
  Loaded, load_windowed, find_failover_anchor, find_latest_failover_window, load_run_data,
}

pub record Durations : Type 0 where
  pub combination_id : String
  pub dcs_detection : ℤ
  pub patroni_promotion : ℤ
  pub routing_detection : ℤ
  pub client_recovery : ℤ

abbrev pub dur : Option ℕ → Option ℕ → ℤ
dur none b = pos 0
dur (some a) none = pos 0
dur (some a) (some b) = pos b -ℤ pos a

abbrev pub one : Option ℕ → ℕ
one none = 0
one (some t) = 1

-- `len(ms)`
abbrev pub found : Milestones → ℕ
found ms =
    one ms.first_client_failure
    + one ms.first_recovery
    + one ms.consul_leader_deleted
    + one ms.patroni_promoted
    + one ms.haproxy_up
    + one ms.pg_promoted

unfoldable pub durations : String → Milestones → Durations
durations cid ms = record {
  combination_id = cid;
  dcs_detection = dur ms.first_client_failure ms.consul_leader_deleted;
  patroni_promotion = dur ms.consul_leader_deleted ms.patroni_promoted;
  routing_detection = dur ms.patroni_promoted ms.haproxy_up;
  client_recovery = dur ms.haproxy_up ms.first_recovery;
}

-- A combination with its latest run and the rows of a run.
pub record Combination : Type 0 where
  pub id : String
  pub latest : Option String
  pub rows : String → Loaded

abbrev pub row_at : Combination → Option (ℕ × ℕ) × String → List Durations
row_at c (none, trid) = []
row_at c (some (ws, we), trid) =
    let l = load_windowed ws we (c.rows trid) in
    let ms = extract_milestones l.obs l.cli in
    if ltb (found ms) 2 then [] else durations c.id ms ∷ []

-- The row of a combination, if it is not skipped.
unfoldable pub comparison_row : Combination → List Durations
comparison_row c =
    row_at c
      (find_latest_failover_window "" c.latest (λ trid. find_failover_anchor (c.rows trid).obs))

unfoldable pub total : Durations → ℤ
total d = d.dcs_detection +ℤ (d.patroni_promotion +ℤ (d.routing_detection +ℤ d.client_recovery))

-- What `cmd_legacy` goes on to do; `failed`: sys.exit(1).
pub data Choice : Type 0 where
  comparison : Choice
  charts : String → String → Loaded → Choice
  help : Choice
  failed : Choice

pub record Arguments : Type 0 where
  pub test_run_id : String
  pub combination_id : String
  pub compare : Bool

pub record Database : Type 0 where
  pub combination_of : String → Option String
  pub latest_of : String → Option String
  pub rows_of : String → String → Loaded

abbrev pub chart_of : String → String → Loaded → List ObserverEvent → Choice
chart_of cid trid l [] = failed
chart_of cid trid l (e ∷ es) = charts cid trid l

-- The charts of a run, which needs observer events.
unfoldable pub charts_of : Database → String → String → Choice
charts_of db cid trid = let l = load_run_data (db.rows_of cid trid) in chart_of cid trid l l.obs

abbrev pub of_latest : Database → String → Option String → Choice
of_latest db cid none = failed
of_latest db cid (some trid) = if trid == "" then failed else charts_of db cid trid

abbrev pub of_run : Database → String → Option String → Choice
of_run db trid none = failed
of_run db trid (some cid) = if cid == "" then failed else charts_of db cid trid

unfoldable pub cmd_legacy : Database → Arguments → Choice
cmd_legacy db args =
    if args.compare
    then comparison
    else if args.combination_id == ""
    then (if args.test_run_id == ""
        then failed
        else of_run db args.test_run_id (db.combination_of args.test_run_id))
    else if args.test_run_id == ""
    then of_latest db args.combination_id (db.latest_of args.combination_id)
    else charts_of db args.combination_id args.test_run_id

-- `main` without a subcommand.
unfoldable pub main_legacy : Database → Arguments → Choice
main_legacy db args =
    if args.test_run_id == "" && (args.combination_id == "" && not args.compare)
    then help
    else cmd_legacy db args

-- Where all five milestones of the phases are there, the phases of a combination add up to the time from
-- the first failure to the recovery, in whatever order the milestones are.
pub total-durations :
    (cid : String) (ms : Milestones) (f deleted promoted up r : ℕ)
    → ms.first_client_failure ≡ some f
    → ms.consul_leader_deleted ≡ some deleted
    → ms.patroni_promoted ≡ some promoted
    → ms.haproxy_up ≡ some up
    → ms.first_recovery ≡ some r
    → total (durations cid ms) ≡ pos r -ℤ pos f
unfolding total durations
total-durations cid ms f deleted promoted up r a b c d e = simp (a, b, c, d, e) (omega int_laws)

dur_none : (a : Option ℕ) → dur a none ≡ pos 0
dur_none none = refl
dur_none (some a) = refl

-- Without the deletion of the leader's key, the time up to the promotion is in no phase: the first two
-- are empty, and the others add up to the time from the promotion to the recovery.
pub durations_lost :
    (cid : String) (ms : Milestones) (promoted up r : ℕ)
    → ms.consul_leader_deleted ≡ none
    → ms.patroni_promoted ≡ some promoted
    → ms.haproxy_up ≡ some up
    → ms.first_recovery ≡ some r
    → total (durations cid ms) ≡ pos r -ℤ pos promoted
unfolding total durations
durations_lost cid ms promoted up r b c d e =
    simp (b, c, d, e, dur_none ms.first_client_failure) (omega int_laws)
