-- ===== src/Agent.antt =====
-- tool/observers/core/agent.py: what one agent process starts, by its environment. The values of the
-- environment are handed in as a record, POLL_INTERVAL_MS as `int` reads it; `imported` says whether
-- importing a watcher's class works.
pub mod Targets
pub mod Main
pub mod Session
pub mod Shared
mod Tests
use patroni_routing_bench.Prelude.{
  ℕ, zero, suc, ◌+◌, ◌-◌, ◌*◌, ◌/◌, ◌%◌, ◌≤◌, ◌<◌, String, ◌≡◌, ◌≢◌, refl, sym, ap, ◌∙◌, Bool, true,
  false, not, ◌&&◌, ◌||◌, ◌⊎◌, ◌↔◌, inl, inr, Option, none, some, List, [], ◌∷◌, ◌++◌, map,
  append_assoc, append-nil, length, take, drop, head?, get_last?, select, arith, leb, ltb, ◌==◌,
  ◌!=◌, nat_eq, bool_eq, option_eq, string_eq, eq_of_beq, beq_refl, ne_of_bne, bne_of_eq,
  Bool-cases, Option-cases, is_some, if◌then◌else◌, if_true, if_false, All, All-append, In, In_left,
  In_right, In-append, length-append, take-append-drop,
}
use patroni_routing_bench.Prelude.Text.{Text, codes, contains}

-- `str.isspace` of one code point.
unfoldable pub is_space : ℕ → Bool
is_space c =
    (leb 9 c && leb c 13)
    || (leb 28 c && leb c 32)
    || c == 133
    || c == 160
    || c == 5760
    || (leb 8192 c && leb c 8202)
    || c == 8232
    || c == 8233
    || c == 8239
    || c == 8287
    || c == 12288

unfoldable pub strip_left : Text → Text
strip_left [] = []
strip_left (c ∷ s) = let rest = strip_left s in if is_space c then rest else c ∷ s

abbrev pub is_empty : Text → Bool
is_empty [] = true
is_empty (c ∷ s) = false

unfoldable pub strip_right : Text → Text
strip_right [] = []
strip_right (c ∷ s) =
    let rest = strip_right s in if is_empty rest && is_space c then [] else c ∷ rest

-- `str.strip`
unfoldable pub strip : Text → Text
strip s = strip_right (strip_left s)

abbrev pub add_first : ℕ → List Text → List Text
add_first c [] = (c ∷ []) ∷ []
add_first c (item ∷ items) = (c ∷ item) ∷ items

-- `str.split(",")`
unfoldable pub split : Text → List Text
split [] = [] ∷ []
split (c ∷ s) = let rest = split s in if c == b',' then [] ∷ rest else add_first c rest

abbrev pub before_colon : ℕ → Option (Text × Text) → Option (Text × Text)
before_colon c none = none
before_colon c (some (name, value)) = some (c ∷ name, value)

-- `str.partition(":")`, `none` where there is no colon.
unfoldable pub partition : Text → Option (Text × Text)
partition [] = none
partition (c ∷ s) =
    let rest = before_colon c (partition s) in if c == b':' then some ([], s) else rest

abbrev pub target_of : Option (Text × Text) → List (Text × Text)
target_of none = []
target_of (some (name, value)) = (strip name, strip value) ∷ []

-- One turn of the loop of `_parse_targets`.
unfoldable pub parse_item : Text → List (Text × Text)
parse_item item = let item = strip item in if is_empty item then [] else target_of (partition item)

abbrev pub parse_items : List Text → List (Text × Text)
parse_items [] = []
parse_items (item ∷ items) = parse_item item ++ parse_items items

unfoldable pub parse_targets : Text → List (Text × Text)
parse_targets s = parse_items (split s)

pub record Environment : Type 0 where
  pub observer_component : String
  pub timescale_connstring : String
  pub combination_id : String
  pub test_run_id : String
  pub node_name : Text
  pub poll_interval_ms : Option ℕ
  pub watcher_targets : Text

-- A watcher and its emitter: the arguments that the two constructors get.
pub record Worker : Type 0 where
  pub module_name : String
  pub class_name : String
  pub target : Option (String × Text)
  pub node_name : Text
  pub component : String
  pub timescale_connstring : String
  pub combination_id : String
  pub test_run_id : String
  pub poll_interval_ms : ℕ

-- `quit`: sys.exit(1). `value_error`: the exception of `int`.
pub data Outcome : Type 0 where
  quit : Outcome
  value_error : Outcome
  multi_target : List Worker → Outcome
  single_target : Worker → Outcome

abbrev pub find {ℓ} : {A : Type ℓ} → String → List (String × A) → Option A
find key [] = none
find key ((name, x) ∷ entries) = let rest = find key entries in if name == key then some x else rest

-- The entries' paths, split at the last dot.
abbrev pub watcher_registry : List (String × (String × String))
watcher_registry =
    ("patroni", ("watchers.patroni_watcher", "PatroniWatcher"))
    ∷ ("consul", ("watchers.consul_watcher", "ConsulWatcher"))
    ∷ ("haproxy", ("watchers.haproxy_watcher", "HAProxyWatcher"))
    ∷ ("vip", ("watchers.vip_watcher", "VIPWatcher"))
    ∷ ("postgres", ("watchers.postgres_sql_watcher", "PostgresSQLWatcher"))
    ∷ []

abbrev pub watcher_target_kwarg : List (String × String)
watcher_target_kwarg = ("patroni", "patroni_url") ∷ ("postgres", "pg_connstring") ∷ []

module _ (imported : String × String → Bool) where
  -- `none` where the function exits.
  unfoldable pub load_watcher_class : String → Option (String × String)
  load_watcher_class component = elim (find component watcher_registry) [
    | none ↦ none
    | some path ↦ if imported path then some path else none
  ]

unfoldable pub worker : Environment → String × String → ℕ → Text → Option (String × Text) → Worker
worker env path interval node target = record {
  module_name = path.0;
  class_name = path.1;
  target = target;
  node_name = node;
  component = env.observer_component;
  timescale_connstring = env.timescale_connstring;
  combination_id = env.combination_id;
  test_run_id = env.test_run_id;
  poll_interval_ms = interval;
}

unfoldable pub run_multi_target :
    Environment → String × String → ℕ → String → List (Text × Text) → List Worker
run_multi_target env path interval kwarg [] = []
run_multi_target env path interval kwarg ((node, target) ∷ targets) =
    worker env path interval node (some (kwarg, target))
    ∷ run_multi_target env path interval kwarg targets

abbrev pub several : Environment → String × String → ℕ → String → List (Text × Text) → Outcome
several env path interval kwarg [] = quit
several env path interval kwarg (target ∷ targets) =
    multi_target (run_multi_target env path interval kwarg (target ∷ targets))

-- The part of `main` below the loading of the class.
unfoldable pub start : Environment → String × String → ℕ → Option String → Outcome
start env path interval none = single_target (worker env path interval env.node_name none)
start env path interval (some kwarg) =
    if is_empty env.watcher_targets
    then single_target (worker env path interval env.node_name none)
    else several env path interval kwarg (parse_targets env.watcher_targets)

module _ (imported : String × String → Bool) where
  unfoldable pub main : Environment → Outcome
  main env =
      if env.observer_component == ""
      then quit
      else if env.combination_id == ""
      then quit
      else elim env.poll_interval_ms [
        | none ↦ value_error
        | some interval ↦ elim (load_watcher_class imported env.observer_component) [
          | none ↦ quit
          | some path ↦ start env path interval (find env.observer_component watcher_target_kwarg)
        ]
      ]
