-- ===== src/Agent/Main.antt =====
-- The modes of `main`.
use patroni_routing_bench.Prelude.{
  ℕ, String, ◌≡◌, ◌≢◌, refl, ap, ◌∙◌, Bool, true, false, ◌⊎◌, inl, inr, Option, none, some, List,
  [], ◌∷◌, map, arith, ◌==◌, nat_eq, bool_eq, option_eq, string_eq, eq_of_beq,
}
use patroni_routing_bench.Prelude.Text.{Text}
use patroni_routing_bench.Agent.{
  is_empty, parse_targets, Environment, Worker, Outcome, quit, value_error, multi_target,
  single_target, find, watcher_target_kwarg, load_watcher_class, worker, run_multi_target, several,
  start, main,
}

-- One worker for each target, in order, with the target's name as its node.
pub nodes-run_multi_target :
    (env : Environment) (path : String × String) (interval : ℕ) (kwarg : String)
    (ts : List (Text × Text))
    → map (λ w. w.node_name) (run_multi_target env path interval kwarg ts) ≡ map (λ t. t.0) ts
unfolding run_multi_target worker
nodes-run_multi_target env path interval kwarg [] = refl
nodes-run_multi_target env path interval kwarg (t ∷ ts) =
    ap (λ ns. t.0 ∷ ns) (nodes-run_multi_target env path interval kwarg ts)

abbrev pub workers : Outcome → List Worker
workers quit = []
workers value_error = []
workers (multi_target ws) = ws
workers (single_target w) = w ∷ []

-- An environment that starts an agent.
abbrev pub IsComplete : (String × String → Bool) → Environment → String × String → ℕ → Type 0
IsComplete imported env path interval =
    (env.observer_component ≢ "")
    × (env.combination_id ≢ "")
    × (env.poll_interval_ms ≡ some interval)
    × (load_watcher_class imported env.observer_component ≡ some path)

module _ (imported : String × String → Bool) (env : Environment) (path : String × String)
    (interval : ℕ) where
  main-start :
      IsComplete imported env path interval
      → main imported env
        ≡ start env path interval (find env.observer_component watcher_target_kwarg)
  unfolding main
  main-start h =
      let p : (env.observer_component == "") ≡ false =
        ground (arith, h.0, eq_of_beq env.observer_component "") in
      let q : (env.combination_id == "") ≡ false =
        ground (arith, h.1, eq_of_beq env.combination_id "") in
      simp (p, q, h.2, h.3)

  single-start :
      (kwarg : Option String)
      → ((kwarg ≡ none) ⊎ (is_empty env.watcher_targets ≡ true))
      → map (λ w. w.node_name) (workers (start env path interval kwarg)) ≡ env.node_name ∷ []
  unfolding start worker
  single-start none k = refl
  single-start (some kwarg) (inl e) = absurd (ground arith)
  single-start (some kwarg) (inr e) = simp e

  multi-several :
      (kwarg : String) (ts : List (Text × Text))
      → map (λ w. w.node_name) (workers (several env path interval kwarg ts)) ≡ map (λ t. t.0) ts
  multi-several kwarg [] = refl
  multi-several kwarg (t ∷ ts) = nodes-run_multi_target env path interval kwarg (t ∷ ts)

  multi-start :
      (kwarg : String)
      → is_empty env.watcher_targets ≡ false
      → map (λ w. w.node_name) (workers (start env path interval (some kwarg)))
        ≡ map (λ t. t.0) (parse_targets env.watcher_targets)
  unfolding start
  multi-start kwarg e = simp e (multi-several kwarg (parse_targets env.watcher_targets))

  -- With a complete environment, an agent whose component takes no targets, or whose WATCHER_TARGETS is
  -- empty, runs one watcher, on NODE_NAME.
  pub single_mode :
      IsComplete imported env path interval
      → ((find env.observer_component watcher_target_kwarg ≡ none)
          ⊎ (is_empty env.watcher_targets ≡ true))
      → map (λ w. w.node_name) (workers (main imported env)) ≡ env.node_name ∷ []
  single_mode h k =
      ap (λ o. map (λ w. w.node_name) (workers o)) (main-start h)
      ∙ single-start (find env.observer_component watcher_target_kwarg) k

  -- With a complete environment and a WATCHER_TARGETS for a component that takes targets, the watchers
  -- run on the targets that were read, one each and in order; without any, no watcher runs.
  pub multi_mode :
      (kwarg : String)
      → IsComplete imported env path interval
      → find env.observer_component watcher_target_kwarg ≡ some kwarg
      → is_empty env.watcher_targets ≡ false
      → map (λ w. w.node_name) (workers (main imported env))
        ≡ map (λ t. t.0) (parse_targets env.watcher_targets)
  multi_mode kwarg h p q =
      ap (λ o. map (λ w. w.node_name) (workers o))
        (main-start h ∙ ap (λ k. start env path interval k) p)
      ∙ multi-start kwarg q
