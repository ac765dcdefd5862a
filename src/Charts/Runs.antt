-- ===== src/Charts/Runs.antt =====
-- The client's lane of the Gantt chart of generate_charts.py: runs of successes and of failures.
use patroni_routing_bench.Prelude.{
  ℕ, suc, ◌≤◌, ltb, In, ◌≡◌, ◌≢◌, Bool, List, [], ◌∷◌, ◌!=◌, nat_eq, bool_eq, option_eq, string_eq,
  if◌then◌else◌,
}
use patroni_routing_bench.Charts.{ClientEvent}

pub record Run : Type 0 where
  pub start : ℕ
  pub end : ℕ
  pub ok : Bool

-- The loop over the rows, and the last run behind it; `last` is the time of the row before.
unfoldable pub runs_from : Bool → ℕ → ℕ → List ClientEvent → List Run
runs_from cur_ok r_start last [] = record { start = r_start; end = last; ok = cur_ok } ∷ []
runs_from cur_ok r_start last (e ∷ es) =
    let same = runs_from cur_ok r_start e.ts es in
    let changed = runs_from e.success e.ts e.ts es in
    if e.success != cur_ok
    then record { start = r_start; end = e.ts; ok = cur_ok } ∷ changed
    else same

-- `cli_df.sort_values("ts")`, which keeps the order of rows of one time.
unfoldable pub insert : ClientEvent → List ClientEvent → List ClientEvent
insert x [] = x ∷ []
insert x (y ∷ ys) = let rest = insert x ys in if ltb y.ts x.ts then y ∷ rest else x ∷ (y ∷ ys)

unfoldable pub sort : List ClientEvent → List ClientEvent
sort [] = []
sort (x ∷ xs) = insert x (sort xs)

abbrev pub lane : List ClientEvent → List Run
lane [] = []
lane (e ∷ es) = runs_from e.success e.ts e.ts (e ∷ es)

-- An empty frame has no lane.
unfoldable pub runs : List ClientEvent → List Run
runs cli = lane (sort cli)

-- The first run starts at `t`, each other one where the one before it ends and with the other outcome,
-- and the last ends at `u`; none ends before it starts.
abbrev pub Chain : ℕ → List Run → ℕ → Type 0
Chain t [] u = ⊥
Chain t (r ∷ []) u = (r.start ≡ t) × (r.start ≤ r.end) × (r.end ≡ u)
Chain t (r ∷ (s ∷ rs)) u =
    (r.start ≡ t) × (r.start ≤ r.end) × (r.ok ≢ s.ok) × Chain r.end (s ∷ rs) u

-- A run that has the query's outcome goes over its time.
abbrev pub IsShown : ClientEvent → List Run → Type 0
IsShown q rs = (r : Run) × In r rs × (r.ok ≡ q.success) × (r.start ≤ q.ts) × (q.ts ≤ r.end)

-- The rows are in the order of their times, none before `t`.
abbrev pub Ordered : ℕ → List ClientEvent → Type 0
Ordered t [] = Unit
Ordered t (e ∷ es) = (t ≤ e.ts) × Ordered e.ts es

abbrev pub last_time : ℕ → List ClientEvent → ℕ
last_time t [] = t
last_time t (e ∷ es) = last_time e.ts es

-- How many queries changed the outcome against the one before.
pub switches : Bool → List ClientEvent → ℕ
switches ok [] = 0
switches ok (e ∷ es) =
    let rest = switches e.success es in if e.success != ok then suc rest else rest
