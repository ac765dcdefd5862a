-- ===== src/Watcher.antt =====
-- tool/observers/core/watcher.py: the loop that every watcher runs. A poll takes what the outside
-- answered and the watcher's fields, and returns the new fields, the arguments of its `emit_now`
-- calls in order, and whether an exception left it. `emit_now` itself raises nothing.
pub mod Loop
pub mod Log
pub mod Patroni
pub mod Consul
pub mod Vip
pub mod PostgresSql
pub mod Haproxy
mod Tests
use patroni_routing_bench.Prelude.{
  ℕ, zero, suc, ◌+◌, ◌-◌, ◌*◌, ◌/◌, ◌%◌, ◌≤◌, ◌<◌, String, ◌≡◌, ◌≢◌, refl, sym, ap, ◌∙◌, Bool, true,
  false, not, ◌&&◌, ◌||◌, ◌⊎◌, ◌↔◌, inl, inr, Option, none, some, List, [], ◌∷◌, ◌++◌, map,
  append_assoc, append-nil, length, take, drop, head?, get_last?, select, arith, leb, ltb, ◌==◌,
  ◌!=◌, nat_eq, bool_eq, option_eq, string_eq, eq_of_beq, beq_refl, Bool-cases, Option-cases,
  is_some, if◌then◌else◌, All, All-append, In, In_left, In_right, In-append, length-append,
  take-append-drop,
}
use patroni_routing_bench.Emitter.{Detail, Emission}

pub record Polled {ℓ} (S : Type ℓ) : Type ℓ where
  pub state : S
  pub emissions : List Emission
  pub raised : Bool

abbrev pub emission : String → String → String → Detail → Emission
emission event_type old_value new_value detail = record {
  event_type = event_type;
  new_value = new_value;
  old_value = old_value;
  detail = detail;
}

-- `value or default`: None and the empty string are false.
abbrev pub or_else : Option String → String → String
or_else none default = default
or_else (some s) default = if s == "" then default else s

-- A watcher with `_running`; `S` stands for the fields of the subclass.
pub record Base {ℓ} (S : Type ℓ) : Type ℓ where
  pub running : Bool
  pub inner : S

-- How `run` ended, with all that was emitted: an exception of `setup` is raised again.
pub record Ended {ℓ} (S : Type ℓ) : Type ℓ where
  pub base : Base S
  pub emissions : List Emission
  pub crashed : Bool

module _ {S : Type 0} where
  unfoldable pub stop : Base S → Base S
  stop b = record b { running = false }

module _ {S I : Type 0} where
  -- One round: the answer that the poll gets, and whether `stop` is called during it. An exception
  -- of the poll is logged, and the loop goes on.
  unfoldable pub round : (I → S → Polled S) → I × Bool → Ended S → Ended S
  round poll (answer, stopped) e =
      let p = poll answer e.base.inner in
      record e {
        base = record { running = if stopped then false else e.base.running; inner = p.state };
        emissions = e.emissions ++ p.emissions;
      }

  unfoldable pub loop : (I → S → Polled S) → List (I × Bool) → Ended S → Ended S
  loop poll [] e = e
  loop poll (r ∷ rounds) e =
      let rest = loop poll rounds (round poll r e) in if e.base.running then rest else e

  -- `stopped` says whether `stop` is called while `setup` runs.
  unfoldable pub run :
      (I → S → Polled S) → (I → S → Polled S) → I → Bool → List (I × Bool) → Base S → Ended S
  run setup poll answer stopped rounds b =
      let p = setup answer b.inner in
      let e : Ended S = record {
        base = record { running = not stopped; inner = p.state };
        emissions = p.emissions;
        crashed = p.raised;
      } in
      let ended = loop poll rounds e in if p.raised then e else ended
