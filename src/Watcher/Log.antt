-- ===== src/Watcher/Log.antt =====
-- Event logs against the value that they report. A view reads in an event the value that a component
-- has taken; a log is true to the component if its events lead from the first value to the last.
use patroni_routing_bench.Prelude.{
  String, ◌≡◌, ◌≢◌, refl, ◌⊎◌, inl, inr, Option, none, some, List, [], ◌∷◌, ◌++◌, nat_eq, bool_eq,
  option_eq, string_eq, Option-cases,
}
use patroni_routing_bench.Emitter.{Emission}
use patroni_routing_bench.Watcher.{Polled}
use patroni_routing_bench.Watcher.Loop.{polls}

-- `none`: the event says nothing of the value. `some v`: the value is now `v`.
abbrev pub View : Type 0
View = Emission → Option (Option String)

-- An event shows the value before it as it is, unless that is unknown or the empty string.
abbrev pub Shows : Option String → String → Type 0
Shows none old = Unit
Shows (some s) old = (s ≡ "") ⊎ (old ≡ s)

-- Each event that the view reads is a change of the value, shows the value that it replaces, and the
-- last of them leaves the value at `v'`.
abbrev pub Log : View → Option String → List Emission → Option String → Type 0
Log view v [] v' = v ≡ v'
Log view v (e ∷ es) v' = elim (view e) [
  | none ↦ Log view v es v'
  | some u ↦ Shows v e.old_value × (u ≢ v) × Log view u es v'
]

module _ (view : View) where
  Log-change :
      (v u x : Option String) (e : Emission) (es : List Emission)
      → view e ≡ some x
      → Log view v (e ∷ es) u
      → Shows v e.old_value × (x ≢ v) × Log view x es u
  Log-change v u x e es p h = rw (p, Log) at h

  pub Log-append :
      (v u w : Option String) (es fs : List Emission)
      → Log view v es u
      → Log view u fs w
      → Log view v (es ++ fs) w
  Log-append v u w [] fs h k = rw h k
  Log-append v u w (e ∷ es) fs h k = elim (Option-cases (view e)) [
    | inl p ↦ rw p (Log-append v u w es fs (rw (p, Log) at h) k)
    | inr (x, p) ↦
        let (old, new, rest) = Log-change v u x e es p h in
        rw p (old, new, Log-append (x) u w es fs rest k)
  ]

module _ {S I : Type 0} (view : View) (value : S → Option String) (Known : S → Type 0) where
  -- Polls that are true to a value one by one are so together.
  pub Log-polls :
      (poll : I → S → Polled S)
      → ((i : I) (s : S)
          → Known s
          → Known (poll i s).state
            × Log view (value s) (poll i s).emissions (value (poll i s).state))
      → (answers : List I) (s : S) → Known s
      → Log view (value s) (polls poll answers s).1 (value (polls poll answers s).0)
  Log-polls poll true_poll [] s k = refl
  Log-polls poll true_poll (i ∷ answers) s k =
      let (k', h) = true_poll i s k in
      Log-append view (value s) (value (poll i s).state) _ (poll i s).emissions _ h
        (Log-polls poll true_poll answers (poll i s).state k')
