-- ===== src/Watcher/Loop.antt =====
-- What the watchers' loop runs and collects, for any poll.
use patroni_routing_bench.Prelude.{
  ◌≡◌, refl, sym, ap, ◌∙◌, Bool, true, false, inl, inr, Bool-cases, List, [], ◌∷◌, ◌++◌,
  append_assoc, append-nil, nat_eq, bool_eq, option_eq, string_eq, if◌then◌else◌, if_true, if_false,
}
use patroni_routing_bench.Emitter.{Emission}
use patroni_routing_bench.Watcher.{Polled, Ended, round, loop}

module _ {I : Type 0} where
  -- The rounds up to the first in which `stop` is called.
  abbrev pub served : List (I × Bool) → List I
  served [] = []
  served ((answer, stopped) ∷ rounds) =
      answer ∷ (let rest = served rounds in if stopped then [] else rest)

module _ {S I : Type 0} where
  -- The polls one after another.
  abbrev pub polls : (I → S → Polled S) → List I → S → S × List Emission
  polls poll [] s = (s, [])
  polls poll (answer ∷ answers) s =
      let p = poll answer s in
      let (s', later) = polls poll answers p.state in (s', p.emissions ++ later)

  loop_stopped :
      (poll : I → S → Polled S) (rounds : List (I × Bool)) (e : Ended S)
      → e.base.running ≡ false
      → loop poll rounds e ≡ e
  unfolding loop
  loop_stopped poll [] e h = refl
  loop_stopped poll (r ∷ rounds) e h = if_false e.base.running _ e h

  loop-nil : (poll : I → S → Polled S) (e : Ended S) → loop poll [] e ≡ e
  unfolding loop
  loop-nil poll e = refl

  loop-cons :
      (poll : I → S → Polled S) (r : I × Bool) (rounds : List (I × Bool)) (e : Ended S)
      → e.base.running ≡ true
      → loop poll (r ∷ rounds) e ≡ loop poll rounds (round poll r e)
  unfolding loop
  loop-cons poll r rounds e h = if_true e.base.running _ e h

  -- The loop makes one poll for each round up to the first `stop`, whether or not a poll raises, and
  -- collects what they emit in order.
  pub loop-polls :
      (poll : I → S → Polled S) (rounds : List (I × Bool)) (e : Ended S)
      → e.base.running ≡ true
      → ((loop poll rounds e).base.inner ≡ (polls poll (served rounds) e.base.inner).0)
        × ((loop poll rounds e).emissions
            ≡ e.emissions ++ (polls poll (served rounds) e.base.inner).1)
        × ((loop poll rounds e).crashed ≡ e.crashed)
  unfolding round
  loop-polls poll [] e h = rw (loop-nil poll e) (refl, sym (append-nil e.emissions), refl)
  loop-polls poll ((answer, true) ∷ rounds) e h =
      let next = round poll (answer, true) e in
      rw (loop-cons poll (answer, true) rounds e h) (
        rw (loop_stopped poll rounds next refl)
          (refl, ap (λ l. e.emissions ++ l) (sym (append-nil _)), refl))
  loop-polls poll ((answer, false) ∷ rounds) e h =
      let (inner, out, crashed) = loop-polls poll rounds (round poll (answer, false) e) h in
      rw (loop-cons poll (answer, false) rounds e h)
        (inner, out ∙ append_assoc e.emissions _ _, crashed)

  -- The loop with these rounds ends as the one with those, and does not go on running.
  abbrev EndsAs : (I → S → Polled S) → List (I × Bool) → List (I × Bool) → Ended S → Type 0
  EndsAs poll rounds rounds' e =
      (loop poll rounds e ≡ loop poll rounds' e) × ((loop poll rounds e).base.running ≡ false)

  EndsAs-stopped :
      (poll : I → S → Polled S) (rounds rounds' : List (I × Bool)) (e : Ended S)
      → e.base.running ≡ false
      → EndsAs poll rounds rounds' e
  EndsAs-stopped poll rounds rounds' e h =
      let left = loop_stopped poll rounds e h in
      (left ∙ sym (loop_stopped poll rounds' e h), ap (λ x. x.base.running) left ∙ h)

  EndsAs-cons :
      (poll : I → S → Polled S) (r : I × Bool) (rounds rounds' : List (I × Bool)) (e : Ended S)
      → e.base.running ≡ true
      → EndsAs poll rounds rounds' (round poll r e)
      → EndsAs poll (r ∷ rounds) (r ∷ rounds') e
  EndsAs-cons poll r rounds rounds' e h (same, halted) =
      let left = loop-cons poll r rounds e h in
      (left ∙ same ∙ sym (loop-cons poll r rounds' e h), ap (λ x. x.base.running) left ∙ halted)

  running-round :
      (poll : I → S → Polled S) (answer : I) (e : Ended S)
      → (round poll (answer, true) e).base.running ≡ false
  unfolding round
  running-round poll answer e = refl

  -- The loop ends: once `stop` is called during a round, no later round is run, whatever answers it
  -- would get, and the watcher is not running any more.
  pub loop-stop :
      (poll : I → S → Polled S) (before : List (I × Bool)) (answer : I) (later : List (I × Bool))
      (e : Ended S)
      → (loop poll (before ++ (answer, true) ∷ later) e
          ≡ loop poll (before ++ (answer, true) ∷ []) e)
        × ((loop poll (before ++ (answer, true) ∷ later) e).base.running ≡ false)
  loop-stop poll [] answer later e = elim (Bool-cases e.base.running) [
    | inr h ↦ EndsAs-stopped poll _ _ e h
    | inl h ↦
        EndsAs-cons poll (answer, true) later [] e h
          (EndsAs-stopped poll later [] _ (running-round poll answer e))
  ]
  loop-stop poll (r ∷ before) answer later e = elim (Bool-cases e.base.running) [
    | inr h ↦ EndsAs-stopped poll _ _ e h
    | inl h ↦
        EndsAs-cons poll r (before ++ (answer, true) ∷ later) (before ++ (answer, true) ∷ []) e h
          (loop-stop poll before answer later (round poll r e))
  ]
