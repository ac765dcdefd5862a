-- ===== src/Charts/Overlap/Chart.antt =====
-- `build_overlap_phase_chart` of generate_charts.py: each phase on a lane of its own. Positions are
-- microseconds from the start of the chart's window; colours and texts are left out.
use patroni_routing_bench.Prelude.{
  ℕ, suc, ◌-◌, ◌≤◌, String, ◌≡◌, refl, ap, ◌∙◌, inl, inr, Option, none, some, List, [], ◌∷◌, ◌++◌,
  map, arith, ltb, ◌==◌, nat_eq, bool_eq, option_eq, string_eq, Bool-cases, Option-cases,
  if◌then◌else◌, All, All-left, All-right,
}
use mathlib.Core.Path.{subst}
use patroni_routing_bench.Prelude.Int.{ℤ, pos, ltb_ℤ, sub_ℕ, ◌+ℤ◌}
use patroni_routing_bench.Charts.Gantt.{least, greatest}
use patroni_routing_bench.Charts.Gantt.Lanes.{least-≤, greatest-≤}
use patroni_routing_bench.Charts.Recovery.{some_inj}
use patroni_routing_bench.Charts.Overlap.{Span}

pub record Bar : Type 0 where
  pub name : String
  pub base : ℕ
  pub dur : ℤ
  pub width : ℤ

pub record Chart : Type 0 where
  pub gap : Option (ℕ × ℕ)
  pub bars : List Bar
  pub first_failure : Option ℕ
  pub first_recovery : Option ℕ

abbrev pub maybe : Option ℕ → List ℕ
maybe none = []
maybe (some t) = t ∷ []

abbrev pub times_of : List Span → Option ℕ → Option ℕ → List ℕ
times_of phases failure recovery =
    map (λ p. p.start) phases ++ (map (λ p. p.end) phases ++ (maybe failure ++ maybe recovery))

-- The window of a chart with the phase `p`.
unfoldable pub window : Span → List Span → Option ℕ → Option ℕ → ℕ × ℕ
window p phases failure recovery =
    let all_ts = times_of (p ∷ phases) failure recovery in
    (least p.start all_ts, greatest p.start all_ts)

-- The last phase of a name, as the loop over the phases leaves it.
abbrev pub last_of : (Span → ℕ) → String → List Span → Option ℕ
last_of time name [] = none
last_of time name (p ∷ ps) = elim (last_of time name ps) [
  | some t ↦ some t
  | none ↦ if p.name == name then some (time p) else none
]

-- The grey gap, if the client's recovery starts behind the end of the routing's.
unfoldable pub gap_of : ℕ → Option ℕ → Option ℕ → Option (ℕ × ℕ)
gap_of w_start none client = none
gap_of w_start (some routing) none = none
gap_of w_start (some routing) (some client) =
    if ltb routing client then some (routing - w_start, client - w_start) else none

unfoldable pub bar_of : ℕ → Span → Bar
bar_of w_start p =
    let dur = sub_ℕ p.end p.start in
    record {
      name = p.name;
      base = p.start - w_start;
      dur = dur;
      width = if ltb_ℤ dur (pos 50000) then pos 50000 else dur;
    }

abbrev pub marker : ℕ → Option ℕ → Option ℕ
marker w_start none = none
marker w_start (some t) = some (t - w_start)

-- `none`: no phases, no chart.
unfoldable pub overlap_chart : List Span → Option ℕ → Option ℕ → Option Chart
overlap_chart [] failure recovery = none
overlap_chart (p ∷ ps) failure recovery =
    let w = window p ps failure recovery in
    some (record {
      gap =
          gap_of w.0 (last_of (λ p. p.end) "Routing Detection" (p ∷ ps))
            (last_of (λ p. p.start) "Client Recovery" (p ∷ ps));
      bars = map (bar_of w.0) (p ∷ ps);
      first_failure = marker w.0 failure;
      first_recovery = marker w.0 recovery;
    })

-- A bar begins and ends in a window of this length.
abbrev pub IsInside : ℕ → Bar → Type 0
IsInside length b =
    (b.base ≤ length) × ((end : ℕ) × (pos b.base +ℤ b.dur ≡ pos end) × (end ≤ length))

abbrev pub Within : ℕ × ℕ → ℕ → Type 0
Within w t = (w.0 ≤ t) × (t ≤ w.1)

bar_end :
    (start end w : ℕ) → w ≤ start → w ≤ end → pos (start - w) +ℤ sub_ℕ end start ≡ pos (end - w)
unfolding ◌+ℤ◌
bar_end start end w h k = ground arith

bar_of-IsInside :
    (w : ℕ × ℕ) (p : Span) → Within w p.start → Within w p.end → IsInside (w.1 - w.0) (bar_of w.0 p)
unfolding bar_of
bar_of-IsInside w p (a, b) (c, d) =
    (omega (arith, a, b), (p.end - w.0, bar_end p.start p.end w.0 a c, omega (arith, c, d)))

names :
    (start : ℕ) (ps : List Span) → map (λ b. b.name) (map (bar_of start) ps) ≡ map (λ q. q.name) ps
unfolding bar_of
names start [] = refl
names start (p ∷ ps) = ap (λ l. p.name ∷ l) (names start ps)

bars-IsInside :
    (w : ℕ × ℕ) (ps : List Span)
    → All (Within w) (map (λ p. p.start) ps)
    → All (Within w) (map (λ p. p.end) ps)
    → All (IsInside (w.1 - w.0)) (map (bar_of w.0) ps)
bars-IsInside w [] h k = tt
bars-IsInside w (p ∷ ps) (a, h) (b, k) = (bar_of-IsInside w p a b, bars-IsInside w ps h k)

last_of-Within :
    (w : ℕ × ℕ) (time : Span → ℕ) (name : String) (ps : List Span)
    → All (Within w) (map time ps)
    → (t : ℕ) → last_of time name ps ≡ some t
    → Within w t
last_of-Within w time name [] h t e = absurd (ground arith)
last_of-Within w time name (p ∷ ps) (a, h) t e = elim (Option-cases (last_of time name ps)) [
  | inr (u, q) ↦ last_of-Within w time name ps h t (q ∙ (simp q at e))
  | inl q ↦ elim (Bool-cases (p.name == name)) [
    | inl b ↦ subst (Within w) (some_inj (time p) t (simp (q, b) at e)) a
    | inr b ↦ absurd (ground (arith, simp (q, b) at e))
  ]
]

-- A gap has a length and lies in the window.
abbrev pub IsGap : ℕ → Option (ℕ × ℕ) → Type 0
IsGap length none = Unit
IsGap length (some (from, to)) = (suc from ≤ to) × (to ≤ length)

window-Within :
    (p : Span) (ps : List Span) (failure recovery : Option ℕ)
    → All (Within (window p ps failure recovery)) (times_of (p ∷ ps) failure recovery)
unfolding window
window-Within p ps failure recovery =
    let all_ts = times_of (p ∷ ps) failure recovery in
    zip (least p.start all_ts, greatest p.start all_ts) all_ts (least-≤ p.start all_ts).1
      (greatest-≤ p.start all_ts).1
  where
    zip :
        (w : ℕ × ℕ) (ts : List ℕ)
        → All (λ t. w.0 ≤ t) ts
        → All (λ t. t ≤ w.1) ts
        → All (Within w) ts
    zip w [] h k = tt
    zip w (t ∷ ts) (a, h) (b, k) = ((a, b), zip w ts h k)

gap_of-IsGap :
    (w : ℕ × ℕ) (routing client : Option ℕ)
    → ((t : ℕ) → routing ≡ some t → Within w t)
    → ((t : ℕ) → client ≡ some t → Within w t)
    → IsGap (w.1 - w.0) (gap_of w.0 routing client)
unfolding gap_of
gap_of-IsGap w none client h k = tt
gap_of-IsGap w (some r) none h k = tt
gap_of-IsGap w (some r) (some c) h k =
    let (a, b) = h r refl in
    let (d, e) = k c refl in
    elim (Bool-cases (ltb r c)) [
      | inl p ↦ simp p (ground (arith, p, a), omega (arith, d, e))
      | inr p ↦ simp p tt
    ]

-- A chart of at least one phase shows one bar for each, which begins and ends in the window of the chart,
-- and the gap between the end of the routing's phase and the start of the client's recovery, where it is
-- shown, has a length and lies in the window.
pub overlap_chart-IsInside :
    (p : Span) (ps : List Span) (failure recovery : Option ℕ)
    → let w = window p ps failure recovery in
      (c : Chart) × (overlap_chart (p ∷ ps) failure recovery ≡ some c)
      × All (IsInside (w.1 - w.0)) c.bars
      × (map (λ b. b.name) c.bars ≡ map (λ q. q.name) (p ∷ ps))
      × IsGap (w.1 - w.0) c.gap
unfolding overlap_chart
overlap_chart-IsInside p ps failure recovery =
    let w = window p ps failure recovery in
    let all = window-Within p ps failure recovery in
    let starts = All-left (Within w) (map (λ p. p.start) (p ∷ ps)) _ all in
    let rest = All-right (Within w) (map (λ p. p.start) (p ∷ ps)) _ all in
    let ends = All-left (Within w) (map (λ p. p.end) (p ∷ ps)) _ rest in
    (
      _,
      refl,
      bars-IsInside w (p ∷ ps) starts ends,
      names w.0 (p ∷ ps),
      gap_of-IsGap w _ _ (last_of-Within w (λ p. p.end) "Routing Detection" (p ∷ ps) ends)
          (last_of-Within w (λ p. p.start) "Client Recovery" (p ∷ ps) starts),
    )
