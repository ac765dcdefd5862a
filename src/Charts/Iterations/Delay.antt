-- ===== src/Charts/Iterations/Delay.antt =====
-- The delay of the client in the table of the runs against the point of the hero chart.
use patroni_routing_bench.Prelude.{
  String, ◌≢◌, ◌≡◌, refl, sym, ap, ◌∙◌, inl, inr, Option, some, List, [], ◌∷◌, Bool-cases, if_true,
  if_false,
}
use patroni_routing_bench.Prelude.Int.{ℤ, pos, ltb_ℤ, ◌-ℤ◌}
use patroni_routing_bench.Charts.Hero.{
  Medians, Point, max_from, max_or_zero, server_vals, divide, point_at, hero_point,
}
use patroni_routing_bench.Charts.Iterations.{max_of, not_negative, delay_of, CsvRow, table_row}

divide-delay : (done tc : ℤ) → (divide done tc).client_delay ≡ not_negative (tc -ℤ done)
unfolding divide
divide-delay done tc = elim (Bool-cases (ltb_ℤ (tc -ℤ done) (pos 0))) [
  | inl b ↦
      ap (λ p. p.client_delay) (if_true {A = Point} (ltb_ℤ (tc -ℤ done) (pos 0)) _ _ b)
      ∙ sym (if_true (ltb_ℤ (tc -ℤ done) (pos 0)) _ _ b)
  | inr b ↦
      ap (λ p. p.client_delay) (if_false {A = Point} (ltb_ℤ (tc -ℤ done) (pos 0)) _ _ b)
      ∙ sym (if_false (ltb_ℤ (tc -ℤ done) (pos 0)) _ _ b)
]

delay_at :
    (ts : List ℤ) (tc : ℤ)
    → ts ≢ []
    → delay_of (max_of ts) (some tc) ≡ some (divide (max_or_zero ts) tc).client_delay
unfolding delay_of
delay_at [] tc h = absurd (h refl)
delay_at (t ∷ ts) tc h = ap some (sym (divide-delay (max_from t ts) tc))

-- Where a run has a milestone of the server and one of the client, the table's delay of the client is
-- the one that the hero chart makes of the same milestones.
pub delay-hero_point :
    (row : CsvRow) (id : Option String) (m : Medians) (tc : ℤ)
    → server_vals m ≢ []
    → m.tc ≡ some tc
    → (p : Point) × (hero_point (some m) ≡ some p)
      × ((table_row row id m).client_delay ≡ some p.client_delay)
unfolding hero_point table_row
delay-hero_point row id m tc h e = (
  divide (max_or_zero (server_vals m)) tc,
  ap (point_at (server_vals m)) e,
  ap (delay_of (max_of (server_vals m))) e ∙ delay_at (server_vals m) tc h,
)
