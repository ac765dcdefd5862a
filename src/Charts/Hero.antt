-- ===== src/Charts/Hero.antt =====
-- `_render_hero_chart` of generate_charts.py: the time of the server and the delay of the client, that
-- make up a combination's median downtime. The medians are whole microseconds.
use patroni_routing_bench.Prelude.{
  ◌≡◌, refl, sym, ap, true, false, ◌⊎◌, inl, inr, Option, none, some, List, [], ◌∷◌, arith, nat_eq,
  bool_eq, option_eq, string_eq, Bool-cases, if◌then◌else◌, if_true, if_false, All, In,
}
use mathlib.Core.Path.{subst}
use patroni_routing_bench.Prelude.Int.{ℤ, pos, ltb_ℤ, ◌+ℤ◌, ◌-ℤ◌, ◌≤ℤ◌, int_laws}

-- The answer of `_compute_waterfall`.
pub record Medians : Type 0 where
  pub t0 : Option ℤ
  pub t1 : Option ℤ
  pub t2 : Option ℤ
  pub t3 : Option ℤ
  pub tc : Option ℤ

pub record Point : Type 0 where
  pub server_done : ℤ
  pub client_delay : ℤ
  pub tc : ℤ

abbrev pub present : List (Option ℤ) → List ℤ
present [] = []
present (none ∷ ts) = present ts
present (some t ∷ ts) = t ∷ present ts

-- `max(values)` of a list that begins with `t`.
unfoldable pub max_from : ℤ → List ℤ → ℤ
max_from t [] = t
max_from t (u ∷ us) = let rest = max_from u us in if ltb_ℤ t rest then rest else t

abbrev pub max_or_zero : List ℤ → ℤ
max_or_zero [] = pos 0
max_or_zero (t ∷ ts) = max_from t ts

unfoldable pub divide : ℤ → ℤ → Point
divide server_done tc =
    let client_delay = tc -ℤ server_done in
    if ltb_ℤ client_delay (pos 0)
    then record { server_done = tc; client_delay = pos 0; tc = tc }
    else record { server_done = server_done; client_delay = client_delay; tc = tc }

abbrev pub server_vals : Medians → List ℤ
server_vals m = present (m.t0 ∷ m.t1 ∷ m.t2 ∷ m.t3 ∷ [])

abbrev pub point_at : List ℤ → Option ℤ → Option Point
point_at ts none = none
point_at ts (some tc) = some (divide (max_or_zero ts) tc)

-- The point of one combination: none where it is skipped.
unfoldable pub hero_point : Option Medians → Option Point
hero_point none = none
hero_point (some m) = point_at (server_vals m) m.tc

pub ≤ℤ-trans : (a b c : ℤ) → a ≤ℤ b → b ≤ℤ c → a ≤ℤ c
≤ℤ-trans a b c p q = omega (arith, p, q)

pub ltb-≤ℤ : (a b : ℤ) → ltb_ℤ a b ≡ true → a ≤ℤ b
ltb-≤ℤ a b h = ground arith

pub ≤ℤ-ltb : (a b : ℤ) → ltb_ℤ a b ≡ false → b ≤ℤ a
≤ℤ-ltb a b h = ground arith

All-≤ℤ : (a b : ℤ) (ts : List ℤ) → a ≤ℤ b → All (λ u. u ≤ℤ a) ts → All (λ u. u ≤ℤ b) ts
All-≤ℤ a b [] h k = tt
All-≤ℤ a b (t ∷ ts) h (p, k) = (≤ℤ-trans t a b p h, All-≤ℤ a b ts h k)

-- The maximum is an upper bound.
max_from-All : (t : ℤ) (ts : List ℤ) → All (λ u. u ≤ℤ max_from t ts) (t ∷ ts)
unfolding max_from
max_from-All t [] = (omega arith, tt)
max_from-All t (u ∷ us) =
    let rest = max_from u us in
    let bounds = max_from-All u us in
    let Bound : ℤ → Type 0 = λ v. All (λ x. x ≤ℤ v) (t ∷ (u ∷ us)) in
    elim (Bool-cases (ltb_ℤ t rest)) [
      | inl e ↦ subst Bound (sym (if_true (ltb_ℤ t rest) rest t e)) (ltb-≤ℤ t rest e, bounds)
      | inr e ↦
          subst Bound (sym (if_false (ltb_ℤ t rest) rest t e))
            (omega arith, All-≤ℤ rest t (u ∷ us) (≤ℤ-ltb t rest e) bounds)
    ]

max_or_zero-All : (ts : List ℤ) → All (λ u. u ≤ℤ max_or_zero ts) ts
max_or_zero-All [] = tt
max_or_zero-All (t ∷ ts) = max_from-All t ts

-- How a downtime is divided: the parts add up to it, the client's is not negative, and the server's is
-- the time given, or the whole downtime where the time given is not less.
abbrev pub IsDivided : ℤ → ℤ → Point → Type 0
IsDivided server tc p =
    (p.server_done +ℤ p.client_delay ≡ tc)
    × (pos 0 ≤ℤ p.client_delay)
    × ((p.server_done ≡ server) ⊎ ((p.server_done ≡ tc) × (tc ≤ℤ server)))

divide-IsDivided : (s tc : ℤ) → IsDivided s tc (divide s tc)
unfolding divide
divide-IsDivided s tc =
    let delay = tc -ℤ s in
    let early : Point = record { server_done = tc; client_delay = pos 0; tc = tc } in
    let late : Point = record { server_done = s; client_delay = delay; tc = tc } in
    elim (Bool-cases (ltb_ℤ delay (pos 0))) [
      | inl e ↦
          let d = ltb-≤ℤ delay (pos 0) e in
          subst (IsDivided s tc) (sym (if_true (ltb_ℤ delay (pos 0)) early late e))
            (omega int_laws, omega arith, inr (refl, omega (int_laws, d)))
      | inr e ↦
          let d = ≤ℤ-ltb delay (pos 0) e in
          subst (IsDivided s tc) (sym (if_false (ltb_ℤ delay (pos 0)) early late e))
            (omega int_laws, d, inl refl)
    ]

-- A median that is there is not above the time.
abbrev pub IsAtMost : ℤ → Option ℤ → Type 0
IsAtMost s none = Unit
IsAtMost s (some t) = t ≤ℤ s

-- The latest of the times that are there, or 0 if none is.
abbrev pub IsLatest : ℤ → List (Option ℤ) → Type 0
IsLatest s os = All (IsAtMost s) os × (In (some s) os ⊎ (All (λ o. o ≡ none) os × (s ≡ pos 0)))

present-All : (s : ℤ) (os : List (Option ℤ)) → All (λ u. u ≤ℤ s) (present os) → All (IsAtMost s) os
present-All s [] h = tt
present-All s (none ∷ os) h = (tt, present-All s os h)
present-All s (some t ∷ os) (p, h) = (p, present-All s os h)

present-In : (s : ℤ) (os : List (Option ℤ)) → In s (present os) → In (some s) os
present-In s [] i = absurd i
present-In s (none ∷ os) i = inr (present-In s os i)
present-In s (some t ∷ os) (inl e) = inl (ap some e)
present-In s (some t ∷ os) (inr i) = inr (present-In s os i)

max_from-In : (t : ℤ) (ts : List ℤ) → In (max_from t ts) (t ∷ ts)
unfolding max_from
max_from-In t [] = inl refl
max_from-In t (u ∷ us) =
    let rest = max_from u us in
    let Among : ℤ → Type 0 = λ v. In v (t ∷ (u ∷ us)) in
    elim (Bool-cases (ltb_ℤ t rest)) [
      | inl e ↦ subst Among (sym (if_true (ltb_ℤ t rest) rest t e)) (inr (max_from-In u us))
      | inr e ↦ subst Among (sym (if_false (ltb_ℤ t rest) rest t e)) (inl refl)
    ]

latest_found :
    (os : List (Option ℤ))
    → In (some (max_or_zero (present os))) os
      ⊎ (All (λ o. o ≡ none) os × (max_or_zero (present os) ≡ pos 0))
latest_found [] = inr (tt, refl)
latest_found (some t ∷ os) =
    inl (present-In (max_from t (present os)) (some t ∷ os) (max_from-In t (present os)))
latest_found (none ∷ os) = elim (latest_found os) [
  | inl i ↦ inl (inr i)
  | inr (h, z) ↦ inr ((refl, h), z)
]

-- A combination with a median downtime has a point, whose two parts add up to that downtime. The client's
-- part is not negative. The server's part is the latest of the medians of T0, T1, T2 and T3, or 0 if
-- there is none of them; where the downtime is not more than that, it is the whole downtime.
pub hero_split :
    (m : Medians) (tc : ℤ)
    → m.tc ≡ some tc
    → (p : Point) × (server : ℤ) × (hero_point (some m) ≡ some p)
      × IsLatest server (m.t0 ∷ m.t1 ∷ m.t2 ∷ m.t3 ∷ [])
      × IsDivided server tc p
unfolding hero_point
hero_split m tc h =
    let os = m.t0 ∷ m.t1 ∷ m.t2 ∷ m.t3 ∷ [] in
    let server = max_or_zero (present os) in
    (
      divide server tc,
      server,
      ap (point_at (server_vals m)) h,
      (present-All server os (max_or_zero-All (present os)), latest_found os),
      divide-IsDivided server tc,
    )
