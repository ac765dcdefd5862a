-- ===== src/Heartbeat/Clock.antt =====
-- `datetime.strftime("%Y%m%d_%H%M%S")` of a UTC time, given as microseconds since 1970. The date is
-- found by counting from 1 March of the year 0, in cycles of 400 years.
use patroni_routing_bench.Prelude.{
  ℕ, zero, suc, ◌+◌, ◌-◌, ◌*◌, ◌/◌, ◌%◌, ◌<◌, ◌≡◌, refl, [], ◌∷◌, ◌++◌, arith, ltb, nat_eq, bool_eq,
  option_eq, string_eq, if◌then◌else◌,
}
use patroni_routing_bench.Prelude.Text.{Text, codes}

pub record Civil : Type 0 where
  pub year : ℕ
  pub month : ℕ
  pub day : ℕ

-- Day and month of the `day_of_year`-th day of a year that begins on 1 March.
from_march : ℕ → ℕ → Civil
from_march year day_of_year =
    let shifted = (5 * day_of_year + 2) / 153 in
    let day = day_of_year - (153 * shifted + 2) / 5 + 1 in
    if ltb shifted 10
    then record { year = year; month = shifted + 3; day = day }
    else record { year = year + 1; month = shifted - 9; day = day }

pub civil : ℕ → Civil
unfolding from_march
civil days =
    let z = days + 719468 in
    let day_of_era = z % 146097 in
    let year_of_era =
      (day_of_era - day_of_era / 1460 + day_of_era / 36524 - day_of_era / 146096) / 365 in
    from_march (year_of_era + z / 146097 * 400)
      (day_of_era - (365 * year_of_era + year_of_era / 4 - year_of_era / 100))

-- The last digits of a number, with leading zeros.
pub padded : ℕ → ℕ → Text
padded zero n = []
padded (suc width) n = padded width (n / 10) ++ (b'0' + n % 10) ∷ []

unfoldable pub strftime : ℕ → Text
unfolding civil padded
strftime us =
    let seconds = us / 1000000 in
    let date = civil (seconds / 86400) in
    let clock = seconds % 86400 in
    padded 4 date.year
    ++ (padded 2 date.month
        ++ (padded 2 date.day
            ++ (b'_'
                ∷ (padded 2 (clock / 3600)
                    ++ (padded 2 (clock / 60 % 60) ++ padded 2 (clock % 60))))))

-- 1_745_272_018 s after the epoch is 2025-04-21 21:46:58.
strftime_test : strftime 1745272018123456 ≡ codes "20250421_214658"
unfolding strftime
strftime_test = refl

leap_day : strftime 1709164800000000 ≡ codes "20240229_000000"
unfolding strftime
leap_day = refl

second_of : (s a : ℕ) → a < 1000000 → (s * 1000000 + a) / 1000000 ≡ s
second_of s a p = omega arith

-- The fraction of the second does not show.
pub strftime_second :
    (s a b : ℕ)
    → a < 1000000
    → b < 1000000
    → strftime (s * 1000000 + a) ≡ strftime (s * 1000000 + b)
unfolding strftime
strftime_second s a b p q = cc (second_of s a p, second_of s b q)
