-- ===== src/Charts/Labels/Errors.antt =====
-- `_categorize_error` of generate_charts.py.
use patroni_routing_bench.Prelude.{
  ◌≡◌, refl, ap, true, inl, inr, [], ◌∷◌, arith, nat_eq, bool_eq, option_eq, string_eq, Bool-cases,
  if◌then◌else◌,
}
use patroni_routing_bench.Prelude.Text.{
  Text, codes, contains, starts_with, upper, lower, lower-upper,
}
use patroni_routing_bench.Charts.Labels.{kind, categorize_error}

-- The kind of an error does not depend on the case of its ASCII letters.
pub categorize_error-upper :
    (error_text : Text) → categorize_error (upper error_text) ≡ categorize_error error_text
unfolding categorize_error upper
categorize_error-upper [] = refl
categorize_error-upper (c ∷ error_text) = ap kind (lower-upper (c ∷ error_text))

no_timeout : contains (lower []) (codes "timeout") ≡ true → ⊥
unfolding contains lower starts_with
no_timeout h = ground arith

kind-timeout :
    (e : Text)
    → contains e (codes "timeout") ≡ true
    → kind e ≡ (if contains e (codes "connect") then "Connect timeout" else "Timeout")
unfolding kind
kind-timeout e h = elim (Bool-cases (contains e (codes "connect"))) [
  | inl p ↦ simp (h, p)
  | inr p ↦ simp (h, p)
]

-- A text that mentions a timeout, in any case, is one of the two timeouts, "Connect timeout" exactly if
-- it also mentions "connect", whatever else stands in it.
pub timeout_first :
    (error_text : Text)
    → contains (lower error_text) (codes "timeout") ≡ true
    → categorize_error error_text
      ≡ (if contains (lower error_text) (codes "connect") then "Connect timeout" else "Timeout")
unfolding categorize_error
timeout_first [] h = absurd (no_timeout h)
timeout_first (c ∷ error_text) h = kind-timeout (lower (c ∷ error_text)) h
