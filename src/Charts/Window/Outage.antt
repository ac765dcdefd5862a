-- ===== src/Charts/Window/Outage.antt =====
-- What the window of a long run leaves of its outage.
use patroni_routing_bench.Prelude.{
  ℕ, ◌+◌, ◌-◌, ◌*◌, ◌≤◌, ◌≡◌, sym, ap, ◌∙◌, Bool, true, false, inl, inr, some, List, [], ◌∷◌,
  select, arith, ltb, nat_eq, bool_eq, option_eq, string_eq, Bool-cases, Option-cases, if_true,
  if_false, All, In, In-select, All_In, select-swap, In-selected, select-All, In-select,
}
use mathlib.Core.Path.{subst}
use patroni_routing_bench.Charts.{ClientEvent, min_ts, is_failure, succeeds_after, recovery_after}
use patroni_routing_bench.Charts.Milestones.{extract_milestones}
use patroni_routing_bench.Charts.Recovery.{min_ts-least}
use patroni_routing_bench.Charts.Window.{
  second, between, Loaded, load_windowed, is_large, cut, find_failover_anchor, load_window,
}

-- The least time is the only one that is attained and not exceeded from below.
min_ts_unique :
    (es : List ClientEvent) (e : ClientEvent) (m : ℕ)
    → In e es
    → e.ts ≡ m
    → All (λ f. m ≤ f.ts) es
    → min_ts es ≡ some m
min_ts_unique [] e m i q h = absurd i
min_ts_unique (x ∷ xs) e m (inr j) q (k, h) =
    let least = min_ts_unique xs e m j q h in
    let keep : ltb x.ts m ≡ false = ground (arith, k) in simp (least, keep)
min_ts_unique (x ∷ xs) e m (inl r) q (k, h) =
    let here : x.ts ≡ m = sym (ap (λ f. f.ts) r) ∙ q in
    elim (Option-cases (min_ts xs)) [
      | inl n ↦ simp n (ap some here)
      | inr (n, s) ↦
          let (all, (f, j, t)) = min_ts-least xs n s in
          let bound : m ≤ n = subst (λ u. m ≤ u) t (All_In (λ g. m ≤ g.ts) xs f h j) in
          elim (Bool-cases (ltb x.ts n)) [
            | inl b ↦ simp (s, b) (ap some here)
            | inr b ↦ simp (s, b) (ap some (ground (arith, here, bound, b)))
          ]
    ]

module _ (start end : ℕ) (cli : List ClientEvent) where
  abbrev inside : ClientEvent → Bool
  inside e = between start end e.ts

  -- The least time that passes a test is the same among the rows of a window in which it lies.
  first_kept :
      (p : ClientEvent → Bool) (t : ℕ)
      → min_ts (select p cli) ≡ some t
      → between start end t ≡ true
      → min_ts (select p (select inside cli)) ≡ some t
  first_kept p t h b =
      let (all, (e, i, r)) = min_ts-least (select p cli) t h in
      ap min_ts (select-swap p inside cli)
      ∙ min_ts_unique (select inside (select p cli)) e t
          (In-selected p inside (select p cli) e i (ap (between start end) r ∙ b)) r
          (select-All inside (λ f. t ≤ f.ts) (select p cli) all)

  first_inside :
      (p : ClientEvent → Bool) (t : ℕ) → min_ts (select p (select inside cli)) ≡ some t → start ≤ t
  first_inside p t h =
      let (all, (e, i, r)) = min_ts-least (select p (select inside cli)) t h in
      let (j, k) = In-select p (select inside cli) e i in
      let (l, m) = In-select inside cli e j in ground (arith, r, m)

  outage_kept :
      (f t : ℕ)
      → min_ts (select is_failure cli) ≡ some f
      → recovery_after (some f) cli ≡ some t
      → start ≤ f
      → t ≤ end
      → (min_ts (select is_failure (select inside cli)) ≡ some f)
        × (recovery_after (some f) (select inside cli) ≡ some t)
  outage_kept f t hf ht low high =
      let (all, (e, i, r)) = min_ts-least (select (succeeds_after f) cli) t ht in
      let (j, k) = In-select (succeeds_after f) cli e i in
      let order : f ≤ t = ground (arith, k, r) in
      (
        first_kept is_failure f hf (ground (arith, low, order, high)),
        first_kept (succeeds_after f) t ht (ground (arith, low, order, high)),
      )

-- The outage that the milestones of the loaded rows show.
abbrev pub Shows : ℕ → ℕ → Loaded → Type 0
Shows f t r =
    let ms = extract_milestones r.obs r.cli in
    (ms.first_client_failure ≡ some f) × (ms.first_recovery ≡ some t)

Shows-of :
    (f t : ℕ) (r : Loaded)
    → min_ts (select is_failure r.cli) ≡ some f
    → recovery_after (some f) r.cli ≡ some t
    → Shows f t r
unfolding extract_milestones
Shows-of f t r hf ht = (hf, ap (λ o. recovery_after o r.cli) hf ∙ ht)

of_Shows :
    (f t : ℕ) (r : Loaded)
    → Shows f t r
    → (min_ts (select is_failure r.cli) ≡ some f) × (recovery_after (some f) r.cli ≡ some t)
unfolding extract_milestones
of_Shows f t r (hf, ht) = (hf, sym (ap (λ o. recovery_after o r.cli) hf) ∙ ht)

windowed_Shows :
    (start end f t : ℕ) (r : Loaded)
    → start ≤ f
    → t ≤ end
    → Shows f t r
    → Shows f t (load_windowed start end r)
windowed_Shows start end f t r low high h =
    let (hf, ht) = of_Shows f t r h in
    let (kf, kt) = outage_kept start end r.cli f t hf ht low high in
    Shows-of f t (load_windowed start end r) kf kt

-- A run whose first failure is not more than 15 s before the failover's anchor, and whose recovery is not
-- more than `tail` seconds behind it, shows the same outage however long the run is.
pub load_window-Shows :
    (tail : ℕ) (r : Loaded) (anchor f t : ℕ)
    → find_failover_anchor r.obs ≡ some anchor
    → anchor ≤ f + 15 * second
    → t ≤ anchor + tail * second
    → Shows f t r
    → Shows f t (load_window tail r)
unfolding load_window
load_window-Shows tail r anchor f t ha low high h = elim (Bool-cases (is_large r.cli)) [
  | inr b ↦ subst (Shows f t) (sym (if_false (is_large r.cli) _ r b)) h
  | inl b ↦ subst (Shows f t) (sym (if_true (is_large r.cli) _ r b ∙ ap (λ o. cut tail o r) ha)) (
      windowed_Shows (anchor - 15 * second) (anchor + tail * second) f t r (omega (arith, low)) high
        h)
]

-- In a long run, the first failure that is shown is never more than 15 s before the anchor: an outage
-- that began earlier, as one that lasts until the leader's key expires can, is shown too short.
pub load_window-late :
    (tail : ℕ) (r : Loaded) (anchor f : ℕ)
    → is_large r.cli ≡ true
    → find_failover_anchor r.obs ≡ some anchor
    → (extract_milestones (load_window tail r).obs (load_window tail r).cli).first_client_failure
      ≡ some f
    → anchor ≤ f + 15 * second
unfolding load_window extract_milestones
load_window-late tail r anchor f large ha h =
    let whole : load_window tail r
        ≡ load_windowed (anchor - 15 * second) (anchor + tail * second) r =
      if_true (is_large r.cli) _ r large ∙ ap (λ o. cut tail o r) ha in
    let first = sym (ap (λ l. min_ts (select is_failure l.cli)) whole) ∙ h in
    omega
      (arith, first_inside (anchor - 15 * second) (anchor + tail * second) r.cli is_failure f first)
