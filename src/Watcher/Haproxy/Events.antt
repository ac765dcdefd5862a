-- ===== src/Watcher/Haproxy/Events.antt =====
-- The states that a page of HAProxy leaves, and the changes that it reports.
use patroni_routing_bench.Prelude.{
  String, ◌≡◌, ◌≢◌, refl, sym, ap, ◌∙◌, Bool, true, false, ◌&&◌, ◌||◌, ◌↔◌, inl, inr, Option, none,
  some, List, [], ◌∷◌, arith, ◌!=◌, nat_eq, bool_eq, option_eq, string_eq, eq_of_beq, beq_refl,
  ne_of_bne, Bool-cases, is_some, if◌then◌else◌, All, In, In_right, In-append,
}
use mathlib.Core.Path.{subst}
use patroni_routing_bench.Prelude.Text.{Text}
use patroni_routing_bench.Emitter.{Json, null, text, num, bool, Detail, plain, dumps, Emission}
use patroni_routing_bench.Watcher.Haproxy.{
  Row, Key, States, HaproxyWatcher, page, cell, same_key, lookup, store, is_server, key_of, change,
  report, scan, strip_mark, poll_stats, poll,
}

same_key_sound : (k l : Key) → same_key k l ≡ true → k ≡ l
same_key_sound (a, b) (a', b') h =
    let p : a ≡ a' = eq_of_beq a a' (ground arith) in
    let q : b ≡ b' = eq_of_beq b b' (ground arith) in ap (λ x. (x, b)) p ∙ ap (λ x. (a', x)) q

same_key_refl : (k : Key) → same_key k k ≡ true
same_key_refl (a, b) = rw (beq_refl a, beq_refl b) refl

abbrev pub after : Bool → Option String → Option String → Option String
after b new old = if b then new else old

lookup-store :
    (key key' : Key) (status : String) (states : States)
    → lookup key (store key' status states)
      ≡ after (same_key key' key) (some status) (lookup key states)
unfolding lookup store
lookup-store key key' status [] = refl
lookup-store key key' status ((k, v) ∷ states) = elim (Bool-cases (same_key k key')) [
  | inl e ↦
      let p : k ≡ key' = same_key_sound k key' e in
      elim (Bool-cases (same_key key' key)) [
        | inl f ↦ simp (e, f, ap (λ x. same_key x key) p)
        | inr f ↦ simp (e, f, ap (λ x. same_key x key) p)
      ]
  | inr e ↦ elim (Bool-cases (same_key k key)) [
    | inr f ↦ simp (e, f, lookup-store key key' status states)
    | inl f ↦ elim (Bool-cases (same_key key' key)) [
      | inr g ↦ simp (e, f, g)
      | inl g ↦
          let p : k ≡ key' = same_key_sound k key f ∙ sym (same_key_sound key' key g) in
          let r : same_key k key' ≡ true = ap (λ x. same_key x key') p ∙ same_key_refl key' in
          absurd (ground arith)
    ]
  ]
]

-- The status in the last row of a server on a page, if it has one.
abbrev pub latest : Key → List Row → Option String → Option String
latest key [] before = before
latest key (row ∷ rows) before =
    latest key rows
      (after (is_server row && same_key (key_of row) key) (some (cell "status" row)) before)

lookup-scan :
    (key : Key) (b : Bool) (old : States) (rows : List Row) (current : States)
    → lookup key (scan b old rows current).0 ≡ latest key rows (lookup key current)
unfolding scan
lookup-scan key b old [] current = refl
lookup-scan key b old (row ∷ rows) current = elim (Bool-cases (is_server row)) [
  | inr e ↦ simp (e, lookup-scan key b old rows current)
  | inl e ↦ simp (
    e,
    lookup-scan key b old rows (store (key_of row) (cell "status" row) current),
    lookup-store key (key_of row) (cell "status" row) current,
  )
]

differs : (u v : Option String) → u ≢ v → (u != v) ≡ true
differs u v h = elim (Bool-cases (u != v)) [
  | inl e ↦ e
  | inr e ↦ absurd (h (eq_of_beq u v (ground arith)))
]

unknown : (v : Option String) → v ≡ none → (is_some v || false) ≡ true → ⊥
unknown none p k = ground arith
unknown (some v) p k = ground arith

-- A row that gives an event: of a server, with another status than the server had before, and either
-- the server had one or the poll is the first.
abbrev pub IsChange : Bool → States → Row → Type 0
IsChange b old row =
    (is_server row ≡ true)
    × (some (cell "status" row) ≢ lookup (key_of row) old)
    × ((is_some (lookup (key_of row) old) || b) ≡ true)

abbrev pub event_of : States → Row → Emission
event_of old row = change (lookup (key_of row) old) row

module _ (b : Bool) (old : States) where
  changes_reported :
      (rows : List Row) (current : States) (row : Row)
      → In row rows
      → IsChange b old row
      → In (event_of old row) (scan b old rows current).1
  unfolding scan report
  changes_reported [] current row i h = absurd i
  changes_reported (r ∷ rows) current row (inl e) h =
      let c : IsChange b old r = subst (IsChange b old) e h in
      let p : (some (cell "status" r) != lookup (key_of r) old) ≡ true =
        differs (some (cell "status" r)) (lookup (key_of r) old) c.1 in
      simp (e, c.0, p, c.2) (inl refl)
  changes_reported (r ∷ rows) current row (inr i) h = elim (Bool-cases (is_server r)) [
    | inl s ↦ simp s (
        In_right (event_of old row) (report b (lookup (key_of r) old) r) _
          (changes_reported rows _ row i h))
    | inr s ↦ simp s (changes_reported rows current row i h)
  ]

  report_only :
      (row : Row) (e : Emission)
      → is_server row ≡ true
      → In e (report b (lookup (key_of row) old) row)
      → IsChange b old row × (e ≡ event_of old row)
  unfolding report
  report_only row e s i =
      let only : In e (event_of old row ∷ []) → e ≡ event_of old row =
        λ j. elim j [ inl q ↦ q | inr k ↦ absurd k ] in
      let status = some (cell "status" row) in
      let prev = lookup (key_of row) old in
      elim (Bool-cases (status != prev && (is_some prev || b))) [
        | inr p ↦ absurd (simp p at i)
        | inl p ↦ ((s, ne_of_bne status prev (ground arith), ground arith), only (simp p at i))
      ]

  reported_only :
      (rows : List Row) (current : States) (e : Emission)
      → In e (scan b old rows current).1
      → (row : Row) × In row rows × IsChange b old row × (e ≡ event_of old row)
  unfolding scan
  reported_only [] current e i = absurd i
  reported_only (r ∷ rows) current e i = elim (Bool-cases (is_server r)) [
    | inr s ↦ let (row, j, c, q) = reported_only rows current e (simp s at i) in (row, inr j, c, q)
    | inl s ↦ elim (In-append e (report b (lookup (key_of r) old) r) _ (simp s at i)) [
      | inl j ↦ let (c, q) = report_only r e s j in (r, inl refl, c, q)
      | inr j ↦
          let (row, k, c, q) =
            reported_only rows (store (key_of r) (cell "status" r) current) e j in
          (row, inr k, c, q)
    ]
  ]

-- The detail of an event names the backend and the server.
abbrev pub Names : Key → Detail → Type 0
Names key detail =
    (rest : List (String × Json)) × (detail
      ≡ dumps (("backend", text key.0) ∷ ("server", text key.1) ∷ rest))

text_of : Json → String
text_of null = ""
text_of (text s) = s
text_of (num n) = ""
text_of (bool b) = ""

first_two : List (String × Json) → Key
first_two [] = ("", "")
first_two (a ∷ []) = ("", "")
first_two (a ∷ (b ∷ fields)) = (text_of a.1, text_of b.1)

named : Detail → Key
named (plain s) = ("", "")
named (dumps fields) = first_two fields

Names-change :
    (prev_status : Option String) (row : Row) (key : Key)
    → Names key (change prev_status row).detail
    → key_of row ≡ key
unfolding change key_of named first_two text_of
Names-change prev_status row key (rest, e) = ap named e

All-of-In :
    (P : Emission → Type 0) (es : List Emission) → ((e : Emission) → In e es → P e) → All P es
All-of-In P [] f = tt
All-of-In P (e ∷ es) f = (f e (inl refl), All-of-In P es (λ x i. f x (inr i)))

module _ (read_csv : Text → List Row) where
  -- After a page, the watcher holds for each server the status of its last row on that page, and none
  -- for a server that has no row there, whatever it held before.
  pub states_exact :
      (b : Bool) (content : Text) (w : HaproxyWatcher) (key : Key)
      → lookup key (poll_stats read_csv b (page content) w).state.server_states
        ≡ latest key (read_csv (strip_mark content)) none
  unfolding poll_stats lookup
  states_exact b content w key =
      lookup-scan key b w.server_states (read_csv (strip_mark content)) []

  -- A poll reports an event exactly if it is the event of a row of a server, whose status differs from
  -- the one that the server had on the page before, if it had one or the poll is the first.
  pub changes_exact :
      (b : Bool) (content : Text) (w : HaproxyWatcher) (e : Emission)
      → In e (poll_stats read_csv b (page content) w).emissions ↔ (
          (row : Row) × In row (read_csv (strip_mark content))
          × IsChange b w.server_states row
          × (e ≡ event_of w.server_states row))
  unfolding poll_stats
  changes_exact b content w e =
      let rows = read_csv (strip_mark content) in
      (
        reported_only b w.server_states rows [] e,
        λ (row, i, c, q).
            subst (λ x. In x (scan b w.server_states rows []).1) (sym q)
              (changes_reported b w.server_states rows [] row i c),
      )

  silent :
      (before content : Text) (w : HaproxyWatcher) (key : Key) (e : Emission)
      → latest key (read_csv (strip_mark before)) none ≡ none
      → In e (poll read_csv (page content) (poll read_csv (page before) w).state).emissions
      → ¬ Names key e.detail
  unfolding poll key_of
  silent before content w key e h i named =
      let s = (poll_stats read_csv false (page before) w).state in
      let (row, j, (server, changed, known), q) = (changes_exact false content s e).0 i in
      let same : key_of row ≡ key =
        Names-change (lookup (key_of row) s.server_states) row key
          (subst (λ x. Names key x.detail) q named) in
      let gone : lookup key s.server_states ≡ none = states_exact false before w key ∙ h in
      absurd (
        unknown (lookup (key_of row) s.server_states)
          (ap (λ k. lookup k s.server_states) same ∙ gone) known)

  -- A server that is not on one page comes back without an event, whatever its status is then: no event
  -- of the next page names it.
  pub return_silent :
      (before content : Text) (w : HaproxyWatcher) (key : Key)
      → latest key (read_csv (strip_mark before)) none ≡ none
      → All
          (λ e. ¬ Names key e.detail)
          (poll read_csv (page content) (poll read_csv (page before) w).state).emissions
  return_silent before content w key h = All-of-In _ _ (λ e i. silent before content w key e h i)
