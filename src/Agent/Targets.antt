-- ===== src/Agent/Targets.antt =====
-- `_parse_targets`: what it reads of a list of targets, and how it skips the rest.
use patroni_routing_bench.Prelude.{
  ℕ, ◌≤◌, ◌≡◌, refl, ap, ◌∙◌, false, inl, inr, some, List, [], ◌∷◌, ◌++◌, append_assoc, length,
  arith, ◌==◌, nat_eq, bool_eq, option_eq, string_eq, Bool-cases, All, All-append,
}
use patroni_routing_bench.Prelude.Text.{Text}
use patroni_routing_bench.Agent.{
  is_space, strip_left, is_empty, strip_right, strip, add_first, split, partition, parse_item,
  parse_items, parse_targets,
}

add_first-twice :
    (d c : ℕ) (items rest : List Text)
    → add_first c (add_first d items ++ rest) ≡ add_first c (add_first d items) ++ rest
add_first-twice d c [] rest = refl
add_first-twice d c (item ∷ items) rest = refl

add_first-append :
    (c : ℕ) (s : Text) (rest : List Text)
    → add_first c (split s ++ rest) ≡ add_first c (split s) ++ rest
unfolding split
add_first-append c [] rest = refl
add_first-append c (d ∷ s) rest = elim (Bool-cases (d == b',')) [
  | inl e ↦ simp e
  | inr e ↦ simp e (add_first-twice d c (split s) rest)
]

split-append : (s t : Text) → split (s ++ (b',' ∷ t)) ≡ split s ++ split t
unfolding split
split-append [] t = refl
split-append (c ∷ s) t = elim (Bool-cases (c == b',')) [
  | inl e ↦ simp (e, split-append s t)
  | inr e ↦ simp (e, split-append s t, add_first-append c s (split t))
]

parse_items-append : (a b : List Text) → parse_items (a ++ b) ≡ parse_items a ++ parse_items b
parse_items-append [] b = refl
parse_items-append (item ∷ a) b =
    simp (parse_items-append a b, append_assoc (parse_item item) (parse_items a) (parse_items b))

-- The entries around a comma are read independently of each other: one that is malformed or empty is
-- skipped and changes nothing of the others.
pub parse_targets-append :
    (s t : Text) → parse_targets (s ++ (b',' ∷ t)) ≡ parse_targets s ++ parse_targets t
unfolding parse_targets
parse_targets-append s t = simp (split-append s t, parse_items-append (split s) (split t))

abbrev pub Lacks : ℕ → Text → Type 0
Lacks d = All (λ c. (c == d) ≡ false)

abbrev pub IsTrimmed : Text → Type 0
IsTrimmed s = (strip_left s ≡ s) × (strip_right s ≡ s)

-- What can be written as an entry: a name without `:` and `,`, and a value without `,`, neither with
-- a space at an end.
abbrev pub IsTarget : Text × Text → Type 0
IsTarget (name, value) =
    (IsTrimmed name × Lacks b':' name × Lacks b',' name) × (IsTrimmed value × Lacks b',' value)

unfoldable pub item : Text × Text → Text
item (name, value) = name ++ (b':' ∷ value)

unfoldable pub print_targets : List (Text × Text) → Text
print_targets [] = []
print_targets (t ∷ ts) = item t ++ (b',' ∷ print_targets ts)

split-item : (s : Text) → Lacks b',' s → split s ≡ s ∷ []
unfolding split
split-item [] h = refl
split-item (c ∷ s) (e, h) = simp (e, split-item s h)

partition-item :
    (name value : Text) → Lacks b':' name → partition (name ++ (b':' ∷ value)) ≡ some (name, value)
unfolding partition
partition-item [] value h = refl
partition-item (c ∷ name) value (e, h) = simp (e, partition-item name value h)

strip_left-length : (s : Text) → length (strip_left s) ≤ length s
unfolding strip_left
strip_left-length [] = omega arith
strip_left-length (c ∷ s) = ground (arith, strip_left-length s)

strip_left-item :
    (name value : Text)
    → strip_left name ≡ name
    → strip_left (name ++ (b':' ∷ value)) ≡ name ++ (b':' ∷ value)
unfolding strip_left is_space
strip_left-item [] value h = refl
strip_left-item (c ∷ name) value h = elim (Bool-cases (is_space c)) [
  | inr e ↦ simp e
  | inl e ↦
      let short = strip_left-length name in
      let long = ap (λ s. length s) (simp e at h) in absurd (omega (arith, short, long))
]

not_empty : (s t : Text) (c : ℕ) → is_empty (s ++ (c ∷ t)) ≡ false
not_empty [] t c = refl
not_empty (d ∷ s) t c = refl

strip_right-item :
    (name value : Text)
    → strip_right value ≡ value
    → strip_right (name ++ (b':' ∷ value)) ≡ name ++ (b':' ∷ value)
unfolding strip_right is_space
strip_right-item [] [] h = refl
strip_right-item [] (c ∷ value) h = simp h
strip_right-item (c ∷ name) value h =
    simp (strip_right-item name value h, not_empty name value b':')

parse_item-item : (t : Text × Text) → IsTarget t → parse_item (item t) ≡ t ∷ []
unfolding parse_item item strip
parse_item-item (name, value) ((trimmed, no_colon, no_comma), (trimmed', no_comma')) = simp (
  strip_left-item name value trimmed.0,
  strip_right-item name value trimmed'.1,
  not_empty name value b':',
  partition-item name value no_colon,
  trimmed.0,
  trimmed.1,
  trimmed'.0,
  trimmed'.1,
)

parse_targets-item : (t : Text × Text) → IsTarget t → parse_targets (item t) ≡ t ∷ []
unfolding parse_targets item
parse_targets-item (name, value) h =
    let lacks : Lacks b',' (name ++ (b':' ∷ value)) =
      All-append (λ c. (c == b',') ≡ false) name (b':' ∷ value) h.0.2 (refl, h.1.1) in
    simp (split-item (name ++ (b':' ∷ value)) lacks) (simp (parse_item-item (name, value) h))

nothing_read : parse_targets [] ≡ []
unfolding parse_targets split parse_item strip strip_left strip_right
nothing_read = refl

-- Targets written one after the other, each as `name:value` with a comma behind it, are read back as
-- they were, if the names have no colon and no comma, the values no comma, and neither a space at an
-- end; a value may have colons.
pub parse_targets-print_targets :
    (ts : List (Text × Text)) → All IsTarget ts → parse_targets (print_targets ts) ≡ ts
unfolding print_targets
parse_targets-print_targets [] h = nothing_read
parse_targets-print_targets (t ∷ ts) (p, h) =
    parse_targets-append (item t) (print_targets ts)
    ∙ simp (parse_targets-item t p, parse_targets-print_targets ts h)
