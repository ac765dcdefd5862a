-- ===== src/Charts/Dict.antt =====
-- Python's dictionaries keyed by a text, as generate_charts.py uses them for counts and groups: the
-- entries in the order in which their keys came.
use patroni_routing_bench.Prelude.{
  String, ◌≡◌, sym, ap, ◌∙◌, false, inl, inr, List, [], ◌∷◌, ◌++◌, map, append_assoc, append-nil,
  select, ◌==◌, nat_eq, bool_eq, option_eq, string_eq, eq_of_beq, beq_refl, Bool-cases,
  if◌then◌else◌, if_true, if_false, select-none, select-take, select-skip,
}

abbrev pub Dict {ℓ} : Type ℓ → Type ℓ
Dict A = List (String × A)

module _ {A : Type 0} where
  -- `d.get(key, default)`
  unfoldable pub get : String → A → Dict A → A
  get key default [] = default
  get key default ((k, v) ∷ d) = let rest = get key default d in if k == key then v else rest

  -- `d[key] = f(d[key])` in a `defaultdict` that makes `default`.
  unfoldable pub update : String → A → (A → A) → Dict A → Dict A
  update key default f [] = (key, f default) ∷ []
  update key default f ((k, v) ∷ d) =
      let rest = update key default f d in if k == key then (k, f v) ∷ d else (k, v) ∷ rest

  pub get-update-same :
      (key : String) (default : A) (f : A → A) (d : Dict A)
      → get key default (update key default f d) ≡ f (get key default d)
  unfolding get update
  get-update-same key default f [] = if_true (key == key) _ _ (beq_refl key)
  get-update-same key default f ((k, v) ∷ d) = elim (Bool-cases (k == key)) [
    | inl b ↦ simp b
    | inr b ↦ simp (b, get-update-same key default f d)
  ]

  pub get-update-other :
      (key other : String) (default : A) (f : A → A) (d : Dict A)
      → (key == other) ≡ false
      → get other default (update key default f d) ≡ get other default d
  unfolding get update
  get-update-other key other default f [] h = if_false (key == other) _ _ h
  get-update-other key other default f ((k, v) ∷ d) h = elim (Bool-cases (k == key)) [
    | inl b ↦
        let differ : (k == other) ≡ false = ap (λ x. x == other) (eq_of_beq k key b) ∙ h in
        simp (b, differ)
    | inr b ↦ elim (Bool-cases (k == other)) [
      | inl c ↦ simp (b, c)
      | inr c ↦ simp (b, c, get-update-other key other default f d h)
    ]
  ]

module _ {A R : Type 0} (key : R → String) (value : R → A) where
  -- `d[key(r)].append(value(r))` for each row.
  unfoldable pub group_from : Dict (List A) → List R → Dict (List A)
  group_from d [] = d
  group_from d (r ∷ rows) = group_from (update (key r) [] (λ vs. vs ++ value r ∷ []) d) rows

  -- A group holds the values of the rows with its key, in their order.
  abbrev pub values_of : String → List R → List A
  values_of s rows = map value (select (λ r. key r == s) rows)

  pub get-group_from :
      (s : String) (d : Dict (List A)) (rows : List R)
      → get s [] (group_from d rows) ≡ get s [] d ++ values_of s rows
  unfolding group_from
  get-group_from s d [] =
      sym (append-nil (get s [] d))
      ∙ ap (λ l. get s [] d ++ map value l) (sym (select-none (λ r. key r == s) [] tt))
  get-group_from s d (r ∷ rows) =
      let grow : List A → List A = λ vs. vs ++ value r ∷ [] in
      let rest = get-group_from s (update (key r) [] grow d) rows in
      elim (Bool-cases (key r == s)) [
        | inl b ↦
            let same : key r ≡ s = eq_of_beq (key r) s b in
            let here = ap (λ k. get s [] (update k [] grow d)) same ∙ get-update-same s [] grow d in
            rest
            ∙ ap (λ l. l ++ values_of s rows) here
            ∙ append_assoc (get s [] d) (value r ∷ []) (values_of s rows)
            ∙ ap (λ l. get s [] d ++ map value l) (sym (select-take (λ r. key r == s) r rows b))
        | inr b ↦
            rest
            ∙ ap (λ l. l ++ values_of s rows) (get-update-other (key r) s [] grow d b)
            ∙ ap (λ l. get s [] d ++ map value l) (sym (select-skip (λ r. key r == s) r rows b))
      ]
