-- ===== src/Emitter/Local.antt =====
-- tool/observers/core/emitter.py: an emitter's operation on a table that others write to as well: it adds rows of its own at the end,
-- and what it does does not depend on the rows that stand there.
use patroni_routing_bench.Prelude.{
  ◌≡◌, refl, sym, ap, ◌∙◌, inl, inr, List, [], ◌∷◌, ◌++◌, map, append_assoc, append-nil, take, leb,
  length, nat_eq, bool_eq, option_eq, string_eq, Bool-cases, All, All-append, ◌==◌,
}
use mathlib.Core.Path.{subst}
use patroni_routing_bench.Emitter.{
  Event, Row, Emitter, Delivery, accepted, broken, Site, row_of, deliver, flush_events, flush,
  append_event, emit, Op, emits, ticks, step, stop,
}

abbrev pub at : Emitter → List Row → Site
at em t = record { emitter = em; table = t }

abbrev pub IsOf : Emitter → Row → Type 0
IsOf em r = r.node ≡ em.node_name

-- From an emitter, with any table: the same emitter with a buffer and own rows behind the table.
abbrev pub LocalAt : (Site → Site) → Emitter → Type 0
LocalAt f em =
    (t : List Row)
    → ((f (at em t)).emitter ≡ (f (at em [])).emitter)
      × ((f (at em t)).table ≡ t ++ (f (at em [])).table)
      × All (IsOf em) (f (at em [])).table
      × ((f (at em [])).emitter.node_name ≡ em.node_name)

abbrev pub Local : (Site → Site) → Type 0
Local f = (em : Emitter) → LocalAt f em

rows-IsOf : (em : Emitter) (es : List Event) → All (IsOf em) (map (row_of em) es)
unfolding row_of
rows-IsOf em [] = tt
rows-IsOf em (e ∷ es) = (refl, rows-IsOf em es)

deliver-Local : (d : Delivery) (es : List Event) → Local (deliver d es)
unfolding deliver
deliver-Local accepted es em t = (refl, refl, rows-IsOf em es, refl)
deliver-Local (broken n) es em t = (refl, refl, rows-IsOf em (take n es), refl)

flush_events-Local : (d : Delivery) (es : List Event) → Local (flush_events d es)
unfolding flush_events deliver
flush_events-Local d [] em t = (refl, sym (append-nil t), tt, refl)
flush_events-Local d (e ∷ es) em t = elim (Bool-cases (em.timescale_connstring == "")) [
  | inl eq ↦ rw eq (refl, sym (append-nil t), tt, refl)
  | inr ne ↦ rw ne (deliver-Local d (e ∷ es) (record em { buffer = [] }) t)
]

flush-Local : (d : Delivery) → Local (flush d)
unfolding flush
flush-Local d em t = flush_events-Local d em.buffer em t

append_event-Local : (e : Event) → Local (append_event e)
unfolding append_event
append_event-Local e em t = (refl, sym (append-nil t), tt, refl)

compose-Local : (f g : Site → Site) → Local f → Local g → Local (λ s. g (f s))
compose-Local f g hf hg em t =
    let y = f (at em []) in
    let (same, added, own, node) = hf em t in
    let x : f (at em t) ≡ at y.emitter (t ++ y.table) =
      ap (λ em'. at em' (f (at em t)).table) same ∙ ap (at y.emitter) added in
    let (same_x, added_x, own_x, node_x) = hg y.emitter (t ++ y.table) in
    let (same_y, added_y, _, _) = hg y.emitter y.table in
    let later = (g (at y.emitter [])).table in
    (
      ap (λ s. (g s).emitter) x ∙ same_x ∙ sym same_y,
      ap (λ s. (g s).table) x
          ∙ added_x
          ∙ append_assoc t y.table later
          ∙ ap (λ l. t ++ l) (sym added_y),
      subst (All (IsOf em)) (sym added_y) (
          All-append (IsOf em) y.table later own
            (subst (λ n. All (λ r. r.node ≡ n) later) node own_x)),
      ap (λ em'. em'.node_name) same_y ∙ node_x ∙ node,
    )

emit-Local : (d : Delivery) (e : Event) → Local (emit d e)
unfolding emit append_event
emit-Local d e em t = elim (Bool-cases (leb em.batch_size (length (em.buffer ++ e ∷ [])))) [
  | inl full ↦
      rw full (compose-Local (append_event e) (flush d) (append_event-Local e) (flush-Local d) em t)
  | inr room ↦ rw room (append_event-Local e em t)
]

pub step-Local : (o : Op) → Local (step o)
unfolding step
step-Local (emits d e) = emit-Local d e
step-Local (ticks d) = flush-Local d

pub stop-Local : (d d' : Delivery) → Local (stop d d')
unfolding stop
stop-Local d d' = compose-Local (flush d) (flush d') (flush-Local d) (flush-Local d')
