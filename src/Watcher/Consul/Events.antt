-- ===== src/Watcher/Consul/Events.antt =====
-- The events of `ConsulWatcher` against the leader that it holds.
use patroni_routing_bench.Prelude.{
  String, ◌≡◌, refl, Bool, true, false, ◌||◌, inl, inr, Option, none, some, List, [], ◌∷◌, ◌++◌,
  map, ◌==◌, ◌!=◌, nat_eq, bool_eq, option_eq, string_eq, eq_of_beq, beq_refl, ne_of_bne,
  Bool-cases, if◌then◌else◌,
}
use patroni_routing_bench.Emitter.{Emission}
use patroni_routing_bench.Watcher.{Polled, or_else}
use patroni_routing_bench.Watcher.Loop.{polls}
use patroni_routing_bench.Watcher.Log.{View, Shows, Log, Log-append, Log-polls}
use patroni_routing_bench.Watcher.Consul.{
  ConsulWatcher, Encoded, absent, is_null, base64, Entry, Reply, failed, garbled, not_found,
  no_entries, entry, init, key_deleted, key_present, read_decoded, read_entry, fetch_leader, setup,
  poll,
}

abbrev pub leader_view : View
leader_view e =
    if e.event_type == "leader_key_deleted"
    then some none
    else if e.event_type == "leader_key_created" || e.event_type == "leader_key_change"
    then some (some e.new_value)
    else none

Shows-or_none : (v : Option String) → Shows v (or_else v "none")
Shows-or_none none = tt
Shows-or_none (some s) = elim (Bool-cases (s == "")) [
  | inl e ↦ inl (eq_of_beq s "" e)
  | inr f ↦ inr (rw f)
]

Log-key_deleted :
    (l : Option String) (w : ConsulWatcher)
    → w.last_leader ≡ l
    → Log leader_view w.last_leader (key_deleted w).emissions (key_deleted w).state.last_leader
unfolding key_deleted
Log-key_deleted none w h = simp h
Log-key_deleted (some s) w h = simp h (inr refl, (cc), refl)

module _ (en : Entry) (leader : String) where
  Log-key_new :
      (b : Bool) (l : Option String) (w : ConsulWatcher)
      → w.last_leader ≡ l
      → (some leader != l) ≡ true
      → Log leader_view w.last_leader
          (key_present b en leader w).emissions
          (key_present b en leader w).state.last_leader
  unfolding key_present
  Log-key_new true none w h new = simp h (tt, (cc), refl)
  Log-key_new false none w h new = simp h (tt, (cc), refl)
  Log-key_new b (some s) w h new =
      simp (h, new) (Shows-or_none (some s), ne_of_bne (some leader) (some s) new, refl)

  Log-key_present :
      (b : Bool) (w : ConsulWatcher)
      → Log leader_view w.last_leader
          (key_present b en leader w).emissions
          (key_present b en leader w).state.last_leader
  Log-key_present b w = elim (Bool-cases (some leader != w.last_leader)) [
    | inr same ↦ unfold key_present in simp same
    | inl new ↦ Log-key_new b w.last_leader w refl new
  ]

Log-read_decoded :
    (b : Bool) (en : Entry) (value : Option String) (w : ConsulWatcher)
    → Log leader_view w.last_leader
        (read_decoded b en value w).emissions
        (read_decoded b en value w).state.last_leader
unfolding read_decoded
Log-read_decoded b en none w = refl
Log-read_decoded b en (some leader) w = Log-key_present en leader b w

module _ (decode : String → Option String) where
  Log-read_entry :
      (b : Bool) (en : Entry) (value : Encoded) (w : ConsulWatcher)
      → Log leader_view w.last_leader
          (read_entry decode b en value w).emissions
          (read_entry decode b en value w).state.last_leader
  unfolding read_entry
  Log-read_entry b en absent w = Log-read_decoded b en (decode "") w
  Log-read_entry b en is_null w = refl
  Log-read_entry b en (base64 s) w = Log-read_decoded b en (decode s) w

  Log-fetch_leader :
      (b : Bool) (r : Reply) (w : ConsulWatcher)
      → Log leader_view w.last_leader
          (fetch_leader decode b r w).emissions
          (fetch_leader decode b r w).state.last_leader
  unfolding fetch_leader
  Log-fetch_leader b failed w = refl
  Log-fetch_leader b garbled w = refl
  Log-fetch_leader b no_entries w = refl
  Log-fetch_leader b not_found w = Log-key_deleted w.last_leader w refl
  Log-fetch_leader b (entry en) w = Log-read_entry b en en.value w

  -- From its start, whatever Consul answers, the watcher's leader events lead from no leader to the
  -- leader that it holds: each created or change event names a leader other than the one before, each
  -- deleted event removes one, and each shows the leader that it replaces, unless there was none or its
  -- name was empty.
  pub leader-Log :
      (first : Reply) (replies : List Reply)
      → let started = setup decode first init in
        let end = polls (poll decode) replies started.state in
        Log leader_view none (started.emissions ++ end.1) end.0.last_leader
  unfolding setup poll init
  leader-Log first replies =
      let started = fetch_leader decode true first init in
      Log-append leader_view none started.state.last_leader _ started.emissions _
        (unfold init in Log-fetch_leader true first init)
        (Log-polls leader_view (λ w. w.last_leader) (λ _. Unit) (fetch_leader decode false)
          (λ r w _. (tt, Log-fetch_leader false r w)) replies started.state tt)

-- The type of event that a poll has to send, by the leaders before and after it.
abbrev pub kinds : Option String → Option String → List String
kinds none none = []
kinds none (some b) = "leader_key_created" ∷ []
kinds (some a) none = "leader_key_deleted" ∷ []
kinds (some a) (some b) = if b == a then [] else "leader_key_change" ∷ []

abbrev pub types : List Emission → List String
types = map (λ (e : Emission). e.event_type)

kinds_same : (l : Option String) → [] ≡ kinds l l
kinds_same none = refl
kinds_same (some a) = rw (beq_refl a)

abbrev Kinded : ConsulWatcher → Polled ConsulWatcher → Type 0
Kinded w p = types p.emissions ≡ kinds w.last_leader p.state.last_leader

kinds-key_deleted :
    (l : Option String) (w : ConsulWatcher) → w.last_leader ≡ l → Kinded w (key_deleted w)
unfolding key_deleted
kinds-key_deleted none w h = simp h
kinds-key_deleted (some s) w h = simp h

kinds-key_present :
    (en : Entry) (leader : String) (l : Option String) (w : ConsulWatcher)
    → w.last_leader ≡ l
    → Kinded w (key_present false en leader w)
unfolding key_present
kinds-key_present en leader none w h = simp h
kinds-key_present en leader (some s) w h = elim (Bool-cases (leader == s)) [
  | inl same ↦ simp (h, same) (kinds_same (some s))
  | inr new ↦ simp (h, new)
]

kinds-read_decoded :
    (en : Entry) (value : Option String) (w : ConsulWatcher)
    → Kinded w (read_decoded false en value w)
unfolding read_decoded
kinds-read_decoded en none w = kinds_same w.last_leader
kinds-read_decoded en (some leader) w = kinds-key_present en leader w.last_leader w refl

module _ (decode : String → Option String) where
  kinds-read_entry :
      (en : Entry) (value : Encoded) (w : ConsulWatcher)
      → Kinded w (read_entry decode false en value w)
  unfolding read_entry
  kinds-read_entry en absent w = kinds-read_decoded en (decode "") w
  kinds-read_entry en is_null w = kinds_same w.last_leader
  kinds-read_entry en (base64 s) w = kinds-read_decoded en (decode s) w

  -- A poll sends at most one event, and its type is that of the change: created if a leader appeared,
  -- deleted if the leader went, change if another leader took its place, and no event otherwise.
  pub poll-kinds :
      (r : Reply) (w : ConsulWatcher)
      → types (poll decode r w).emissions ≡ kinds w.last_leader (poll decode r w).state.last_leader
  unfolding poll fetch_leader
  poll-kinds failed w = kinds_same w.last_leader
  poll-kinds garbled w = kinds_same w.last_leader
  poll-kinds no_entries w = kinds_same w.last_leader
  poll-kinds not_found w = kinds-key_deleted w.last_leader w refl
  poll-kinds (entry en) w = kinds-read_entry en en.value w
