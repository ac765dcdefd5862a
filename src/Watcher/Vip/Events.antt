-- ===== src/Watcher/Vip/Events.antt =====
-- When `VipWatcher` takes the address for bound, and its events against that.
use patroni_routing_bench.Prelude.{
  String, ◌≡◌, ◌≢◌, refl, ap, Bool, true, false, ◌||◌, ◌↔◌, inr, Option, none, some, List, [], ◌∷◌,
  ◌++◌, append_assoc, arith, ◌==◌, nat_eq, bool_eq, option_eq, string_eq, eq_of_beq, ne_of_bne,
  is_some, if◌then◌else◌,
}
use patroni_routing_bench.Prelude.Text.{Text}
use patroni_routing_bench.Watcher.Loop.{polls}
use patroni_routing_bench.Watcher.Log.{View, Log, Log-append, Log-polls}
use patroni_routing_bench.Prelude.Substring.{contains-append, contains-split}
use patroni_routing_bench.Watcher.Vip.{
  VipWatcher, Reply, output, timed_out, no_command, init, is_bound, word, see_bound, check_vip,
  setup, poll,
}

-- The address is bound exactly if it is not empty and stands somewhere in the output of the command.
pub is_bound_iff :
    (address stdout : Text)
    → (is_bound address stdout ≡ true) ↔ (
        (address ≢ []) × (before : Text) × (after : Text) × (stdout ≡ before ++ (address ++ after)))
unfolding is_bound
is_bound_iff [] stdout = (λ h. absurd (ground arith), λ h. absurd (h.0 refl))
is_bound_iff (c ∷ address) stdout = (
  λ h.
      let (before, after, e) = contains-split stdout (c ∷ address) h in
      ((λ p. cc), before, after, e),
  λ (nonempty, before, after, e). rw e (contains-append before (c ∷ address) after),
)

-- Any address of which the watched one is a beginning counts as the watched one.
pub is_bound_longer :
    (address suffix before after : Text)
    → address ≢ []
    → is_bound address (before ++ ((address ++ suffix) ++ after)) ≡ true
is_bound_longer address suffix before after h =
    (is_bound_iff address _).1
      (h, before, suffix ++ after, ap (λ t. before ++ t) (append_assoc address suffix after))

abbrev pub bound_view : View
bound_view e = if e.event_type == "vip_state_change" then some (some e.new_value) else none

abbrev pub shown : Option Bool → Option String
shown none = none
shown (some b) = some (word b)

abbrev pub IsKnown : Bool → Option Bool → Type 0
IsKnown emit_initial v = (is_some v || emit_initial) ≡ true

Log-see_bound :
    (b bound : Bool) (l : Option Bool) (w : VipWatcher)
    → w.last_bound ≡ l
    → IsKnown b l
    → Log bound_view
        (shown w.last_bound)
        (see_bound b bound w).emissions
        (shown (see_bound b bound w).state.last_bound)
unfolding see_bound
Log-see_bound true true none w h k = simp h (tt, (cc), refl)
Log-see_bound true false none w h k = simp h (tt, (cc), refl)
Log-see_bound false bound none w h k = absurd (ground arith)
Log-see_bound b true (some true) w h k = simp h
Log-see_bound b false (some false) w h k = simp h
Log-see_bound b true (some false) w h k =
    simp h (inr refl, ne_of_bne (some (word true)) (some (word false)) refl, refl)
Log-see_bound b false (some true) w h k =
    simp h (inr refl, ne_of_bne (some (word false)) (some (word true)) refl, refl)

see_bound-known :
    (b bound : Bool) (w : VipWatcher) → is_some (see_bound b bound w).state.last_bound ≡ true
unfolding see_bound
see_bound-known b bound w = ground (arith, eq_of_beq (some bound) w.last_bound)

Log-check_vip :
    (b : Bool) (r : Reply) (w : VipWatcher)
    → IsKnown b w.last_bound
    → Log bound_view
        (shown w.last_bound)
        (check_vip b r w).emissions
        (shown (check_vip b r w).state.last_bound)
unfolding check_vip
Log-check_vip b (output stdout) w k =
    Log-see_bound b (is_bound w.vip_address stdout) w.last_bound w refl k
Log-check_vip b timed_out w k = refl
Log-check_vip b no_command w k = refl

known-check_vip :
    (r : Reply) (w : VipWatcher)
    → is_some w.last_bound ≡ true
    → is_some (check_vip false r w).state.last_bound ≡ true
unfolding check_vip
known-check_vip (output stdout) w k = see_bound-known false (is_bound w.vip_address stdout) w
known-check_vip timed_out w k = k
known-check_vip no_command w k = k

IsKnown-later : (v : Option Bool) → is_some v ≡ true → IsKnown false v
IsKnown-later v h = ground arith

-- A watcher whose first command gave an output reports from nothing on: its events lead from no state
-- to the one that it holds in the end, each to the other of "bound" and "unbound".
pub bound-Log :
    (address stdout : Text) (detail : String) (replies : List Reply)
    → let first = setup (output stdout) (init address detail) in
      let end = polls poll replies first.state in
      Log bound_view none (first.emissions ++ end.1) (shown end.0.last_bound)
unfolding setup poll init
bound-Log address stdout detail replies =
    let w₀ = init address detail in
    let first = check_vip true (output stdout) w₀ in
    let known : is_some first.state.last_bound ≡ true =
      unfold check_vip in see_bound-known true (is_bound address stdout) w₀ in
    Log-append bound_view none (shown first.state.last_bound) _ first.emissions _
      (Log-check_vip true (output stdout) w₀ refl)
      (Log-polls bound_view (λ w. shown w.last_bound) (λ w. is_some w.last_bound ≡ true)
        (check_vip false)
        (λ r w k. (known-check_vip r w k, Log-check_vip false r w (IsKnown-later w.last_bound k)))
        replies first.state known)
