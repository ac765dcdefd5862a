-- ===== src/Watcher/Vip.antt =====
-- tool/observers/watchers/vip_watcher.py: whether the virtual address is bound to the interface.
pub mod Events
use patroni_routing_bench.Prelude.{
  ℕ, zero, suc, ◌+◌, ◌-◌, ◌*◌, ◌/◌, ◌%◌, ◌≤◌, ◌<◌, String, ◌≡◌, ◌≢◌, refl, sym, ap, ◌∙◌, Bool, true,
  false, not, ◌&&◌, ◌||◌, ◌⊎◌, ◌↔◌, inl, inr, Option, none, some, List, [], ◌∷◌, ◌++◌, map,
  append_assoc, append-nil, length, take, drop, head?, get_last?, select, arith, leb, ltb, ◌==◌,
  ◌!=◌, nat_eq, bool_eq, option_eq, string_eq, eq_of_beq, beq_refl, ne_of_bne, bne_of_eq,
  Bool-cases, Option-cases, is_some, if◌then◌else◌, if_true, if_false, All, All-append, In, In_left,
  In_right, In-append, length-append, take-append-drop,
}
use patroni_routing_bench.Prelude.Text.{Text, cut, show}
use patroni_routing_bench.Emitter.{Json, null, text, num, bool, Detail, plain, dumps, Emission}
use patroni_routing_bench.Watcher.{Polled, emission, or_else}
use patroni_routing_bench.Prelude.Text.{contains}

-- `detail` is the text made of the address and the interface.
pub record VipWatcher : Type 0 where
  pub vip_address : Text
  pub detail : String
  pub last_bound : Option Bool

-- The standard output of `ip addr show`, or one of the exceptions that `_check_vip` catches.
pub data Reply : Type 0 where
  output : Text → Reply
  timed_out : Reply
  no_command : Reply

unfoldable pub init : Text → String → VipWatcher
init vip_address detail = record { vip_address = vip_address; detail = detail; last_bound = none }

-- `self.vip_address in result.stdout if self.vip_address else False`
unfoldable pub is_bound : Text → Text → Bool
is_bound [] stdout = false
is_bound (c ∷ address) stdout = contains stdout (c ∷ address)

abbrev pub word : Bool → String
word true = "bound"
word false = "unbound"

-- None is false.
abbrev pub truth : Option Bool → Bool
truth none = false
truth (some b) = b

unfoldable pub see_bound : Bool → Bool → VipWatcher → Polled VipWatcher
see_bound emit_initial bound w =
    let event =
      emission "vip_state_change" (word (truth w.last_bound)) (word bound) (plain w.detail) in
    if some bound != w.last_bound
    then record {
      state = record w { last_bound = some bound };
      emissions = if is_some w.last_bound || emit_initial then event ∷ [] else [];
      raised = false;
    }
    else record { state = w; emissions = []; raised = false }

unfoldable pub check_vip : Bool → Reply → VipWatcher → Polled VipWatcher
check_vip emit_initial (output stdout) w = see_bound emit_initial (is_bound w.vip_address stdout) w
check_vip emit_initial timed_out w = record { state = w; emissions = []; raised = false }
check_vip emit_initial no_command w = record { state = w; emissions = []; raised = false }

unfoldable pub setup : Reply → VipWatcher → Polled VipWatcher
setup = check_vip true

unfoldable pub poll : Reply → VipWatcher → Polled VipWatcher
poll = check_vip false
