-- ===== src/Watcher/Consul.antt =====
-- tool/observers/watchers/consul_watcher.py: Patroni's leader key in the Consul KV store. The base64
-- decoder is Python's: `decode` is handed in, and is `none` where it raises binascii.Error.
pub mod Events
use patroni_routing_bench.Prelude.{
  ℕ, zero, suc, ◌+◌, ◌-◌, ◌*◌, ◌/◌, ◌%◌, ◌≤◌, ◌<◌, String, ◌≡◌, ◌≢◌, refl, sym, ap, ◌∙◌, Bool, true,
  false, not, ◌&&◌, ◌||◌, ◌⊎◌, ◌↔◌, inl, inr, Option, none, some, List, [], ◌∷◌, ◌++◌, map,
  append_assoc, append-nil, length, take, drop, head?, get_last?, select, arith, leb, ltb, ◌==◌,
  ◌!=◌, nat_eq, bool_eq, option_eq, string_eq, eq_of_beq, beq_refl, ne_of_bne, bne_of_eq,
  Bool-cases, Option-cases, is_some, if◌then◌else◌, if_true, if_false, All, All-append, In, In_left,
  In_right, In-append, length-append, take-append-drop,
}
use patroni_routing_bench.Prelude.Text.{Text, cut, show}
use patroni_routing_bench.Emitter.{Json, null, text, num, bool, Detail, plain, dumps, Emission}
use patroni_routing_bench.Watcher.{Polled, emission, or_else}

pub record ConsulWatcher : Type 0 where
  pub last_leader : Option String
  pub last_modify_index : ℕ

-- The "Value" of an entry: absent, JSON null, or base64 text.
pub data Encoded : Type 0 where
  absent : Encoded
  is_null : Encoded
  base64 : String → Encoded

-- The fields that the watcher reads of the first entry of the answer.
pub record Entry : Type 0 where
  pub modify_index : Option ℕ
  pub create_index : Option ℕ
  pub session : Option String
  pub value : Encoded

-- `failed`: a RequestException, that of `raise_for_status` included. `garbled`: a body that is no JSON.
pub data Reply : Type 0 where
  failed : Reply
  garbled : Reply
  not_found : Reply
  no_entries : Reply
  entry : Entry → Reply

-- The query of one request: the index of a blocking query, and the timeout in seconds.
pub record Request : Type 0 where
  pub index : Option ℕ
  pub timeout : ℕ

unfoldable pub init : ConsulWatcher
init = record { last_leader = none; last_modify_index = 0 }

unfoldable pub request : Bool → ConsulWatcher → Request
request blocking w =
    if blocking && ltb 0 w.last_modify_index
    then record { index = some w.last_modify_index; timeout = 10 }
    else record { index = none; timeout = 3 }

abbrev json_or_null : Option ℕ → Json
json_or_null none = null
json_or_null (some n) = num n

abbrev pub or_zero : Option ℕ → ℕ
or_zero none = 0
or_zero (some n) = n

abbrev pub or_empty : Option String → String
or_empty none = ""
or_empty (some s) = s

unfoldable pub key_deleted : ConsulWatcher → Polled ConsulWatcher
key_deleted w =
    let event =
      emission "leader_key_deleted" (or_empty w.last_leader) ""
        (plain "Leader key removed from Consul KV") in
    if is_some w.last_leader
    then record { state = record w { last_leader = none }; emissions = event ∷ []; raised = false }
    else record { state = w; emissions = []; raised = false }

-- The end of the `try`, from the update of the index on.
unfoldable pub key_present : Bool → Entry → String → ConsulWatcher → Polled ConsulWatcher
key_present emit_initial en leader w =
    let t = record w { last_modify_index = or_zero en.modify_index } in
    let detail = dumps (
      ("modify_index", num (or_zero en.modify_index))
      ∷ ("create_index", json_or_null en.create_index)
      ∷ ("session", text (or_empty en.session))
      ∷ []) in
    let created = emission "leader_key_created" "" leader detail in
    let changed = emission "leader_key_change" (or_else t.last_leader "none") leader detail in
    if some leader != t.last_leader
    then record {
      state = record t { last_leader = some leader };
      emissions =
          if not (is_some t.last_leader) && not emit_initial
          then created ∷ []
          else if is_some t.last_leader || emit_initial
          then changed ∷ []
          else [];
      raised = false;
    }
    else record { state = t; emissions = []; raised = false }

-- `none`: `b64decode` raised binascii.Error, a ValueError, which the last handler catches.
unfoldable pub read_decoded : Bool → Entry → Option String → ConsulWatcher → Polled ConsulWatcher
read_decoded emit_initial en none w = record { state = w; emissions = []; raised = false }
read_decoded emit_initial en (some leader) w = key_present emit_initial en leader w

module _ (decode : String → Option String) where
  -- A null value makes `b64decode` raise a TypeError, which no handler of the method catches.
  unfoldable pub read_entry : Bool → Entry → Encoded → ConsulWatcher → Polled ConsulWatcher
  read_entry emit_initial en absent w = read_decoded emit_initial en (decode "") w
  read_entry emit_initial en is_null w = record { state = w; emissions = []; raised = true }
  read_entry emit_initial en (base64 s) w = read_decoded emit_initial en (decode s) w

  unfoldable pub fetch_leader : Bool → Reply → ConsulWatcher → Polled ConsulWatcher
  fetch_leader emit_initial failed w = record { state = w; emissions = []; raised = false }
  fetch_leader emit_initial garbled w = record { state = w; emissions = []; raised = false }
  fetch_leader emit_initial no_entries w = record { state = w; emissions = []; raised = false }
  fetch_leader emit_initial not_found w = key_deleted w
  fetch_leader emit_initial (entry en) w = read_entry emit_initial en en.value w

  unfoldable pub setup : Reply → ConsulWatcher → Polled ConsulWatcher
  setup = fetch_leader true

  unfoldable pub poll : Reply → ConsulWatcher → Polled ConsulWatcher
  poll = fetch_leader false
