-- ===== src/Heartbeat/Delivered.antt =====
-- What reaches client_events: `_flush_results`, and the rounds and the final flush of `run`.
use patroni_routing_bench.Prelude.{
  ℕ, ◌+◌, ◌-◌, ◌/◌, ◌≡◌, refl, sym, Bool, true, false, inl, inr, none, some, List, [], ◌∷◌, ◌++◌,
  map, append-nil, take, nat_eq, bool_eq, option_eq, string_eq, In, In_left, In_right, In-append,
}
use patroni_routing_bench.Heartbeat.{
  QueryResult, Client, ClientRow, State, Round, row_of, flush_pending, flush_results, is_empty,
}
use mathlib.Core.List.{map-append}
use patroni_routing_bench.Prelude.Text.{Text}
use patroni_routing_bench.Emitter.{Delivery, accepted, broken}

-- What a round measured: the part of a result that its row repeats.
pub record Sample : Type 0 where
  pub ts : ℕ
  pub sequence : ℕ
  pub success : Bool
  pub latency_us : ℕ
  pub error : Text

abbrev pub of_result : QueryResult → Sample
of_result q = record {
  ts = q.wall_ts;
  sequence = q.sequence;
  success = q.success;
  latency_us = q.latency_us;
  error = q.error;
}

abbrev pub of_row : ClientRow → Sample
of_row r = record {
  ts = r.ts;
  sequence = r.sequence;
  success = r.success;
  latency_us = r.latency_us;
  error = r.error;
}

-- The samples of rounds that follow the query number `n`, numbered on from there.
abbrev pub samples : ℕ → List Round → List Sample
samples n [] = []
samples n (r ∷ rounds) =
    record {
      ts = r.wall_ts;
      sequence = n + 1;
      success = elim r.failure [ none ↦ true | some e ↦ false ];
      latency_us = (r.mono_end - r.mono_start) / 1000;
      error = elim r.failure [ none ↦ [] | some e ↦ take 500 e ];
    }
    ∷ samples (n + 1) rounds

-- The samples in the table, then those that wait for a flush.
unfoldable pub account : State → List Sample
account s = map of_row s.db.client_events ++ map of_result s.client.results

abbrev pub IsConfigured : State → Type 0
IsConfigured s = is_empty s.client.timescale_connstring ≡ false

pub of_row-row_of :
    (c : Client) (qs : List QueryResult) → map of_row (map (row_of c) qs) ≡ map of_result qs
unfolding row_of
of_row-row_of c [] = refl
of_row-row_of c (q ∷ qs) = rw (of_row-row_of c qs)

pub flush_pending-accepted :
    (qs : List QueryResult) (s : State)
    → IsConfigured s
    → s.client.results ≡ qs
    → (map of_row (flush_pending accepted qs s).db.client_events
        ≡ map of_row s.db.client_events ++ map of_result qs)
      × ((flush_pending accepted qs s).client.results ≡ [])
unfolding flush_pending
flush_pending-accepted [] s c h = (sym (append-nil _), refl)
flush_pending-accepted (q ∷ qs) s c h =
    simp (c, map-append, of_row-row_of s.client (q ∷ qs)) (refl, refl)

-- An accepted flush moves samples from the waiting list to the table, and changes no account.
pub account-flush : (s : State) → IsConfigured s → account (flush_results accepted s) ≡ account s
unfolding account flush_results
account-flush s c =
    let (rows, empty) = flush_pending-accepted s.client.results s c refl in
    rw (rows, empty) (append-nil (account s))

pub flush-accepted-empty :
    (s : State) → IsConfigured s → (flush_results accepted s).client.results ≡ []
unfolding flush_results
flush-accepted-empty s c = (flush_pending-accepted s.client.results s c refl).1

pub In_insert : {A : Type 0} (x : A) (a b c : List A) → In x (a ++ b) → In x ((a ++ c) ++ b)
In_insert x a b c i = elim (In-append x a b i) [
  | inl l ↦ In_left x (a ++ c) b (In_left x a c l)
  | inr r ↦ In_right x (a ++ c) b r
]

pub In-flush_broken :
    (x : Sample) (n : ℕ) (qs : List QueryResult) (s : State)
    → IsConfigured s
    → s.client.results ≡ qs
    → In x (account s)
    → In x (account (flush_pending (broken n) qs s))
unfolding account flush_pending
In-flush_broken x n [] s c h i = rw h at i
In-flush_broken x n (q ∷ qs) s c h i =
    simp (c, map-append)
      (In_insert x (map of_row s.db.client_events) (map of_result s.client.results) _ i)

-- No flush, failing or not, loses a sample.
pub In-flush :
    (x : Sample) (d : Delivery) (s : State)
    → IsConfigured s
    → In x (account s)
    → In x (account (flush_results d s))
unfolding flush_results
In-flush x accepted s c i = rw (account-flush s c) i
In-flush x (broken n) s c i = In-flush_broken x n s.client.results s c refl i
