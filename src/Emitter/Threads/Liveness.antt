-- ===== src/Emitter/Threads/Liveness.antt =====
-- What the two threads of an emitter can still do from any state that they reach.
use patroni_routing_bench.Prelude.{
  ◌≡◌, refl, sym, true, List, [], ◌∷◌, ◌++◌, append_assoc, append-nil,
}
use mathlib.Core.Path.{subst}
use patroni_routing_bench.Emitter.{Event}
use patroni_routing_bench.Emitter.Threads.{
  Thread, watcher, daemon, idle, sending, flight, Shared, insert, finish, Reach, here, next,
}
use patroni_routing_bench.Emitter.Threads.Safety.{moved}

pub Reach-trans : {s t u : Shared} → Reach s t → Reach t u → Reach s u
Reach-trans r here = r
Reach-trans r (next q st) = next (Reach-trans r q) st

-- A flush that is under way can insert what is left and end.
pub end_flight :
    (t : Thread) (taken rest : List Event) (s : Shared)
    → s.configured ≡ true
    → flight t s ≡ sending taken rest
    → Reach s (moved t idle s.buffer (s.table ++ rest) s)
end_flight watcher taken [] s on p =
    subst (λ l. Reach s (moved watcher idle s.buffer l s)) (sym (append-nil s.table))
      (next here (finish watcher s taken on p))
end_flight daemon taken [] s on p =
    subst (λ l. Reach s (moved daemon idle s.buffer l s)) (sym (append-nil s.table))
      (next here (finish daemon s taken on p))
end_flight watcher taken (e ∷ rest) s on p =
    subst (λ l. Reach s (moved watcher idle s.buffer l s)) (append_assoc s.table (e ∷ []) rest)
      (Reach-trans (next here (insert watcher s taken rest e on p)) (
        end_flight watcher taken rest
          (moved watcher (sending taken rest) s.buffer (s.table ++ e ∷ []) s) on refl))
end_flight daemon taken (e ∷ rest) s on p =
    subst (λ l. Reach s (moved daemon idle s.buffer l s)) (append_assoc s.table (e ∷ []) rest)
      (Reach-trans (next here (insert daemon s taken rest e on p)) (
        end_flight daemon taken rest
          (moved daemon (sending taken rest) s.buffer (s.table ++ e ∷ []) s) on refl))
