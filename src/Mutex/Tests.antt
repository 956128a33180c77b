-- ===== src/Mutex/Tests.antt =====
-- Two callers of a lock: the first is in its section, the second waits.
use auditable_mcp_sdk_ts.Base.{ℕ, refl, arith, [], ◌∷◌, has}
use auditable_mcp_sdk_ts.Mutex.{
  Mutex, Reachable, at_first, after_step, arrives, enters, is_resolved, IsFifo, CanStep,
  Reachable-IsFifo, Reachable-CanStep,
}

abbrev two_callers : Mutex
two_callers = record { called = 2; entered = 0 ∷ []; left = [] }

two_callers-Reachable : Reachable two_callers
unfolding is_resolved has
two_callers-Reachable =
    after_step (after_step (after_step at_first arrives) arrives) (enters 0 (omega arith) refl refl)

Reachable-IsFifo_example : (e : ℕ) × (l : ℕ) × IsFifo two_callers e l
Reachable-IsFifo_example = Reachable-IsFifo two_callers two_callers-Reachable

Reachable-CanStep_example : CanStep two_callers 0
Reachable-CanStep_example = Reachable-CanStep two_callers two_callers-Reachable (omega arith)
