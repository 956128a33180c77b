-- ===== src/Session/Disposal.antt =====
-- The terminal outcome of an operation: src/session.ts and src/with-audit.ts.
use auditable_mcp_sdk_ts.Base.{
  ◌≡◌, refl, ap, ◌∙◌, sym, Bool, true, false, ◌&&◌, not, none, some, List, [], ◌∷◌, Text,
  if◌then◌else◌,
}
use auditable_mcp_sdk_ts.Base.Exec.{Result, ok, err, Error}
use auditable_mcp_sdk_ts.Base.Exec.Run.{lift, ◌>>=◌, >>=-ok, >>=-err}
use auditable_mcp_sdk_ts.Json.{Value}
use auditable_mcp_sdk_ts.Canonical.{Packages}
use auditable_mcp_sdk_ts.Models
use auditable_mcp_sdk_ts.Crypto.SaltedHash.{JsonText}
use auditable_mcp_sdk_ts.Session.{Session, Call}
use auditable_mcp_sdk_ts.Session.Emission.{
  ActionOptions, Action, Mark, success, failed, emit_outcome,
}
use auditable_mcp_sdk_ts.Session.Acting.{action}
use auditable_mcp_sdk_ts.Session.Lifecycle.{
  succeeded, mark_failed, terminal_outcome, dispose, settle, Handler, run_handler, with_audit,
}

abbrev mark_with : Mark → Action → Action
mark_with success a = succeeded a
mark_with failed a = mark_failed a

-- The calls of `succeeded` and `failed` on an operation, in order.
abbrev pub mark_all : List Mark → Action → Action
mark_all [] a = a
mark_all (m ∷ ms) a = mark_all ms (mark_with m a)

abbrev pub some_failed : List Mark → Bool
some_failed [] = false
some_failed (failed ∷ ms) = true
some_failed (success ∷ ms) = some_failed ms

abbrev pub some_success : List Mark → Bool
some_success [] = false
some_success (success ∷ ms) = true
some_success (failed ∷ ms) = some_success ms

-- The outcome that marks leave: `success` where there was one and no failure.
abbrev pub expected : Bool → Text
expected succeeds = if succeeds then Models.success else Models.failed

failed-stays :
    (ms : List Mark) (a : Action) → a.outcome ≡ some failed → (mark_all ms a).outcome ≡ some failed
unfolding succeeded mark_failed
failed-stays [] a e = e
failed-stays (success ∷ ms) a e = failed-stays ms (succeeded a) (rw e refl)
failed-stays (failed ∷ ms) a e = failed-stays ms (mark_failed a) refl

success-kept :
    (ms : List Mark) (a : Action)
    → a.outcome ≡ some success
    → terminal_outcome (mark_all ms a).outcome ≡ expected (not (some_failed ms))
unfolding succeeded mark_failed terminal_outcome
success-kept [] a e = rw e refl
success-kept (success ∷ ms) a e = success-kept ms (succeeded a) (rw e refl)
success-kept (failed ∷ ms) a e = rw (failed-stays ms (mark_failed a) refl) refl

closed : (b : Bool) → Models.failed ≡ expected (b && false)
closed true = refl
closed false = refl

terminal_outcome-mark_all :
    (ms : List Mark) (a : Action)
    → a.outcome ≡ none
    → terminal_outcome (mark_all ms a).outcome ≡ expected (some_success ms && not (some_failed ms))
unfolding succeeded mark_failed terminal_outcome
terminal_outcome-mark_all [] a e = rw e refl
terminal_outcome-mark_all (success ∷ ms) a e = success-kept ms (succeeded a) (rw e refl)
terminal_outcome-mark_all (failed ∷ ms) a e =
    rw (failed-stays ms (mark_failed a) refl) (closed (some_success ms))

mark_all-finished : (ms : List Mark) (a : Action) → (mark_all ms a).finished ≡ a.finished
unfolding succeeded mark_failed
mark_all-finished [] a = refl
mark_all-finished (success ∷ ms) a = mark_all-finished ms (succeeded a)
mark_all-finished (failed ∷ ms) a = mark_all-finished ms (mark_failed a)

-- The state after an emission, whether it returned or threw.
abbrev pub emitted : {T : Type 0} → Session T → Action → Text → Call T → Call T
emitted s a outcome c = (emit_outcome s a outcome none c).1

module _ {T : Type 0} (s : Session T) where
  dispose-finished : (a : Action) (c : Call T) → a.finished ≡ true → dispose s a c ≡ (ok a, c)
  unfolding dispose
  dispose-finished a c e = rw e refl

  dispose-unfinished :
      (a : Action) (c : Call T)
      → a.finished ≡ false
      → dispose s a c
        ≡ (ok (record a { finished = true }), (emitted s a (terminal_outcome a.outcome) c))
  unfolding dispose
  dispose-unfinished a c e = rw e refl

  dispose-again :
      (a : Action) (c : Call T) (finished : Bool)
      → a.finished ≡ finished
      → (dispose s a >>= dispose s) c ≡ dispose s a c
  dispose-again a c true e = >>=-ok (dispose s a) (dispose s) c (dispose-finished a c e)
  dispose-again a c false e =
      let after = emitted s a (terminal_outcome a.outcome) c in
      >>=-ok (dispose s a) (dispose s) c (dispose-unfinished a c e)
      ∙ dispose-finished (record a { finished = true }) after refl
      ∙ sym (dispose-unfinished a c e)

  -- However often, and in whatever order, `succeeded` and `failed` are called on an operation without
  -- a mark, the disposer emits one terminal outcome, even if it is called twice: `success` if there
  -- was a call of `succeeded` and none of `failed`, and `failed` otherwise. A fault of the emission
  -- is not thrown.
  pub dispose-mark_all :
      (ms : List Mark) (a : Action) (c : Call T)
      → a.outcome ≡ none
      → a.finished ≡ false
      → (dispose s (mark_all ms a) c ≡ (
        ok (record (mark_all ms a) { finished = true }),
        emitted s (mark_all ms a) (expected (some_success ms && not (some_failed ms))) c,
      ))
        × ((dispose s (mark_all ms a) >>= dispose s) c ≡ dispose s (mark_all ms a) c)
  dispose-mark_all ms a c unmarked unfinished =
      let d = mark_all ms a in
      let not_finished = mark_all-finished ms a ∙ unfinished in
      (
        dispose-unfinished d c not_finished
            ∙ ap (λ t. (ok (record d { finished = true }), emitted s d t c))
                (terminal_outcome-mark_all ms a unmarked),
        dispose-again d c false not_finished,
      )

abbrev pub outcome_of : {B : Type 0} → Result B → Text
outcome_of (ok b) = Models.success
outcome_of (err e) = Models.failed

settle-outcome :
    {B : Type 0} (a : Action) (result : Result B)
    → a.outcome ≡ none
    → terminal_outcome (settle a result).outcome ≡ outcome_of result
unfolding succeeded mark_failed terminal_outcome
settle-outcome a (ok b) e = rw e refl
settle-outcome a (err x) e = refl

settle-finished :
    {B : Type 0} (a : Action) (result : Result B) → (settle a result).finished ≡ a.finished
unfolding succeeded mark_failed
settle-finished a (ok b) = refl
settle-finished a (err x) = refl

module _ {T B : Type 0} (p : Packages) (j : JsonText) (s : Session T) where
  run_handler-outcome :
      (handler : Handler T B) (a : Action) (c : Call T) (result : Result B) (c2 : Call T)
      (a2 : Action)
      → handler (c, a) ≡ (result, (c2, a2))
      → a2.outcome ≡ none
      → a2.finished ≡ false
      → run_handler s handler a c ≡ (result, emitted s (settle a2 result) (outcome_of result) c2)
  unfolding run_handler
  run_handler-outcome handler a c result c2 a2 ran unmarked unfinished =
      let d = settle a2 result in
      ap (λ x. (dispose s (settle x.1.1 x.0) >>= λ done. lift x.0) x.1.0) ran
      ∙ ap
          (λ (y : Result Action × Call T). elim y.0 [ ok u ↦ (result, y.1) | err e ↦ (err e, y.1) ])
          (dispose-unfinished s d c2 (settle-finished a2 result ∙ unfinished))
      ∙ ap (λ t. (result, emitted s d t c2)) (settle-outcome a2 result unmarked)

  -- `withAudit` gives what its handler did, a result or the error that it threw, after one terminal
  -- outcome, `success` for a result and `failed` for an error, where `action` returned and the handler
  -- neither marked nor disposed of the operation.
  pub with_audit-outcome :
      (action_type : Text) (target : Value) (o : ActionOptions) (handler : Handler T B)
      (c c1 : Call T) (a a2 : Action) (result : Result B) (c2 : Call T)
      → action p j s action_type target o c ≡ (ok a, c1)
      → handler (c1, a) ≡ (result, (c2, a2))
      → a2.outcome ≡ none
      → a2.finished ≡ false
      → with_audit p j s action_type target o handler c
        ≡ (result, emitted s (settle a2 result) (outcome_of result) c2)
  unfolding with_audit
  with_audit-outcome action_type target o handler c c1 a a2 result c2 acquired ran unmarked
        unfinished =
      >>=-ok (action p j s action_type target o) (run_handler s handler) c acquired
      ∙ run_handler-outcome handler a c1 result c2 a2 ran unmarked unfinished

  -- Where `action` throws, `withAudit` throws that error, and nothing runs after it.
  pub with_audit-throws :
      (action_type : Text) (target : Value) (o : ActionOptions) (handler : Handler T B)
      (c c1 : Call T) (e : Error)
      → action p j s action_type target o c ≡ (err e, c1)
      → with_audit p j s action_type target o handler c ≡ (err e, c1)
  unfolding with_audit
  with_audit-throws action_type target o handler c c1 e thrown =
      >>=-err (action p j s action_type target o) (run_handler s handler) c thrown
