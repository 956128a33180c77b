-- ===== src/Verify/Readable.antt =====
-- What the code that `verifyChain` is given, and the records it reads, must do for it to return.
use auditable_mcp_sdk_ts.Base.{◌≢◌, ℕ, Bool, Option, some, List, [], ◌∷◌, Text, ◌≡◌, refl}
use auditable_mcp_sdk_ts.Base.Exec.{Result, ok, err}
use auditable_mcp_sdk_ts.Base.Exec.Try.{◌>>=◌}
use auditable_mcp_sdk_ts.Json.{Value, ToText, null, bool, num, bigint, str, arr, obj}
use auditable_mcp_sdk_ts.Canonical.{Packages}
use auditable_mcp_sdk_ts.Hashing.{countersignature_payload}
use auditable_mcp_sdk_ts.Ledger.{SealedRecord}
use auditable_mcp_sdk_ts.Verify.Inputs.{Inputs, Adapter, default_adapter, apply_optional}

-- It returned, and did not throw.
abbrev pub Returns {ℓ} : {A : Type ℓ} → Result A → Type ℓ
Returns {A = A} m = (a : A) × (m ≡ ok a)

pub Returns-bind {ℓ κ} :
    {A : Type ℓ} {B : Type κ} (m : Result A) (f : A → Result B)
    → Returns m
    → ((a : A) → Returns (f a))
    → Returns (m >>= f)
Returns-bind (ok a) f r k = k a
Returns-bind (err e) f (a, q) k = absurd cc

-- Every object has a primitive form, as one that `JSON.parse` made has, unless it has a member named
-- `toString` or `valueOf`.
abbrev pub HasText : ToText → Type 0
HasText t = (v : Value) → (s : Text) × (t.object_text v ≡ some s)

-- The bytes that a countersignature of the record covers exist.
abbrev pub IsPayable : Packages → SealedRecord → Type 0
IsPayable p r =
    (log_id : Text)
    → r.log_id ≡ some log_id
    → Returns (countersignature_payload p r.seq r.host_ts log_id r.previous_hash r.record_hash)

abbrev pub ArePayable : Packages → List SealedRecord → Type 0
ArePayable p [] = Unit
ArePayable p (r ∷ rs) = IsPayable p r × ArePayable p rs

-- The adapter's accessors return on an event.
pub record IsReadable (a : Adapter) (event : Value) : Type 0 where
  pub id_returns : Returns (a.id_of event)
  pub attempt_returns : Returns (a.is_attempt event)
  pub session_returns : Returns (apply_optional a.session_of event)
  pub event_returns : Returns (a.event_of event)
  pub principal_returns : Returns (apply_optional a.principal_of event)

abbrev pub AreReadable : Adapter → List SealedRecord → Type 0
AreReadable a [] = Unit
AreReadable a (r ∷ rs) = IsReadable a r.event × AreReadable a rs

-- The checkers that the verifier is given return.
pub record CheckersReturn (inputs : Inputs) : Type 0 where
  pub countersignature_returns :
      (check : Text → Text → List ℕ → Result Bool) (key signature : Text) (payload : List ℕ)
      → inputs.countersignature_checker ≡ some check
      → Returns (check key signature payload)
  pub signature_returns :
      (check : Value → Result Bool) (event : Value)
      → inputs.signature_checker ≡ some check
      → Returns (check event)

readable :
    {a : Adapter} {event : Value} {id session inner principal : Option Value} {attempt : Bool}
    → a.id_of event ≡ ok id
    → a.is_attempt event ≡ ok attempt
    → apply_optional a.session_of event ≡ ok session
    → a.event_of event ≡ ok inner
    → apply_optional a.principal_of event ≡ ok principal
    → IsReadable a event
readable i k s e p = record {
  id_returns = (_, i);
  attempt_returns = (_, k);
  session_returns = (_, s);
  event_returns = (_, e);
  principal_returns = (_, p);
}

-- The default adapter reads every event but null.
pub default_adapter-IsReadable : (event : Value) → event ≢ null → IsReadable default_adapter event
unfolding default_adapter
default_adapter-IsReadable null e = absurd (e refl)
default_adapter-IsReadable (bool b) e = readable refl refl refl refl refl
default_adapter-IsReadable (num x) e = readable refl refl refl refl refl
default_adapter-IsReadable (bigint x) e = readable refl refl refl refl refl
default_adapter-IsReadable (str x) e = readable refl refl refl refl refl
default_adapter-IsReadable (arr xs) e = readable refl refl refl refl refl
default_adapter-IsReadable (obj ms) e = readable refl refl refl refl refl
