-- ===== src/Level2/Checking/Verified.antt =====
-- What the verifier of src/l2/verification.ts accepts: what src/l2/signing.ts signed, and only what
-- verifies under the registered key; and what revocation changes.
use auditable_mcp_sdk_ts.Base.{
  ℕ, ◌≡◌, refl, sym, ap, ◌∙◌, arith, Bool, true, false, ◌&&◌, not, Option, none, some, List, Text,
  same_text, list_beq, text_eq, has, add, has-add_self, is_some, if◌then◌else◌, length, lookup,
  ◌==◌,
}
use auditable_mcp_sdk_ts.Base.Exec.{ok, err, invalid_argument}
use auditable_mcp_sdk_ts.Base.Exec.Try.{◌>>=◌, >>=-eq-ok}
use auditable_mcp_sdk_ts.Json.{Value, str, obj, Members, find_member, as_text}
use auditable_mcp_sdk_ts.Json.Objects.{
  assign, find_member-assign, find_member-assign_self, without-assign,
}
use auditable_mcp_sdk_ts.Fields
use auditable_mcp_sdk_ts.Reasons.{Code, unknown_key, signature_invalid}
use auditable_mcp_sdk_ts.Canonical.{Packages, canonicalize}
use auditable_mcp_sdk_ts.Hashing.{seq_value}
use auditable_mcp_sdk_ts.Models.Earlier.{is_earlier_version}
use auditable_mcp_sdk_ts.Crypto.Base64.{bytes_to_base64url, base64url_to_bytes}
use auditable_mcp_sdk_ts.Crypto.Base64.Laws.{AllBelow, base64url_to_bytes-bytes_to_base64url}
use auditable_mcp_sdk_ts.Level2.Keys.{ed25519, RegisteredKey, Registry, get_key, is_revoked, revoke}
use auditable_mcp_sdk_ts.Level2.Signing.{Engines, signature_payload, numbered_event, sign_event}
use auditable_mcp_sdk_ts.Level2.Checking.{
  decode_signature, verify_raw, verify_event, reject_reason, check_event, verify_arriving, judged,
  entry_of, revoked_id, strictly, loosely, primitive, or_false, verify_decoded, is_none,
}

signature_payload-assign :
    (p : Packages) (v : Value) (ms : Members)
    → signature_payload p (assign Fields.signature v ms) ≡ signature_payload p ms
unfolding signature_payload
signature_payload-assign p v ms =
    ap (λ rest. canonicalize p (obj rest) >>= λ canonical. ok (p.encode_utf8 canonical))
      (without-assign Fields.signature v ms)

-- What is documented of a signature engine, at one pair of keys: signatures are 64 bytes, and verify.
sized :
    (right : Bool) {b : Bool} → right ≡ true → b ≡ true → (if not right then false else b) ≡ true
sized true e f = f
sized false e f = absurd cc

pub record SignsFor (e : Engines) (private_key public_key : List ℕ) : Type 0 where
  pub signature_below : (payload : List ℕ) → AllBelow 256 (e.sign payload private_key)
  pub length-signature : (payload : List ℕ) → length (e.sign payload private_key) ≡ 64
  pub verifies :
      (payload : List ℕ)
      → e.ed25519_verify payload (e.sign payload private_key) public_key ≡ some true

signed_version :
    (event : Members) (key_id : Text) (n : ℕ) (signature : Value)
    → find_member Fields.spec_version
        (assign Fields.signature signature (numbered_event event key_id n))
      ≡ find_member Fields.spec_version event
unfolding numbered_event same_text list_beq
signed_version event key_id n signature =
    find_member-assign Fields.signature Fields.spec_version signature
      (assign Fields.signer_seq (seq_value n) (assign Fields.key_id (str key_id) event))
    ∙ find_member-assign Fields.signer_seq Fields.spec_version (seq_value n)
        (assign Fields.key_id (str key_id) event)
    ∙ find_member-assign Fields.key_id Fields.spec_version (str key_id) event

signed_key :
    (event : Members) (key_id : Text) (n : ℕ) (signature : Value)
    → find_member Fields.key_id (assign Fields.signature signature (numbered_event event key_id n))
      ≡ some (str key_id)
unfolding numbered_event same_text list_beq
signed_key event key_id n signature =
    find_member-assign Fields.signature Fields.key_id signature
      (assign Fields.signer_seq (seq_value n) (assign Fields.key_id (str key_id) event))
    ∙ find_member-assign Fields.signer_seq Fields.key_id (seq_value n)
        (assign Fields.key_id (str key_id) event)
    ∙ find_member-assign_self Fields.key_id (str key_id) event

decoded_strictly :
    (event : Members) (earlier : Bool) (signature : Value)
    → earlier ≡ false
    → find_member Fields.signature event ≡ some signature
    → (if earlier
        then loosely (as_text (find_member Fields.signature event))
        else strictly (find_member Fields.signature event))
      ≡ base64url_to_bytes signature
decoded_strictly event true signature e f = absurd cc
decoded_strictly event false signature e f = ap strictly f

verified_raw :
    (e : Engines) (entry : RegisteredKey) (payload signature : List ℕ)
    → entry.algorithm ≡ ed25519
    → length signature ≡ 64
    → e.ed25519_verify payload signature entry.public_key ≡ some true
    → verify_raw e entry (ok payload) signature ≡ true
unfolding verify_raw
verified_raw e entry payload signature a l v =
    sized (length signature == 64) (ground arith)
      (ap (λ x. or_false (primitive e x payload signature entry.public_key)) a ∙ ap or_false v)

verify_event-true :
    (p : Packages) (e : Engines) (entry : RegisteredKey) (event : Members) (payload raw : List ℕ)
    → decode_signature event ≡ some raw
    → signature_payload p event ≡ ok payload
    → verify_raw e entry (ok payload) raw ≡ true
    → verify_event p e entry event ≡ true
unfolding verify_event
verify_event-true p e entry event payload raw f k v =
    ap (verify_decoded p e entry event) f ∙ ap (λ r. verify_raw e entry r raw) k ∙ v

verdict : (b : Bool) (code : Code) → (if b then none else some code) ≡ none → b ≡ true
verdict true code q = refl
verdict false code q = absurd cc

not_refused :
    (p : Packages) (e : Engines) (event : Members) (old revoked : Bool) (entry : RegisteredKey)
    → revoked ≡ false
    → verify_event p e entry event ≡ true
    → judged p e event (not old && revoked) (some entry) ≡ none
not_refused p e event true revoked entry r v = rw v refl
not_refused p e event false true entry r v = absurd cc
not_refused p e event false false entry r v = rw v refl

reject_reason-none :
    (p : Packages) (e : Engines) (g : Registry) (event : Members) (key_id : Text)
    (entry : RegisteredKey) (old : Bool)
    → find_member Fields.key_id event ≡ some (str key_id)
    → get_key g key_id ≡ some entry
    → is_revoked g key_id ≡ false
    → verify_event p e entry event ≡ true
    → reject_reason p e g event old ≡ none
unfolding reject_reason
reject_reason-none p e g event key_id entry old keyed found live holds =
    ap (λ k. judged p e event (not old && revoked_id g k) (entry_of g k)) (ap as_text keyed)
    ∙ ap (judged p e event (not old && is_revoked g key_id)) found
    ∙ not_refused p e event old (is_revoked g key_id) entry live holds

-- An event that a tool signs with the private half of a registered, unrevoked Ed25519 key is accepted
-- by the host's verifier and by the ledger verifier, where the event is of the current version and the
-- engine signs for the key.
pub verify_arriving-sign_event :
    (p : Packages) (e : Engines) (g : Registry) (event : Members) (key_id : Text) (n : ℕ)
    (private_key : List ℕ) (entry : RegisteredKey) (signed : Members)
    → SignsFor e private_key entry.public_key
    → entry.algorithm ≡ ed25519
    → get_key g key_id ≡ some entry
    → is_revoked g key_id ≡ false
    → is_earlier_version (find_member Fields.spec_version event) ≡ false
    → sign_event p e event key_id n private_key ≡ ok signed
    → (verify_arriving p e g signed ≡ none) × (check_event p e g signed ≡ true)
unfolding sign_event verify_arriving check_event reject_reason verify_event decode_signature
verify_arriving-sign_event p e g event key_id n private_key entry signed engine a found live current
      q =
    let m = numbered_event event key_id n in
    let finish = λ (payload : List ℕ).
      ok (assign Fields.signature (str (bytes_to_base64url (e.sign payload private_key))) m) in
    let (payload, made, last) = >>=-eq-ok (signature_payload p m) finish q in
    let raw = e.sign payload private_key in
    let signature = str (bytes_to_base64url raw) in
    let is : assign Fields.signature signature m ≡ signed = cc in
    let version = signed_version event key_id n signature in
    let known = find_member-assign_self Fields.signature signature m in
    let raw_bytes =
      decoded_strictly (assign Fields.signature signature m)
        (is_earlier_version (find_member Fields.spec_version (assign Fields.signature signature m)))
        signature (ap is_earlier_version version ∙ current) known
      ∙ base64url_to_bytes-bytes_to_base64url raw (engine.signature_below payload) in
    let holds =
      verify_event-true p e entry (assign Fields.signature signature m) payload raw raw_bytes
        (signature_payload-assign p signature m ∙ made)
        (verified_raw e entry payload raw a (engine.length-signature payload)
          (engine.verifies payload)) in
    let accepts = λ (old : Bool).
      reject_reason-none p e g (assign Fields.signature signature m) key_id entry old
        (signed_key event key_id n signature) found live holds in
    (
      ap (λ ms. reject_reason p e g ms false) (sym is) ∙ accepts false,
      ap (λ ms. is_none (reject_reason p e g ms true)) (sym is) ∙ ap is_none (accepts true),
    )

judged-none :
    (p : Packages) (e : Engines) (g : Registry) (event : Members) (refused : Bool)
    (found : Option RegisteredKey)
    → judged p e event refused found ≡ none
    → (entry : RegisteredKey) × (found ≡ some entry)
      × (refused ≡ false)
      × (verify_event p e entry event ≡ true)
judged-none p e g event refused none q = absurd cc
judged-none p e g event true (some entry) q = absurd cc
judged-none p e g event false (some entry) q =
    (entry, refl, refl, verdict (verify_event p e entry event) signature_invalid q)

id_of_entry :
    (g : Registry) (k : Option Text) (entry : RegisteredKey)
    → entry_of g k ≡ some entry
    → (key_id : Text) × (k ≡ some key_id) × (get_key g key_id ≡ some entry)
id_of_entry g none entry q = absurd cc
id_of_entry g (some key_id) entry q = (key_id, refl, q)

-- The host's verifier accepts an event only if its `key_id` is registered and not revoked, and the
-- signature verifies under the registered key.
pub verify_arriving-none :
    (p : Packages) (e : Engines) (g : Registry) (event : Members)
    → verify_arriving p e g event ≡ none
    → (key_id : Text) × (entry : RegisteredKey) × (as_text (find_member Fields.key_id event)
        ≡ some key_id)
      × (get_key g key_id ≡ some entry)
      × (is_revoked g key_id ≡ false)
      × (verify_event p e entry event ≡ true)
unfolding verify_arriving reject_reason
verify_arriving-none p e g event q =
    let k = as_text (find_member Fields.key_id event) in
    let (entry, found, live, holds) =
      judged-none p e g event (not false && revoked_id g k) (entry_of g k) q in
    let (key_id, named, bound) = id_of_entry g k entry found in
    (key_id, entry, named, bound, sym (ap (λ x. not false && revoked_id g x) named) ∙ live, holds)

revoked_registry :
    (g g' : Registry) (id : Text) (known : Bool)
    → (if known then ok (record g { revoked = add id g.revoked }) else err invalid_argument) ≡ ok g'
    → g' ≡ record g { revoked = add id g.revoked }
revoked_registry g g' id true q = cc
revoked_registry g g' id false q = absurd cc

judged_refused :
    (p : Packages) (e : Engines) (event : Members) (found : Option RegisteredKey)
    → judged p e event true found ≡ some unknown_key
judged_refused p e event none = refl
judged_refused p e event (some entry) = refl

same_entries :
    (g : Registry) (key_id : Text) (k : Option Text)
    → entry_of (record g { revoked = add key_id g.revoked }) k ≡ entry_of g k
unfolding get_key
same_entries g key_id none = refl
same_entries g key_id (some id) = refl

still :
    (p : Packages) (e : Engines) (g : Registry) (key_id : Text) (stored : Members)
    → check_event p e (record g { revoked = add key_id g.revoked }) stored
      ≡ check_event p e g stored
unfolding check_event reject_reason
still p e g key_id stored =
    ap (λ x. is_none (judged p e stored false x))
      (same_entries g key_id (as_text (find_member Fields.key_id stored)))

-- Once a key is revoked, the host refuses every event under it as `unknown-key`, and the ledger
-- verifier's verdict on any event is what it was before.
pub revoke-verify :
    (p : Packages) (e : Engines) (g g' : Registry) (key_id : Text) (arriving stored : Members)
    → revoke g key_id ≡ ok g'
    → as_text (find_member Fields.key_id arriving) ≡ some key_id
    → (verify_arriving p e g' arriving ≡ some unknown_key)
      × (check_event p e g' stored ≡ check_event p e g stored)
unfolding revoke verify_arriving check_event reject_reason is_revoked get_key
revoke-verify p e g g' key_id arriving stored q named =
    let same = revoked_registry g g' key_id (is_some (lookup key_id g.keys)) q in
    let now = has-add_self key_id g.revoked in
    let gone : is_revoked g' key_id ≡ true =
      ap (λ (r : Registry). has key_id r.revoked) same ∙ now in
    (
      ap (λ k. judged p e arriving (not false && revoked_id g' k) (entry_of g' k)) named
          ∙ ap (λ b. judged p e arriving b (get_key g' key_id)) gone
          ∙ judged_refused p e arriving (get_key g' key_id),
      ap (λ r. check_event p e r stored) same ∙ still p e g key_id stored,
    )
