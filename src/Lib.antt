-- ===== src/Lib.antt =====
-- The audit SDK's core: hash-chained ledgers, the host that seals events into them, the tool's session that
-- sends them, the keys and signatures of Level 2, and the offline verifier of a chain.
--
-- A host (src/host.ts, `AuditHost`) keeps the audit record of one partition. A tool sends it an attempt before
-- it acts and an outcome after; the host checks the event's shape against the wire schemas (src/models.ts), its
-- session, its signature under Level 2 and whether it is a replay, and seals it into the partition's ledger
-- (src/ledger.ts), a chain of records in which each carries the hash (src/hashing.ts) of the one before it, over
-- a canonical form of its event (src/canonical.ts). A verifier (src/verify.ts) checks such a chain afterwards
-- from its records alone, with the digest of its tail as an anchor. On the tool's side a session
-- (src/session.ts, `AmcpSession`) builds, numbers and signs the events of one call and hands them to a
-- transport, which src/in-process.ts connects to the host directly; it acts only on an accept that passes its
-- checks. Signatures are made and verified over a registry of public keys (src/l2).
--
-- Files, by the code they model:
--   Canonical, Canonical/Surrogates   src/canonical.ts: hasUnsafeNumber, hasLoneSurrogate, canonicalize,
--     sha256Hex, hashCanonical. A string is its list of UTF-16 code units.
--   Hashing   src/hashing.ts: GENESIS_HASH, computeRecordHash, countersignaturePayload. Hashing/Laws names what
--     is assumed of SHA-256 and of RFC 8785: a digest fixes the canonical text it is of, no digest is 64 zeros, and the canonical
--     form of a preimage fixes that of its members.
--   Fields, Reasons, Models, Models/Patterns, Models/Schema, Models/Earlier, Models/Responses   src/fields.ts,
--     src/reasons.ts and src/models.ts: the event schemas of each published version, with their patterns as regular
--     expressions, and those of the host's answers and of the audit members in _meta.
--   Ledger   src/ledger.ts: `Ledger` as a record, its methods as functions on it. Ledger/Chain says what a sound
--     chain is, Ledger/Tamper what its digest fixes.
--   Transport   src/transport.ts: the responses and `accept`.
--   Host/State, Host/Seal, Host/Admit, Host/Handlers, Host/Sessions   src/host.ts: the private fields as a record
--     `Host`; each method as a function from a host to a result and the host after it, so that what was written
--     before a throw stays written. Every entry point runs under the host's lock, so one call is one step. The
--     injected clock, verifier, countersigner and store are a record `World`, given anew to each call.
--   Host/Checks, Host/Frame, Host/Marks, Host/Sealing, Host/Invariant, Host/Sound, Host/Reached, Host/Verified, Host/Answers,
--     Host/Decisions, Host/Concluded, Host/Conclusions, Host/Closing   proofs about the host.
--   Verify/Inputs, Verify/Runs, Verify/Accounting, Verify/Step, Verify/Report   src/verify.ts: verifyChain and
--     verifyLedger, the loop as recursion on the records with the local variables as a record `Progress`;
--     unaccountedSignerSeq and missingRuns. Verify/Clean, Verify/Soundness, Verify/Verdict, Verify/Anchored,
--     Verify/Readable, Verify/Checked, Verify/Returns, Verify/Throws, Verify/Missing   proofs about them.
--   Base, Json   what the code takes from JavaScript: values, strings, maps and sets in insertion order,
--     regular expressions, exceptions.
--   Negotiation, Negotiation/Fit   src/capability.ts and src/degradation.ts: negotiate and transportFor.
--   Crypto/Base64, Crypto/SaltedHash   src/crypto/base64.ts and src/salted-hash.ts; proofs in Crypto/Base64/Laws
--     and Crypto/SaltedHash/Opening.
--   Session, Session/Construction, Session/Emission, Session/Acting, Session/Lifecycle   src/session.ts and
--     src/with-audit.ts: a method is a function on a state `Call`, the next signer_seq and the state of all
--     that is outside of the session; injected code is a record `Outside` of functions on that. Session/InProcess
--     src/in-process.ts, with the modelled host as the outside. Session/Cleared, Session/Returned,
--     Session/Precedence, Session/Disposal, Session/Numbers   proofs about them.
--   Level2/Keys, Level2/Jwk, Level2/Signing, Level2/Checking, Level2/Reconcile   src/l2/keys.ts, src/l2/jwk.ts,
--     src/l2/signing.ts, src/l2/verification.ts and src/l2/reconcile.ts; curves and signature engines are the records `Curves` and
--     `Engines`. Level2/Bound, Level2/Jwk/Read, Level2/Checking/Verified   proofs about them.
--   Mcp/Affinity, Mcp/Declaration   src/mcp/affinity.ts and src/mcp/declaration.ts; proofs in Mcp/Affinity/Tokens and
--     Mcp/Declaration/Declared. Mcp/Responses   a host's answers on the wire (src/transport.ts), and how a retry's
--     _meta answers the attempts of its round (src/mcp/seam.ts); its proofs in Mcp/Responses/Sent and
--     Mcp/Responses/Answered.
--   Mutex   src/mutex.ts: the lock as a step relation of its callers.
--   Storage   src/storage/memory.ts: the store in memory, against a list for each partition.
--   Samples, Tests   an instance of the packages, sample events, and runs on them.
--
-- Parameters: the serializer, SHA-256, the UTF-8 and hex codecs and the conversion of values to text are the
-- record `Packages`. There is no fuel: every loop is recursion on a list. A record's position is a
-- natural number; a stored signer_seq that is none is taken as missing. Numbers that the code compares are
-- natural numbers below 2 ^ 53 by the schemas; the model does not bound a ledger's length.
--
-- Not modelled: the wording of details and errors; the two calling forms that resolveInputs reads; PKCS#8
-- keys (a part of src/l2/keys.ts), the cloud signer (src/l2/adapters), the calls and rounds of the MCP
-- binding (the rest of src/mcp/seam.ts, and src/mcp/http.ts) and the Node runtime.
pub mod Base
pub mod Json
pub mod Fields
pub mod Canonical
pub mod Crypto
pub mod Models
pub mod Reasons
pub mod Hashing
pub mod Ledger
pub mod Verify
pub mod Transport
pub mod Host
pub mod Negotiation
pub mod Session
pub mod Level2
pub mod Mcp
pub mod Mutex
pub mod Storage
pub mod Samples
pub mod Tests
