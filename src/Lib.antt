-- ===== src/Lib.antt =====
-- A verification library for DynastyTrust, a self-custody wallet for family vaults on Bitcoin.
--
-- The program's parts, and how they meet. A vault has a policy, which the policy engine validates
-- before it is compiled. A spend of the vault starts as a proposal; before a device signs, the
-- signing gate compares the spend with the ceremony that the bridge makes of the stored proposal,
-- and with the liveness of the family's circle, which the liveness assembler collects. The spend is
-- a partially signed transaction (PSBT), a hex text that every co-signer parses, checks against the
-- request, signs and serializes, and that is merged from the copies of all co-signers. The events
-- that tell the others of it wait in a durable queue, which a worker sends. Apart from the vault,
-- the publisher builds a transaction that puts data for a later recovery on the chain.
--
--   packages/policy-engine/src/index.ts            Policy: Types, Validate (validatePolicy), Gate
--                                                  (evaluateSigningGate), Bridge
--                                                  (ceremonyFromProposal)
--   apps/web/src/lib/liveness-gate.ts              Liveness (assembleLivenessGateInput)
--   packages/bip341-psbt-signer/src/index.ts       Psbt: Hex, Reader, Parse (parsePsbt), Serialize
--                                                  (serializePsbt), Sighash (tapscriptSighash)
--   apps/web/src/lib/psbt-signer.ts                Psbt/Sign (signPsbtWithMnemonic), Psbt/Cosign
--                                                  (countSignatures, verifyPsbtMatchesRequest,
--                                                  mergePsbts)
--   apps/web/src/lib/vault-spending-paths.ts       Paths (getSpendingPaths, findSpendingPath)
--   apps/web/src/lib/blocks.ts                     Blocks (blocDecayLadder)
--   apps/web/src/lib/nostrOutbox.ts                Outbox (enqueue, all, pending, markAttempt,
--                                                  markSent)
--   apps/web/src/lib/onchain-publish.ts            Publish (buildAndSignPublishTxFromKeypair)
--   apps/web/src/lib/nostrOutboxWorker.ts          Outbox (nextAttemptDue, attemptSend, scan)
--   netlify/functions/_vault-shape.js              Server/Shape (isLeafListVault, getSpendingPaths,
--                                                  findSpendingPath)
--   netlify/functions/_numeric.js                  Server/Numeric (checkNumberBounds)
--   netlify/functions/governance.js                Server/Governance: Status (jsGovernanceStatus,
--                                                  jsGovernanceStatusLeafList), Audit
--                                                  (jsGovernanceAudit, jsGovernanceAuditLeafList),
--                                                  Handler (handler)
--   netlify/functions/proposals.js                 Server/Proposals: Create (POST, GET), Patch
--                                                  (PATCH); Server/Store holds the tables
--   netlify/functions/psbt-merge.js                Server/Merge (handler); Server/Members says who is an
--                                                  active member
--   netlify/functions/signer-sessions.js           Server/Sessions (GET, POST)
--   netlify/functions/compile-leaves.js            Server/Compile (handler)
--   netlify/functions/_chain.js, _xpub.js          Server/Locks (the checks on locks and on keys)
--   netlify/functions/vault-requests.js            Server/Requests (GET, POST, PATCH)
--   netlify/functions/vaults-compile.js            Server/Roster (the roster of keys), Server/Draft
--                                                  (the named fields), Server/Named (handler)
--   netlify/functions/_auth.js                     Server/Http (the early returns of a handler)
--
-- The specifications stand beside the code's modules: Policy/Validate/WellFormed says when a policy
-- is well formed, the records of Policy/Gate/Allow when a spend is authorised, Psbt/Grammar what a
-- PSBT is as a tree of entries, Paths/Exact and Paths/Leaves which paths a row configures,
-- Server/Proposals/Ledger what a request may do to a proposal, Server/Requests/Workflow the states of
-- a distribution request. Tests applies the theorems to concrete data, and Prelude holds the shared
-- lists, tests and texts.
--
-- How values are modelled. Interfaces are records with the source's fields, unions are data types,
-- an optional or nullable field is an `Option`, and an array that is absent until its first push is
-- the empty list. Thresholds, timelock values and required greens are integers, since the code tests
-- their sign; amounts, times, quorums and block counts are natural numbers, without the fractions,
-- NaN and rounding of JavaScript's numbers. Texts of the policy engine are strings with their
-- equality; a hex text is the list of its UTF-16 code units. A `Uint8Array` is the list of its
-- bytes, and an offset into a buffer is the rest of the buffer from there on, so that the numbers
-- in the messages of `assertInBounds` are left out. What is thrown is a constructor of `Psbt.Error`.
--
-- Bounds and fuel. The loops over a section have the length of the rest plus one as fuel, enough
-- since a round takes a byte at least; the loop that strips entries has the length of the section,
-- the ladder any number of rounds that it is given, a scan of the queue a round for
-- each row, and the decimal text of a number the number plus one. Running out is a value of its
-- own in the parser and the ladder (`out_of_fuel`, `none`), which no code of the source gives; the
-- ladder's quorums are any numbers from 0 on, and NaN, for some of which its loop never ends. A
-- PSBT is read up to 2,000,000 bytes, as in the source; a serialized signature's length is below 2
-- ^ 32, beyond which the source's `varint` does not go.
--
-- A handler of the server is a chain of checks that ends with a refusal, a status and a message, or
-- goes on to one write of the database. A field of a request that the code tests is a value of
-- JavaScript, a number of which is NaN, infinite, whole or between two whole numbers. Reads of the
-- database do not fail; the error of a write is a parameter. The requests of a run are served one
-- after the other.
--
-- Parameters: SHA-256, the derivation of keys and the Schnorr signature, the Bitcoin library of the
-- publisher, the decoding of an address into its output script, the attestation library's
-- `livenessStateFor` (one theorem uses the documented fact that nobody is green without a proof of
-- life), the transport's answers, what the sign-in, the compiler service and the chain's explorer
-- answer to a request, and the clock with the texts of its times (one theorem uses that they parse
-- back). An attempt on the queue is one step of its storage, and the attempts of a scan follow each
-- other. An enqueue is split in Outbox/Steps, so that other steps come between the storing of its row,
-- the reading of the index and its writing; that two enqueues overlap at the index is left out there.
--
-- Not modelled: the pages and components, the other server functions, the database itself, the Rust
-- crates and the device application, which are in other languages or only show what the core
-- computes; tapit-attest, packages/nip44 and packages/nostr-transport, copies of other projects'
-- libraries; the keystore, the recovery tools and chain access, which rest on the
-- browser's cryptography and on the network.
pub mod Prelude
pub mod Policy
pub mod Liveness
pub mod Blocks
pub mod Paths
pub mod Psbt
pub mod Outbox
pub mod Publish
pub mod Server
pub mod Tests
