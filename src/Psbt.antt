-- ===== src/Psbt.antt =====
-- packages/bip341-psbt-signer/src/index.ts and apps/web/src/lib/psbt-signer.ts: reading and writing
-- partially signed transactions, their digest, and the merging of signatures.
pub mod Result
pub mod Hex
pub mod Reader
pub mod Parse
pub mod Serialize
pub mod Grammar
pub mod RoundTrip
pub mod Total
pub mod Sighash
pub mod Cosign
pub mod Sign
