-- ===== src/Tests.antt =====
-- Concrete vaults, spends and transactions, on which the theorems are applied.
mod Policy
mod Vault
mod Psbt
mod Signing
mod Publish
mod Outbox
mod Server
mod Proposals
mod Cosign
mod Requests
mod Roster
mod Named
