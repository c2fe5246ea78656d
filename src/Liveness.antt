-- ===== src/Liveness.antt =====
-- apps/web/src/lib/liveness-gate.ts: from a vault's liveness configuration and the circle's signals
-- to the liveness input of the signing gate. The state of one member comes from the attestation
-- library, whose types and function are parameters.
pub mod Quorum
use dynastytrust.Prelude.{ℕ, ℤ, String, Option, none, some, List, map}
use dynastytrust.Policy.Gate.{LivenessState, LivenessInput}

-- `requiredGreenByPath[path]` is undefined for a path without a requirement.
pub record VaultLivenessConfig : Type 0 where
  pub circle : List String
  pub required_green_by_path : String → Option ℤ
  pub ttl_seconds : ℕ

-- What the code uses of the attestation library: the call `livenessStateFor` with its named
-- arguments in order, subject, group, proofOfLife, redFlags, ttlSeconds, now.
pub record Attest : Type 1 where
  pub ProofOfLife : Type 0
  pub DuressFlag : Type 0
  pub liveness_state_for :
      String → List String → Option ProofOfLife → List DuressFlag → ℕ → Option ℕ → LivenessState

module _ (lib : Attest) where
  open lib use {ProofOfLife, DuressFlag, liveness_state_for}

  -- The state that the assembler asks for, of one member of the circle.
  abbrev pub member_state :
      VaultLivenessConfig
      → (String → Option ProofOfLife)
      → List DuressFlag
      → Option ℕ
      → String
      → LivenessState
  member_state config proofs red_flags now subject =
      liveness_state_for subject config.circle (proofs subject) red_flags config.ttl_seconds now

  assemble :
      VaultLivenessConfig
      → (String → Option ProofOfLife)
      → List DuressFlag
      → Option ℕ
      → Option ℤ
      → Option LivenessInput
  assemble config proofs red_flags now none = none
  assemble config proofs red_flags now (some required_green) = some (record {
    member_states = map (member_state config proofs red_flags now) config.circle;
    required_green = required_green;
  })

  unfoldable pub assemble_liveness_gate_input :
      VaultLivenessConfig
      → String
      → (String → Option ProofOfLife)
      → List DuressFlag
      → Option ℕ
      → Option LivenessInput
  unfolding assemble
  assemble_liveness_gate_input config path proofs red_flags now =
      assemble config proofs red_flags now (config.required_green_by_path path)
