-- ===== src/Tests/Policy.antt =====
-- A family's policy and a spend of its vault: packages/policy-engine/src/index.ts on concrete data.
use dynastytrust.Prelude.{
  ℕ, pos, String, true, false, Option, none, some, [], ◌∷◌, ◌≡◌, ◌↔◌, refl, str_eq, if◌then◌else◌,
}
use dynastytrust.Policy.Types.{
  testnet, software, hardware, owner, spouse, primary, PolicyMember, PolicyKeyRef, relative, normal,
  inheritance, VaultPolicy,
}
use dynastytrust.Policy.Validate.{validate_policy}
use dynastytrust.Policy.Validate.WellFormed.{IsWellFormed}
use dynastytrust.Policy.Validate.Exact.{validate_policy_iff}
use dynastytrust.Policy.Gate.{
  LivenessState, green, no_report, SigningGateInput, evaluate_signing_gate, binding_denials,
  state_denials, liveness_denials, count_states, gate_denials,
}
use dynastytrust.Policy.Gate.Allow.{IsAuthorised, evaluate_signing_gate_iff}
use dynastytrust.Policy.Bridge.{CeremonyBridgeInput, map_proposal_status, ceremony_from_proposal}
use dynastytrust.Policy.Bridge.Faithful.{Sanctions, ceremony_from_proposal-Sanctions}
use dynastytrust.Liveness.{VaultLivenessConfig, Attest, assemble_liveness_gate_input}
use dynastytrust.Liveness.Quorum.{Quorum, SilentIsNotGreen, assemble-Quorum}

abbrev ana : PolicyMember
ana = record { member_id = "ana"; display_name = "Ana"; role = owner; active = true }

abbrev ben : PolicyMember
ben = record { member_id = "ben"; display_name = "Ben"; role = spouse; active = true }

abbrev ana_key : PolicyKeyRef
ana_key = record {
  key_id = "k1";
  member_id = "ana";
  label = "Ana's phone";
  origin = software;
  purpose = primary;
  network = some testnet;
}

abbrev ben_key : PolicyKeyRef
ben_key = record {
  key_id = "k2";
  member_id = "ben";
  label = "Ben's device";
  origin = hardware;
  purpose = primary;
  network = none;
}

abbrev family : VaultPolicy
family = record {
  policy_id = "p";
  name = "Family";
  network = testnet;
  members = ana ∷ ben ∷ [];
  keys = ana_key ∷ ben_key ∷ [];
  paths =
      normal (record {
        path_id = "now";
        threshold = pos 2;
        key_ids = "k1" ∷ "k2" ∷ [];
        constraints = none;
      })
      ∷ inheritance (record {
        path_id = "later";
        threshold = pos 1;
        key_ids = "k2" ∷ [];
        timelock = some (record { type = relative; value = pos 52560 });
        constraints = none;
      })
      ∷ [];
  rules = record {
    allow_key_replacement = true;
    allow_threshold_change = false;
    require_audit_trail = true;
    require_human_summary = true;
    test_mode = true;
  };
  metadata = none;
}

validate_policy_iff_example : ((validate_policy family).ok ≡ true) ↔ IsWellFormed family
validate_policy_iff_example = validate_policy_iff family

abbrev proposal : CeremonyBridgeInput
proposal = record {
  proposal = record {
    proposal_id = "prop";
    vault_id = "v";
    status = "pending";
    destination = "tb1q";
    amount_sats = 50000;
    path = "now";
  };
  authorized_psbt_hash = "abcd";
  duress = false;
  expires_at = some 2000;
}

-- A library in which a proof of life is the time at which it was made.
abbrev clock : Attest
clock = record {
  ProofOfLife = ℕ;
  DuressFlag = String;
  liveness_state_for = λ subject group proof flags ttl now. fresh proof;
}
  where
    fresh : Option ℕ → LivenessState
    fresh none = no_report
    fresh (some t) = green

abbrev circle : VaultLivenessConfig
circle = record {
  circle = "ana" ∷ "ben" ∷ [];
  required_green_by_path = λ path. some (pos 1);
  ttl_seconds = 3600;
}

abbrev only_ana : String → Option ℕ
only_ana x = if str_eq x "ana" then some 7 else none

abbrev spend : SigningGateInput
spend = record {
  request = record {
    vault_id = "v";
    psbt_hash = "abcd";
    destination = "tb1q";
    amount_sats = 50000;
    path = "now";
  };
  ceremony = some (ceremony_from_proposal proposal);
  vault = record { vault_id = "v"; address = "tb1p" };
  psbt_binds_to_vault = true;
  governance_approved = some true;
  liveness = assemble_liveness_gate_input clock circle "now" only_ana [] none;
}

evaluate_signing_gate_iff_example :
    ((evaluate_signing_gate spend 1000).allow ≡ true) ↔ IsAuthorised spend 1000
evaluate_signing_gate_iff_example = evaluate_signing_gate_iff spend 1000

spend_allowed : (evaluate_signing_gate spend 1000).allow ≡ true
unfolding evaluate_signing_gate binding_denials state_denials liveness_denials count_states
    gate_denials ceremony_from_proposal map_proposal_status assemble_liveness_gate_input
spend_allowed = refl

ceremony_from_proposal-Sanctions_example : Sanctions proposal spend
ceremony_from_proposal-Sanctions_example =
    ceremony_from_proposal-Sanctions proposal spend 1000 refl spend_allowed

silent : SilentIsNotGreen clock
silent subject group flags ttl now = λ e. cc

assemble-Quorum_example : Quorum clock circle only_ana [] none (pos 1)
assemble-Quorum_example =
    assemble-Quorum clock silent circle "now" only_ana [] none (pos 1) spend 1000 refl refl
      spend_allowed
