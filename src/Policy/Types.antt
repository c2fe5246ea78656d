-- ===== src/Policy/Types.antt =====
-- The types of the policy engine. Optional fields are `Option`; thresholds and timelock values are
-- integers, since the validator tests their sign.
use dynastytrust.Prelude.{ℕ, ℤ, String, Bool, Option, List}

pub data Network : Type 0 where
  testnet mainnet : Network

pub data KeyOrigin : Type 0 where
  software hardware imported_xpub : KeyOrigin

pub data MemberRole : Type 0 where
  owner spouse child trustee executor guardian observer : MemberRole

pub data KeyPurpose : Type 0 where
  primary backup recovery : KeyPurpose

pub record PolicyMember : Type 0 where
  pub member_id : String
  pub display_name : String
  pub role : MemberRole
  pub active : Bool

pub record PolicyKeyRef : Type 0 where
  pub key_id : String
  pub member_id : String
  pub label : String
  pub origin : KeyOrigin
  pub purpose : KeyPurpose
  pub network : Option Network

pub data TimeKind : Type 0 where
  relative absolute : TimeKind

pub record TimeConstraint : Type 0 where
  pub type : TimeKind
  pub value : ℤ

pub data PathConstraint : Type 0 where
  max_amount cooldown notice_period : ℕ → PathConstraint

pub data EmergencyAction : Type 0 where
  move_to_new_vault sweep_to_safe_address : EmergencyAction

pub record NormalPath : Type 0 where
  pub path_id : String
  pub threshold : ℤ
  pub key_ids : List String
  pub constraints : Option (List PathConstraint)

pub record EmergencyPath : Type 0 where
  pub path_id : String
  pub threshold : ℤ
  pub key_ids : List String
  pub timelock : Option TimeConstraint
  pub action : EmergencyAction
  pub constraints : Option (List PathConstraint)

-- The validator allows for a policy, read from storage, whose timelock is missing.
pub record InheritancePath : Type 0 where
  pub path_id : String
  pub threshold : ℤ
  pub key_ids : List String
  pub timelock : Option TimeConstraint
  pub constraints : Option (List PathConstraint)

pub data PolicyPath : Type 0 where
  normal : NormalPath → PolicyPath
  emergency : EmergencyPath → PolicyPath
  inheritance : InheritancePath → PolicyPath

abbrev pub path_id : PolicyPath → String
path_id (normal p) = p.path_id
path_id (emergency p) = p.path_id
path_id (inheritance p) = p.path_id

abbrev pub threshold : PolicyPath → ℤ
threshold (normal p) = p.threshold
threshold (emergency p) = p.threshold
threshold (inheritance p) = p.threshold

abbrev pub key_ids : PolicyPath → List String
key_ids (normal p) = p.key_ids
key_ids (emergency p) = p.key_ids
key_ids (inheritance p) = p.key_ids

pub record PolicyRules : Type 0 where
  pub allow_key_replacement : Bool
  pub allow_threshold_change : Bool
  pub require_audit_trail : Bool
  pub require_human_summary : Bool
  pub test_mode : Bool

-- `version` is always 1, and is left out.
pub record VaultPolicy : Type 0 where
  pub policy_id : String
  pub name : String
  pub network : Network
  pub members : List PolicyMember
  pub keys : List PolicyKeyRef
  pub paths : List PolicyPath
  pub rules : PolicyRules
  pub metadata : Option (List (String × String))

-- One constructor for each literal that the engine writes into `code`.
pub data Code : Type 0 where
  unknown_member network_mismatch no_paths invalid_threshold threshold_exceeds_keys : Code
  duplicate_key_in_path unknown_key inactive_member_key : Code
  missing_inheritance_timelock invalid_timelock : Code
  no_emergency_path no_inheritance_path all_software_keys : Code
  one_person_controls_all_keys single_sig_policy : Code
  no_ceremony psbt_not_bound vault_mismatch psbt_hash_mismatch destination_mismatch : Code
  amount_mismatch path_mismatch ceremony_not_signable duress_hold ceremony_expired : Code
  governance_rejected liveness_red liveness_not_green : Code

pub record ValidationMessage : Type 0 where
  pub code : Code
  pub field : Option String
  pub message : String

pub record PolicyValidationResult : Type 0 where
  pub ok : Bool
  pub errors : List ValidationMessage
  pub warnings : List ValidationMessage
