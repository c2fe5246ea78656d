-- ===== src/Policy/Validate.antt =====
-- packages/policy-engine/src/index.ts, `validatePolicy`: the loops in source order, each appending to the errors or the warnings.
pub mod WellFormed
pub mod Exact
use dynastytrust.Prelude.{
  pos, String, Bool, true, false, ◌&&◌, ◌||◌, not, Option, none, some, List, [], ◌∷◌, ◌++◌, length,
  any, every, find, if◌then◌else◌, ltb, ltb_ℤ, eq_ℤ, ◌==◌, str_eq, ◌⧺◌,
}
use dynastytrust.Policy.Messages.{when, is_empty}
use dynastytrust.Policy.Types.{
  Network, testnet, mainnet, KeyOrigin, software, PolicyMember, PolicyKeyRef, TimeConstraint,
  PolicyPath, normal, emergency, inheritance, path_id, threshold, key_ids, VaultPolicy, Code,
  unknown_member, network_mismatch, no_paths, invalid_threshold, threshold_exceeds_keys,
  duplicate_key_in_path, unknown_key, inactive_member_key, missing_inheritance_timelock,
  invalid_timelock, no_emergency_path, no_inheritance_path, all_software_keys,
  one_person_controls_all_keys, single_sig_policy, ValidationMessage, PolicyValidationResult,
}

abbrev msg : Code → String → String → ValidationMessage
msg c f m = record { code = c; field = some f; message = m }

abbrev pub network_eq : Network → Network → Bool
network_eq testnet testnet = true
network_eq mainnet mainnet = true
network_eq _ _ = false

abbrev pub is_software : KeyOrigin → Bool
is_software software = true
is_software _ = false

-- `memberIds.has(id)`.
pub has_member : String → List PolicyMember → Bool
has_member id [] = false
has_member id (m ∷ ms) = str_eq m.member_id id || has_member id ms

-- `members.find(m => m.memberId === id)`: the first member with the id.
pub find_member : String → List PolicyMember → Option PolicyMember
find_member id [] = none
find_member id (m ∷ ms) = if str_eq m.member_id id then some m else find_member id ms

-- `keyMap.get(id)`: the map is built in order, so that the last key with an id is the one found.
pub find_key : String → List PolicyKeyRef → Option PolicyKeyRef
find_key id [] = none
find_key id (k ∷ ks) = elim (find_key id ks) [
  | some later ↦ some later
  | none ↦ if str_eq k.key_id id then some k else none
]

-- `key.network && key.network !== policy.network`
abbrev pub other_network : Network → Option Network → Bool
other_network net none = false
other_network net (some n) = not (network_eq n net)

pub key_errors : VaultPolicy → List PolicyKeyRef → List ValidationMessage
key_errors policy [] = []
key_errors policy (key ∷ keys) =
    when (not (has_member key.member_id policy.members)) (
      msg unknown_member ("keys." ⧺ key.key_id ⧺ ".memberId")
        ("Missing member " ⧺ key.member_id ⧺ " for key " ⧺ key.key_id ⧺ "."))
    ++ (when (other_network policy.network key.network) (
          msg network_mismatch ("keys." ⧺ key.key_id ⧺ ".network")
            ("Key " ⧺ key.key_id ⧺ " network does not match policy network."))
        ++ key_errors policy keys)

-- `member?.active`
abbrev pub active : Option PolicyMember → Bool
active none = false
active (some m) = m.active

abbrev keys_field : PolicyPath → String
keys_field path = "paths." ⧺ path_id path ⧺ ".keyIds"

-- The body of the loop over `path.keyIds`, behind the duplicate check; the absent key continues.
pub reference_errors :
    VaultPolicy → PolicyPath → String → Option PolicyKeyRef → List ValidationMessage
reference_errors policy path key_id none =
    msg unknown_key (keys_field path)
      ("Path " ⧺ path_id path ⧺ " references missing key " ⧺ key_id ⧺ ".")
    ∷ []
reference_errors policy path key_id (some key) =
    when (not (active (find_member key.member_id policy.members))) (
      msg inactive_member_key (keys_field path)
        ("Path " ⧺ path_id path ⧺ " uses inactive member key " ⧺ key_id ⧺ "."))

pub has : String → List String → Bool
has s [] = false
has s (x ∷ xs) = str_eq x s || has s xs

-- `seen` holds the ids before this one.
pub key_id_errors : VaultPolicy → PolicyPath → List String → List String → List ValidationMessage
key_id_errors policy path seen [] = []
key_id_errors policy path seen (key_id ∷ ids) =
    when (has key_id seen) (
      msg duplicate_key_in_path (keys_field path)
        ("Path " ⧺ path_id path ⧺ " duplicates key " ⧺ key_id ⧺ "."))
    ++ (reference_errors policy path key_id (find_key key_id policy.keys)
        ++ key_id_errors policy path (key_id ∷ seen) ids)

-- `timelock.value <= 0`
abbrev pub not_positive : TimeConstraint → Bool
not_positive t = not (ltb_ℤ (pos 0) t.value)

abbrev pub timelock_missing : Option TimeConstraint → Bool
timelock_missing none = true
timelock_missing (some t) = not_positive t

abbrev pub timelock_invalid : Option TimeConstraint → Bool
timelock_invalid none = false
timelock_invalid (some t) = not_positive t

abbrev timelock_field : PolicyPath → String
timelock_field path = "paths." ⧺ path_id path ⧺ ".timelock"

pub timelock_errors : PolicyPath → List ValidationMessage
timelock_errors (normal p) = []
timelock_errors (emergency p) = when (timelock_invalid p.timelock) (
    msg invalid_timelock (timelock_field (emergency p))
      ("Emergency path " ⧺ p.path_id ⧺ " timelock must be positive."))
timelock_errors (inheritance p) = when (timelock_missing p.timelock) (
    msg missing_inheritance_timelock (timelock_field (inheritance p))
      ("Inheritance path " ⧺ p.path_id ⧺ " needs a valid timelock."))

abbrev threshold_field : PolicyPath → String
threshold_field path = "paths." ⧺ path_id path ⧺ ".threshold"

pub threshold_errors : PolicyPath → List ValidationMessage
threshold_errors path =
    when (ltb_ℤ (threshold path) (pos 1)) (
      msg invalid_threshold (threshold_field path)
        ("Path " ⧺ path_id path ⧺ " threshold must be positive."))
    ++ when (ltb_ℤ (pos (length (key_ids path))) (threshold path)) (
        msg threshold_exceeds_keys (threshold_field path)
          ("Path " ⧺ path_id path ⧺ " threshold exceeds available keys."))

pub path_errors : VaultPolicy → List PolicyPath → List ValidationMessage
path_errors policy [] = []
path_errors policy (path ∷ paths) =
    threshold_errors path
    ++ (key_id_errors policy path [] (key_ids path)
        ++ (timelock_errors path ++ path_errors policy paths))

abbrev pub is_emergency : PolicyPath → Bool
is_emergency (emergency p) = true
is_emergency _ = false

abbrev pub is_inheritance : PolicyPath → Bool
is_inheritance (inheritance p) = true
is_inheritance _ = false

-- `p.kind === 'normal' && p.threshold === 1 && p.keyIds.length === 1`
abbrev pub is_one_of_one : PolicyPath → Bool
is_one_of_one (normal p) = eq_ℤ p.threshold (pos 1) && length p.key_ids == 1
is_one_of_one _ = false

pub single_sig_warning : Option PolicyPath → List ValidationMessage
single_sig_warning none = []
single_sig_warning (some path) =
    msg single_sig_policy ("paths." ⧺ path_id path) "The normal path is effectively 1-of-1." ∷ []

pub policy_warnings : VaultPolicy → List ValidationMessage
policy_warnings policy =
    when (not (any is_emergency policy.paths))
      (msg no_emergency_path "paths" "No emergency path is defined yet.")
    ++ (when (not (any is_inheritance policy.paths))
          (msg no_inheritance_path "paths" "No inheritance path is defined yet.")
        ++ (when (ltb 0 (length policy.keys) && every (λ k. is_software k.origin) policy.keys)
              (msg all_software_keys "keys" "All current keys are software keys.")
            ++ (when (length policy.members == 1 && ltb 0 (length policy.keys)) (
                  msg one_person_controls_all_keys "members"
                    "One person appears to control every key.")
                ++ single_sig_warning (find is_one_of_one policy.paths))))

pub policy_errors : VaultPolicy → List ValidationMessage
policy_errors policy =
    key_errors policy policy.keys
    ++ (when (length policy.paths == 0) (msg no_paths "paths" "At least one path is required.")
        ++ path_errors policy policy.paths)

unfoldable pub validate_policy : VaultPolicy → PolicyValidationResult
unfolding policy_errors policy_warnings
validate_policy policy = record {
  ok = is_empty (policy_errors policy);
  errors = policy_errors policy;
  warnings = policy_warnings policy;
}
