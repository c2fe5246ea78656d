-- ===== src/Server/Governance/Handler.antt =====
-- netlify/functions/governance.js: the handler of POST /api/governance. The signed-in user, the
-- database's answer and the compiler service are parameters; the compiler's answers are of any type.
pub mod Checked
use dynastytrust.Prelude.{
  ℕ, String, ◌⧺◌, Bool, true, false, pos, negsuc, ◌==◌, Option, none, some, List, [], length,
  if◌then◌else◌, str_eq,
}
use dynastytrust.Server.Http.{
  Outcome, refused, done, ◌>>=◌, ◌>>◌, no_error, found, truthy, require_user,
}
use dynastytrust.Paths.{VaultShape, or_else}
use dynastytrust.Server.Shape.{is_leaf_list_vault}
use dynastytrust.Server.Numeric.{
  NumberBounds, Value, undefined, null_value, structure, boolean, text, number, nan, infinity,
  minus_infinity, whole, fraction, check_number_bounds, amount_bounds, count_of,
}
use dynastytrust.Server.Governance.{BasePolicy, SpendDraft, Signer, AuditResult}
use dynastytrust.Server.Governance.Status.{
  StatusResult, LeafListStatus, js_governance_status, js_governance_status_leaf_list,
}
use dynastytrust.Server.Governance.Audit.{js_governance_audit, js_governance_audit_leaf_list}

-- The parsed body. An absent text counts as the empty one where the code tests `!text`.
pub record GovernanceBody : Type 0 where
  pub action : Option String
  pub vault_id : Option String
  pub path : Option String
  pub amount_sats : Value
  pub destination : Option String
  pub utxo_age_blocks : Value
  pub total_vault_sats : Value
  pub signers : Option (List Signer)

pub record VaultRow : Type 0 where
  pub name : String
  pub shape : VaultShape

-- What the services answer: the user's id or the error of the sign-in, the vault that has the id and
-- the owner, and the compiler, if one is configured, whose call may fail.
pub record Services {ℓ} (Compiled : Type ℓ) : Type ℓ where
  pub user : Option String
  pub vault_of : String → String → Option VaultRow
  pub compiler_status : Option (BasePolicy × ℕ → Option Compiled)
  pub compiler_audit : Option (BasePolicy × SpendDraft → Option Compiled)

-- The `result` of an answer, with its mark `fallback`; the vault's name beside it is left out.
pub data GovernanceAnswer {ℓ} (Compiled : Type ℓ) : Type ℓ where
  status : StatusResult → Bool → GovernanceAnswer Compiled
  leaf_status : LeafListStatus → GovernanceAnswer Compiled
  audit : AuditResult → Bool → GovernanceAnswer Compiled
  compiled : Compiled → GovernanceAnswer Compiled

abbrev pub text_or : Option String → String → String
text_or none otherwise = otherwise
text_or (some s) otherwise = s

abbrev pub height_bounds : String → NumberBounds
height_bounds field = amount_bounds field 0

-- `field = 0` of the destructuring, and the check that is left out for 0 itself.
abbrev pub or_zero : Value → Value
or_zero undefined = number (whole (pos 0))
or_zero null_value = null_value
or_zero structure = structure
or_zero (boolean b) = boolean b
or_zero (text t) = text t
or_zero (number n) = number n

abbrev pub is_zero : Value → Bool
is_zero (number (whole (pos n))) = n == 0
is_zero (number (whole (negsuc n))) = false
is_zero (number (fraction z)) = false
is_zero (number nan) = false
is_zero (number infinity) = false
is_zero (number minus_infinity) = false
is_zero undefined = false
is_zero null_value = false
is_zero structure = false
is_zero (boolean b) = false
is_zero (text t) = false

abbrev pub check_unless_zero : Value → String → Option String
check_unless_zero value field =
    if is_zero value then none else check_number_bounds value (height_bounds field)

abbrev pub policy_base : VaultShape → BasePolicy
policy_base vault = record {
  founder_quorum = or_else vault.founder_quorum 0;
  founder_key_count = length (or_else vault.founder_keys []);
  heir_quorum = or_else vault.heir_quorum 0;
  heir_key_count = length (or_else vault.heir_keys []);
  recovery_after = or_else vault.recovery_after 0;
  inheritance_after = or_else vault.inheritance_after 0;
}

-- The compiler's answer, or the server's own with the mark `fallback`, also where no compiler is
-- configured (the mark is then left out).
abbrev pub compiled_or {ℓ} :
    {C : Type ℓ} → Option (Option C) → (Bool → GovernanceAnswer C) → GovernanceAnswer C
compiled_or none own = own false
compiled_or (some none) own = own true
compiled_or (some (some result)) own = GovernanceAnswer.compiled result

abbrev pub call {ℓ} : {F : Type 0} {C : Type ℓ} → Option (F → Option C) → F → Option (Option C)
call none input = none
call (some service) input = some (service input)

unfoldable pub draft_of : GovernanceBody → String → SpendDraft
draft_of body destination = record {
  path = text_or body.path "founders_now";
  amount_sats = count_of body.amount_sats;
  destination = destination;
  utxo_age_blocks = count_of (or_zero body.utxo_age_blocks);
  total_vault_sats = count_of (or_zero body.total_vault_sats);
  signers = or_else body.signers [];
}

module _ {ℓ} {Compiled : Type ℓ} where
  unfoldable pub status_of : Services Compiled → VaultRow → ℕ → GovernanceAnswer Compiled
  status_of services vault height =
      if is_leaf_list_vault vault.shape
      then GovernanceAnswer.leaf_status (js_governance_status_leaf_list vault.shape height)
      else compiled_or (call services.compiler_status (policy_base vault.shape, height))
          (GovernanceAnswer.status (js_governance_status (policy_base vault.shape) height))

  unfoldable pub status_action :
      Services Compiled → VaultRow → GovernanceBody → Outcome (GovernanceAnswer Compiled)
  status_action services vault body = do
    no_error (check_unless_zero (or_zero body.utxo_age_blocks) "utxo_age_blocks") 400
    done (status_of services vault (count_of (or_zero body.utxo_age_blocks)))

  unfoldable pub audit_of : Services Compiled → VaultRow → SpendDraft → GovernanceAnswer Compiled
  audit_of services vault draft =
      if is_leaf_list_vault vault.shape
      then GovernanceAnswer.audit (js_governance_audit_leaf_list vault.shape draft) false
      else compiled_or (call services.compiler_audit (policy_base vault.shape, draft))
          (GovernanceAnswer.audit (js_governance_audit (policy_base vault.shape) draft))

  unfoldable pub audit_action :
      Services Compiled → VaultRow → GovernanceBody → Outcome (GovernanceAnswer Compiled)
  audit_action services vault body = do
    no_error (check_number_bounds body.amount_sats (amount_bounds "amount_sats" 546)) 400
    destination ← found (truthy body.destination) 400 "Missing: destination"
    no_error (check_unless_zero (or_zero body.utxo_age_blocks) "utxo_age_blocks") 400
    no_error (check_unless_zero (or_zero body.total_vault_sats) "total_vault_sats") 400
    done (audit_of services vault (draft_of body destination))

  unfoldable pub route :
      Services Compiled → VaultRow → GovernanceBody → String → Outcome (GovernanceAnswer Compiled)
  route services vault body action =
      if str_eq action "status"
      then status_action services vault body
      else if str_eq action "audit"
      then audit_action services vault body
      else refused 400 ("Unknown action: " ⧺ (action ⧺ ". Use \"status\" or \"audit\""))

  -- The handler of a POST request whose body is JSON.
  unfoldable pub governance_handler :
      Services Compiled → GovernanceBody → Outcome (GovernanceAnswer Compiled)
  governance_handler services body = do
    user ← require_user services.user
    action ← found (truthy body.action) 400 "Missing: action (\"status\" or \"audit\")"
    vault_id ← found (truthy body.vault_id) 400 "Missing: vault_id"
    vault ← found (services.vault_of vault_id user) 404 "Vault not found"
    route services vault body action
