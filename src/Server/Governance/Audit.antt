-- ===== src/Server/Governance/Audit.antt =====
-- netlify/functions/governance.js: jsGovernanceAudit and jsGovernanceAuditLeafList, the audit of a
-- proposed spend.
pub mod Approved
pub mod Leaves
use dynastytrust.Prelude.{
  ℕ, ◌-◌, ◌*◌, String, ◌⧺◌, decimal, Bool, true, false, ◌&&◌, not, Option, none, some, List, [],
  ◌∷◌, ◌++◌, ltb, leb, if◌then◌else◌, str_eq,
}
use dynastytrust.Paths.{VaultShape, SpendingPathSummary, UnlockType}
use dynastytrust.Server.Shape.{find_spending_path}
use dynastytrust.Server.Governance.{
  Severity, Remark, BasePolicy, SpendDraft, AuditResult, signed_count, pending_indices, remark,
  remark_if, timelock_remark, quorum_remark, dust_remark, balance_remark, large_spend_remark,
  first_detail, detail_of_first, head_of, waiting_for, is_empty,
}

-- Amount against dust and balance, as both audits test it.
abbrev pub amount_violations : SpendDraft → List Remark
amount_violations draft =
    remark_if (ltb draft.amount_sats 546) (dust_remark draft.amount_sats)
    ++ remark_if (ltb draft.total_vault_sats draft.amount_sats)
        (balance_remark draft.amount_sats draft.total_vault_sats)

-- `amount > total / 2`, without the fraction.
abbrev pub large_spend_warnings : SpendDraft → List Remark
large_spend_warnings draft =
    remark_if (ltb 0 draft.total_vault_sats && ltb draft.total_vault_sats (2 * draft.amount_sats))
      (large_spend_remark draft.amount_sats draft.total_vault_sats)

-- Every name but two has the inheritance height.
unfoldable pub timelock_ok : BasePolicy → String → ℕ → Bool
timelock_ok policy path height =
    if str_eq path "founders_now"
    then true
    else if str_eq path "recovery"
    then ltb 0 policy.recovery_after && leb policy.recovery_after height
    else leb policy.inheritance_after height

unfoldable pub required_quorum : BasePolicy → String → ℕ
required_quorum policy path =
    if str_eq path "inheritance" then policy.heir_quorum else policy.founder_quorum

-- Reported for a locked path only, so that the differences are positive.
abbrev pub locked_remark : BasePolicy → SpendDraft → Remark
locked_remark policy draft =
    if str_eq draft.path "recovery" && not (ltb 0 policy.recovery_after)
    then remark "GOV-001" "Timelock not satisfied" Severity.hard
        "This vault has no separate recovery path -- founders spend via Founders Now at any time."
    else timelock_remark draft.utxo_age_blocks
        (if str_eq draft.path "recovery" then policy.recovery_after else policy.inheritance_after)

unfoldable pub audit_violations : BasePolicy → SpendDraft → List Remark
audit_violations policy draft =
    let required = required_quorum policy draft.path in
    let signed = signed_count draft.signers in
    remark_if (not (timelock_ok policy draft.path draft.utxo_age_blocks))
      (locked_remark policy draft)
    ++ (remark_if (not (leb required signed)) (quorum_remark required signed)
        ++ amount_violations draft)

unfoldable pub js_governance_audit : BasePolicy → SpendDraft → AuditResult
js_governance_audit policy draft =
    let open_now = timelock_ok policy draft.path draft.utxo_age_blocks in
    let required = required_quorum policy draft.path in
    let signed = signed_count draft.signers in
    let quorum_ok = leb required signed in
    let violations = audit_violations policy draft in
    let pending = pending_indices draft.signers in
    record {
      audit = record {
        violations = violations;
        warnings = large_spend_warnings draft;
        notes = remark_if (str_eq draft.path "inheritance") (
            remark "GOV-006" "Inheritance path active" Severity.info
              "This spend uses the heir inheritance path.");
        approved = is_empty violations;
      };
      evaluation = record {
        allowed = open_now && quorum_ok;
        path = draft.path;
        required_signers = required;
        provided_signers = signed;
        missing_signers = required - signed;
        timelock_satisfied = open_now;
        quorum_satisfied = quorum_ok;
        pending_signer_indices = pending;
        reason = first_detail violations (
            "Valid. "
            ⧺ (decimal signed ⧺ (" of " ⧺ (decimal required ⧺ " signatures collected."))));
      };
      next_action = record {
        ready_to_broadcast = open_now && quorum_ok;
        signer_index = head_of pending;
        instruction =
            if open_now && quorum_ok
            then some "All signatures collected. Ready to broadcast."
            else if not open_now
            then detail_of_first violations
            else some (waiting_for pending);
      };
    }

-- The lock of the path that was found; nothing is open where none was.
abbrev pub leaf_opens : UnlockType → ℕ → ℕ → Bool
leaf_opens UnlockType.immediate unlock_blocks height = true
leaf_opens UnlockType.after unlock_blocks height = leb unlock_blocks height
leaf_opens UnlockType.older unlock_blocks height = false

abbrev pub resolved_opens : Option SpendingPathSummary → ℕ → Bool
resolved_opens none height = false
resolved_opens (some p) height = leaf_opens p.unlock_type p.unlock_blocks height

abbrev pub resolved_quorum : Option SpendingPathSummary → ℕ
resolved_quorum none = 0
resolved_quorum (some p) = p.quorum

abbrev pub resolved_quorum_ok : Option SpendingPathSummary → ℕ → Bool
resolved_quorum_ok none signed = false
resolved_quorum_ok (some p) signed = leb p.quorum signed

-- A locked path is a violation, unless its lock is relative: that is a note.
abbrev pub locked_violations : UnlockType → Bool → ℕ → ℕ → List Remark
locked_violations UnlockType.immediate open_now height unlock_blocks = []
locked_violations UnlockType.after open_now height unlock_blocks =
    remark_if (not open_now) (timelock_remark height unlock_blocks)
locked_violations UnlockType.older open_now height unlock_blocks = []

abbrev pub locked_notes : UnlockType → List Remark
locked_notes UnlockType.immediate = []
locked_notes UnlockType.after = []
locked_notes UnlockType.older =
    remark "GOV-001" "Relative timelock not evaluable here" Severity.info
      "This path unlocks relative to the spent UTXO's own confirmation height, which this audit does not have -- check on-chain directly."
    ∷ []

abbrev pub path_violations : Option SpendingPathSummary → SpendDraft → List Remark
path_violations none draft =
    remark "GOV-000" "Unknown spending path" Severity.hard
      ("\"" ⧺ (draft.path ⧺ "\" is not a real leaf on this vault."))
    ∷ []
path_violations (some p) draft =
    locked_violations p.unlock_type (leaf_opens p.unlock_type p.unlock_blocks draft.utxo_age_blocks)
      draft.utxo_age_blocks p.unlock_blocks
    ++ remark_if (not (leb p.quorum (signed_count draft.signers)))
        (quorum_remark p.quorum (signed_count draft.signers))

abbrev pub path_notes : Option SpendingPathSummary → List Remark
path_notes none = []
path_notes (some p) = locked_notes p.unlock_type

abbrev pub or_text : Option String → String → String
or_text none otherwise = otherwise
or_text (some s) otherwise = s

abbrev pub leaf_instruction :
    Option SpendingPathSummary → SpendDraft → Bool → Bool → List Remark → List ℕ → String
leaf_instruction none draft allowed open_now violations pending =
    "Unknown path \"" ⧺ (draft.path ⧺ "\".")
leaf_instruction (some p) draft allowed open_now violations pending =
    if allowed
    then "All signatures collected. Ready to broadcast."
    else if not open_now
    then or_text (detail_of_first violations) "Timelock not satisfied."
    else waiting_for pending

abbrev pub audit_of_resolved : Option SpendingPathSummary → SpendDraft → AuditResult
audit_of_resolved resolved draft =
    let open_now = resolved_opens resolved draft.utxo_age_blocks in
    let required = resolved_quorum resolved in
    let signed = signed_count draft.signers in
    let quorum_ok = resolved_quorum_ok resolved signed in
    let violations = path_violations resolved draft ++ amount_violations draft in
    let pending = pending_indices draft.signers in
    let allowed = open_now && quorum_ok in
    record {
      audit = record {
        violations = violations;
        warnings = large_spend_warnings draft;
        notes = path_notes resolved;
        approved = is_empty violations;
      };
      evaluation = record {
        allowed = allowed;
        path = draft.path;
        required_signers = required;
        provided_signers = signed;
        missing_signers = required - signed;
        timelock_satisfied = open_now;
        quorum_satisfied = quorum_ok;
        pending_signer_indices = pending;
        reason = first_detail violations (
            if allowed
            then "Valid. "
              ⧺ (decimal signed ⧺ (" of " ⧺ (decimal required ⧺ " signatures collected.")))
            else "Not ready.");
      };
      next_action = record {
        ready_to_broadcast = allowed;
        signer_index = head_of pending;
        instruction = some (leaf_instruction resolved draft allowed open_now violations pending);
      };
    }

unfoldable pub js_governance_audit_leaf_list : VaultShape → SpendDraft → AuditResult
js_governance_audit_leaf_list vault draft =
    audit_of_resolved (find_spending_path vault draft.path) draft
