-- ===== src/Tests/Server.antt =====
-- netlify/functions on concrete requests: the governance audit and the table of proposals.
use dynastytrust.Prelude.{
  ℕ, pos, Bool, true, false, none, some, [], ◌∷◌, any, str_eq, ◌≡◌, ◌↔◌, ◌≤◌, ◌<◌, ◌+◌, inl, inr,
  refl,
}
use dynastytrust.Paths
use dynastytrust.Paths.{VaultShape, Leaf, older, immediate}
use dynastytrust.Server.Http.{done}
use dynastytrust.Server.Shape.{is_leaf_list_vault, get_spending_paths, find_spending_path}
use dynastytrust.Server.Shape.Twin.{find_spending_path_lem}
use dynastytrust.Server.Numeric.{
  number, whole, max_safe_integer, check_number_bounds, amount_bounds,
}
use dynastytrust.Server.Numeric.Bounds.{check_number_bounds_iff}
use dynastytrust.Server.Governance.{
  BasePolicy, SpendDraft, AuditResult, signed_count, pending_indices,
}
use dynastytrust.Server.Governance.Status.{js_governance_status, js_governance_status_leaf_list}
use dynastytrust.Server.Governance.Status.Countdown.{
  lists, Over, js_governance_status-Over, js_governance_audit-lists,
}
use dynastytrust.Server.Governance.Audit.{js_governance_audit, js_governance_audit_leaf_list}
use dynastytrust.Server.Governance.Audit.Approved.{
  Unlocked, HasQuorum, Sound, js_governance_audit_iff,
}
use dynastytrust.Server.Governance.Audit.Leaves.{
  Approvable, Ready, js_governance_audit_leaf_list_iff, js_governance_audit_leaf_list-active_paths,
}
use dynastytrust.Server.Governance.Handler.{
  Services, GovernanceBody, GovernanceAnswer, governance_handler, draft_of, route, audit_action,
  audit_of, status_action,
}
use dynastytrust.Server.Governance.Handler.Checked.{Audited, governance_handler-Audited}

abbrev gift : Leaf
gift = record { id = "gift"; label = "Gift"; keys = "k1" ∷ []; quorum = 1; unlock = immediate }

abbrev late : Leaf
late = record { id = "late"; label = ""; keys = "k2" ∷ []; quorum = 1; unlock = older 144 }

abbrev leaf_vault : VaultShape
leaf_vault = record {
  leaves = some (gift ∷ late ∷ []);
  founder_keys = none;
  founder_quorum = none;
  heir_keys = none;
  heir_quorum = none;
  recovery_after = none;
  recovery_quorum = none;
  inheritance_after = none;
  backup_keys = none;
  backup_quorum = none;
  second_heir_keys = none;
  second_heir_quorum = none;
  second_inheritance_after = none;
}

find_spending_path_lem_example :
    (is_leaf_list_vault leaf_vault ≡ Paths.is_leaf_list_vault leaf_vault)
    × (get_spending_paths leaf_vault ≡ Paths.get_spending_paths leaf_vault)
    × (find_spending_path leaf_vault "late" ≡ Paths.find_spending_path leaf_vault "late")
find_spending_path_lem_example = find_spending_path_lem leaf_vault "late"

check_number_bounds_iff_example :
    (check_number_bounds (number (whole (pos 546))) (amount_bounds "amount_sats" 546) ≡ none) ↔ (
      (n : ℕ) × (number (whole (pos 546)) ≡ number (whole (pos n)))
      × (546 ≤ n)
      × (n ≤ max_safe_integer))
check_number_bounds_iff_example =
    check_number_bounds_iff "amount_sats" 546 (number (whole (pos 546)))

abbrev policy : BasePolicy
policy = record {
  founder_quorum = 2;
  founder_key_count = 2;
  heir_quorum = 1;
  heir_key_count = 1;
  recovery_after = 800000;
  inheritance_after = 900000;
}

js_governance_status-Over_example :
    (lists "founders_now" (js_governance_status policy (799000 + 1000)) ≡ true)
    × ((lists "inheritance" (js_governance_status policy (799000 + 1000)) ≡ true)
        ↔ Over (js_governance_status policy 799000).blocks_until_inheritance 1000)
    × ((lists "recovery" (js_governance_status policy (799000 + 1000)) ≡ true) ↔ (
        (0 < policy.recovery_after)
        × Over (js_governance_status policy 799000).blocks_until_recovery 1000))
js_governance_status-Over_example = js_governance_status-Over policy 799000 1000

abbrev draft : SpendDraft
draft = record {
  path = "recovery";
  amount_sats = 5000;
  destination = "tb1q";
  utxo_age_blocks = 800000;
  total_vault_sats = 6000;
  signers = record { index = 0; signed = true } ∷ record { index = 1; signed = true } ∷ [];
}

js_governance_audit-lists_example :
    (js_governance_audit policy draft).evaluation.timelock_satisfied
    ≡ lists "recovery" (js_governance_status policy 800000)
js_governance_audit-lists_example = js_governance_audit-lists policy draft (inr (inl refl))

js_governance_audit_iff_example :
    (((js_governance_audit policy draft).audit.approved ≡ true) ↔ Sound policy draft)
    × (((js_governance_audit policy draft).next_action.ready_to_broadcast ≡ true)
        ↔ (Unlocked policy 800000 "recovery" × HasQuorum policy draft))
js_governance_audit_iff_example = js_governance_audit_iff policy draft (inr (inl refl))

abbrev gift_draft : SpendDraft
gift_draft = record draft { path = "gift" }

js_governance_audit_leaf_list_iff_example :
    (((js_governance_audit_leaf_list leaf_vault gift_draft).audit.approved ≡ true)
      ↔ Approvable (find_spending_path leaf_vault "gift") gift_draft)
    × (((js_governance_audit_leaf_list leaf_vault gift_draft).next_action.ready_to_broadcast ≡ true)
        ↔ Ready (find_spending_path leaf_vault "gift") gift_draft)
js_governance_audit_leaf_list_iff_example = js_governance_audit_leaf_list_iff leaf_vault gift_draft

gift_ready :
    (js_governance_audit_leaf_list leaf_vault gift_draft).next_action.ready_to_broadcast ≡ true
unfolding js_governance_audit_leaf_list find_spending_path get_spending_paths is_leaf_list_vault
    signed_count pending_indices
gift_ready = refl

js_governance_audit_leaf_list-active_paths_example :
    any (λ name. str_eq name "gift") (js_governance_status_leaf_list leaf_vault 800000).active_paths
    ≡ true
js_governance_audit_leaf_list-active_paths_example =
    js_governance_audit_leaf_list-active_paths leaf_vault gift_draft gift_ready

abbrev services : Services Bool
services = record {
  user = some "u1";
  vault_of = λ vault_id user. some (record { name = "Gift"; shape = leaf_vault });
  compiler_status = none;
  compiler_audit = some (λ input. none);
}

abbrev body : GovernanceBody
body = record {
  action = some "audit";
  vault_id = some "v1";
  path = some "gift";
  amount_sats = number (whole (pos 5000));
  destination = some "tb1q";
  utxo_age_blocks = number (whole (pos 800000));
  total_vault_sats = number (whole (pos 6000));
  signers = some (record { index = 0; signed = true } ∷ []);
}

abbrev gift_audit : AuditResult
gift_audit = js_governance_audit_leaf_list leaf_vault (draft_of body "tb1q")

answered : governance_handler services body ≡ done (GovernanceAnswer.audit gift_audit false)
unfolding governance_handler route audit_action audit_of status_action check_number_bounds
    is_leaf_list_vault
answered = refl

governance_handler-Audited_example : Audited services body (GovernanceAnswer.audit gift_audit false)
governance_handler-Audited_example =
    governance_handler-Audited services body (GovernanceAnswer.audit gift_audit false) refl answered
