-- ===== src/Server/Governance/Audit/Leaves.antt =====
-- netlify/functions/governance.js: which drafts jsGovernanceAuditLeafList approves, and its agreement
-- with jsGovernanceStatusLeafList.
use dynastytrust.Prelude.{
  ℕ, ◌≤◌, leb, String, true, ◌&&◌, not, Option, none, some, List, [], ◌∷◌, any, map, find, filter,
  str_eq, ◌≡◌, ◌↔◌, ◌⊎◌, inl, inr, refl, arith, Bool-cases,
}
use dynastytrust.Paths.{VaultShape, SpendingPathSummary, UnlockType}
use dynastytrust.Server.Shape.{get_spending_paths, find_spending_path}
use dynastytrust.Server.Governance.{SpendDraft, is_empty, signed_count, quorum_remark}
use dynastytrust.Server.Governance.Status.{opens, leaf_status, js_governance_status_leaf_list}
use dynastytrust.Server.Governance.Audit.{
  js_governance_audit_leaf_list, audit_of_resolved, locked_violations, leaf_opens, path_violations,
}
use dynastytrust.Server.Governance.Audit.Approved.{
  is_empty-append, is_empty-remark_if, is_empty-amount_violations,
}

-- A lock that the height alone opens.
pub data Open (height : ℕ) : UnlockType → ℕ → Type 0 where
  at_once : {blocks : ℕ} → Open height UnlockType.immediate blocks
  reached : {blocks : ℕ} → blocks ≤ height → Open height UnlockType.after blocks

Open-leaf_opens :
    {height blocks : ℕ} {type : UnlockType}
    → Open height type blocks
    → leaf_opens type blocks height ≡ true
Open-leaf_opens at_once = refl
Open-leaf_opens (reached le) = ground arith

leaf_opens-Open :
    (type : UnlockType) (blocks height : ℕ)
    → leaf_opens type blocks height ≡ true
    → Open height type blocks
leaf_opens-Open UnlockType.immediate blocks height h = at_once
leaf_opens-Open UnlockType.after blocks height h = reached (ground arith)
leaf_opens-Open UnlockType.older blocks height h = cc

is_empty-locked_violations :
    (type : UnlockType) (blocks height : ℕ)
    → (is_empty (locked_violations type (leaf_opens type blocks height) height blocks) ≡ true)
      ↔ (Open height type blocks ⊎ (type ≡ UnlockType.older))
is_empty-locked_violations UnlockType.immediate blocks height = (λ h. inl at_once, λ h. refl)
is_empty-locked_violations UnlockType.after blocks height = (
  λ h. inl (leaf_opens-Open UnlockType.after blocks height (ground arith)),
  λ h. elim h [ inl o ↦ (let e = Open-leaf_opens o in ground arith) | inr e ↦ cc ],
)
is_empty-locked_violations UnlockType.older blocks height = (λ h. inr refl, λ h. refl)

is_empty-path_violations :
    (p : SpendingPathSummary) (draft : SpendDraft)
    → is_empty (path_violations (some p) draft) ≡ (
        is_empty (
          locked_violations p.unlock_type
            (leaf_opens p.unlock_type p.unlock_blocks draft.utxo_age_blocks)
            draft.utxo_age_blocks
            p.unlock_blocks)
        && leb p.quorum (signed_count draft.signers))
is_empty-path_violations p draft =
    let short = not (leb p.quorum (signed_count draft.signers)) in
    rw
      (
        is_empty-append
            (locked_violations p.unlock_type
              (leaf_opens p.unlock_type p.unlock_blocks draft.utxo_age_blocks) draft.utxo_age_blocks
              p.unlock_blocks)
            _,
        is_empty-remark_if short (quorum_remark p.quorum (signed_count draft.signers)),
      )
      (ground arith)

-- The path that was found for a draft, with enough signatures.
pub record Backed (resolved : Option SpendingPathSummary) (draft : SpendDraft) : Type 0 where
  pub leaf : SpendingPathSummary
  pub found : resolved ≡ some leaf
  pub agreed : leaf.quorum ≤ signed_count draft.signers

pub record Approvable (resolved : Option SpendingPathSummary) (draft : SpendDraft) : Type 0 where
  pub backed : Backed resolved draft
  pub not_locked :
      Open draft.utxo_age_blocks backed.leaf.unlock_type backed.leaf.unlock_blocks
      ⊎ (backed.leaf.unlock_type ≡ UnlockType.older)
  pub not_dust : 546 ≤ draft.amount_sats
  pub covered : draft.amount_sats ≤ draft.total_vault_sats

pub record Ready (resolved : Option SpendingPathSummary) (draft : SpendDraft) : Type 0 where
  pub backed : Backed resolved draft
  pub unlocked : Open draft.utxo_age_blocks backed.leaf.unlock_type backed.leaf.unlock_blocks

audit_of_resolved_iff :
    (p : SpendingPathSummary) (draft : SpendDraft)
    → ((audit_of_resolved (some p) draft).audit.approved ≡ true) ↔ (
        (Open draft.utxo_age_blocks p.unlock_type p.unlock_blocks
          ⊎ (p.unlock_type ≡ UnlockType.older))
        × (p.quorum ≤ signed_count draft.signers)
        × (546 ≤ draft.amount_sats)
        × (draft.amount_sats ≤ draft.total_vault_sats))
audit_of_resolved_iff p draft =
    let amounts = is_empty-amount_violations draft in
    let locks = is_empty-locked_violations p.unlock_type p.unlock_blocks draft.utxo_age_blocks in
    rw (is_empty-append (path_violations (some p) draft) _, is_empty-path_violations p draft)
      (
        λ h. (
          locks.0 (ground arith),
          ground arith,
          (amounts.0 (ground arith)).0,
          (amounts.0 (ground arith)).1,
        ),
        λ (l, q, a, b). let c = locks.1 l in let d = amounts.1 (a, b) in ground arith,
      )

approved-Approvable :
    (resolved : Option SpendingPathSummary) (draft : SpendDraft)
    → (audit_of_resolved resolved draft).audit.approved ≡ true
    → Approvable resolved draft
approved-Approvable none draft h = absurd (ground arith)
approved-Approvable (some p) draft h =
    let (lock, quorum, dust, balance) = (audit_of_resolved_iff p draft).0 h in
    record {
      backed = record { leaf = p; found = refl; agreed = quorum };
      not_locked = lock;
      not_dust = dust;
      covered = balance;
    }

Approvable-approved :
    (resolved : Option SpendingPathSummary) (draft : SpendDraft)
    → Approvable resolved draft
    → (audit_of_resolved resolved draft).audit.approved ≡ true
Approvable-approved resolved draft a = rw a.backed.found (
    (audit_of_resolved_iff a.backed.leaf draft).1
      (a.not_locked, a.backed.agreed, a.not_dust, a.covered))

allowed-Ready :
    (resolved : Option SpendingPathSummary) (draft : SpendDraft)
    → (audit_of_resolved resolved draft).evaluation.allowed ≡ true
    → Ready resolved draft
allowed-Ready none draft h = absurd (ground arith)
allowed-Ready (some p) draft h = record {
  backed = record { leaf = p; found = refl; agreed = ground arith };
  unlocked = leaf_opens-Open p.unlock_type p.unlock_blocks draft.utxo_age_blocks (ground arith);
}

Ready-allowed :
    (resolved : Option SpendingPathSummary) (draft : SpendDraft)
    → Ready resolved draft
    → (audit_of_resolved resolved draft).evaluation.allowed ≡ true
Ready-allowed resolved draft r =
    let e = Open-leaf_opens r.unlocked in
    let q = r.backed.agreed in rw r.backed.found (ground arith)

-- The audit of a leaf-list vault approves a draft exactly when its path is a leaf of the vault whose
-- lock the height opens or whose lock is relative, the signers who have signed reach the leaf's
-- quorum, and the amount is neither below 546 sats nor more than the vault holds. It calls the draft
-- ready to broadcast exactly when the path is a leaf that the height opens, with its quorum reached;
-- so a relative lock is never ready, though it may be approved.
pub js_governance_audit_leaf_list_iff :
    (vault : VaultShape) (draft : SpendDraft)
    → (((js_governance_audit_leaf_list vault draft).audit.approved ≡ true)
        ↔ Approvable (find_spending_path vault draft.path) draft)
      × (((js_governance_audit_leaf_list vault draft).next_action.ready_to_broadcast ≡ true)
          ↔ Ready (find_spending_path vault draft.path) draft)
unfolding js_governance_audit_leaf_list
js_governance_audit_leaf_list_iff vault draft =
    let resolved = find_spending_path vault draft.path in
    (
      (approved-Approvable resolved draft, Approvable-approved resolved draft),
      (allowed-Ready resolved draft, Ready-allowed resolved draft),
    )

find-active_paths :
    (id : String) (height : ℕ) (paths : List SpendingPathSummary) (p : SpendingPathSummary)
    → find (λ q. str_eq q.id id) paths ≡ some p
    → Open height p.unlock_type p.unlock_blocks
    → any
        (λ name. str_eq name id)
        (map (λ s. s.id) (filter (λ s. s.unlocked) (map (leaf_status height) paths)))
      ≡ true
find-active_paths id height [] p e o = cc
find-active_paths id height (q ∷ paths) p e o = elim (Bool-cases (str_eq q.id id)) [
  | inl same ↦
      let here : q ≡ p = ground arith in
      let open_here : opens q.unlock_type q.unlock_blocks height ≡ true =
        rw here (Open-leaf_opens o) in
      ground arith
  | inr other ↦ let rest = find-active_paths id height paths p (ground arith) o in ground arith
]

-- A draft that the audit of a leaf-list vault calls ready to broadcast spends by a path that the
-- vault's status at the same height lists as active.
pub js_governance_audit_leaf_list-active_paths :
    (vault : VaultShape) (draft : SpendDraft)
    → (js_governance_audit_leaf_list vault draft).next_action.ready_to_broadcast ≡ true
    → any
        (λ name. str_eq name draft.path)
        (js_governance_status_leaf_list vault draft.utxo_age_blocks).active_paths
      ≡ true
unfolding js_governance_status_leaf_list find_spending_path
js_governance_audit_leaf_list-active_paths vault draft h =
    let ready = (js_governance_audit_leaf_list_iff vault draft).1.0 h in
    find-active_paths draft.path draft.utxo_age_blocks (get_spending_paths vault) ready.backed.leaf
      ready.backed.found ready.unlocked
