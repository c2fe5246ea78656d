-- ===== src/Server/Governance/Status/Countdown.antt =====
-- netlify/functions/governance.js: what jsGovernanceStatus says of later heights, and its agreement
-- with jsGovernanceAudit.
use dynastytrust.Prelude.{
  ℕ, ◌+◌, ◌≤◌, ◌<◌, String, Bool, true, false, Option, none, some, any, str_eq, ◌≡◌, ◌↔◌, ◌⊎◌, inl,
  inr, refl, arith, ◌++◌, sym, subst, ltb, leb, ◌&&◌,
}
use dynastytrust.Server.Governance.{BasePolicy, SpendDraft}
use dynastytrust.Server.Governance.Status.{name_if, StatusResult, js_governance_status}
use dynastytrust.Server.Governance.Audit.{js_governance_audit, timelock_ok}

abbrev pub lists : String → StatusResult → Bool
lists name status = any (λ p. str_eq p name) status.active_paths

-- A countdown is over after a wait: it is absent, or the wait is as long.
abbrev pub Over : Option ℕ → ℕ → Type 0
Over none wait = Unit {0}
Over (some blocks) wait = blocks ≤ wait

-- The countdowns of a vault's status are exact. After any number of further blocks the status lists
-- the inheritance path exactly when that number has reached the countdown that the status gives now
-- (or it gives none), and the recovery path exactly when the vault has one and the recovery
-- countdown is reached; the founders' path is always listed.
pub js_governance_status-Over :
    (policy : BasePolicy) (height wait : ℕ)
    → (lists "founders_now" (js_governance_status policy (height + wait)) ≡ true)
      × ((lists "inheritance" (js_governance_status policy (height + wait)) ≡ true)
          ↔ Over (js_governance_status policy height).blocks_until_inheritance wait)
      × ((lists "recovery" (js_governance_status policy (height + wait)) ≡ true) ↔ (
          (0 < policy.recovery_after)
          × Over (js_governance_status policy height).blocks_until_recovery wait))
unfolding js_governance_status
js_governance_status-Over policy height wait = (ground arith, ground arith, ground arith)

lists_recovery :
    (a b : Bool)
    → a ≡ any (λ p. str_eq p "recovery") (name_if a "recovery" ++ name_if b "inheritance")
lists_recovery true b = refl
lists_recovery false true = refl
lists_recovery false false = refl

lists_inheritance :
    (a b : Bool)
    → b ≡ any (λ p. str_eq p "inheritance") (name_if a "recovery" ++ name_if b "inheritance")
lists_inheritance true true = refl
lists_inheritance true false = refl
lists_inheritance false true = refl
lists_inheritance false false = refl

timelock_ok-founders :
    (policy : BasePolicy) (height : ℕ)
    → timelock_ok policy "founders_now" height
      ≡ lists "founders_now" (js_governance_status policy height)
unfolding js_governance_status timelock_ok
timelock_ok-founders policy height = refl

timelock_ok-recovery :
    (policy : BasePolicy) (height : ℕ)
    → timelock_ok policy "recovery" height ≡ lists "recovery" (js_governance_status policy height)
unfolding js_governance_status timelock_ok
timelock_ok-recovery policy height =
    lists_recovery (ltb 0 policy.recovery_after && leb policy.recovery_after height)
      (leb policy.inheritance_after height)

timelock_ok-inheritance :
    (policy : BasePolicy) (height : ℕ)
    → timelock_ok policy "inheritance" height
      ≡ lists "inheritance" (js_governance_status policy height)
unfolding js_governance_status timelock_ok
timelock_ok-inheritance policy height =
    lists_inheritance (ltb 0 policy.recovery_after && leb policy.recovery_after height)
      (leb policy.inheritance_after height)

-- The status and the audit of a named-field vault agree on the founders' path, the recovery and the
-- inheritance: for a draft of one of these, the audit finds the lock of its path satisfied exactly
-- when the status at the same height lists that path as active. Of other paths, such as the backup
-- and the second inheritance, it says nothing.
pub js_governance_audit-lists :
    (policy : BasePolicy) (draft : SpendDraft)
    → (draft.path ≡ "founders_now") ⊎ ((draft.path ≡ "recovery") ⊎ (draft.path ≡ "inheritance"))
    → (js_governance_audit policy draft).evaluation.timelock_satisfied
      ≡ lists draft.path (js_governance_status policy draft.utxo_age_blocks)
unfolding js_governance_audit
js_governance_audit-lists policy draft named =
    let agrees : String → Type 0 = λ p.
      timelock_ok policy p draft.utxo_age_blocks
      ≡ lists p (js_governance_status policy draft.utxo_age_blocks) in
    elim named [
      | inl e ↦ subst agrees (sym e) (timelock_ok-founders policy draft.utxo_age_blocks)
      | inr (inl e) ↦ subst agrees (sym e) (timelock_ok-recovery policy draft.utxo_age_blocks)
      | inr (inr e) ↦ subst agrees (sym e) (timelock_ok-inheritance policy draft.utxo_age_blocks)
    ]
