-- ===== src/Server/Governance/Audit/Approved.antt =====
-- netlify/functions/governance.js: which drafts jsGovernanceAudit approves.
use dynastytrust.Prelude.{
  ℕ, ◌≤◌, ◌<◌, ltb, leb, String, Bool, true, false, ◌&&◌, not, List, [], ◌∷◌, ◌++◌, if◌then◌else◌,
  str_eq, eq_iff, ◌≡◌, ◌≢◌, ◌↔◌, ◌⊎◌, inl, inr, refl, ap, suc, arith, Bool-cases,
}
use dynastytrust.Server.Governance.{
  BasePolicy, SpendDraft, Signer, Remark, remark_if, is_empty, signed_count, dust_remark,
  quorum_remark, balance_remark,
}
use dynastytrust.Server.Governance.Audit.{
  js_governance_audit, audit_violations, locked_remark, timelock_ok, required_quorum,
  amount_violations,
}

pub is_empty-append : (rs ss : List Remark) → is_empty (rs ++ ss) ≡ (is_empty rs && is_empty ss)
is_empty-append [] ss = refl
is_empty-append (r ∷ rs) ss = ground arith

pub is_empty-remark_if : (test : Bool) (r : Remark) → is_empty (remark_if test r) ≡ not test
is_empty-remark_if true r = refl
is_empty-remark_if false r = refl

pub is_empty-amount_violations :
    (draft : SpendDraft)
    → (is_empty (amount_violations draft) ≡ true)
      ↔ ((546 ≤ draft.amount_sats) × (draft.amount_sats ≤ draft.total_vault_sats))
is_empty-amount_violations draft =
    rw
      (
        is_empty-append (remark_if (ltb draft.amount_sats 546) (dust_remark draft.amount_sats)) _,
        is_empty-remark_if (ltb draft.amount_sats 546) (dust_remark draft.amount_sats),
        is_empty-remark_if (ltb draft.total_vault_sats draft.amount_sats)
            (balance_remark draft.amount_sats draft.total_vault_sats),
      )
      (ground arith)

-- A path that the engine names.
abbrev pub IsNamed : String → Type 0
IsNamed path = (path ≡ "founders_now") ⊎ ((path ≡ "recovery") ⊎ (path ≡ "inheritance"))

-- The signers who have signed, counted one by one.
unfoldable pub signatures : List Signer → ℕ
signatures [] = 0
signatures (s ∷ signers) = let more = signatures signers in if s.signed then suc more else more

signed_count-signatures : (signers : List Signer) → signed_count signers ≡ signatures signers
unfolding signed_count signatures
signed_count-signatures [] = refl
signed_count-signatures (s ∷ signers) = elim (Bool-cases s.signed) [
  | inl e ↦ rw (e, if◌then◌else◌) (ap suc (signed_count-signatures signers))
  | inr e ↦ rw (e, if◌then◌else◌) (signed_count-signatures signers)
]

-- A path's lock is open at a height.
pub data Unlocked (policy : BasePolicy) (height : ℕ) (path : String) : Type 0 where
  founders : path ≡ "founders_now" → Unlocked policy height path
  recovery :
      path ≡ "recovery"
      → 0 < policy.recovery_after
      → policy.recovery_after ≤ height
      → Unlocked policy height path
  inheritance :
      path ≡ "inheritance" → policy.inheritance_after ≤ height → Unlocked policy height path

-- The quorum that a path needs: the heirs' for the inheritance, else the founders'.
pub data Needs (policy : BasePolicy) (path : String) : ℕ → Type 0 where
  heirs : path ≡ "inheritance" → Needs policy path policy.heir_quorum
  founders : path ≢ "inheritance" → Needs policy path policy.founder_quorum

-- Enough of the listed signers have signed.
pub record HasQuorum (policy : BasePolicy) (draft : SpendDraft) : Type 0 where
  pub quorum : ℕ
  pub needed : Needs policy draft.path quorum
  pub reached : quorum ≤ signatures draft.signers

pub record Sound (policy : BasePolicy) (draft : SpendDraft) : Type 0 where
  pub unlocked : Unlocked policy draft.utxo_age_blocks draft.path
  pub agreed : HasQuorum policy draft
  pub not_dust : 546 ≤ draft.amount_sats
  pub covered : draft.amount_sats ≤ draft.total_vault_sats

timelock_ok-Unlocked :
    (policy : BasePolicy) (path : String) (height : ℕ)
    → IsNamed path
    → (timelock_ok policy path height ≡ true) ↔ Unlocked policy height path
unfolding timelock_ok
timelock_ok-Unlocked policy path height is_named = (
  λ h. elim (Bool-cases (str_eq path "founders_now")) [
    | inl is_founders ↦ founders ((eq_iff _ _).0 is_founders)
    | inr not_founders ↦ elim (Bool-cases (str_eq path "recovery")) [
      | inl is_recovery ↦ recovery ((eq_iff _ _).0 is_recovery) (ground arith) (ground arith)
      | inr not_recovery ↦
          inheritance
            (elim is_named [
              | inl e ↦ absurd (ground (arith, eq_iff path "founders_now"))
              | inr (inl e) ↦ absurd (ground (arith, eq_iff path "recovery"))
              | inr (inr e) ↦ e
            ])
            (ground arith)
    ]
  ],
  λ u. elim u [
    | founders e ↦ rw e refl
    | recovery e a b ↦ rw e (ground arith)
    | inheritance e a ↦ rw e (ground arith)
  ],
)

required_quorum-Needs :
    (policy : BasePolicy) (path : String) → Needs policy path (required_quorum policy path)
unfolding required_quorum
required_quorum-Needs policy path = elim (Bool-cases (str_eq path "inheritance")) [
  | inl e ↦ rw (e, if◌then◌else◌) (Needs.heirs ((eq_iff _ _).0 e))
  | inr e ↦ rw (e, if◌then◌else◌) (Needs.founders (ground (arith, eq_iff path "inheritance")))
]

Needs-unique :
    (policy : BasePolicy) (path : String) (q r : ℕ)
    → Needs policy path q
    → Needs policy path r
    → q ≡ r
Needs-unique policy path _ _ (heirs e) (heirs f) = refl
Needs-unique policy path _ _ (heirs e) (founders f) = absurd (f e)
Needs-unique policy path _ _ (founders e) (heirs f) = absurd (e f)
Needs-unique policy path _ _ (founders e) (founders f) = refl

is_empty-audit_violations :
    (policy : BasePolicy) (draft : SpendDraft)
    → is_empty (audit_violations policy draft) ≡ (
        timelock_ok policy draft.path draft.utxo_age_blocks
        && (leb (required_quorum policy draft.path) (signed_count draft.signers)
            && is_empty (amount_violations draft)))
unfolding audit_violations
is_empty-audit_violations policy draft =
    let open_now = timelock_ok policy draft.path draft.utxo_age_blocks in
    let required = required_quorum policy draft.path in
    let signed = signed_count draft.signers in
    rw
      (
        is_empty-append (remark_if (not open_now) (locked_remark policy draft)) _,
        is_empty-remark_if (not open_now) (locked_remark policy draft),
        is_empty-append (remark_if (not (leb required signed)) (quorum_remark required signed)) _,
        is_empty-remark_if (not (leb required signed)) (quorum_remark required signed),
      )
      (ground arith)

-- The audit of a named-field vault approves a draft for the founders' path, the recovery or the
-- inheritance exactly when the lock of that path is open at the given height, the signers who have
-- signed reach its quorum (the heirs' for the inheritance, else the founders'), and the amount is
-- neither below 546 sats nor more than the vault holds. It calls such a draft ready to broadcast
-- exactly when the lock is open and the quorum is reached, whatever the amount.
pub js_governance_audit_iff :
    (policy : BasePolicy) (draft : SpendDraft)
    → IsNamed draft.path
    → (((js_governance_audit policy draft).audit.approved ≡ true) ↔ Sound policy draft)
      × (((js_governance_audit policy draft).next_action.ready_to_broadcast ≡ true)
          ↔ (Unlocked policy draft.utxo_age_blocks draft.path × HasQuorum policy draft))
unfolding js_governance_audit
js_governance_audit_iff policy draft is_named =
    let locks = timelock_ok-Unlocked policy draft.path draft.utxo_age_blocks is_named in
    let counted = signed_count-signatures draft.signers in
    let needs = required_quorum-Needs policy draft.path in
    let reached : HasQuorum policy draft
        → required_quorum policy draft.path ≤ signed_count draft.signers =
      λ q.
        let same = Needs-unique policy draft.path _ _ needs q.needed in
        ground (arith, counted, q.reached) in
    let amounts = is_empty-amount_violations draft in
    let e = is_empty-audit_violations policy draft in
    (
      (
        λ h.
            let k = rw e at h in
            record {
              unlocked = locks.0 (ground arith);
              agreed = record { quorum = _; needed = needs; reached = ground arith };
              not_dust = (amounts.0 (ground arith)).0;
              covered = (amounts.0 (ground arith)).1;
            },
        λ s. rw e (
            let a = locks.1 s.unlocked in
            let b = reached s.agreed in let c = amounts.1 (s.not_dust, s.covered) in ground arith),
      ),
      (
        λ h.
            (locks.0 (ground arith), record { quorum = _; needed = needs; reached = ground arith }),
        λ (u, q). let a = locks.1 u in let b = reached q in ground arith,
      ),
    )
