-- ===== src/Server/Governance/Handler/Checked.antt =====
-- netlify/functions/governance.js: what an audit that the handler answers with rests on.
use dynastytrust.Prelude.{
  ℕ, ◌≤◌, String, pos, true, false, Option, none, some, ◌≡◌, refl, subst, inl, inr, arith,
  if◌then◌else◌, Bool-cases,
}
use dynastytrust.Server.Http.{
  done, >>=-eq-done, >>-eq-done, done-injective, no_error, found, truthy, require_user,
}
use dynastytrust.Server.Shape.{is_leaf_list_vault}
use dynastytrust.Server.Numeric.{
  number, whole, max_safe_integer, amount_bounds, check_number_bounds,
}
use dynastytrust.Server.Numeric.Bounds.{check_number_bounds_iff}
use dynastytrust.Server.Governance.{BasePolicy, SpendDraft}
use dynastytrust.Server.Governance.Audit.{js_governance_audit, js_governance_audit_leaf_list}
use dynastytrust.Server.Governance.Handler.{
  Services, GovernanceBody, VaultRow, GovernanceAnswer, governance_handler, route, audit_action,
  audit_of, draft_of, policy_base, compiled_or, call, or_zero, check_unless_zero,
}

pub found-done {ℓ} :
    {A : Type ℓ} (o : Option A) (code : ℕ) (message : String) {a : A}
    → found o code message ≡ done a
    → o ≡ some a
found-done none code message h = cc
found-done (some b) code message h = cc

pub no_error-done : (o : Option String) (code : ℕ) → no_error o code ≡ done tt → o ≡ none
no_error-done none code h = refl
no_error-done (some m) code h = cc

pub truthy-some : (o : Option String) {s : String} → truthy o ≡ some s → o ≡ some s
truthy-some none h = cc
truthy-some (some t) h = ground arith

module _ {ℓ} {Compiled : Type ℓ} where
  -- Who answers an audit, and what: the server itself for a leaf-list vault; for a vault of named
  -- columns the compiler, or the server where none is configured, or where the compiler's call fails,
  -- with the mark `fallback`.
  pub data AuditAnswer (services : Services Compiled) (vault : VaultRow) (draft : SpendDraft)
      : GovernanceAnswer Compiled → Type ℓ where
    by_leaves :
        is_leaf_list_vault vault.shape ≡ true
        → AuditAnswer services vault draft
            (GovernanceAnswer.audit (js_governance_audit_leaf_list vault.shape draft) false)
    by_compiler :
        (service : BasePolicy × SpendDraft → Option Compiled) (result : Compiled)
        → is_leaf_list_vault vault.shape ≡ false
        → services.compiler_audit ≡ some service
        → service (policy_base vault.shape, draft) ≡ some result
        → AuditAnswer services vault draft (GovernanceAnswer.compiled result)
    without_compiler :
        is_leaf_list_vault vault.shape ≡ false
        → services.compiler_audit ≡ none
        → AuditAnswer services vault draft
            (GovernanceAnswer.audit (js_governance_audit (policy_base vault.shape) draft) false)
    compiler_failed :
        (service : BasePolicy × SpendDraft → Option Compiled)
        → is_leaf_list_vault vault.shape ≡ false
        → services.compiler_audit ≡ some service
        → service (policy_base vault.shape, draft) ≡ none
        → AuditAnswer services vault draft
            (GovernanceAnswer.audit (js_governance_audit (policy_base vault.shape) draft) true)

  -- The vault of the request, as its owner's, and the audit of the draft that the body gives.
  pub record Audited (services : Services Compiled) (body : GovernanceBody)
      (answer : GovernanceAnswer Compiled) : Type ℓ where
    pub user : String
    pub vault_id : String
    pub vault : VaultRow
    pub destination : String
    pub amount : ℕ
    pub signed_in : services.user ≡ some user
    pub asked : body.vault_id ≡ some vault_id
    pub owned : services.vault_of vault_id user ≡ some vault
    pub paid_to : body.destination ≡ some destination
    pub is_amount : body.amount_sats ≡ number (whole (pos amount))
    pub not_dust : 546 ≤ amount
    pub exact : amount ≤ max_safe_integer
    pub audited : AuditAnswer services vault (draft_of body destination) answer

  service-AuditAnswer :
      (services : Services Compiled) (vault : VaultRow) (draft : SpendDraft)
      (service : BasePolicy × SpendDraft → Option Compiled) (reply : Option Compiled)
      → is_leaf_list_vault vault.shape ≡ false
      → services.compiler_audit ≡ some service
      → service (policy_base vault.shape, draft) ≡ reply
      → AuditAnswer services vault draft (
          compiled_or
            (some reply)
            (GovernanceAnswer.audit (js_governance_audit (policy_base vault.shape) draft)))
  service-AuditAnswer services vault draft service none named configured replied =
      compiler_failed service named configured replied
  service-AuditAnswer services vault draft service (some result) named configured replied =
      by_compiler service result named configured replied

  compiled-AuditAnswer :
      (services : Services Compiled) (vault : VaultRow) (draft : SpendDraft)
      (compiler : Option (BasePolicy × SpendDraft → Option Compiled))
      → is_leaf_list_vault vault.shape ≡ false
      → services.compiler_audit ≡ compiler
      → AuditAnswer services vault draft (
          compiled_or
            (call compiler (policy_base vault.shape, draft))
            (GovernanceAnswer.audit (js_governance_audit (policy_base vault.shape) draft)))
  compiled-AuditAnswer services vault draft none named configured =
      without_compiler named configured
  compiled-AuditAnswer services vault draft (some service) named configured =
      service-AuditAnswer services vault draft service (service (policy_base vault.shape, draft))
        named configured refl

  audit_of-AuditAnswer :
      (services : Services Compiled) (vault : VaultRow) (draft : SpendDraft)
      → AuditAnswer services vault draft (audit_of services vault draft)
  unfolding audit_of
  audit_of-AuditAnswer services vault draft = elim (Bool-cases (is_leaf_list_vault vault.shape)) [
    | inl leafy ↦ rw (leafy, if◌then◌else◌) (by_leaves leafy)
    | inr named ↦
        rw (named, if◌then◌else◌)
          (compiled-AuditAnswer services vault draft services.compiler_audit named refl)
  ]

  audit_action-Audited :
      (services : Services Compiled) (body : GovernanceBody) (user vault_id : String)
      (vault : VaultRow) (answer : GovernanceAnswer Compiled)
      → services.user ≡ some user
      → body.vault_id ≡ some vault_id
      → services.vault_of vault_id user ≡ some vault
      → audit_action services vault body ≡ done answer
      → Audited services body answer
  unfolding audit_action
  audit_action-Audited services body user vault_id vault answer signed_in asked owned h =
      let amounts = check_number_bounds body.amount_sats (amount_bounds "amount_sats" 546) in
      let (checked, h1) = >>-eq-done (no_error amounts 400) _ h in
      let (destination, there, h2) = >>=-eq-done (found (truthy body.destination) 400 _) _ h1 in
      let (height_checked, h3) =
        >>-eq-done
          (no_error (check_unless_zero (or_zero body.utxo_age_blocks) "utxo_age_blocks") 400) _
          h2 in
      let (total_checked, h4) =
        >>-eq-done
          (no_error (check_unless_zero (or_zero body.total_vault_sats) "total_vault_sats") 400) _
          h3 in
      let draft = draft_of body destination in
      let (amount, is_amount, low, high) =
        (check_number_bounds_iff "amount_sats" 546 body.amount_sats).0
          (no_error-done amounts 400 checked) in
      record {
        user = user;
        vault_id = vault_id;
        vault = vault;
        destination = destination;
        amount = amount;
        signed_in = signed_in;
        asked = asked;
        owned = owned;
        paid_to = truthy-some body.destination (found-done (truthy body.destination) 400 _ there);
        is_amount = is_amount;
        not_dust = low;
        exact = high;
        audited =
            subst (AuditAnswer services vault draft) (done-injective h4)
              (audit_of-AuditAnswer services vault draft);
      }

  -- Whatever the handler answers to an audit, the request came from a signed-in user, for a vault that
  -- the database has under that user and the requested id, with a destination and a whole amount from
  -- 546 sats up to the greatest exact integer. The answer is, for the draft of the request, the audit
  -- of the vault's leaves where it is a leaf-list vault; else what the compiler says of the named
  -- columns; and where no compiler is configured, or its call fails, the server's own audit of these,
  -- marked as a fallback only where the call failed.
  pub governance_handler-Audited :
      (services : Services Compiled) (body : GovernanceBody) (answer : GovernanceAnswer Compiled)
      → body.action ≡ some "audit"
      → governance_handler services body ≡ done answer
      → Audited services body answer
  unfolding governance_handler route
  governance_handler-Audited services body answer for_audit h =
      let (user, signed_in, h1) = >>=-eq-done (require_user services.user) _ h in
      let (action, named, h2) = >>=-eq-done (found (truthy body.action) 400 _) _ h1 in
      let (vault_id, asked, h3) = >>=-eq-done (found (truthy body.vault_id) 400 _) _ h2 in
      let (vault, owned, h4) =
        >>=-eq-done (found (services.vault_of vault_id user) 404 "Vault not found") _ h3 in
      let given = truthy-some body.action (found-done (truthy body.action) 400 _ named) in
      let is_audit : action ≡ "audit" = ground arith in
      let acted : route services vault body action ≡ done answer = h4 in
      audit_action-Audited services body user vault_id vault answer
        (found-done services.user 401 _ signed_in)
        (truthy-some body.vault_id (found-done (truthy body.vault_id) 400 _ asked))
        (found-done (services.vault_of vault_id user) 404 _ owned)
        (subst (λ a. route services vault body a ≡ done answer) is_audit acted)
