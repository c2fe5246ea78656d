-- ===== src/Server/Proposals/Create.antt =====
-- netlify/functions/proposals.js: the POST of a proposal, and the list of a vault's proposals.
use dynastytrust.Prelude.{
  ℕ, String, Bool, decimal, false, Option, none, some, List, [], ◌∷◌, ◌++◌, map, filter, str_eq,
  if◌then◌else◌,
}
use dynastytrust.Paths.{VaultShape}
use dynastytrust.Server.Http.{
  Outcome, refused, done, ◌>>=◌, ◌>>◌, no_error, found, truthy, require_user,
}
use dynastytrust.Server.Shape.{is_leaf_list_vault}
use dynastytrust.Server.Numeric.{
  Value, undefined, null_value, structure, boolean, text, number, NumberBounds, check_number_bounds,
  amount_bounds, count_of, min_fee_rate_sat_vb, max_fee_rate_sat_vb,
}
use dynastytrust.Server.Governance.{BasePolicy, SpendDraft}
use dynastytrust.Server.Governance.Audit.{js_governance_audit_leaf_list}
use dynastytrust.Server.Governance.Handler.{or_zero, check_unless_zero, policy_base, text_or}
use dynastytrust.Server.Store.{
  Database, Proposal, ProposalStatus, StoredAudit, SignerSession, find_vault, membership,
}
use dynastytrust.Server.Proposals.{log_event}

pub record ProposalBody : Type 0 where
  pub vault_id : Option String
  pub path : Option String
  pub destination : Option String
  pub amount_sats : Value
  pub fee_sats : Value
  pub fee_rate : Value
  pub utxo_age_blocks : Value
  pub total_vault_sats : Value
  pub memo : Option String
  pub psbt_hex : Option String
  pub psbt_b64 : Option String
  pub distribution_wallet_id : Option String
  pub tranche_index : Option ℕ

-- What the services give: the user, the compiler's answer to an audit (nothing where none is
-- configured or its call fails), the id of the new row, and the database's error on the write.
pub record CreateServices : Type 0 where
  pub user : Option String
  pub compiler_audit : BasePolicy × SpendDraft → Option String
  pub new_id : String
  pub write_error : Option String

abbrev pub fee_rate_bounds : NumberBounds
fee_rate_bounds = record {
  field = "fee_rate";
  min = min_fee_rate_sat_vb;
  max = max_fee_rate_sat_vb;
  integer = false;
}

-- `fee_rate != null`
abbrev pub check_fee_rate : Value → Option String
check_fee_rate undefined = none
check_fee_rate null_value = none
check_fee_rate structure = check_number_bounds structure fee_rate_bounds
check_fee_rate (boolean b) = check_number_bounds (boolean b) fee_rate_bounds
check_fee_rate (text t) = check_number_bounds (text t) fee_rate_bounds
check_fee_rate (number n) = check_number_bounds (number n) fee_rate_bounds

abbrev pub stored : Option String → StoredAudit
stored none = StoredAudit.no_audit
stored (some json) = StoredAudit.from_compiler json

-- Nobody has signed a proposal when it is created.
unfoldable pub run_governance_audit : CreateServices → VaultShape → SpendDraft → StoredAudit
run_governance_audit services vault draft =
    if is_leaf_list_vault vault
    then StoredAudit.own (js_governance_audit_leaf_list vault draft)
    else stored (services.compiler_audit (policy_base vault, draft))

abbrev pub first_status : Option String → ProposalStatus
first_status none = ProposalStatus.draft
first_status (some psbt) = ProposalStatus.pending

unfoldable pub proposal_of :
    CreateServices → ProposalBody → String → String → String → VaultShape → Proposal
proposal_of services body vault_id destination user vault =
    let path = text_or body.path "founders_now" in
    let draft : SpendDraft = record {
      path = path;
      amount_sats = count_of body.amount_sats;
      destination = destination;
      utxo_age_blocks = count_of (or_zero body.utxo_age_blocks);
      total_vault_sats = count_of (or_zero body.total_vault_sats);
      signers = [];
    } in
    record {
      id = services.new_id;
      vault_id = vault_id;
      user_id = user;
      path = path;
      destination = destination;
      amount_sats = count_of body.amount_sats;
      fee_sats = count_of (or_zero body.fee_sats);
      fee_rate = body.fee_rate;
      utxo_age_blocks = count_of (or_zero body.utxo_age_blocks);
      total_vault_sats = count_of (or_zero body.total_vault_sats);
      distribution_wallet_id = body.distribution_wallet_id;
      tranche_index = body.tranche_index;
      governance_audit = run_governance_audit services vault draft;
      memo = body.memo;
      psbt_hex = truthy body.psbt_hex;
      psbt_b64 = truthy body.psbt_b64;
      psbt_signed_hex = none;
      txid = none;
      status = first_status (truthy body.psbt_hex);
    }

-- The handler up to the write: the row to insert.
unfoldable pub check_create : CreateServices → Database → ProposalBody → Outcome Proposal
check_create services db body = do
  user ← require_user services.user
  vault_id ← found (truthy body.vault_id) 400 "Missing: vault_id"
  destination ← found (truthy body.destination) 400 "Missing: destination"
  no_error (check_number_bounds body.amount_sats (amount_bounds "amount_sats" 546)) 400
  no_error (check_unless_zero (or_zero body.fee_sats) "fee_sats") 400
  no_error (check_fee_rate body.fee_rate) 400
  no_error (check_unless_zero (or_zero body.utxo_age_blocks) "utxo_age_blocks") 400
  no_error (check_unless_zero (or_zero body.total_vault_sats) "total_vault_sats") 400
  vault ← found (find_vault vault_id db.vaults) 404 "Vault not found"
  member ← found (membership vault_id user db.members) 403 "Not a member of this vault"
  no_error services.write_error 500
  done (proposal_of services body vault_id destination user vault.shape)

abbrev pub insert_proposal : Outcome Proposal → Database → Database × Outcome Proposal
insert_proposal (refused code message) db = (db, refused code message)
insert_proposal (done p) db = (
  log_event
      (record {
        vault_id = p.vault_id;
        user_id = p.user_id;
        event_type = "psbt_generated";
        metadata =
            ("proposal_id", some p.id)
            ∷ ("path", some p.path)
            ∷ ("amount_sats", some (decimal p.amount_sats))
            ∷ ("destination", some p.destination)
            ∷ [];
        block_height = none;
      })
      (record db { proposals = db.proposals ++ (p ∷ []) }),
  done p,
)

unfoldable pub create_proposal :
    CreateServices → ProposalBody → Database → Database × Outcome Proposal
create_proposal services body db = insert_proposal (check_create services db body) db

abbrev pub newest_first {ℓ} : {A : Type ℓ} → List A → List A
newest_first [] = []
newest_first (x ∷ xs) = newest_first xs ++ (x ∷ [])

-- The columns of a session that are listed with its proposal.
pub record SessionSummary : Type 0 where
  pub id : String
  pub signer_index : ℕ
  pub signer_role : String
  pub label : Option String
  pub signed : Bool
  pub signed_at : String
  pub fingerprint : Option String
  pub member_id : String

abbrev pub session_summary : SignerSession → SessionSummary
session_summary s = record {
  id = s.id;
  signer_index = s.signer_index;
  signer_role = s.signer_role;
  label = s.label;
  signed = s.signed;
  signed_at = s.signed_at;
  fingerprint = s.fingerprint;
  member_id = s.member_id;
}

-- GET: the proposals of a vault with their signer sessions, for an active member.
unfoldable pub list_proposals :
    Option String → Option String → Database → Outcome (List (Proposal × List SessionSummary))
list_proposals user vault_id db = do
  user ← require_user user
  vault_id ← found (truthy vault_id) 400 "Missing: vault_id"
  member ← found (membership vault_id user db.members) 403 "Not a member of this vault"
  done (
      map (λ p. (p, map session_summary (filter (λ s. str_eq s.proposal_id p.id) db.sessions)))
        (newest_first (filter (λ p. str_eq p.vault_id vault_id) db.proposals)))
