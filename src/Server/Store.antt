-- ===== src/Server/Store.antt =====
-- The tables of the database that the handlers of netlify/functions read and write, with the columns
-- that these use. Rows stand in the order of their creation. The answer of the compiler service to an
-- audit is kept as its JSON text.
use dynastytrust.Prelude.{
  ℕ, String, Bool, true, false, ◌&&◌, Option, List, find, map, str_eq, if◌then◌else◌,
}
use dynastytrust.Paths.{VaultShape}
use dynastytrust.Server.Numeric.{Value}
use dynastytrust.Server.Governance.{AuditResult}

pub record Vault : Type 0 where
  pub id : String
  pub user_id : String
  pub name : String
  pub network : String
  pub shape : VaultShape

pub data MemberStatus : Type 0 where
  active invited removed : MemberStatus

pub record Member : Type 0 where
  pub id : String
  pub vault_id : String
  pub user_id : String
  pub role : String
  pub label : Option String
  pub fingerprint : Option String
  pub status : MemberStatus

pub data ProposalStatus : Type 0 where
  draft pending signed broadcast cancelled fulfilled : ProposalStatus

pub data StoredAudit : Type 0 where
  own : AuditResult → StoredAudit
  from_compiler : String → StoredAudit
  no_audit : StoredAudit

pub record Proposal : Type 0 where
  pub id : String
  pub vault_id : String
  pub user_id : String
  pub path : String
  pub destination : String
  pub amount_sats : ℕ
  pub fee_sats : ℕ
  pub fee_rate : Value
  pub utxo_age_blocks : ℕ
  pub total_vault_sats : ℕ
  pub distribution_wallet_id : Option String
  pub tranche_index : Option ℕ
  pub governance_audit : StoredAudit
  pub memo : Option String
  pub psbt_hex : Option String
  pub psbt_b64 : Option String
  pub psbt_signed_hex : Option String
  pub txid : Option String
  pub status : ProposalStatus

pub record SignerSession : Type 0 where
  pub id : String
  pub proposal_id : String
  pub member_id : String
  pub signer_index : ℕ
  pub signer_role : String
  pub label : Option String
  pub fingerprint : Option String
  pub psbt_partial_hex : String
  pub signed : Bool
  pub signed_at : String

pub record VaultEvent : Type 0 where
  pub vault_id : String
  pub user_id : String
  pub event_type : String
  pub metadata : List (String × Option String)
  pub block_height : Option ℕ

pub record Database : Type 0 where
  pub vaults : List Vault
  pub members : List Member
  pub proposals : List Proposal
  pub sessions : List SignerSession
  pub events : List VaultEvent

abbrev pub find_proposal : String → List Proposal → Option Proposal
find_proposal id rows = find (λ p. str_eq p.id id) rows

abbrev pub find_vault : String → List Vault → Option Vault
find_vault id rows = find (λ v. str_eq v.id id) rows

abbrev pub is_active : MemberStatus → Bool
is_active active = true
is_active invited = false
is_active removed = false

-- The active membership of a user in a vault.
abbrev pub membership : String → String → List Member → Option Member
membership vault_id user_id rows =
    find (λ m. str_eq m.vault_id vault_id && (str_eq m.user_id user_id && is_active m.status)) rows

-- `update(...)` of the rows with an id.
abbrev pub update_proposals : String → (Proposal → Proposal) → List Proposal → List Proposal
update_proposals id change rows = map (λ p. if str_eq p.id id then change p else p) rows
