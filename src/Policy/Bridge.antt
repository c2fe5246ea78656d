-- ===== src/Policy/Bridge.antt =====
-- packages/policy-engine/src/index.ts, the ceremony bridge: from a stored proposal to a ceremony.
pub mod Faithful
use dynastytrust.Prelude.{ℕ, String, Bool, Option, if◌then◌else◌, str_eq}
use dynastytrust.Policy.Gate.{
  CeremonyStatus, draft, pending, signing, broadcast, cancelled, SigningCeremony,
}

pub record ProposalRecord : Type 0 where
  pub proposal_id : String
  pub vault_id : String
  pub status : String
  pub destination : String
  pub amount_sats : ℕ
  pub path : String

pub record CeremonyBridgeInput : Type 0 where
  pub proposal : ProposalRecord
  pub authorized_psbt_hash : String
  pub duress : Bool
  pub expires_at : Option ℕ

unfoldable pub map_proposal_status : String → CeremonyStatus
map_proposal_status status =
    if str_eq status "pending"
    then pending
    else if str_eq status "signed"
    then signing
    else if str_eq status "broadcast"
    then broadcast
    else if str_eq status "cancelled"
    then cancelled
    else draft

unfoldable pub ceremony_from_proposal : CeremonyBridgeInput → SigningCeremony
ceremony_from_proposal input = record {
  proposal_id = input.proposal.proposal_id;
  vault_id = input.proposal.vault_id;
  status = map_proposal_status input.proposal.status;
  authorized_psbt_hash = input.authorized_psbt_hash;
  destination = input.proposal.destination;
  amount_sats = input.proposal.amount_sats;
  path = input.proposal.path;
  duress = input.duress;
  expires_at = input.expires_at;
}
