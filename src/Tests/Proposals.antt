-- ===== src/Tests/Proposals.antt =====
-- netlify/functions/proposals.js on a concrete table.
use dynastytrust.Prelude.{inl, pos, String, Option, none, some, [], ◌∷◌, ◌≡◌, refl}
use dynastytrust.Paths.{VaultShape}
use dynastytrust.Server.Numeric.{number, whole, null_value, check_number_bounds}
use dynastytrust.Server.Shape.{is_leaf_list_vault}
use dynastytrust.Psbt.Hex.{hex_value}
use dynastytrust.Server.Store.{
  Database, MemberStatus, Proposal, broadcast, find_proposal, StoredAudit,
}
use dynastytrust.Server.Proposals.{Fetched, failed, fetched, is_hex_text}
use dynastytrust.Server.Proposals.Patch.{
  Updates, PatchServices, patch_proposal, check_patch, check_broadcast, pays,
}
use dynastytrust.Server.Proposals.Create.{
  ProposalBody, CreateServices, create_proposal, check_create, proposal_of, run_governance_audit,
}
use dynastytrust.Server.Proposals.Ledger.{LedgerStep}
use dynastytrust.Server.Proposals.Ledger.Refine.{posted, patched, Served-LedgerStep}
use dynastytrust.Server.Proposals.Ledger.Runs.{
  Run, PaidIn, nothing, then, Run-is_terminal, Run-Paid,
}

abbrev shape : VaultShape
shape = record {
  leaves = none;
  founder_keys = some ("k1" ∷ []);
  founder_quorum = some 1;
  heir_keys = none;
  heir_quorum = none;
  recovery_after = none;
  recovery_quorum = none;
  inheritance_after = none;
  backup_keys = none;
  backup_quorum = none;
  second_heir_keys = none;
  second_heir_quorum = none;
  second_inheritance_after = none;
}

abbrev start : Database
start = record {
  vaults =
      record { id = "v1"; user_id = "u1"; name = "Home"; network = "testnet"; shape = shape } ∷ [];
  members =
      record {
        id = "m1";
        vault_id = "v1";
        user_id = "u1";
        role = "founder";
        label = none;
        fingerprint = none;
        status = MemberStatus.active;
      }
      ∷ [];
  proposals = [];
  sessions = [];
  events = [];
}

abbrev explorer : String → Fetched
explorer url = fetched (record { scriptpubkey_address = some "tb1q"; value = 5000 } ∷ [])

abbrev creation : CreateServices
creation = record {
  user = some "u1";
  compiler_audit = λ input. none;
  new_id = "p1";
  write_error = none;
}

abbrev body : ProposalBody
body = record {
  vault_id = some "v1";
  path = none;
  destination = some "tb1q";
  amount_sats = number (whole (pos 5000));
  fee_sats = number (whole (pos 0));
  fee_rate = null_value;
  utxo_age_blocks = number (whole (pos 0));
  total_vault_sats = number (whole (pos 9000));
  memo = none;
  psbt_hex = none;
  psbt_b64 = none;
  distribution_wallet_id = none;
  tranche_index = none;
}

abbrev created : Database
created = (create_proposal creation body start).0

abbrev member_services : PatchServices
member_services = record {
  user = some "u1";
  mempool_fetch = explorer;
  tip_height = λ network. none;
  write_error = none;
}

abbrev txid : String
txid = "00112233445566778899aabbccddeeff00112233445566778899AABBCCDDEEFF"

abbrev to_broadcast : Updates
to_broadcast = record {
  status = some (some "broadcast");
  psbt_hex = none;
  psbt_b64 = none;
  psbt_signed_hex = none;
  txid = some (some txid);
  memo = none;
}

abbrev settled_db : Database
settled_db = (patch_proposal member_services (some "p1") to_broadcast created).0

abbrev settled_row : Proposal
settled_row = record {
  id = "p1";
  vault_id = "v1";
  user_id = "u1";
  path = "founders_now";
  destination = "tb1q";
  amount_sats = 5000;
  fee_sats = 0;
  fee_rate = null_value;
  utxo_age_blocks = 0;
  total_vault_sats = 9000;
  distribution_wallet_id = none;
  tranche_index = none;
  governance_audit = StoredAudit.no_audit;
  memo = none;
  psbt_hex = none;
  psbt_b64 = none;
  psbt_signed_hex = none;
  txid = some txid;
  status = broadcast;
}

is_settled : find_proposal "p1" settled_db.proposals ≡ some settled_row
unfolding create_proposal patch_proposal check_create proposal_of run_governance_audit check_patch
    check_broadcast pays is_hex_text check_number_bounds is_leaf_list_vault hex_value
is_settled = refl

Served-LedgerStep_example :
    LedgerStep explorer
      (find_proposal "p1" created.proposals)
      (find_proposal "p1" settled_db.proposals)
Served-LedgerStep_example =
    Served-LedgerStep (patched member_services (some "p1") to_broadcast created refl) "p1"

-- An explorer that does not answer.
abbrev silent : String → Fetched
silent url = failed "timeout"

abbrev history : Run start (explorer ∷ silent ∷ []) settled_db
history =
    then (then nothing (posted creation body start))
      (patched member_services (some "p1") to_broadcast created refl)

abbrev to_cancelled : Updates
to_cancelled = record to_broadcast { status = some (some "cancelled"); txid = none }

Run-is_terminal_example :
    (memo : Option String) × (find_proposal "p1"
        (patch_proposal member_services (some "p1") to_cancelled settled_db).0.proposals
      ≡ some (record settled_row { memo = memo }))
Run-is_terminal_example =
    Run-is_terminal "p1"
      (then {mempool_fetch = explorer} nothing
        (patched member_services (some "p1") to_cancelled settled_db refl))
      is_settled (inl refl)

Run-Paid_example : PaidIn (explorer ∷ silent ∷ []) settled_row
Run-Paid_example = Run-Paid "p1" history refl is_settled refl
