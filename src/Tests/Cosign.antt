-- ===== src/Tests/Cosign.antt =====
-- netlify/functions/psbt-merge.js, signer-sessions.js and compile-leaves.js on concrete rows.
use dynastytrust.Prelude.{pos, true, false, none, some, [], ◌∷◌, leb, ◌≡◌, ◌≢◌, refl}
use dynastytrust.Paths.{VaultShape, SpendingPathSummary}
use dynastytrust.Paths.Exact.{Configured}
use dynastytrust.Server.Http.{done}
use dynastytrust.Server.Shape.{
  is_leaf_list_vault, find_spending_path, get_spending_paths, column_paths,
}
use dynastytrust.Server.Numeric.{number, whole, null_value, check_number_bounds}
use dynastytrust.Server.Store.{
  Database, Vault, Member, MemberStatus, Proposal, ProposalStatus, cancelled, find_proposal,
  StoredAudit,
}
use dynastytrust.Server.Merge.{
  MergeServices, MergeBody, MergeAnswer, Merged, merged, psbt_merge, check_merge, merge_quorum,
  selected, quorum_of_path,
}
use dynastytrust.Server.Merge.Measure.{MergeQuorum}
use dynastytrust.Server.Merge.Quorum.{
  Configured-inheritance, quorum_of_path-inheritance, psbt_merge-is_terminal,
}
use dynastytrust.Server.Sessions.{SessionServices, SessionBody}
use dynastytrust.Server.Compile.{
  CompileServices, CompileBody, CompiledVault, Compiled, DraftLeaf, DraftVault, DraftUnlock,
  WireUnlock, tip_at, compile_leaves, check_leaf,
}
use dynastytrust.Server.Locks.{is_private_extended_key}
use dynastytrust.Publish.{trim_start, trim_end}
use dynastytrust.Server.Compile.{CompileReply}
use dynastytrust.Psbt.Hex.{is_space}
use dynastytrust.Server.Compile.Floors.{SoundVault, compile_leaves-SoundVault}

abbrev shape : VaultShape
shape = record {
  leaves = none;
  founder_keys = some ("k1" ∷ "k2" ∷ []);
  founder_quorum = some 2;
  heir_keys = some ("k3" ∷ []);
  heir_quorum = some 1;
  recovery_after = none;
  recovery_quorum = none;
  inheritance_after = some 900000;
  backup_keys = none;
  backup_quorum = none;
  second_heir_keys = none;
  second_heir_quorum = none;
  second_inheritance_after = none;
}

quorum_of_path-inheritance_example : quorum_of_path shape (some "inheritance") ≡ 2
unfolding is_leaf_list_vault
quorum_of_path-inheritance_example = quorum_of_path-inheritance shape refl

abbrev member : Member
member = record {
  id = "m1";
  vault_id = "v1";
  user_id = "u1";
  role = "heir";
  label = none;
  fingerprint = some "f1";
  status = MemberStatus.active;
}

abbrev closed_row : Proposal
closed_row = record {
  id = "p1";
  vault_id = "v1";
  user_id = "u1";
  path = "inheritance";
  destination = "tb1q";
  amount_sats = 5000;
  fee_sats = 0;
  fee_rate = null_value;
  utxo_age_blocks = 0;
  total_vault_sats = 9000;
  distribution_wallet_id = none;
  tranche_index = none;
  governance_audit = StoredAudit.no_audit;
  memo = none;
  psbt_hex = some "70736274";
  psbt_b64 = none;
  psbt_signed_hex = none;
  txid = none;
  status = cancelled;
}

abbrev tables : Database
tables = record {
  vaults =
      record { id = "v1"; user_id = "u1"; name = "Home"; network = "testnet"; shape = shape } ∷ [];
  members = member ∷ [];
  proposals = closed_row ∷ [];
  sessions = [];
  events = [];
}

abbrev combined : Merged
combined = record { psbt_hex = "70"; psbt_b64 = "cA=="; input_count = 1; signature_count = 2 }

abbrev merge_services : MergeServices
merge_services = record { user = some "u1"; compiler = some (λ psbts. merged combined) }

abbrev merge_body : MergeBody
merge_body = record {
  vault_id = some "v1";
  proposal_id = some "p1";
  psbts = some ("70" ∷ "70" ∷ []);
}

abbrev merge_answer : MergeAnswer
merge_answer = record { merged = combined; fully_signed = true }

is_merged : (psbt_merge merge_services merge_body tables).1 ≡ done merge_answer
unfolding psbt_merge check_merge merge_quorum find_spending_path get_spending_paths column_paths
    is_leaf_list_vault
is_merged = refl

abbrev home : Vault
home = record { id = "v1"; user_id = "u1"; name = "Home"; network = "testnet"; shape = shape }

named : closed_row.path ≢ ""
named e = cc

is_named : is_leaf_list_vault shape ≡ false
unfolding is_leaf_list_vault
is_named = refl

-- The selected columns configure no inheritance.
unconfigured : (p : SpendingPathSummary) → Configured (selected shape) p → p.id ≢ "inheritance"
unconfigured p configured = Configured-inheritance shape configured

psbt_merge-is_terminal_example :
    (q : Proposal) × (find_proposal "p1" (psbt_merge merge_services merge_body tables).0.proposals
      ≡ some q)
    × (q.status ≡ ProposalStatus.signed)
    × (q.psbt_signed_hex ≡ some "70")
    × (q.txid ≡ none)
    × (true ≡ leb 2 2)
psbt_merge-is_terminal_example =
    psbt_merge-is_terminal merge_services merge_body tables "p1" merge_answer closed_row home 2
      is_merged refl refl refl refl named (MergeQuorum.of_founders is_named unconfigured)

abbrev session_services : SessionServices
session_services = record {
  user = some "u1";
  now = "2026-11-26T00:00:00.000Z";
  new_id = "s1";
  write_error = none;
}

abbrev session_body : SessionBody
session_body = record { proposal_id = some "p1"; psbt_partial_hex = some "70"; label = none }

abbrev gift : DraftLeaf
gift = record {
  id = some "gift";
  label = none;
  keys = some ("02ab" ∷ []);
  quorum = number (whole (pos 1));
  unlock = DraftUnlock.after (number (whole (pos 26000)));
  decay = none;
}

abbrev draft_vault : DraftVault
draft_vault = record {
  id = "v2";
  user_id = "u1";
  name = "Gift";
  network = "testnet";
  status = "draft";
  leaves = some (gift ∷ []);
  consent_keys = none;
  consent_quorum = none;
}

abbrev tree : Compiled
tree = record {
  address = "tb1p";
  descriptor = "tr()";
  miniscript_policy = "pk()";
  leaf_scripts = none;
}

abbrev compile_services : CompileServices
compile_services = record {
  user = some "u1";
  compiler = some (λ request. CompileReply.compiled tree);
  vault_of = λ id. some draft_vault;
  fetch_tip_height = λ network. tip_at 800000;
  write_error = none;
}

abbrev compile_body : CompileBody
compile_body = record { vault_id = some "v2"; key_origins = [] }

abbrev stored : CompiledVault
stored = record {
  vault_id = "v2";
  compiled = tree;
  leaves =
      record {
        id = "gift";
        label = "gift";
        keys = "02ab" ∷ [];
        quorum = 1;
        unlock = WireUnlock.after 826000;
        decay = none;
      }
      ∷ [];
  address_type = "tr_multileaf";
  status = "compiled";
  key_origins = [];
}

is_compiled : compile_leaves compile_services compile_body ≡ done stored
unfolding compile_leaves check_leaf is_private_extended_key trim_start trim_end check_number_bounds
    is_space
is_compiled = refl

compile_leaves-SoundVault_example : SoundVault compile_services stored
compile_leaves-SoundVault_example =
    compile_leaves-SoundVault compile_services compile_body stored is_compiled
