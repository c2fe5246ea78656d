-- ===== src/Tests/Named.antt =====
-- netlify/functions/vaults-compile.js on a concrete draft.
use dynastytrust.Prelude.{pos, Option, none, some, [], ◌∷◌, ◌≢◌, ◌≡◌, refl}
use dynastytrust.Psbt.Hex.{hex_value}
use dynastytrust.Paths.{SpendingPathSummary, UnlockType}
use dynastytrust.Server.Shape.{
  find_spending_path, get_spending_paths, column_paths, is_leaf_list_vault,
}
use dynastytrust.Server.Http.{done}
use dynastytrust.Server.Numeric.{number, whole, null_value}
use dynastytrust.Server.Proposals.{is_hex_text}
use dynastytrust.Server.Compile.{Compiled, CompileReply, tip_at}
use dynastytrust.Server.Roster.{RosterKey, DirectKeys, gather_roster, is_provisioned, dedupe_from}
use dynastytrust.Server.Named.{
  NamedVault, CompilePayload, compile_named, compile_draft, stored_shape, to_lower,
}
use dynastytrust.Server.Draft.{NamedDraft, NamedServices, check_floors}
use dynastytrust.Server.Named.Heights.{Delayed, Requested, compile_named-Delayed}

abbrev key : RosterKey
key = record {
  role = "founder";
  pubkey = some "0200112233445566778899aabbccddeeff00112233445566778899aabbccddeeff";
  xpub = none;
  fingerprint = none;
  derivation_path = none;
}

abbrev heir : RosterKey
heir = record {
  role = "heir";
  pubkey = some "03ffeeddccbbaa99887766554433221100ffeeddccbbaa99887766554433221100";
  xpub = none;
  fingerprint = none;
  derivation_path = none;
}

abbrev draft : NamedDraft
draft = record {
  user_id = "u1";
  name = "Home";
  network = "testnet";
  address_type = "tr_multileaf";
  status = "draft";
  plan = record { planned_founder_count = some 1; planned_heir_count = some 1 };
  founder_quorum = 1;
  heir_quorum = 1;
  recovery_quorum = none;
  recovery_after = null_value;
  inheritance_after = number (whole (pos 52560));
  consent_quorum = none;
  backup_quorum = none;
  second_heir_quorum = none;
  second_inheritance_after = null_value;
}

abbrev services : NamedServices
services = record {
  user = some "u1";
  pubkey_from_xpub = λ xpub. xpub;
  fetch_tip_height = λ network. tip_at 800000;
  vault_of = λ id. some draft;
  members_of = λ id. [];
  write_error = none;
}

abbrev tree : Compiled
tree = record {
  address = "tb1p";
  descriptor = "tr()";
  miniscript_policy = "pk()";
  leaf_scripts = none;
}

abbrev compiler : Option (CompilePayload → CompileReply)
compiler = some (λ payload. CompileReply.compiled tree)

abbrev keys : DirectKeys
keys = record {
  founder_keys = some (key ∷ []);
  heir_keys = some (heir ∷ []);
  consent_keys = none;
  backup_keys = none;
  second_heir_keys = none;
}

abbrev compiled_row : NamedVault
compiled_row = record {
  vault_id = "v1";
  address = "tb1p";
  miniscript_policy = "pk()";
  shape =
      stored_shape draft
        (record {
          founders = key ∷ [];
          heirs = heir ∷ [];
          consenters = [];
          backups = [];
          second_heirs = [];
        })
        800000;
  consent_keys = [];
  status = "compiled";
}

is_compiled : compile_named services compiler (some "v1") (some keys) ≡ done compiled_row
unfolding compile_named compile_draft check_floors gather_roster is_provisioned dedupe_from
    is_hex_text hex_value
is_compiled = refl

abbrev heirs_path : SpendingPathSummary
heirs_path = record {
  id = "inheritance";
  label = "Inheritance";
  quorum = 1;
  key_count = 1;
  keys = "03ffeeddccbbaa99887766554433221100ffeeddccbbaa99887766554433221100" ∷ [];
  unlock_type = UnlockType.after;
  unlock_blocks = 852560;
}

is_listed : find_spending_path compiled_row.shape "inheritance" ≡ some heirs_path
unfolding find_spending_path get_spending_paths column_paths is_leaf_list_vault stored_shape
    to_lower
is_listed = refl

is_first : heirs_path.id ≢ "second_inheritance"
is_first e = cc

compile_named-Delayed_example :
    (vault : NamedDraft) × Requested services (some "v1") vault
    × Delayed (λ n. tip_at 800000) vault.network heirs_path
compile_named-Delayed_example =
    compile_named-Delayed services compiler (some "v1") (some keys) compiled_row "inheritance"
      heirs_path is_compiled is_listed is_first refl
