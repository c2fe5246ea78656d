-- ===== src/Server/Named.antt =====
-- netlify/functions/vaults-compile.js: the timelocks of a draft vault of named fields, what is sent to
-- the compiler, and the columns that are stored. The user, the tip, the compiler, the public key of an
-- extended key and the database's error on the write are parameters.
pub mod Heights
use dynastytrust.Prelude.{
  ℕ, String, Bool, true, false, ◌&&◌, ◌||◌, not, Option, none, some, is_some, List, [], ◌∷◌, map,
  length, ltb, leb, ◌==◌, str_eq, if◌then◌else◌,
}
use Prim.Native.String
use Prim.Native.Char.{Char, code}
use dynastytrust.Paths.{VaultShape, or_else}
use dynastytrust.Server.Http.{
  Outcome, refused, done, ◌>>=◌, ◌>>◌, unless, no_error, found, truthy, require_user,
}
use dynastytrust.Server.Numeric.{
  Value, undefined, null_value, structure, boolean, text, number, count_of,
}
use dynastytrust.Server.Compile.{Tip, tip_of_reply, CompileReply, Compiled, compiled_of}
use dynastytrust.Server.Locks.{check_timelock_floor, relative_to_absolute}
use dynastytrust.Server.Roster.{RosterKey, DirectKeys, Plan, Roster, gather_roster, text_of}
use dynastytrust.Server.Draft.{
  NamedDraft, is_given, has_second_inheritance, value_if, check_floors, is_set, needs_tip,
  NamedServices, tip_for_named,
}

-- The letters of a public key in hexadecimal, in lower case.
abbrev pub lower : Char → Char
lower c =
    if code c == 65
    then "a"
    else if code c == 66
    then "b"
    else if code c == 67
    then "c"
    else if code c == 68
    then "d"
    else if code c == 69
    then "e"
    else if code c == 70
    then "f"
    else c

unfoldable pub to_lower : String → String
to_lower String.[] = String.[]
to_lower (String.◌∷◌ c s) = String.◌∷◌ (lower c) (to_lower s)

abbrev pub pubkey_or : Option String → (String → String) → String → String
pubkey_or none derive otherwise = otherwise
pubkey_or (some xpub) derive otherwise = derive xpub

abbrev pub key_pubkey_hex : NamedServices → RosterKey → String
key_pubkey_hex services k =
    pubkey_or (truthy k.xpub) services.pubkey_from_xpub (to_lower (text_of k.pubkey))

-- `k.xpub || k.pubkey.toLowerCase()`
abbrev pub key_store_value : RosterKey → String
key_store_value k = or_else (truthy k.xpub) (to_lower (text_of k.pubkey))

-- Optional parts of the payload are left out where they do not apply.
pub record KeyGroup : Type 0 where
  pub keys : List String
  pub quorum : Option ℕ

pub record CompilePayload : Type 0 where
  pub name : String
  pub network : String
  pub address_type : String
  pub founder_keys : List String
  pub founder_quorum : ℕ
  pub recovery_quorum : Option ℕ
  pub heir_keys : List String
  pub heir_quorum : ℕ
  pub recovery_after : ℕ
  pub inheritance_after : ℕ
  pub consent : Option KeyGroup
  pub backup : Option KeyGroup
  pub second_heirs : Option KeyGroup
  pub second_inheritance_after : Option ℕ

abbrev pub group_if : Bool → List String → Option ℕ → Option KeyGroup
group_if test keys quorum = if test then some (record { keys = keys; quorum = quorum }) else none

abbrev pub payload_of : NamedServices → NamedDraft → Roster → ℕ → CompilePayload
payload_of services vault r tip = record {
  name = vault.name;
  network = vault.network;
  address_type = vault.address_type;
  founder_keys = map (key_pubkey_hex services) r.founders;
  founder_quorum = vault.founder_quorum;
  recovery_quorum = vault.recovery_quorum;
  heir_keys = map (key_pubkey_hex services) r.heirs;
  heir_quorum = vault.heir_quorum;
  recovery_after = relative_to_absolute vault.recovery_after tip;
  inheritance_after = relative_to_absolute vault.inheritance_after tip;
  consent =
      group_if
        (is_some vault.consent_quorum && leb (or_else vault.consent_quorum 0) (length r.consenters))
        (map (key_pubkey_hex services) r.consenters) vault.consent_quorum;
  backup =
      group_if (ltb 0 (length r.backups) && is_some vault.backup_quorum)
        (map (key_pubkey_hex services) r.backups) vault.backup_quorum;
  second_heirs =
      group_if (has_second_inheritance vault r) (map (key_pubkey_hex services) r.second_heirs)
        vault.second_heir_quorum;
  second_inheritance_after =
      if has_second_inheritance vault r
      then some (relative_to_absolute vault.second_inheritance_after tip)
      else none;
}

abbrev pub height_column : Value → Option ℕ
height_column v = if is_given v then some (count_of v) else none

-- The row after the update, as far as it says how the vault is spent. Without a second inheritance
-- its timelock stays as the draft had it.
unfoldable pub stored_shape : NamedDraft → Roster → ℕ → VaultShape
stored_shape vault r tip = record {
  leaves = none;
  founder_keys = some (map key_store_value r.founders);
  founder_quorum = some vault.founder_quorum;
  heir_keys = some (map key_store_value r.heirs);
  heir_quorum = some vault.heir_quorum;
  recovery_after = some (relative_to_absolute vault.recovery_after tip);
  recovery_quorum = vault.recovery_quorum;
  inheritance_after = some (relative_to_absolute vault.inheritance_after tip);
  backup_keys = some (map key_store_value r.backups);
  backup_quorum = vault.backup_quorum;
  second_heir_keys = some (map key_store_value r.second_heirs);
  second_heir_quorum = vault.second_heir_quorum;
  second_inheritance_after =
      if has_second_inheritance vault r
      then some (relative_to_absolute vault.second_inheritance_after tip)
      else height_column vault.second_inheritance_after;
}

pub record NamedVault : Type 0 where
  pub vault_id : String
  pub address : String
  pub miniscript_policy : String
  pub shape : VaultShape
  pub consent_keys : List String
  pub status : String

-- The handler for a vault that was loaded; its answer is what it stores.
unfoldable pub compile_draft :
    NamedServices
    → (CompilePayload → CompileReply)
    → String
    → NamedDraft
    → Option DirectKeys
    → Outcome NamedVault
compile_draft services compiler vault_id vault direct_keys = do
  r ← gather_roster direct_keys (services.members_of vault_id) vault.plan
  check_floors vault r
  tip ← tip_for_named services vault r
  answer ← compiled_of (compiler (payload_of services vault r tip))
  no_error services.write_error 500
  done (record {
    vault_id = vault_id;
    address = answer.address;
    miniscript_policy = answer.miniscript_policy;
    shape = stored_shape vault r tip;
    consent_keys = if is_some vault.consent_quorum then map key_store_value r.consenters else [];
    status = "compiled";
  })

unfoldable pub compile_named :
    NamedServices
    → Option (CompilePayload → CompileReply)
    → Option String
    → Option DirectKeys
    → Outcome NamedVault
compile_named services compiler vault_id direct_keys = do
  user ← require_user services.user
  vault_id ← found (truthy vault_id) 400 "Missing: vault_id"
  compiler ← found compiler 503 "Compiler service not configured."
  vault ← found (services.vault_of vault_id) 404 "Vault not found"
  unless (str_eq vault.user_id user) 403 "Only the owner can compile"
  unless (str_eq vault.status "draft") 400 "Vault is not in draft status"
  compile_draft services compiler vault_id vault direct_keys
