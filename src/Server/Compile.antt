-- ===== src/Server/Compile.antt =====
-- netlify/functions/compile-leaves.js: a draft vault of leaves is checked, its locks are set, and the
-- compiler's answer is stored. The user, the tip of the chain, the compiler and the database's error
-- on the write are parameters. Keys are texts; a leaf's decay is its JSON text.
pub mod Floors
use dynastytrust.Prelude.{
  ℕ, zero, suc, ◌+◌, ℤ, pos, negsuc, String, ◌⧺◌, decimal, Bool, true, false, ◌&&◌, ◌||◌, not,
  Option, none, some, List, [], ◌∷◌, length, take, map, any, ltb, leb, ◌==◌, str_eq, if◌then◌else◌,
}
use dynastytrust.Psbt.Hex.{is_space}
use dynastytrust.Psbt.Sighash.{codes}
use dynastytrust.Server.Http.{
  Outcome, refused, done, ◌>>=◌, ◌>>◌, unless, no_error, found, truthy, require_user,
}
use dynastytrust.Server.Numeric.{
  Value, undefined, null_value, structure, boolean, text, number, Number, nan, infinity,
  minus_infinity, whole, fraction, max_safe_integer, NumberBounds, check_number_bounds, count_of,
}
use dynastytrust.Server.Locks.{
  min_recovery_blocks, not_whole, check_floor, check_timelock_floor, relative_to_absolute,
  same_codes, is_private_extended_key, assert_not_private_extended_key,
}

-- `unlock` of a draft's leaf, whose blocks are not checked yet.
pub data DraftUnlock : Type 0 where
  immediate absent : DraftUnlock
  after older : Value → DraftUnlock

pub record DraftLeaf : Type 0 where
  pub id : Option String
  pub label : Option String
  pub keys : Option (List String)
  pub quorum : Value
  pub unlock : DraftUnlock
  pub decay : Option String

pub record KeyOrigin : Type 0 where
  pub pubkey : String
  pub fingerprint : String
  pub derivation_path : String

-- A leaf as it is sent to the compiler and stored: a lock to a height is absolute now.
pub data WireUnlock : Type 0 where
  immediate absent : WireUnlock
  after : ℕ → WireUnlock
  older : Value → WireUnlock

pub record WireLeaf : Type 0 where
  pub id : String
  pub label : String
  pub keys : List String
  pub quorum : ℕ
  pub unlock : WireUnlock
  pub decay : Option String

abbrev pub list_or {ℓ} : {A : Type ℓ} → Option (List A) → List A
list_or none = []
list_or (some xs) = xs

abbrev pub text_or : Option String → String → String
text_or none otherwise = otherwise
text_or (some s) otherwise = if str_eq s "" then otherwise else s

abbrev pub check_keys : List String → Outcome (Unit {0})
check_keys [] = done tt
check_keys (k ∷ ks) = no_error (assert_not_private_extended_key k) 400 >> check_keys ks

abbrev pub quorum_bounds : String → List String → NumberBounds
quorum_bounds id keys = record {
  field = "Leaf '" ⧺ (id ⧺ "' quorum");
  min = pos 1;
  max = pos (length keys);
  integer = true;
}

abbrev pub check_unlock : String → DraftUnlock → Outcome (Unit {0})
check_unlock id immediate = done tt
check_unlock id absent = done tt
check_unlock id (after blocks) =
    no_error (check_timelock_floor blocks ("Leaf '" ⧺ (id ⧺ "' unlock.blocks"))) 400
check_unlock id (older blocks) = done tt

unfoldable pub check_leaf : DraftLeaf → Outcome (Unit {0})
check_leaf leaf = do
  id ← found (truthy leaf.id) 400 "Every leaf needs a non-empty id"
  unless (ltb 0 (length (list_or leaf.keys))) 400 ("Leaf '" ⧺ (id ⧺ "' has no keys"))
  no_error (check_number_bounds leaf.quorum (quorum_bounds id (list_or leaf.keys))) 400
  check_keys (list_or leaf.keys)
  check_unlock id leaf.unlock

abbrev pub check_leaves : List DraftLeaf → Outcome (Unit {0})
check_leaves [] = done tt
check_leaves (leaf ∷ leaves) = check_leaf leaf >> check_leaves leaves

abbrev pub is_after : DraftUnlock → Bool
is_after immediate = false
is_after absent = false
is_after (after blocks) = true
is_after (older blocks) = false

abbrev pub wire_unlock : ℕ → DraftUnlock → WireUnlock
wire_unlock tip immediate = WireUnlock.immediate
wire_unlock tip absent = WireUnlock.absent
wire_unlock tip (after blocks) = WireUnlock.after (relative_to_absolute blocks tip)
wire_unlock tip (older blocks) = WireUnlock.older blocks

abbrev pub wire_leaf : ℕ → DraftLeaf → WireLeaf
wire_leaf tip leaf = record {
  id = text_or leaf.id "";
  label = text_or leaf.label (text_or leaf.id "");
  keys = list_or leaf.keys;
  quorum = count_of leaf.quorum;
  unlock = wire_unlock tip leaf.unlock;
  decay = leaf.decay;
}

pub record DraftVault : Type 0 where
  pub id : String
  pub user_id : String
  pub name : String
  pub network : String
  pub status : String
  pub leaves : Option (List DraftLeaf)
  pub consent_keys : Option (List String)
  pub consent_quorum : Option ℕ

pub record Compiled : Type 0 where
  pub address : String
  pub descriptor : String
  pub miniscript_policy : String
  pub leaf_scripts : Option (List (String × String))

-- What the update writes to the vault's row.
pub record CompiledVault : Type 0 where
  pub vault_id : String
  pub compiled : Compiled
  pub leaves : List WireLeaf
  pub address_type : String
  pub status : String
  pub key_origins : List KeyOrigin

pub record CompileRequest : Type 0 where
  pub name : String
  pub network : String
  pub leaves : List WireLeaf
  pub consent_keys : List String
  pub consent_quorum : Option ℕ

-- The compiler's answer: none, one that is no JSON, an error, or the compiled vault.
pub data CompileReply : Type 0 where
  unreachable : String → CompileReply
  not_json : ℕ → String → CompileReply
  declined : Option String → CompileReply
  compiled : Compiled → CompileReply

pub data Tip : Type 0 where
  no_tip : String → Tip
  tip_at : ℕ → Tip

pub record CompileServices : Type 0 where
  pub user : Option String
  pub compiler : Option (CompileRequest → CompileReply)
  pub vault_of : String → Option DraftVault
  pub fetch_tip_height : String → Tip
  pub write_error : Option String

pub record CompileBody : Type 0 where
  pub vault_id : Option String
  pub key_origins : List KeyOrigin

abbrev pub tip_of_reply : Tip → String → Outcome ℕ
tip_of_reply (no_tip message) network =
    refused 502 ("Could not fetch chain tip for " ⧺ (network ⧺ (": " ⧺ message)))
tip_of_reply (tip_at height) network = done height

-- The tip is fetched only where a leaf has a lock to a height.
abbrev pub tip_for : CompileServices → DraftVault → List DraftLeaf → Outcome ℕ
tip_for services vault leaves =
    if any (λ l. is_after l.unlock) leaves
    then tip_of_reply (services.fetch_tip_height vault.network) vault.network
    else done 0

abbrev pub compiled_of : CompileReply → Outcome Compiled
compiled_of (unreachable message) = refused 502 ("Compiler unreachable: " ⧺ message)
compiled_of (not_json code body) =
    refused 502 ("Compiler returned non-JSON (status " ⧺ (decimal code ⧺ ("): " ⧺ body)))
compiled_of (declined message) = refused 400 (text_or message "Compiler returned an error")
compiled_of (compiled c) = done c

-- The handler; its answer is what it stores.
unfoldable pub compile_leaves : CompileServices → CompileBody → Outcome CompiledVault
compile_leaves services body = do
  user ← require_user services.user
  vault_id ← found (truthy body.vault_id) 400 "Missing: vault_id"
  compiler ← found services.compiler 503 "Compiler service not configured."
  vault ← found (services.vault_of vault_id) 404 "Vault not found"
  unless (str_eq vault.user_id user) 403 "Only the owner can compile"
  unless (str_eq vault.status "draft") 400 "Vault is not in draft status"
  unless (ltb 0 (length (list_or vault.leaves))) 400 "Draft has no leaves configured"
  check_leaves (list_or vault.leaves)
  check_keys (list_or vault.consent_keys)
  tip ← tip_for services vault (list_or vault.leaves)
  let wire = map (wire_leaf tip) (list_or vault.leaves)
  answer ← compiled_of (
      compiler (record {
        name = vault.name;
        network = vault.network;
        leaves = wire;
        consent_keys = list_or vault.consent_keys;
        consent_quorum = vault.consent_quorum;
      }))
  no_error services.write_error 500
  done (record {
    vault_id = vault_id;
    compiled = answer;
    leaves = wire;
    address_type = "tr_multileaf";
    status = "compiled";
    key_origins = body.key_origins;
  })
