-- ===== src/Psbt/Sign.antt =====
-- apps/web/src/lib/psbt-signer.ts, `signPsbtWithMnemonic`. The derivation of keys and the Schnorr
-- signature are libraries', and parameters; what they throw is left out.
pub mod Signed
use dynastytrust.Prelude.{
  ℕ, suc, ◌+◌, String, Bool, true, false, ◌&&◌, ◌||◌, not, Option, none, some, List, [], ◌∷◌, ◌++◌,
  drop, if◌then◌else◌, ◌==◌,
}
use dynastytrust.Psbt.Result.{
  Result, ok, err, Error, ◌>>=◌, ◌>>◌, guard, no_private_key, not_a_signer,
}
use dynastytrust.Psbt.Hex.{Bytes, to_hex}
use dynastytrust.Psbt.Parse.{LeafScript, ScriptSig, PsbtInput, ParsedPsbt, parse_psbt}
use dynastytrust.Psbt.Serialize.{serialize_psbt}
use dynastytrust.Psbt.Sighash.{tap_leaf_hash, tapscript_sighash}
use dynastytrust.Psbt.Cosign.{same_slot}

pub data SignNetwork : Type 0 where
  testnet bitcoin : SignNetwork

-- What the code calls of the libraries. `public_key` is the compressed key.
pub record Crypto : Type 1 where
  pub Node : Type 0
  pub PrivateKey : Type 0
  pub mnemonic_to_seed : String → Bytes
  pub from_master_seed : Bytes → ℕ → ℕ → Node
  pub derive : Node → String → Node
  pub derive_child : Node → ℕ → Node
  pub private_key : Node → Option PrivateKey
  pub public_key : PrivateKey → Bytes
  pub schnorr_sign : Bytes → PrivateKey → Bytes
  pub sha256 : Bytes → Bytes

-- The version bytes of private and of public keys.
abbrev pub private_version : SignNetwork → ℕ
private_version bitcoin = 0x0488ade4
private_version testnet = 0x04358394

abbrev pub public_version : SignNetwork → ℕ
public_version bitcoin = 0x0488b21e
public_version testnet = 0x043587cf

unfoldable pub starts_with : List ℕ → List ℕ → Bool
starts_with [] text = true
starts_with (c ∷ cs) [] = false
starts_with (c ∷ cs) (d ∷ text) = c == d && starts_with cs text

-- `text.includes(part)`
unfoldable pub includes : List ℕ → List ℕ → Bool
includes part [] = starts_with part []
includes part (c ∷ text) = starts_with part (c ∷ text) || includes part text

-- The signatures that are not by the key for the leaf.
pub without : ScriptSig → List ScriptSig → List ScriptSig
without new [] = []
without new (s ∷ ss) = let later = without new ss in if same_slot s new then later else s ∷ later

-- An absent leaf version counts as 0 in the byte array.
abbrev pub version_of : LeafScript → ℕ
version_of leaf = elim leaf.leaf_version [ none ↦ 0 | some v ↦ v ]

module _ (crypto : Crypto) where
  open crypto use {
    PrivateKey, mnemonic_to_seed, from_master_seed, derive, derive_child, private_key, public_key,
    schnorr_sign, sha256,
  }

  abbrev pub x_only : PrivateKey → Bytes
  x_only key = drop 1 (public_key key)

  abbrev pub leaf_hash_of : LeafScript → Bytes
  leaf_hash_of leaf = tap_leaf_hash sha256 leaf.script (version_of leaf)

  abbrev pub signature_of : PrivateKey → LeafScript → Bytes → ScriptSig
  signature_of key leaf digest = record {
    pubkey = x_only key;
    leaf_hash = leaf_hash_of leaf;
    sig = schnorr_sign digest key;
  }

  -- The signatures with the new one in the place of an older, and how many were added; a digest
  -- that fails is passed over.
  abbrev pub add_signature :
      PrivateKey → LeafScript → Result Bytes → List ScriptSig × ℕ → List ScriptSig × ℕ
  add_signature key leaf (err e) (sigs, added) = (sigs, added)
  add_signature key leaf (ok digest) (sigs, added) =
      let new = signature_of key leaf digest in (without new sigs ++ new ∷ [], suc added)

  abbrev pub names_key : PrivateKey → LeafScript → Bool
  names_key key leaf = includes (to_hex (x_only key)) (to_hex leaf.script)

  -- One leaf of input `i`; a leaf whose script does not hold the key is passed over. The digests are those of the PSBT that was parsed: they
  -- look at no signature.
  pub sign_leaf : PrivateKey → ParsedPsbt → ℕ → LeafScript → List ScriptSig × ℕ → List ScriptSig × ℕ
  sign_leaf key parsed i leaf state =
      let digest = tapscript_sighash sha256 parsed i (leaf_hash_of leaf) 0x00 in
      if names_key key leaf then add_signature key leaf digest state else state

  pub sign_leaves :
      PrivateKey → ParsedPsbt → ℕ → List LeafScript → List ScriptSig × ℕ → List ScriptSig × ℕ
  sign_leaves key parsed i [] state = state
  sign_leaves key parsed i (leaf ∷ leaves) state =
      sign_leaves key parsed i leaves (sign_leaf key parsed i leaf state)

  -- The loop over the inputs from `i` on.
  pub sign_inputs : PrivateKey → ParsedPsbt → ℕ → List PsbtInput → ℕ → List PsbtInput × ℕ
  sign_inputs key parsed i [] added = ([], added)
  sign_inputs key parsed i (inp ∷ inps) added =
      let (sigs, more) =
        sign_leaves key parsed i inp.tap_leaf_script (inp.tap_script_sigs, added) in
      let (later, total) = sign_inputs key parsed (suc i) inps more in
      (record inp { tap_script_sigs = sigs } ∷ later, total)

  unfoldable pub signing_key : String → String → SignNetwork → Result PrivateKey
  signing_key mnemonic path network =
      let root =
        from_master_seed (mnemonic_to_seed mnemonic) (private_version network)
          (public_version network) in
      let child00 = derive_child (derive_child (derive root path) 0) 0 in
      elim (private_key child00) [ none ↦ err no_private_key | some key ↦ ok key ]

  -- The signed text and the number of signatures that were added.
  unfoldable pub sign_psbt_with_mnemonic :
      List ℕ → String → String → SignNetwork → Result (List ℕ × ℕ)
  unfolding sign_inputs sign_leaves sign_leaf
  sign_psbt_with_mnemonic hex mnemonic path network = do
    key ← signing_key mnemonic path network
    parsed ← parse_psbt hex
    let (inputs, added) = sign_inputs key parsed 0 parsed.inputs 0
    guard (not (added == 0)) not_a_signer
    signed ← serialize_psbt (record parsed { inputs = inputs })
    ok (signed, added)
