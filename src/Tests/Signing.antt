-- ===== src/Tests/Signing.antt =====
-- An input with one leaf: apps/web/src/lib/psbt-signer.ts, `signPsbtWithMnemonic`, on concrete data.
use dynastytrust.Prelude.{ℕ, true, some, none, [], ◌∷◌, ◌≡◌, ◌≢◌, inl, refl}
use dynastytrust.Psbt.Result.{ok}
use dynastytrust.Psbt.Hex.{to_hex}
use dynastytrust.Psbt.Parse.{LeafScript, ScriptSig, ParsedPsbt}
use dynastytrust.Psbt.Sighash.{tap_leaf_hash, tapscript_sighash}
use dynastytrust.Psbt.Cosign.Merge.{at_slot}
use dynastytrust.Psbt.Sign.{Crypto, starts_with, includes, names_key, signature_of, sign_leaves}
use dynastytrust.Psbt.Sign.Signed.{sign_leaves-other, sign_leaves-signs}

-- Libraries whose hash is one byte, and whose signature holds the key and the digest.
abbrev libraries : Crypto
libraries = record {
  Node = ℕ;
  PrivateKey = ℕ;
  mnemonic_to_seed = λ words. [];
  from_master_seed = λ seed private public. 7;
  derive = λ node path. node;
  derive_child = λ node index. node;
  private_key = λ node. some node;
  public_key = λ key. 2 ∷ key ∷ [];
  schnorr_sign = λ digest key. key ∷ digest;
  sha256 = λ bytes. 5 ∷ [];
}

abbrev leaf : LeafScript
leaf = record { control_block = []; script = 32 ∷ 7 ∷ 172 ∷ []; leaf_version = some 192 }

abbrev psbt : ParsedPsbt
psbt = record {
  raw = [];
  tx = record { version = 2; inputs = []; outputs = []; locktime = 0 };
  inputs =
      record {
        witness_utxo = some (record { amount = 1000; script_pubkey = 81 ∷ [] });
        tap_internal_key = none;
        tap_leaf_script = leaf ∷ [];
        tap_script_sigs = [];
      }
      ∷ [];
}

abbrev theirs : ScriptSig
theirs = record { pubkey = 9 ∷ []; leaf_hash = 5 ∷ []; sig = 1 ∷ [] }

leaf_named : names_key libraries 7 leaf ≡ true
unfolding includes starts_with to_hex
leaf_named = refl

leaf_digest : tapscript_sighash libraries.sha256 psbt 0 (5 ∷ []) 0x00 ≡ ok (5 ∷ [])
unfolding tapscript_sighash
leaf_digest = refl

sign_leaves-signs_example :
    at_slot
      (signature_of libraries 7 leaf (5 ∷ []))
      (sign_leaves libraries 7 psbt 0 (leaf ∷ []) (theirs ∷ [], 0)).0
    ≡ some (signature_of libraries 7 leaf (5 ∷ []))
unfolding tap_leaf_hash
sign_leaves-signs_example =
    sign_leaves-signs libraries 7 psbt 0 leaf (5 ∷ []) (leaf ∷ []) (theirs ∷ [], 0) (inl refl)
      leaf_named leaf_digest

theirs_other : theirs.pubkey ≢ (7 ∷ [])
theirs_other = λ e. cc

sign_leaves-other_example :
    at_slot theirs (sign_leaves libraries 7 psbt 0 (leaf ∷ []) (theirs ∷ [], 0)).0
    ≡ at_slot theirs (theirs ∷ [])
sign_leaves-other_example =
    sign_leaves-other libraries 7 psbt 0 (leaf ∷ []) (theirs ∷ [], 0) theirs theirs_other
