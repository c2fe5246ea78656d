-- ===== src/Psbt/Sighash.antt =====
-- packages/bip341-psbt-signer/src/index.ts: the tagged hash, the leaf hash and the tapscript digest.
-- SHA-256 is the library's, and a parameter.
pub mod Unsigned
use dynastytrust.Prelude.{
  ℕ, ◌%◌, Bool, ◌||◌, Option, none, some, List, [], ◌∷◌, ◌++◌, map, length, get_elem?, String, ◌==◌,
}
use Prim.Native.String
use Prim.Native.Char.{Char, code}
use dynastytrust.Psbt.Result.{
  Result, ok, err, ◌>>=◌, ◌>>◌, guard, type_error, unsupported_sighash, missing_witness_utxo,
  all_inputs_witness_utxo,
}
use dynastytrust.Psbt.Hex.{Bytes, varint, write_uint32_le, write_uint64_le}
use dynastytrust.Psbt.Parse.{Utxo, PsbtInput, TxIn, TxOut, PsbtTx, ParsedPsbt}

-- `new TextEncoder().encode(tag)`, for the tags of the code, which are ASCII.
abbrev pub codes : String → Bytes
codes String.[] = []
codes (String.◌∷◌ c s) = code c ∷ codes s

-- `concat(...xs.map(f))`
unfoldable pub concat_map {ℓ} : {A : Type ℓ} → (A → Bytes) → List A → Bytes
concat_map f [] = []
concat_map f (x ∷ xs) = f x ++ concat_map f xs

unfoldable pub outpoint : TxIn → Bytes
outpoint i = i.txid ++ write_uint32_le i.vout

unfoldable pub sized_script : Bytes → Bytes
sized_script s = varint (length s) ++ s

unfoldable pub tx_out_bytes : TxOut → Bytes
tx_out_bytes o = write_uint64_le o.amount ++ sized_script o.script_pubkey

-- The witness outputs of all inputs; one that is missing throws.
unfoldable pub all_utxos : List PsbtInput → Result (List Utxo)
all_utxos [] = ok []
all_utxos (inp ∷ inps) = elim inp.witness_utxo [
  | none ↦ err all_inputs_witness_utxo
  | some utxo ↦ do utxos ← all_utxos inps; ok (utxo ∷ utxos)
]

-- `psbt.inputs[inputIndex].witnessUtxo`, checked.
unfoldable pub own_utxo : Option PsbtInput → Result (Unit {0})
own_utxo none = err type_error
own_utxo (some inp) = elim inp.witness_utxo [ none ↦ err missing_witness_utxo | some utxo ↦ ok tt ]

module _ (sha256 : Bytes → Bytes) where
  unfoldable pub tagged_hash : String → Bytes → Bytes
  tagged_hash tag msg = let tag_hash = sha256 (codes tag) in sha256 (tag_hash ++ (tag_hash ++ msg))

  unfoldable pub tap_leaf_hash : Bytes → ℕ → Bytes
  unfolding tagged_hash
  tap_leaf_hash script leaf_version =
      tagged_hash "TapLeaf" ((leaf_version % 256) ∷ sized_script script)

  -- The message of the digest, over the transaction and the outputs that it spends.
  unfoldable pub sig_msg : PsbtTx → List Utxo → ℕ → Bytes → ℕ → Bytes
  unfolding concat_map outpoint sized_script tx_out_bytes
  sig_msg tx utxos input_index leaf_hash sighash_type =
      sighash_type ∷ write_uint32_le tx.version
      ++ (write_uint32_le tx.locktime
          ++ (sha256 (concat_map outpoint tx.inputs)
              ++ (sha256 (concat_map (λ (u : Utxo). write_uint64_le u.amount) utxos)
                  ++ (sha256 (concat_map (λ (u : Utxo). sized_script u.script_pubkey) utxos)
                      ++ (sha256 (concat_map (λ (i : TxIn). write_uint32_le i.sequence) tx.inputs)
                          ++ (sha256 (concat_map tx_out_bytes tx.outputs)
                              ++ (0x02 ∷ write_uint32_le input_index
                                  ++ (leaf_hash ++ (0x00 ∷ 0xff ∷ 0xff ∷ 0xff ∷ 0xff ∷ [])))))))))

  unfoldable pub tapscript_sighash : ParsedPsbt → ℕ → Bytes → ℕ → Result Bytes
  unfolding all_utxos own_utxo sig_msg tagged_hash
  tapscript_sighash psbt input_index leaf_hash sighash_type = do
    guard (sighash_type == 0x00 || sighash_type == 0x01) unsupported_sighash
    own_utxo (get_elem? psbt.inputs input_index)
    utxos ← all_utxos psbt.inputs
    ok (tagged_hash "TapSighash" (0x00 ∷ sig_msg psbt.tx utxos input_index leaf_hash sighash_type))
