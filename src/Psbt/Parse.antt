-- ===== src/Psbt/Parse.antt =====
-- packages/bip341-psbt-signer/src/index.ts: `parsePsbt` and `parseRawTx`. An array that the source
-- leaves undefined until the first push is the empty list; no code tells the two apart.
use dynastytrust.Prelude.{
  ℕ, zero, suc, ◌-◌, ◌*◌, Bool, false, ◌&&◌, Option, none, some, List, [], ◌∷◌, ◌++◌, length, take,
  drop, get_elem?, if◌then◌else◌, leb, ◌==◌,
}
use dynastytrust.Psbt.Result.{
  Result, ok, err, ◌>>=◌, ◌>>◌, guard, too_large, too_short, bad_magic, no_unsigned_tx,
}
use dynastytrust.Psbt.Hex.{Bytes, byte_at, from_hex}
use dynastytrust.Psbt.Reader.{
  assert_in_bounds, read_uint32_le, read_int64_le, read_var_int, KeyValue, kv_section,
}

pub record Utxo : Type 0 where
  pub amount : ℕ
  pub script_pubkey : Bytes

-- The leaf version is the last byte of the value, absent in an empty one.
pub record LeafScript : Type 0 where
  pub control_block : Bytes
  pub script : Bytes
  pub leaf_version : Option ℕ

pub record ScriptSig : Type 0 where
  pub pubkey : Bytes
  pub leaf_hash : Bytes
  pub sig : Bytes

-- `partialSigs` and `sequence` of the source are never set.
pub record PsbtInput : Type 0 where
  pub witness_utxo : Option Utxo
  pub tap_internal_key : Option Bytes
  pub tap_leaf_script : List LeafScript
  pub tap_script_sigs : List ScriptSig

pub record TxIn : Type 0 where
  pub txid : Bytes
  pub vout : ℕ
  pub sequence : ℕ

pub record TxOut : Type 0 where
  pub amount : ℕ
  pub script_pubkey : Bytes

pub record PsbtTx : Type 0 where
  pub version : ℕ
  pub inputs : List TxIn
  pub outputs : List TxOut
  pub locktime : ℕ

pub record ParsedPsbt : Type 0 where
  pub raw : Bytes
  pub tx : PsbtTx
  pub inputs : List PsbtInput

abbrev pub max_psbt_bytes : ℕ
max_psbt_bytes = 2_000_000

unfoldable pub read_tx_in : Bytes → Result (TxIn × Bytes)
read_tx_in rest = do
  assert_in_bounds rest 32 "input txid"
  let at_vout = drop 32 rest
  assert_in_bounds at_vout 4 "input vout"
  (script_len, at_script) ← read_var_int (drop 4 at_vout)
  assert_in_bounds at_script script_len "input scriptSig"
  let at_sequence = drop script_len at_script
  assert_in_bounds at_sequence 4 "input sequence"
  ok (
    record {
      txid = take 32 rest;
      vout = read_uint32_le at_vout;
      sequence = read_uint32_le at_sequence;
    },
    drop 4 at_sequence,
  )

unfoldable pub read_tx_out : Bytes → Result (TxOut × Bytes)
read_tx_out rest = do
  assert_in_bounds rest 8 "output amount"
  amount ← read_int64_le rest
  (script_len, at_script) ← read_var_int (drop 8 rest)
  assert_in_bounds at_script script_len "output scriptPubkey"
  ok (
    record { amount = amount; script_pubkey = take script_len at_script },
    drop script_len at_script,
  )

-- A loop that reads `count` values.
unfoldable pub read_many {ℓ} :
    {A : Type ℓ} → (Bytes → Result (A × Bytes)) → ℕ → Bytes → Result (List A × Bytes)
read_many read zero rest = ok ([], rest)
read_many read (suc count) rest = do
  (a, rest') ← read rest
  (as_read, rest'') ← read_many read count rest'
  ok (a ∷ as_read, rest'')

unfoldable pub parse_raw_tx : Bytes → Result PsbtTx
parse_raw_tx buf = do
  assert_in_bounds buf 4 "tx version"
  (in_count, at_inputs) ← read_var_int (drop 4 buf)
  (inputs, after_inputs) ← read_many read_tx_in in_count at_inputs
  (out_count, at_outputs) ← read_var_int after_inputs
  (outputs, at_locktime) ← read_many read_tx_out out_count at_outputs
  assert_in_bounds at_locktime 4 "tx locktime"
  ok (record {
    version = read_uint32_le buf;
    inputs = inputs;
    outputs = outputs;
    locktime = read_uint32_le at_locktime;
  })

-- The body of the loop over the global section: the last unsigned transaction counts.
unfoldable pub global_step : Option Bytes → KeyValue → Result (Option Bytes)
global_step tx_bytes kv = ok (if byte_at kv.key == 0 then some kv.value else tx_bytes)

abbrev pub empty_input : PsbtInput
empty_input = record {
  witness_utxo = none;
  tap_internal_key = none;
  tap_leaf_script = [];
  tap_script_sigs = [];
}

unfoldable pub witness_step : PsbtInput → KeyValue → Result PsbtInput
witness_step inp kv = do
  amount ← read_int64_le kv.value
  (script_len, at_script) ← read_var_int (drop 8 kv.value)
  ok (record inp {
    witness_utxo = some (record { amount = amount; script_pubkey = take script_len at_script });
  })

unfoldable pub leaf_of : KeyValue → LeafScript
leaf_of kv = record {
  control_block = drop 1 kv.key;
  script = take (length kv.value - 1) kv.value;
  leaf_version = get_elem? kv.value (length kv.value - 1);
}

unfoldable pub sig_of : KeyValue → ScriptSig
sig_of kv = record {
  pubkey = take 32 (drop 1 kv.key);
  leaf_hash = take 32 (drop 33 kv.key);
  sig = kv.value;
}

-- The body of the loop over an input section.
unfoldable pub input_step : PsbtInput → KeyValue → Result PsbtInput
input_step inp kv =
    let key_type = byte_at kv.key in
    if key_type == 0x01
    then witness_step inp kv
    else if key_type == 0x17
    then ok (record inp { tap_internal_key = some kv.value })
    else if key_type == 0x15
    then ok (record inp { tap_leaf_script = inp.tap_leaf_script ++ leaf_of kv ∷ [] })
    else if key_type == 0x14
    then ok (record inp { tap_script_sigs = inp.tap_script_sigs ++ sig_of kv ∷ [] })
    else ok inp

-- `tx.inputs.map(() => { … })`, which moves the offset on at each element.
unfoldable pub read_inputs {ℓ} : {A : Type ℓ} → List A → Bytes → Result (List PsbtInput × Bytes)
read_inputs [] rest = ok ([], rest)
read_inputs (x ∷ xs) rest = do
  (inp, rest') ← kv_section input_step rest empty_input
  (inps, rest'') ← read_inputs xs rest'
  ok (inp ∷ inps, rest'')

unfoldable pub skip_step : Unit {0} → KeyValue → Result (Unit {0})
skip_step u kv = ok u

unfoldable pub skip_outputs {ℓ} : {A : Type ℓ} → List A → Bytes → Result Bytes
skip_outputs [] rest = ok rest
skip_outputs (x ∷ xs) rest = do (u, rest') ← kv_section skip_step rest tt; skip_outputs xs rest'

abbrev pub has_magic : Bytes → Bool
has_magic (a ∷ b ∷ c ∷ d ∷ e ∷ rest) =
    a == 0x70 && (b == 0x73 && (c == 0x62 && (d == 0x74 && e == 0xff)))
has_magic _ = false

unfoldable pub required_tx : Option Bytes → Result Bytes
required_tx none = err no_unsigned_tx
required_tx (some bytes) = ok bytes

-- `parsePsbt` from the decoded bytes on.
unfoldable pub parse_bytes : Bytes → Result ParsedPsbt
parse_bytes buf = do
  guard (leb 5 (length buf)) too_short
  guard (has_magic buf) bad_magic
  (found, at_inputs) ← kv_section global_step (drop 5 buf) none
  tx_bytes ← required_tx found
  tx ← parse_raw_tx tx_bytes
  (inputs, at_outputs) ← read_inputs tx.inputs at_inputs
  after_outputs ← skip_outputs tx.outputs at_outputs
  ok (record { raw = buf; tx = tx; inputs = inputs })

unfoldable pub parse_psbt : List ℕ → Result ParsedPsbt
unfolding parse_bytes
parse_psbt hex = do
  guard (leb (length hex) (max_psbt_bytes * 2)) too_large
  parse_bytes (from_hex hex)
