-- ===== src/Psbt/Serialize.antt =====
-- packages/bip341-psbt-signer/src/index.ts: `serializePsbt`. A slice of the raw buffer between two
-- offsets is what the rest at the first has before the rest at the second.
use dynastytrust.Prelude.{
  ℕ, zero, suc, ◌-◌, Bool, false, Option, none, some, List, [], ◌∷◌, ◌++◌, length, take, drop,
  get_elem?, if◌then◌else◌, ◌==◌,
}
use dynastytrust.Psbt.Result.{Result, ok, err, ◌>>=◌, out_of_fuel}
use dynastytrust.Psbt.Hex.{Bytes, varint, to_hex}
use dynastytrust.Psbt.Reader.{read_var_int}
use dynastytrust.Psbt.Parse.{ScriptSig, PsbtInput, ParsedPsbt}

-- `buf.slice(start, end)` for the rests at the two offsets.
abbrev pub slice_between : Bytes → Bytes → Bytes
slice_between at_start at_end = take (length at_start - length at_end) at_start

-- The loop of `readRawKVSection`: the rest behind the separator.
unfoldable pub raw_loop : ℕ → Bytes → Result Bytes
raw_loop zero rest = err out_of_fuel
raw_loop (suc fuel) rest = do
  (key_len, at_key) ← read_var_int rest
  let more = (do
    (val_len, at_value) ← read_var_int (drop key_len at_key)
    raw_loop fuel (drop val_len at_value))
  if key_len == 0 then ok at_key else more

unfoldable pub read_raw_kv_section : Bytes → Result (Bytes × Bytes)
read_raw_kv_section rest = do
  after ← raw_loop (suc (length rest)) rest
  ok (slice_between rest after, after)

-- One entry of `stripKeyType`: its type, absent for an empty key, and the rest behind it.
unfoldable pub raw_entry : Bytes → Result (Option ℕ × Bytes)
raw_entry raw = do
  (key_len, at_key) ← read_var_int raw
  (val_len, at_value) ← read_var_int (drop key_len at_key)
  ok (if key_len == 0 then none else get_elem? at_key 0, drop val_len at_value)

abbrev pub is_type : ℕ → Option ℕ → Bool
is_type type none = false
is_type type (some t) = t == type

-- `stripKeyType`: the entries of another type, in order.
unfoldable pub strip_loop : ℕ → ℕ → Bytes → Result Bytes
strip_loop type zero [] = ok []
strip_loop type zero (b ∷ raw) = err out_of_fuel
strip_loop type (suc fuel) [] = ok []
strip_loop type (suc fuel) (b ∷ raw) = do
  (entry_type, after) ← raw_entry (b ∷ raw)
  later ← strip_loop type fuel after
  ok (if is_type type entry_type then later else slice_between (b ∷ raw) after ++ later)

unfoldable pub strip_key_type : Bytes → ℕ → Result Bytes
strip_key_type raw type = strip_loop type (length raw) raw

-- The entry of a signature: key type 0x14, the public key and the leaf hash, then the signature.
unfoldable pub sig_key : ScriptSig → Bytes
sig_key s = 0x14 ∷ s.pubkey ++ s.leaf_hash

unfoldable pub sig_entry : ScriptSig → Bytes
sig_entry s = varint (length (sig_key s)) ++ (sig_key s ++ (varint (length s.sig) ++ s.sig))

unfoldable pub sig_entries : List ScriptSig → Bytes
sig_entries [] = []
sig_entries (s ∷ ss) = sig_entry s ++ sig_entries ss

-- The loop over the inputs: each section without its signatures, those of the input, the separator.
unfoldable pub write_inputs : List PsbtInput → Bytes → Result (Bytes × Bytes)
write_inputs [] rest = ok ([], rest)
write_inputs (inp ∷ inps) rest = do
  (raw, after) ← read_raw_kv_section rest
  existing ← strip_key_type (take (length raw - 1) raw) 0x14
  (later, final) ← write_inputs inps after
  ok (existing ++ (sig_entries inp.tap_script_sigs ++ 0x00 ∷ later), final)

unfoldable pub copy_outputs {ℓ} : {A : Type ℓ} → List A → Bytes → Result Bytes
copy_outputs [] rest = ok []
copy_outputs (x ∷ xs) rest = do
  (raw, after) ← read_raw_kv_section rest
  later ← copy_outputs xs after
  ok (raw ++ later)

unfoldable pub serialize_bytes : ParsedPsbt → Result Bytes
serialize_bytes parsed = do
  (global, at_inputs) ← read_raw_kv_section (drop 5 parsed.raw)
  (inputs, at_outputs) ← write_inputs parsed.inputs at_inputs
  outputs ← copy_outputs parsed.tx.outputs at_outputs
  ok (take 5 parsed.raw ++ (global ++ (inputs ++ outputs)))

unfoldable pub serialize_psbt : ParsedPsbt → Result (List ℕ)
unfolding serialize_bytes
serialize_psbt parsed = do bytes ← serialize_bytes parsed; ok (to_hex bytes)
