-- ===== src/Tests/Psbt.antt =====
-- A transaction of one input and one output: packages/bip341-psbt-signer/src/index.ts and
-- apps/web/src/lib/psbt-signer.ts on concrete bytes.
use dynastytrust.Prelude.{
  ℕ, zero, suc, ◌≤◌, true, none, some, List, [], ◌∷◌, ◌++◌, All, every, length, ltb, ◌≡◌, ◌≢◌, ◌↔◌,
  refl, arith,
}
use dynastytrust.Psbt.Result.{ok, err, out_of_fuel}
use dynastytrust.Psbt.Hex.{Bytes, to_hex, varint, read_uint16_le}
use dynastytrust.Psbt.Hex.RoundTrip.{IsByte}
use dynastytrust.Psbt.Reader.{read_uint32_le, read_int64_le, var_int_from, read_var_int}
use dynastytrust.Psbt.Parse.{
  ScriptSig, PsbtInput, PsbtTx, ParsedPsbt, parse_bytes, parse_psbt, parse_raw_tx, read_many,
  read_tx_in, read_tx_out, global_step, input_step, witness_step, max_psbt_bytes,
}
use dynastytrust.Psbt.Serialize.{sig_key, serialize_bytes, serialize_psbt}
use dynastytrust.Psbt.Grammar.{
  one, Entry, entries_bytes, sections, Document, IsDocument, document_bytes,
}
use dynastytrust.Psbt.Grammar.Read.{fold_kvs, decode_inputs, Decodes, parse_bytes-document}
use dynastytrust.Psbt.Grammar.Signed.{IsSig, set_all, unsigned, signed_inputs}
use dynastytrust.Psbt.Grammar.Write.{written, serialize_bytes-document}
use dynastytrust.Psbt.RoundTrip.{
  parse_psbt-to_hex, resigned, written-IsDocument, written-Decodes, parse_psbt-serialize_psbt,
}
use dynastytrust.Psbt.Total.{parse_psbt-ends}
use dynastytrust.Psbt.Sighash.{tapscript_sighash}
use dynastytrust.Psbt.Sighash.Unsigned.{tapscript_sighash-serialize_psbt}
use dynastytrust.Psbt.Cosign.{
  testnet, PsbtRequestCheck, accepted, verify_psbt_matches_request, merge_rest, merge_one,
  merge_inputs, merge_sigs, same_unsigned_tx, same_tx_ins, same_tx_outs, text_eq, merge_psbts,
}
use dynastytrust.Psbt.Cosign.Check.{Pays, verify_psbt_matches_request_iff}
use dynastytrust.Psbt.Cosign.Combine.{Copies, IsCombined, merge_rest_iff, merge_psbts-IsCombined}

abbrev filled : ℕ → ℕ → Bytes
filled zero b = []
filled (suc n) b = b ∷ filled n b

abbrev tx_bytes : Bytes
tx_bytes =
    (2 ∷ 0 ∷ 0 ∷ 0 ∷ 1 ∷ [])
    ++ (filled 32 17
        ++ (0 ∷ 0 ∷ 0 ∷ 0 ∷ 0 ∷ 0xfd ∷ 0xff ∷ 0xff ∷ 0xff ∷ 1 ∷ 80 ∷ 195 ∷ 0 ∷ 0 ∷ 0 ∷ 0 ∷ 0 ∷ 0 ∷ 1
            ∷ 81 ∷ 0 ∷ 0 ∷ 0 ∷ 0 ∷ []))

abbrev utxo_bytes : Bytes
utxo_bytes = 96 ∷ 234 ∷ 0 ∷ 0 ∷ 0 ∷ 0 ∷ 0 ∷ 0 ∷ 1 ∷ 81 ∷ []

abbrev signature : ScriptSig
signature = record { pubkey = filled 32 2; leaf_hash = filled 32 3; sig = 170 ∷ 187 ∷ [] }

abbrev tx_entry : Entry
tx_entry = record { key_size = 1 ∷ []; key = 0 ∷ []; value_size = 61 ∷ []; value = tx_bytes }

abbrev utxo_entry : Entry
utxo_entry = record { key_size = 1 ∷ []; key = 1 ∷ []; value_size = 10 ∷ []; value = utxo_bytes }

abbrev document : Document
document = record {
  global = tx_entry ∷ [];
  inputs = (utxo_entry ∷ []) ∷ [];
  outputs = [] ∷ [];
  trailing = [];
}

abbrev tx : PsbtTx
tx = record {
  version = 2;
  inputs = record { txid = filled 32 17; vout = 0; sequence = 4294967293 } ∷ [];
  outputs = record { amount = 50000; script_pubkey = 81 ∷ [] } ∷ [];
  locktime = 0;
}

abbrev input : PsbtInput
input = record {
  witness_utxo = some (record { amount = 60000; script_pubkey = 81 ∷ [] });
  tap_internal_key = none;
  tap_leaf_script = [];
  tap_script_sigs = [];
}

abbrev unsigned_psbt : ParsedPsbt
unsigned_psbt = record { raw = document_bytes document; tx = tx; inputs = input ∷ [] }

abbrev sigs : List (List ScriptSig)
sigs = (signature ∷ []) ∷ []

document-IsDocument : IsDocument document
document-IsDocument = record {
  global = (
    record {
      key_sized = one (omega arith);
      key_there = omega arith;
      value_sized = one (omega arith);
    },
    tt,
  );
  inputs = (
    (
      record {
        key_sized = one (omega arith);
        key_there = omega arith;
        value_sized = one (omega arith);
      },
      tt,
    ),
    tt,
  );
  outputs = (tt, tt);
}

document-Decodes : Decodes document unsigned_psbt
unfolding fold_kvs global_step parse_raw_tx read_many read_tx_in read_tx_out read_var_int
    var_int_from read_int64_le read_uint32_le read_uint16_le decode_inputs input_step witness_step
document-Decodes = record {
  tx_bytes = tx_bytes;
  unsigned = refl;
  tx = refl;
  input_count = refl;
  output_count = refl;
  inputs = refl;
  raw = refl;
}

all_bytes : (bs : Bytes) → every (λ b. ltb b 256) bs ≡ true → All IsByte bs
all_bytes [] h = tt
all_bytes (b ∷ bs) h = (ground arith, all_bytes bs (ground arith))

parse_bytes-document_example : parse_bytes (document_bytes document) ≡ ok unsigned_psbt
parse_bytes-document_example = parse_bytes-document document-IsDocument document-Decodes

serialize_bytes-document_example :
    serialize_bytes (record unsigned_psbt { inputs = set_all (input ∷ []) sigs })
    ≡ ok (document_bytes (written document sigs))
serialize_bytes-document_example =
    serialize_bytes-document document-IsDocument document-Decodes refl sigs refl

sigs-IsSig : All (All IsSig) sigs
sigs-IsSig = ((record { pubkey = refl; leaf_hash = refl; sig = omega arith }, tt), tt)

written-IsByte : All IsByte (document_bytes (written document sigs))
unfolding entries_bytes sections signed_inputs unsigned sig_key varint
written-IsByte = all_bytes (document_bytes (written document sigs)) refl

written-fits : length (document_bytes (written document sigs)) ≤ max_psbt_bytes
unfolding entries_bytes sections signed_inputs unsigned sig_key varint
written-fits = omega arith

parse_psbt-serialize_psbt_example :
    (hex : List ℕ) × (serialize_psbt (record unsigned_psbt { inputs = set_all (input ∷ []) sigs })
      ≡ ok hex)
    × (parse_psbt hex
        ≡ ok (record unsigned_psbt {
          raw = document_bytes (written document sigs);
          inputs = set_all (input ∷ []) sigs;
        }))
parse_psbt-serialize_psbt_example =
    parse_psbt-serialize_psbt document-IsDocument document-Decodes sigs refl sigs-IsSig
      written-IsByte written-fits

-- Any function of the type serves here.
abbrev no_hash : Bytes → Bytes
no_hash bs = filled 32 (length bs)

tapscript_sighash-serialize_psbt_example :
    (hex : List ℕ) × (q : ParsedPsbt) × (serialize_psbt
        (record unsigned_psbt { inputs = set_all (input ∷ []) sigs })
      ≡ ok hex)
    × (parse_psbt hex ≡ ok q)
    × ((i : ℕ) (leaf : Bytes) (type : ℕ)
        → tapscript_sighash no_hash q i leaf type
          ≡ tapscript_sighash no_hash unsigned_psbt i leaf type)
tapscript_sighash-serialize_psbt_example =
    tapscript_sighash-serialize_psbt no_hash document-IsDocument document-Decodes sigs refl
      sigs-IsSig written-IsByte written-fits

abbrev hex_text : List ℕ
hex_text = to_hex (document_bytes document)

parse_psbt-ends_example : parse_psbt hex_text ≢ err out_of_fuel
parse_psbt-ends_example = parse_psbt-ends hex_text

hex_text-parses : parse_psbt hex_text ≡ ok unsigned_psbt
unfolding entries_bytes sections
hex_text-parses =
    parse_psbt-to_hex (document_bytes document) (all_bytes (document_bytes document) refl)
      (omega arith) parse_bytes-document_example

abbrev request : PsbtRequestCheck
request = record { destination = "tb1q"; amount_sats = 50000; network = testnet }

verify_psbt_matches_request_iff_example :
    (verify_psbt_matches_request (λ main address. some (81 ∷ [])) hex_text request ≡ accepted) ↔ (
      (p : ParsedPsbt) × (script : Bytes) × (parse_psbt hex_text ≡ ok p)
      × (some (81 ∷ []) ≡ some script)
      × Pays request script p.tx.outputs)
verify_psbt_matches_request_iff_example =
    verify_psbt_matches_request_iff (λ main address. some (81 ∷ [])) hex_text request

merge_rest_iff_example :
    ((merged : ParsedPsbt) × (merge_rest unsigned_psbt (hex_text ∷ []) ≡ ok merged))
    ↔ ((ps : List ParsedPsbt) × Copies tx (hex_text ∷ []) ps)
merge_rest_iff_example = merge_rest_iff hex_text unsigned_psbt (hex_text ∷ []) hex_text-parses

abbrev signed_text : List ℕ
signed_text = to_hex (document_bytes (written document sigs))

signed_text-parses :
    parse_psbt signed_text ≡ ok (resigned document-IsDocument document-Decodes sigs refl sigs-IsSig)
signed_text-parses =
    parse_psbt-to_hex (document_bytes (written document sigs)) written-IsByte written-fits (
      parse_bytes-document
        (written-IsDocument document-IsDocument document-Decodes sigs refl sigs-IsSig)
        (written-Decodes document-IsDocument document-Decodes sigs refl sigs-IsSig))

merged_text :
    serialize_psbt (record unsigned_psbt { inputs = set_all (input ∷ []) sigs }) ≡ ok signed_text
unfolding serialize_psbt
merged_text = rw serialize_bytes-document_example refl

two_merge : merge_psbts (hex_text ∷ signed_text ∷ []) ≡ ok signed_text
unfolding merge_psbts merge_rest merge_one merge_inputs merge_sigs same_unsigned_tx same_tx_ins
    same_tx_outs text_eq set_all to_hex
two_merge = rw (hex_text-parses, signed_text-parses) merged_text

merge_psbts-IsCombined_example :
    (first : ParsedPsbt) × (ps : List ParsedPsbt) × (merged : ParsedPsbt) × (parse_psbt hex_text
      ≡ ok first)
    × Copies first.tx (signed_text ∷ []) ps
    × IsCombined first ps merged
    × (serialize_psbt merged ≡ ok signed_text)
merge_psbts-IsCombined_example =
    merge_psbts-IsCombined hex_text (signed_text ∷ []) signed_text two_merge
