-- ===== src/Psbt/RoundTrip.antt =====
-- packages/bip341-psbt-signer/src/index.ts: what the serializer writes, the parser reads back.
use dynastytrust.Prelude.{ℕ, ◌≤◌, ◌*◌, List, [], ◌∷◌, All, length, ◌≡◌, refl, ap, true, arith, leb}
use dynastytrust.Psbt.Result.{ok, >>=-eq-ok}
use dynastytrust.Psbt.Hex.{Bytes, to_hex}
use dynastytrust.Psbt.Hex.RoundTrip.{IsByte, from_hex-to_hex, length-to_hex}
use dynastytrust.Psbt.Parse.{
  ScriptSig, PsbtInput, ParsedPsbt, parse_bytes, parse_psbt, input_step, empty_input,
  max_psbt_bytes,
}
use dynastytrust.Psbt.Serialize.{serialize_psbt}
use dynastytrust.Psbt.Grammar.{Entry, Document, IsDocument, document_bytes}
use dynastytrust.Psbt.Grammar.Read.{fold_kvs, decode_inputs, Decodes, parse_bytes-document}
use dynastytrust.Psbt.Grammar.Signed.{
  IsSig, set_all, signed_inputs, signed_inputs-IsEntry, decode-signed,
}
use dynastytrust.Psbt.Grammar.Write.{written, serialize_bytes-document}

pub length-decode :
    (ess : List (List Entry)) (inps : List PsbtInput)
    → decode_inputs ess ≡ ok inps
    → length inps ≡ length ess
unfolding decode_inputs
length-decode [] inps h = ground arith
length-decode (es ∷ ess) inps h =
    let (inp, first, rest) = >>=-eq-ok (fold_kvs input_step es empty_input) _ h in
    let (others, later, built) = >>=-eq-ok (decode_inputs ess) _ rest in
    let same : inps ≡ inp ∷ others = cc in
    omega (arith, ap length same, length-decode ess others later)

length-signed_inputs :
    (ess : List (List Entry)) (sss : List (List ScriptSig))
    → length sss ≡ length ess
    → length (signed_inputs ess sss) ≡ length ess
unfolding signed_inputs
length-signed_inputs [] sss e = refl
length-signed_inputs (es ∷ ess) [] e = absurd (omega arith)
length-signed_inputs (es ∷ ess) (ss ∷ sss) e = omega (arith, length-signed_inputs ess sss)

pub parse_psbt-to_hex :
    (out : Bytes) {p : ParsedPsbt}
    → All IsByte out
    → length out ≤ max_psbt_bytes
    → parse_bytes out ≡ ok p
    → parse_psbt (to_hex out) ≡ ok p
unfolding parse_psbt
parse_psbt-to_hex out bytes fits read =
    let small : leb (length (to_hex out)) (max_psbt_bytes * 2) ≡ true =
      ground (arith, length-to_hex out) in
    rw (small, from_hex-to_hex out bytes) read

module _ {d : Document} {p : ParsedPsbt} (v : IsDocument d) (c : Decodes d p)
    (sss : List (List ScriptSig)) (f : length sss ≡ length d.inputs) (w : All (All IsSig) sss) where
  abbrev pub resigned : ParsedPsbt
  resigned = record p { raw = document_bytes (written d sss); inputs = set_all p.inputs sss }

  pub written-IsDocument : IsDocument (written d sss)
  written-IsDocument = record {
    global = v.global;
    inputs = signed_inputs-IsEntry d.inputs sss v.inputs w;
    outputs = v.outputs;
  }

  pub written-Decodes : Decodes (written d sss) resigned
  written-Decodes = record {
    tx_bytes = c.tx_bytes;
    unsigned = c.unsigned;
    tx = c.tx;
    input_count = omega (arith, c.input_count, length-signed_inputs d.inputs sss f);
    output_count = c.output_count;
    inputs = decode-signed d.inputs sss p.inputs f w c.inputs;
    raw = refl;
  }

  -- Where a well-formed document decodes to a PSBT, replacing the signatures of its inputs by any
  -- list for each input, of signatures with 32-byte keys and leaf hashes, and serializing gives a
  -- hex text (given that the bytes written are bytes, and within the size limit) that parses to the
  -- same transaction and inputs with exactly the signatures given, in order.
  pub parse_psbt-serialize_psbt :
      All IsByte (document_bytes (written d sss))
      → length (document_bytes (written d sss)) ≤ max_psbt_bytes
      → (hex : List ℕ) × (serialize_psbt (record p { inputs = set_all p.inputs sss }) ≡ ok hex)
        × (parse_psbt hex
            ≡ ok (record p { raw = document_bytes (written d sss); inputs = set_all p.inputs sss }))
  unfolding serialize_psbt
  parse_psbt-serialize_psbt bytes fits =
      let out = document_bytes (written d sss) in
      (
        to_hex out,
        rw (serialize_bytes-document v c (length-decode d.inputs p.inputs c.inputs) sss f) refl,
        parse_psbt-to_hex out bytes fits (parse_bytes-document written-IsDocument written-Decodes),
      )
