-- ===== src/Psbt/Cosign/SameTx.antt =====
-- apps/web/src/lib/psbt-signer.ts: when two PSBTs are of one transaction.
use dynastytrust.Prelude.{ℕ, true, List, [], ◌∷◌, length, drop, none, leb, ◌*◌, ◌≡◌, ◌↔◌, ap, arith}
use dynastytrust.Psbt.Result.{ok, guard, too_short, too_large, bad_magic, >>=-eq-ok}
use dynastytrust.Psbt.Hex.{Bytes, from_hex}
use dynastytrust.Psbt.Reader.{kv_section}
use dynastytrust.Psbt.Parse.{
  PsbtInput, TxIn, TxOut, PsbtTx, ParsedPsbt, global_step, input_step, empty_input, read_inputs,
  skip_outputs, required_tx, parse_raw_tx, parse_bytes, parse_psbt, has_magic, max_psbt_bytes,
}
use dynastytrust.Psbt.Cosign.{same_tx_ins, same_tx_outs, same_unsigned_tx}
use dynastytrust.Psbt.Cosign.Check.{same_hex_iff}

same_tx_ins_iff : (xs ys : List TxIn) → (same_tx_ins xs ys ≡ true) ↔ (xs ≡ ys)
unfolding same_tx_ins
same_tx_ins_iff [] [] = ground arith
same_tx_ins_iff [] (b ∷ ys) = ground arith
same_tx_ins_iff (a ∷ xs) [] = ground arith
same_tx_ins_iff (a ∷ xs) (b ∷ ys) =
    ground (arith, same_hex_iff a.txid b.txid, same_tx_ins_iff xs ys)

same_tx_outs_iff : (xs ys : List TxOut) → (same_tx_outs xs ys ≡ true) ↔ (xs ≡ ys)
unfolding same_tx_outs
same_tx_outs_iff [] [] = ground arith
same_tx_outs_iff [] (b ∷ ys) = ground arith
same_tx_outs_iff (a ∷ xs) [] = ground arith
same_tx_outs_iff (a ∷ xs) (b ∷ ys) =
    ground (arith, same_hex_iff a.script_pubkey b.script_pubkey, same_tx_outs_iff xs ys)

-- The comparison of the fields is equality of the transactions.
pub same_unsigned_tx_iff : (a b : PsbtTx) → (same_unsigned_tx a b ≡ true) ↔ (a ≡ b)
unfolding same_unsigned_tx
same_unsigned_tx_iff a b =
    ground (arith, same_tx_ins_iff a.inputs b.inputs, same_tx_outs_iff a.outputs b.outputs)

length-read_inputs {ℓ} :
    {A : Type ℓ} (xs : List A) (rest : Bytes) {r : List PsbtInput × Bytes}
    → read_inputs xs rest ≡ ok r
    → length r.0 ≡ length xs
unfolding read_inputs
length-read_inputs [] rest h = ground arith
length-read_inputs (x ∷ xs) rest {r} h =
    let ((inp, rest'), first, later) = >>=-eq-ok (kv_section input_step rest empty_input) _ h in
    let ((inps, rest''), more, done) = >>=-eq-ok (read_inputs xs rest') _ later in
    let same : r.0 ≡ inp ∷ inps = cc in
    omega (arith, ap length same, length-read_inputs xs rest' more)

-- The parser makes an input for each of the transaction's.
length-parse_bytes :
    (buf : Bytes) {p : ParsedPsbt} → parse_bytes buf ≡ ok p → length p.inputs ≡ length p.tx.inputs
unfolding parse_bytes
length-parse_bytes buf {p} h =
    let (u, _, h1) = >>=-eq-ok (guard (leb 5 (length buf)) too_short) _ h in
    let (v, _, h2) = >>=-eq-ok (guard (has_magic buf) bad_magic) _ h1 in
    let ((found, at_inputs), _, h3) = >>=-eq-ok (kv_section global_step (drop 5 buf) none) _ h2 in
    let (tx_bytes, _, h4) = >>=-eq-ok (required_tx found) _ h3 in
    let (tx, _, h5) = >>=-eq-ok (parse_raw_tx tx_bytes) _ h4 in
    let ((inputs, at_outputs), read, h6) = >>=-eq-ok (read_inputs tx.inputs at_inputs) _ h5 in
    let (after_outputs, _, done) = >>=-eq-ok (skip_outputs tx.outputs at_outputs) _ h6 in
    let same : p ≡ record { raw = buf; tx = tx; inputs = inputs } = cc in
    rw same (length-read_inputs tx.inputs at_inputs read)

pub length-parse_psbt :
    (hex : List ℕ) {p : ParsedPsbt} → parse_psbt hex ≡ ok p → length p.inputs ≡ length p.tx.inputs
unfolding parse_psbt
length-parse_psbt hex h =
    let (u, _, h1) = >>=-eq-ok (guard (leb (length hex) (max_psbt_bytes * 2)) too_large) _ h in
    length-parse_bytes (from_hex hex) h1
