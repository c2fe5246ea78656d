-- ===== src/Psbt/Cosign.antt =====
-- apps/web/src/lib/psbt-signer.ts: counting signatures, the check of a PSBT against what was asked
-- for, and merging. The decoding of an address into its output script is a library's, a parameter.
pub mod Check
pub mod Merge
pub mod SameTx
pub mod Combine
use dynastytrust.Prelude.{
  ℕ, ◌+◌, suc, Bool, true, false, not, ◌&&◌, ◌||◌, Option, none, some, List, [], ◌∷◌, ◌++◌, length,
  any, if◌then◌else◌, ltb, ◌==◌, str_eq, String,
}
use dynastytrust.Psbt.Result.{
  Result, ok, err, Error, ◌>>=◌, ◌>>◌, guard, type_error, no_psbts, different_transaction,
}
use dynastytrust.Psbt.Hex.{Bytes, to_hex}
use dynastytrust.Psbt.Parse.{ScriptSig, PsbtInput, TxIn, TxOut, PsbtTx, ParsedPsbt, parse_psbt}
use dynastytrust.Psbt.Serialize.{serialize_psbt}

-- `===` on texts.
unfoldable pub text_eq : List ℕ → List ℕ → Bool
text_eq [] [] = true
text_eq (a ∷ xs) (b ∷ ys) = a == b && text_eq xs ys
text_eq _ _ = false

-- `toHex(a) === toHex(b)`
abbrev pub same_hex : Bytes → Bytes → Bool
same_hex a b = text_eq (to_hex a) (to_hex b)

pub sum_sigs : List PsbtInput → ℕ
sum_sigs [] = 0
sum_sigs (inp ∷ inps) = length inp.tap_script_sigs + sum_sigs inps

-- A PSBT that does not parse has no signatures.
unfoldable pub count_signatures : List ℕ → ℕ
count_signatures hex = elim (parse_psbt hex) [ ok p ↦ sum_sigs p.inputs | err e ↦ 0 ]

pub data BitcoinNetwork : Type 0 where
  bitcoin testnet signet : BitcoinNetwork

abbrev pub is_main : BitcoinNetwork → Bool
is_main bitcoin = true
is_main _ = false

pub record PsbtRequestCheck : Type 0 where
  pub destination : String
  pub amount_sats : ℕ
  pub network : BitcoinNetwork

-- A constructor for each `reason` of the source, its numbers and messages as arguments.
pub data Reason : Type 0 where
  parse_failed : Error → Reason
  output_count : ℕ → Reason
  bad_destination wrong_destination : Reason
  wrong_amount : ℕ → ℕ → Reason

pub data VerifyResult : Type 0 where
  accepted : VerifyResult
  refused : Reason → VerifyResult

-- The first output against the expected script and amount.
pub check_output : PsbtRequestCheck → Option Bytes → TxOut → VerifyResult
check_output request none out = refused bad_destination
check_output request (some script) out =
    if not (same_hex out.script_pubkey script)
    then refused wrong_destination
    else if not (out.amount == request.amount_sats)
    then refused (wrong_amount out.amount request.amount_sats)
    else accepted

pub check_outputs : PsbtRequestCheck → Option Bytes → List TxOut → VerifyResult
check_outputs request script [] = refused (output_count 0)
check_outputs request script (out ∷ outs) =
    if ltb 1 (length outs)
    then refused (output_count (suc (length outs)))
    else check_output request script out

-- A PSBT that does not parse is refused with the parser's message.
pub check_parsed : PsbtRequestCheck → Option Bytes → Result ParsedPsbt → VerifyResult
check_parsed request script (err e) = refused (parse_failed e)
check_parsed request script (ok p) = check_outputs request script p.tx.outputs

-- `script_of main address` is the output script, with `NETWORK` or `TEST_NETWORK`; `none` stands
-- for what the library throws.
unfoldable pub verify_psbt_matches_request :
    (Bool → String → Option Bytes) → List ℕ → PsbtRequestCheck → VerifyResult
unfolding check_parsed check_outputs check_output
verify_psbt_matches_request script_of hex request =
    check_parsed request (script_of (is_main request.network) request.destination) (parse_psbt hex)

unfoldable pub same_tx_ins : List TxIn → List TxIn → Bool
same_tx_ins [] [] = true
same_tx_ins (a ∷ xs) (b ∷ ys) =
    (same_hex a.txid b.txid && (a.vout == b.vout && a.sequence == b.sequence)) && same_tx_ins xs ys
same_tx_ins _ _ = false

unfoldable pub same_tx_outs : List TxOut → List TxOut → Bool
same_tx_outs [] [] = true
same_tx_outs (a ∷ xs) (b ∷ ys) =
    (a.amount == b.amount && same_hex a.script_pubkey b.script_pubkey) && same_tx_outs xs ys
same_tx_outs _ _ = false

-- Lists of different lengths are told apart by the two comparisons, as the source does beforehand.
unfoldable pub same_unsigned_tx : PsbtTx → PsbtTx → Bool
same_unsigned_tx a b =
    (a.version == b.version && a.locktime == b.locktime)
    && (same_tx_ins a.inputs b.inputs && same_tx_outs a.outputs b.outputs)

-- The same key on the same leaf.
abbrev pub same_slot : ScriptSig → ScriptSig → Bool
same_slot s t = same_hex s.pubkey t.pubkey && same_hex s.leaf_hash t.leaf_hash

-- The loop over the other PSBT's signatures of one input.
unfoldable pub merge_sigs : List ScriptSig → List ScriptSig → List ScriptSig
merge_sigs sigs [] = sigs
merge_sigs sigs (sig ∷ others) =
    merge_sigs (if any (λ s. same_slot s sig) sigs then sigs else sigs ++ sig ∷ []) others

-- The loop over the inputs; an input that the other lacks throws.
unfoldable pub merge_inputs : List PsbtInput → List PsbtInput → Result (List PsbtInput)
merge_inputs [] others = ok []
merge_inputs (i ∷ is) [] = err type_error
merge_inputs (i ∷ is) (o ∷ os) = do
  later ← merge_inputs is os
  ok (record i { tap_script_sigs = merge_sigs i.tap_script_sigs o.tap_script_sigs } ∷ later)

unfoldable pub merge_one : ParsedPsbt → ParsedPsbt → Result ParsedPsbt
merge_one first other = do
  guard (same_unsigned_tx first.tx other.tx) different_transaction
  inputs ← merge_inputs first.inputs other.inputs
  ok (record first { inputs = inputs })

unfoldable pub merge_rest : ParsedPsbt → List (List ℕ) → Result ParsedPsbt
merge_rest first [] = ok first
merge_rest first (hex ∷ hexes) = do
  other ← parse_psbt hex
  merged ← merge_one first other
  merge_rest merged hexes

unfoldable pub merge_psbts : List (List ℕ) → Result (List ℕ)
unfolding merge_rest merge_one same_unsigned_tx
merge_psbts [] = err no_psbts
merge_psbts (hex ∷ hexes) = do
  first ← parse_psbt hex
  merged ← merge_rest first hexes
  serialize_psbt merged
