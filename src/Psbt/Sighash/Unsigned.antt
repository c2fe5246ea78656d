-- ===== src/Psbt/Sighash/Unsigned.antt =====
-- packages/bip341-psbt-signer/src/index.ts: a digest does not look at signatures.
use dynastytrust.Prelude.{
  ℕ, zero, suc, ◌≤◌, List, [], ◌∷◌, All, length, get_elem?, ◌≡◌, refl, arith,
}
use dynastytrust.Psbt.Result.{ok}
use dynastytrust.Psbt.Hex.{Bytes}
use dynastytrust.Psbt.Hex.RoundTrip.{IsByte}
use dynastytrust.Psbt.Parse.{ScriptSig, PsbtInput, ParsedPsbt, parse_psbt, max_psbt_bytes}
use dynastytrust.Psbt.Serialize.{serialize_psbt}
use dynastytrust.Psbt.Grammar.{Document, IsDocument, document_bytes}
use dynastytrust.Psbt.Grammar.Read.{Decodes}
use dynastytrust.Psbt.Grammar.Signed.{IsSig, set_all}
use dynastytrust.Psbt.Grammar.Write.{written}
use dynastytrust.Psbt.RoundTrip.{parse_psbt-serialize_psbt, length-decode}
use dynastytrust.Psbt.Sighash.{all_utxos, own_utxo, tapscript_sighash}

all_utxos-set_all :
    (inps : List PsbtInput) (sss : List (List ScriptSig))
    → length sss ≡ length inps
    → all_utxos (set_all inps sss) ≡ all_utxos inps
unfolding all_utxos set_all
all_utxos-set_all [] sss e = refl
all_utxos-set_all (i ∷ is) [] e = absurd (omega arith)
all_utxos-set_all (i ∷ is) (ss ∷ sss) e = ground (arith, all_utxos-set_all is sss)

own_utxo-set_all :
    (inps : List PsbtInput) (sss : List (List ScriptSig)) (i : ℕ)
    → length sss ≡ length inps
    → own_utxo (get_elem? (set_all inps sss) i) ≡ own_utxo (get_elem? inps i)
unfolding own_utxo set_all
own_utxo-set_all [] sss i e = refl
own_utxo-set_all (x ∷ is) [] i e = absurd (omega arith)
own_utxo-set_all (x ∷ is) (ss ∷ sss) zero e = refl
own_utxo-set_all (x ∷ is) (ss ∷ sss) (suc i) e = own_utxo-set_all is sss i (omega arith)

module _ (sha256 : Bytes → Bytes) where
  sighash-set_all :
      (p : ParsedPsbt) (raw : Bytes) (sss : List (List ScriptSig)) (i : ℕ) (leaf : Bytes) (type : ℕ)
      → length sss ≡ length p.inputs
      → tapscript_sighash sha256 (record p { raw = raw; inputs = set_all p.inputs sss }) i leaf type
        ≡ tapscript_sighash sha256 p i leaf type
  unfolding tapscript_sighash
  sighash-set_all p raw sss i leaf type e =
      rw (own_utxo-set_all p.inputs sss i e, all_utxos-set_all p.inputs sss e) refl

  -- Adding signatures, serializing and parsing again leaves every digest as it was (of each input,
  -- leaf and sighash type, errors included), under the conditions of the round trip: so every
  -- co-signer signs the same message, whatever has been signed before.
  pub tapscript_sighash-serialize_psbt :
      {d : Document} {p : ParsedPsbt}
      → IsDocument d
      → Decodes d p
      → (sss : List (List ScriptSig)) → length sss ≡ length d.inputs
      → All (All IsSig) sss
      → All IsByte (document_bytes (written d sss))
      → length (document_bytes (written d sss)) ≤ max_psbt_bytes
      → (hex : List ℕ) × (q : ParsedPsbt) × (serialize_psbt
            (record p { inputs = set_all p.inputs sss })
          ≡ ok hex)
        × (parse_psbt hex ≡ ok q)
        × ((i : ℕ) (leaf : Bytes) (type : ℕ)
            → tapscript_sighash sha256 q i leaf type ≡ tapscript_sighash sha256 p i leaf type)
  tapscript_sighash-serialize_psbt {d} {p} v c sss f w bytes fits =
      let (hex, written_out, read) = parse_psbt-serialize_psbt v c sss f w bytes fits in
      let same : length sss ≡ length p.inputs =
        omega (arith, f, length-decode d.inputs p.inputs c.inputs) in
      (
        hex,
        record p { raw = document_bytes (written d sss); inputs = set_all p.inputs sss },
        written_out,
        read,
        λ i leaf type. sighash-set_all p (document_bytes (written d sss)) sss i leaf type same,
      )
