-- ===== src/Psbt/Cosign/Check.antt =====
-- apps/web/src/lib/psbt-signer.ts: what an accepted PSBT pays.
use dynastytrust.Prelude.{
  ℕ, ◌/◌, ◌%◌, String, Bool, true, Option, none, some, List, [], ◌∷◌, ◌≡◌, ◌⊎◌, ◌↔◌, inl, inr, refl,
  ap, arith,
}
use dynastytrust.Psbt.Result.{Result, ok, err, ok-injective}
use dynastytrust.Psbt.Hex.{Bytes, to_hex, hex_digit}
use dynastytrust.Psbt.Parse.{TxOut, ParsedPsbt, parse_psbt}
use dynastytrust.Psbt.Cosign.{
  text_eq, same_hex, is_main, PsbtRequestCheck, accepted, check_output, check_outputs, check_parsed,
  verify_psbt_matches_request,
}

text_eq_iff : (xs ys : List ℕ) → (text_eq xs ys ≡ true) ↔ (xs ≡ ys)
unfolding text_eq
text_eq_iff [] [] = ground arith
text_eq_iff [] (y ∷ ys) = ground arith
text_eq_iff (x ∷ xs) [] = ground arith
text_eq_iff (x ∷ xs) (y ∷ ys) = ground (arith, text_eq_iff xs ys)

hex_digit-injective : (a b : ℕ) → hex_digit a ≡ hex_digit b → a ≡ b
unfolding hex_digit
hex_digit-injective a b h = ground arith

to_hex-injective : (xs ys : Bytes) → to_hex xs ≡ to_hex ys → xs ≡ ys
unfolding to_hex
to_hex-injective [] [] h = refl
to_hex-injective [] (y ∷ ys) h = cc
to_hex-injective (x ∷ xs) [] h = cc
to_hex-injective (x ∷ xs) (y ∷ ys) h =
    let hi : hex_digit (x / 16) ≡ hex_digit (y / 16) = cc in
    let lo : hex_digit (x % 16) ≡ hex_digit (y % 16) = cc in
    let rest : to_hex xs ≡ to_hex ys = cc in
    let head : x ≡ y =
      omega (
        arith,
        hex_digit-injective (x / 16) (y / 16) hi,
        hex_digit-injective (x % 16) (y % 16) lo,
      ) in
    let tail = to_hex-injective xs ys rest in cc

-- Comparing the hex texts compares the bytes.
pub same_hex_iff : (a b : Bytes) → (same_hex a b ≡ true) ↔ (a ≡ b)
same_hex_iff a b = (
  (λ h. to_hex-injective a b ((text_eq_iff (to_hex a) (to_hex b)).0 h)),
  (λ e. (text_eq_iff (to_hex a) (to_hex b)).1 (ap to_hex e)),
)

-- The outputs are the one that pays what was asked for, alone or before one output for the change.
pub record Pays (request : PsbtRequestCheck) (script : Bytes) (outs : List TxOut) : Type 0 where
  pub destination : TxOut
  pub shape : (outs ≡ destination ∷ []) ⊎ ((change : TxOut) × (outs ≡ destination ∷ change ∷ []))
  pub to_script : destination.script_pubkey ≡ script
  pub amount : destination.amount ≡ request.amount_sats

check_output_iff :
    (request : PsbtRequestCheck) (o : Option Bytes) (out : TxOut)
    → (check_output request o out ≡ accepted) ↔ (
        (script : Bytes) × (o ≡ some script)
        × (out.script_pubkey ≡ script)
        × (out.amount ≡ request.amount_sats))
unfolding check_output
check_output_iff request none out = ((λ h. cc), λ (s, e, f, g). cc)
check_output_iff request (some script) out = (
  (λ h. (
    script,
    refl,
    ground (arith, same_hex_iff out.script_pubkey script),
    ground (arith, same_hex_iff out.script_pubkey script),
  )),
  (λ (s, e, f, g). ground (arith, same_hex_iff out.script_pubkey script)),
)

check_outputs-Pays :
    (request : PsbtRequestCheck) (o : Option Bytes) (outs : List TxOut)
    → check_outputs request o outs ≡ accepted
    → (script : Bytes) × (o ≡ some script) × Pays request script outs
unfolding check_outputs
check_outputs-Pays request o [] h = cc
check_outputs-Pays request o (out ∷ []) h =
    let (script, e, to, amount) = (check_output_iff request o out).0 (ground arith) in
    (script, e, record { destination = out; shape = inl refl; to_script = to; amount = amount })
check_outputs-Pays request o (out ∷ change ∷ []) h =
    let (script, e, to, amount) = (check_output_iff request o out).0 (ground arith) in
    (
      script,
      e,
      record { destination = out; shape = inr (change, refl); to_script = to; amount = amount },
    )
check_outputs-Pays request o (out ∷ change ∷ more ∷ outs) h = ground arith

Pays-check_outputs :
    (request : PsbtRequestCheck) (script : Bytes) (outs : List TxOut)
    → Pays request script outs
    → check_outputs request (some script) outs ≡ accepted
unfolding check_outputs
Pays-check_outputs request script outs p =
    let paid : check_output request (some script) p.destination ≡ accepted =
      (check_output_iff request (some script) p.destination).1
        (script, refl, p.to_script, p.amount) in
    elim p.shape [ inl e ↦ rw e (ground arith) | inr (change, e) ↦ rw e (ground arith) ]

check_parsed_iff :
    (request : PsbtRequestCheck) (o : Option Bytes) (r : Result ParsedPsbt)
    → (check_parsed request o r ≡ accepted) ↔ (
        (p : ParsedPsbt) × (script : Bytes) × (r ≡ ok p)
        × (o ≡ some script)
        × Pays request script p.tx.outputs)
unfolding check_parsed
check_parsed_iff request o (err e') = ((λ h. cc), λ (p, script, e, f, pays). cc)
check_parsed_iff request o (ok p) = (
  (λ h.
      let (script, f, pays) = check_outputs-Pays request o p.tx.outputs h in
      (p, script, refl, f, pays)),
  (λ (q, script, e, f, pays).
      rw f (Pays-check_outputs request script p.tx.outputs (rw (ok-injective refl e) pays))),
)

-- A PSBT is accepted exactly when it parses, the address decodes, and its outputs are the one to the
-- address's script with the amount asked for, alone or followed by one output for the change.
pub verify_psbt_matches_request_iff :
    (script_of : Bool → String → Option Bytes) (hex : List ℕ) (request : PsbtRequestCheck)
    → (verify_psbt_matches_request script_of hex request ≡ accepted) ↔ (
        (p : ParsedPsbt) × (script : Bytes) × (parse_psbt hex ≡ ok p)
        × (script_of (is_main request.network) request.destination ≡ some script)
        × Pays request script p.tx.outputs)
unfolding verify_psbt_matches_request
verify_psbt_matches_request_iff script_of hex request =
    check_parsed_iff request (script_of (is_main request.network) request.destination)
      (parse_psbt hex)
