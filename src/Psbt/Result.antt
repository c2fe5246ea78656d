-- ===== src/Psbt/Result.antt =====
-- What the PSBT code throws, as values.
use dynastytrust.Prelude.{String, Bool, true, false, ◌≡◌, refl, ap, sym, ◌∙◌}

-- A constructor for each error that the modelled functions throw; `malformed what` is the message of
-- `assertInBounds` without its numbers, `type_error` what the language throws for an absent value.
-- `out_of_fuel` is no error of the source: the theorems exclude it.
pub data Error : Type 0 where
  malformed : String → Error
  too_large too_short bad_magic no_unsigned_tx varint_64 type_error : Error
  unsupported_sighash missing_witness_utxo all_inputs_witness_utxo : Error
  no_psbts different_transaction no_private_key not_a_signer out_of_fuel : Error

-- A call that throws, or returns a value.
pub data Result {v} (V : Type v) : Type v where
  err : Error → Result V
  ok : V → Result V

-- What is thrown ends the calls that follow.
infixl 5 ◌>>=◌
abbrev pub ◌>>=◌ {v w} : {V : Type v} {W : Type w} → Result V → (V → Result W) → Result W
err thrown >>= next = err thrown
ok value >>= next = next value

pub >>=-eq-ok {v w} :
    {V : Type v} {W : Type w} (m : Result V) (next : V → Result W) {b : W}
    → (m >>= next) ≡ ok b
    → (a : V) × (m ≡ ok a) × (next a ≡ ok b)
>>=-eq-ok (err thrown) next h = cc
>>=-eq-ok (ok a) next h = (a, refl, h)

-- `if (!passes) throw e;`
abbrev pub guard : Bool → Error → Result (Unit {0})
guard false e = err e
guard true e = ok tt

infixl 5 ◌>>◌
abbrev pub ◌>>◌ {w} : {W : Type w} → Result (Unit {0}) → Result W → Result W
check >> later = check >>= λ u. later

abbrev result_or {ℓ} : {A : Type ℓ} → A → Result A → A
result_or a (ok b) = b
result_or a (err e) = a

pub ok-injective {ℓ} : {A : Type ℓ} {a b : A} {r : Result A} → r ≡ ok a → r ≡ ok b → a ≡ b
ok-injective {a = a} e f = ap (result_or a) (sym e ∙ f)
