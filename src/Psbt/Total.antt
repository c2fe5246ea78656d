-- ===== src/Psbt/Total.antt =====
-- packages/bip341-psbt-signer/src/index.ts: the parser ends on every input.
use dynastytrust.Prelude.{
  ℕ, length-drop, zero, suc, ◌*◌, ◌<◌, Bool, true, false, Option, none, some, List, [], ◌∷◌, length,
  drop, take, leb, ◌==◌, if◌then◌else◌, ◌≡◌, ◌≢◌, refl, ap, ◌∙◌, arith,
}
use dynastytrust.Psbt.Result.{
  Result, ok, err, Error, out_of_fuel, malformed, type_error, too_short, too_large, bad_magic,
  ◌>>=◌, >>=-eq-ok, guard,
}
use dynastytrust.Psbt.Hex.{Bytes, from_hex}
use dynastytrust.Psbt.Reader.{
  assert_in_bounds, var_int_from, read_var_int, read_int64_le, read_kv, each_kv, kv_section,
  KeyValue,
}
use dynastytrust.Psbt.Parse.{
  PsbtInput, read_tx_in, read_tx_out, read_many, parse_raw_tx, global_step, witness_step,
  input_step, read_inputs, skip_step, skip_outputs, required_tx, parse_bytes, parse_psbt,
  empty_input, has_magic, max_psbt_bytes,
}

-- Not the error that stands for a loop cut off.
abbrev Ends {ℓ} : {A : Type ℓ} → Result A → Type ℓ
Ends r = r ≢ err out_of_fuel

Ends-ok {ℓ} : {A : Type ℓ} (a : A) → Ends (ok a)
Ends-ok a e = cc

error_of {ℓ} : {A : Type ℓ} → Result A → Error
error_of (ok a) = type_error
error_of (err e) = e

Ends->>= {ℓ κ} :
    {A : Type ℓ} {B : Type κ} (m : Result A) (f : A → Result B)
    → Ends m
    → ((a : A) → m ≡ ok a → Ends (f a))
    → Ends (m >>= f)
unfolding error_of
Ends->>= (ok a) f h k = k a refl
Ends->>= (err e) f h k = λ c. h (ap err (ap error_of c))

read_var_int-shorter :
    (rest : Bytes) {r : ℕ × Bytes} → read_var_int rest ≡ ok r → length r.1 < length rest
unfolding read_var_int var_int_from
read_var_int-shorter [] h = ground arith
read_var_int-shorter (x ∷ rest) h = ground (arith, length-drop 2 rest, length-drop 4 rest)

abbrev kv_result : Bytes → ℕ → Bytes → ℕ → Result (Option KeyValue × Bytes)
kv_result at_key key_len at_value val_len = ok (
  some (record { key = take key_len at_key; value = take val_len at_value }),
  drop val_len at_value,
)

not-separator :
    (b : Bool) (at_key : Bytes) (r : Result (Option KeyValue × Bytes)) {kv : KeyValue}
    {after : Bytes}
    → (if b then ok (none, at_key) else r) ≡ ok (some kv, after)
    → r ≡ ok (some kv, after)
not-separator true at_key r h = cc
not-separator false at_key r h = h

-- A round of the loop over a section takes a byte at least.
read_kv-shorter :
    (rest : Bytes) (kv : KeyValue) (after : Bytes)
    → read_kv rest ≡ ok (some kv, after)
    → length after < length rest
unfolding read_kv
read_kv-shorter rest kv after h =
    let ((key_len, at_key), sized, h1) = >>=-eq-ok (read_var_int rest) _ h in
    after-key rest at_key key_len kv after (read_var_int-shorter rest sized)
      (not-separator (key_len == 0) _ _ h1)
  where
    after-key :
        (rest at_key : Bytes) (key_len : ℕ) (kv : KeyValue) (after : Bytes)
        → length at_key < length rest
        → (assert_in_bounds at_key key_len "KV key" >>= λ u.
            read_var_int (drop key_len at_key) >>= λ (val_len, at_value).
            assert_in_bounds at_value val_len "KV value" >>= λ v.
            kv_result at_key key_len at_value val_len)
          ≡ ok (some kv, after)
        → length after < length rest
    after-key rest at_key key_len kv after shorter h =
        let (u, _, h1) = >>=-eq-ok (assert_in_bounds at_key key_len "KV key") _ h in
        let ((val_len, at_value), sized, h2) =
          >>=-eq-ok (read_var_int (drop key_len at_key)) _ h1 in
        let (w, _, done) = >>=-eq-ok (assert_in_bounds at_value val_len "KV value") _ h2 in
        let same : after ≡ drop val_len at_value = cc in
        omega (
          arith,
          ap length same,
          length-drop val_len at_value,
          length-drop key_len at_key,
          read_var_int-shorter (drop key_len at_key) sized,
        )

Ends-read_var_int : (rest : Bytes) → Ends (read_var_int rest)
unfolding read_var_int var_int_from
Ends-read_var_int rest h = ground arith

Ends-read_int64_le : (rest : Bytes) → Ends (read_int64_le rest)
unfolding read_int64_le
Ends-read_int64_le rest h = ground arith

Ends-input_step : (inp : PsbtInput) (kv : KeyValue) → Ends (input_step inp kv)
unfolding input_step witness_step
Ends-input_step inp kv h =
    ground (arith, Ends-read_int64_le kv.value, Ends-read_var_int (drop 8 kv.value))

Ends-read_tx_in : (rest : Bytes) → Ends (read_tx_in rest)
unfolding read_tx_in
Ends-read_tx_in rest h = ground (arith, Ends-read_var_int (drop 4 (drop 32 rest)))

Ends-read_tx_out : (rest : Bytes) → Ends (read_tx_out rest)
unfolding read_tx_out
Ends-read_tx_out rest h = ground (arith, Ends-read_int64_le rest, Ends-read_var_int (drop 8 rest))

Ends-read_kv : (rest : Bytes) → Ends (read_kv rest)
unfolding read_kv
Ends-read_kv rest =
    Ends->>= (read_var_int rest) _ (Ends-read_var_int rest)
      λ (key_len, at_key) e h. ground (arith, Ends-read_var_int (drop key_len at_key))

Ends-read_many {ℓ} :
    {A : Type ℓ} (read : Bytes → Result (A × Bytes)) (count : ℕ) (rest : Bytes)
    → ((rest : Bytes) → Ends (read rest))
    → Ends (read_many read count rest)
unfolding read_many
Ends-read_many read zero rest each = Ends-ok _
Ends-read_many read (suc count) rest each = Ends->>= (read rest) _ (each rest) λ (a, rest') e.
    Ends->>= (read_many read count rest') _ (Ends-read_many read count rest' each)
      λ (as_read, rest'') f. Ends-ok _

-- The part of a round behind the read of an entry.
Ends-round {ℓ} :
    {S : Type ℓ} (step : S → KeyValue → Result S) (s : S) (loop : S → Result (S × Bytes))
    (rest' : Bytes) (kv : Option KeyValue)
    → ((s : S) (kv : KeyValue) → Ends (step s kv))
    → ((kv' : KeyValue) → kv ≡ some kv' → (s' : S) → Ends (loop s'))
    → Ends {A = S × Bytes} (elim kv [ none ↦ ok (s, rest') | some kv' ↦ step s kv' >>= loop ])
Ends-round step s loop rest' none each later = Ends-ok _
Ends-round step s loop rest' (some kv) each later =
    Ends->>= (step s kv) loop (each s kv) λ s' e. later kv refl s'

Ends-each_kv {ℓ} :
    {S : Type ℓ} (step : S → KeyValue → Result S) (fuel : ℕ) (rest : Bytes) (s : S)
    → ((s : S) (kv : KeyValue) → Ends (step s kv))
    → length rest < fuel
    → Ends (each_kv step fuel rest s)
unfolding each_kv
Ends-each_kv step zero rest s each h = absurd (omega arith)
Ends-each_kv step (suc fuel) rest s each h =
    Ends->>= (read_kv rest) _ (Ends-read_kv rest) λ (kv, rest') e.
      Ends-round step s (each_kv step fuel rest') rest' kv each λ kv' same s'.
        Ends-each_kv step fuel rest' s' each
          (omega (arith, read_kv-shorter rest kv' rest' (e ∙ ap (λ o. ok (o, rest')) same)))

Ends-kv_section {ℓ} :
    {S : Type ℓ} (step : S → KeyValue → Result S) (rest : Bytes) (s : S)
    → ((s : S) (kv : KeyValue) → Ends (step s kv))
    → Ends (kv_section step rest s)
Ends-kv_section step rest s each = Ends-each_kv step (suc (length rest)) rest s each (omega arith)

Ends-read_inputs {ℓ} : {A : Type ℓ} (xs : List A) (rest : Bytes) → Ends (read_inputs xs rest)
unfolding read_inputs
Ends-read_inputs [] rest = Ends-ok _
Ends-read_inputs (x ∷ xs) rest =
    Ends->>= (kv_section input_step rest empty_input) _
      (Ends-kv_section input_step rest empty_input Ends-input_step)
      λ (inp, rest') e.
        Ends->>= (read_inputs xs rest') _ (Ends-read_inputs xs rest') λ (inps, rest'') f. Ends-ok _

Ends-skip_outputs {ℓ} : {A : Type ℓ} (xs : List A) (rest : Bytes) → Ends (skip_outputs xs rest)
unfolding skip_outputs skip_step
Ends-skip_outputs [] rest = Ends-ok _
Ends-skip_outputs (x ∷ xs) rest =
    Ends->>= (kv_section skip_step rest tt) _
      (Ends-kv_section skip_step rest tt (λ s kv. Ends-ok _))
      λ (u, rest') e. Ends-skip_outputs xs rest'

Ends-parse_raw_tx : (buf : Bytes) → Ends (parse_raw_tx buf)
unfolding parse_raw_tx
Ends-parse_raw_tx buf =
    Ends->>= (guard (leb 4 (length buf)) (malformed "tx version")) _ (λ h. ground arith)
      λ u e.
        Ends->>= (read_var_int (drop 4 buf)) _ (Ends-read_var_int (drop 4 buf))
          λ (in_count, at_inputs) f.
            Ends->>= (read_many read_tx_in in_count at_inputs) _
              (Ends-read_many read_tx_in in_count at_inputs Ends-read_tx_in)
              λ (inputs, after_inputs) g.
                Ends->>= (read_var_int after_inputs) _ (Ends-read_var_int after_inputs)
                  λ (out_count, at_outputs) k.
                    Ends->>= (read_many read_tx_out out_count at_outputs) _
                      (Ends-read_many read_tx_out out_count at_outputs Ends-read_tx_out)
                      λ (outputs, at_locktime) m h. ground arith

Ends-parse_bytes : (buf : Bytes) → Ends (parse_bytes buf)
unfolding parse_bytes required_tx global_step
Ends-parse_bytes buf =
    Ends->>= (guard (leb 5 (length buf)) too_short) _ (λ h. ground arith)
      λ u e.
        Ends->>= (guard (has_magic buf) bad_magic) _ (λ h. ground arith)
          λ v f.
            Ends->>= (kv_section global_step (drop 5 buf) none) _
              (Ends-kv_section global_step (drop 5 buf) none (λ s kv. Ends-ok _))
              λ (found, at_inputs) g.
                Ends->>= (required_tx found) _ (λ h. ground arith)
                  λ tx_bytes k.
                    Ends->>= (parse_raw_tx tx_bytes) _ (Ends-parse_raw_tx tx_bytes) λ tx m.
                      Ends->>= (read_inputs tx.inputs at_inputs) _
                        (Ends-read_inputs tx.inputs at_inputs)
                        λ (inputs, at_outputs) n.
                          Ends->>= (skip_outputs tx.outputs at_outputs) _
                            (Ends-skip_outputs tx.outputs at_outputs) λ after o. Ends-ok _

-- On every text the parser comes to a PSBT or to an error of the source: no loop of it is cut off.
pub parse_psbt-ends : (hex : List ℕ) → parse_psbt hex ≢ err out_of_fuel
unfolding parse_psbt
parse_psbt-ends hex =
    Ends->>= (guard (leb (length hex) (max_psbt_bytes * 2)) too_large) _ (λ h. ground arith)
      λ u e. Ends-parse_bytes (from_hex hex)
