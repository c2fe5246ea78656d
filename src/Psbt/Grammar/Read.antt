-- ===== src/Psbt/Grammar/Read.antt =====
-- packages/bip341-psbt-signer/src/index.ts: the readers over the format.
use dynastytrust.Prelude.{
  ℕ, zero, suc, ◌<◌, ◌≤◌, some, none, List, [], ◌∷◌, ◌++◌, All, length, take, drop, ◌≡◌, refl, ap,
  arith, length-append,
}
use mathlib.Core.List.{append_assoc}
use dynastytrust.Psbt.Result.{Result, ok, err, ◌>>=◌}
use dynastytrust.Psbt.Hex.{Bytes, read_uint16_le}
use dynastytrust.Psbt.Reader.{KeyValue, read_var_int, read_uint32_le, read_kv, each_kv, kv_section}
use dynastytrust.Psbt.Parse.{
  PsbtInput, input_step, empty_input, read_inputs, skip_step, skip_outputs, ParsedPsbt, global_step,
  parse_raw_tx, parse_bytes, required_tx,
}
use dynastytrust.Psbt.Grammar.{
  CompactSize, one, three, five, Entry, IsEntry, kv_of, entry_bytes, entries_bytes, section,
  sections, Document, IsDocument, document_bytes,
}

pub take-append : (k t : Bytes) → take (length k) (k ++ t) ≡ k
take-append [] t = refl
take-append (x ∷ k) t = ap (λ r. x ∷ r) (take-append k t)

pub drop-append : (k t : Bytes) → drop (length k) (k ++ t) ≡ t
drop-append [] t = refl
drop-append (x ∷ k) t = drop-append k t

pub read-CompactSize :
    {p : Bytes} {n : ℕ} → CompactSize p n → (t : Bytes) → read_var_int (p ++ t) ≡ ok (n, t)
unfolding read_var_int read_uint16_le read_uint32_le
read-CompactSize (one h) t = ground arith
read-CompactSize (three h) t = ground arith
read-CompactSize (five h) t = ground arith

pub CompactSize-pos : {p : Bytes} {n : ℕ} → CompactSize p n → 0 < length p
CompactSize-pos (one h) = omega arith
CompactSize-pos (three h) = omega arith
CompactSize-pos (five h) = omega arith

read_kv-parts :
    {e : Entry}
    → IsEntry e
    → (t : Bytes)
    → read_kv (e.key_size ++ (e.key ++ (e.value_size ++ (e.value ++ t)))) ≡ ok (some (kv_of e), t)
unfolding read_kv
read_kv-parts {e} v t = ground (
  arith,
  read-CompactSize v.key_sized (e.key ++ (e.value_size ++ (e.value ++ t))),
  take-append e.key (e.value_size ++ (e.value ++ t)),
  drop-append e.key (e.value_size ++ (e.value ++ t)),
  length-append e.key (e.value_size ++ (e.value ++ t)),
  read-CompactSize v.value_sized (e.value ++ t),
  take-append e.value t,
  drop-append e.value t,
  length-append e.value t,
)

-- A key and a value are read back, with whatever follows left over.
pub read_kv-entry :
    {e : Entry} → IsEntry e → (t : Bytes) → read_kv (entry_bytes e ++ t) ≡ ok (some (kv_of e), t)
read_kv-entry {e} v t = simp append_assoc (read_kv-parts v t)

pub read_kv-separator : (t : Bytes) → read_kv (0x00 ∷ t) ≡ ok (none, t)
unfolding read_kv
read_kv-separator t = ground (arith, read-CompactSize (one {n = 0} (omega arith)) t)

-- The state after all entries of a section.
unfoldable pub fold_kvs {ℓ} : {S : Type ℓ} → (S → KeyValue → Result S) → List Entry → S → Result S
fold_kvs step [] s = ok s
fold_kvs step (e ∷ es) s = do s' ← step s (kv_of e); fold_kvs step es s'

pub length-entry-pos : {e : Entry} → IsEntry e → 0 < length (entry_bytes e)
length-entry-pos {e} v = omega (
  arith,
  CompactSize-pos v.key_sized,
  length-append {0} e.key_size (e.key ++ (e.value_size ++ e.value)),
)

abbrev pub finish {ℓ} : {S : Type ℓ} → Bytes → Result S → Result (S × Bytes)
finish rest (ok s) = ok (s, rest)
finish rest (err e) = err e

pub section-cons :
    (e : Entry) (es : List Entry) (rest : Bytes)
    → section (e ∷ es) rest ≡ entry_bytes e ++ section es rest
unfolding entries_bytes
section-cons e es rest = append_assoc (entry_bytes e) (entries_bytes es) (0x00 ∷ rest)

bind-finish :
    {S : Type 0} (rest : Bytes) (r : Result S) (f : S → Result (S × Bytes)) (g : S → Result S)
    → ((s : S) → f s ≡ finish rest (g s))
    → (r >>= f) ≡ finish rest (r >>= g)
bind-finish rest (ok s) f g h = h s
bind-finish rest (err e) f g h = refl

pub length-section-pos : (es : List Entry) (rest : Bytes) → 0 < length (section es rest)
length-section-pos es rest = omega (arith, length-append {0} (entries_bytes es) (0x00 ∷ rest))

-- The loop over a section makes the fold, and stops behind the separator.
pub each_kv-section :
    {S : Type 0} (step : S → KeyValue → Result S) (es : List Entry) (rest : Bytes) (s : S)
    (fuel : ℕ)
    → All IsEntry es
    → length (section es rest) ≤ fuel
    → each_kv step fuel (section es rest) s ≡ finish rest (fold_kvs step es s)
unfolding each_kv fold_kvs entries_bytes
each_kv-section step es rest s zero v h = absurd (omega (arith, length-section-pos es rest))
each_kv-section step [] rest s (suc fuel) v h = rw (read_kv-separator rest)
each_kv-section step (e ∷ es) rest s (suc fuel) (v, vs) h =
    let shorter : length (section es rest) ≤ fuel = omega (
      arith,
      ap length (section-cons e es rest),
      length-append {0} (entry_bytes e) (section es rest),
      length-entry-pos v,
    ) in
    rw (section-cons e es rest, read_kv-entry v (section es rest))
      (bind-finish rest (step s (kv_of e)) _ _
        (λ s'. each_kv-section step es rest s' fuel vs shorter))

-- What an input section decodes to.
unfoldable pub decode_inputs : List (List Entry) → Result (List PsbtInput)
decode_inputs [] = ok []
decode_inputs (es ∷ ess) = do
  inp ← fold_kvs input_step es empty_input
  inps ← decode_inputs ess
  ok (inp ∷ inps)

pub kv_section-section :
    {S : Type 0} (step : S → KeyValue → Result S) (es : List Entry) (rest : Bytes) (s : S)
    → All IsEntry es
    → kv_section step (section es rest) s ≡ finish rest (fold_kvs step es s)
kv_section-section step es rest s v =
    each_kv-section step es rest s (suc (length (section es rest))) v (omega arith)

-- The rest of the loop over the inputs, behind one section.
inputs_after :
    {A : Type 0} (rest : Bytes) (r : Result PsbtInput) (mid : Bytes) (xs : List A)
    (later : Result (List PsbtInput))
    → read_inputs xs mid ≡ finish rest later
    → (finish mid r >>= λ (inp, rest').
        read_inputs xs rest' >>= λ (inps, rest''). ok (inp ∷ inps, rest''))
      ≡ finish rest (r >>= λ inp. later >>= λ inps. ok (inp ∷ inps))
inputs_after rest (ok inp) mid xs (ok inps) h = rw h
inputs_after rest (ok inp) mid xs (err e) h = rw h
inputs_after rest (err e) mid xs later h = refl

pub read_inputs-sections :
    {A : Type 0} (xs : List A) (ess : List (List Entry)) (rest : Bytes)
    → length xs ≡ length ess
    → All (All IsEntry) ess
    → read_inputs xs (sections ess rest) ≡ finish rest (decode_inputs ess)
unfolding read_inputs decode_inputs sections
read_inputs-sections [] [] rest e v = refl
read_inputs-sections [] (es ∷ ess) rest e v = absurd (omega arith)
read_inputs-sections (x ∷ xs) [] rest e v = absurd (omega arith)
read_inputs-sections (x ∷ xs) (es ∷ ess) rest e (v, vs) =
    rw (kv_section-section input_step es (sections ess rest) empty_input v) (
      inputs_after rest (fold_kvs input_step es empty_input) (sections ess rest) xs
        (decode_inputs ess) (read_inputs-sections xs ess rest (omega arith) vs))

skip_all : (es : List Entry) → fold_kvs skip_step es tt ≡ ok tt
unfolding fold_kvs skip_step
skip_all [] = refl
skip_all (e ∷ es) = skip_all es

pub skip_outputs-sections :
    {A : Type 0} (xs : List A) (ess : List (List Entry)) (rest : Bytes)
    → length xs ≡ length ess
    → All (All IsEntry) ess
    → skip_outputs xs (sections ess rest) ≡ ok rest
unfolding skip_outputs sections
skip_outputs-sections [] [] rest e v = refl
skip_outputs-sections [] (es ∷ ess) rest e v = absurd (omega arith)
skip_outputs-sections (x ∷ xs) [] rest e v = absurd (omega arith)
skip_outputs-sections (x ∷ xs) (es ∷ ess) rest e (v, vs) =
    rw (kv_section-section skip_step es (sections ess rest) tt v, skip_all es)
      (skip_outputs-sections xs ess rest (omega arith) vs)

-- What a document says: its unsigned transaction, and the inputs that its sections decode to, one
-- for each input of the transaction.
pub record Decodes (d : Document) (p : ParsedPsbt) : Type 0 where
  pub tx_bytes : Bytes
  pub unsigned : fold_kvs global_step d.global none ≡ ok (some tx_bytes)
  pub tx : parse_raw_tx tx_bytes ≡ ok p.tx
  pub input_count : length p.tx.inputs ≡ length d.inputs
  pub output_count : length p.tx.outputs ≡ length d.outputs
  pub inputs : decode_inputs d.inputs ≡ ok p.inputs
  pub raw : p.raw ≡ document_bytes d

pub parse_bytes-document :
    {d : Document} {p : ParsedPsbt}
    → IsDocument d
    → Decodes d p
    → parse_bytes (document_bytes d) ≡ ok p
unfolding parse_bytes required_tx
parse_bytes-document {d} {p} v c =
    let after = sections d.outputs d.trailing in
    ground (
      arith,
      kv_section-section global_step d.global (sections d.inputs after) none v.global,
      c.unsigned,
      c.tx,
      read_inputs-sections p.tx.inputs d.inputs after c.input_count v.inputs,
      c.inputs,
      skip_outputs-sections p.tx.outputs d.outputs d.trailing c.output_count v.outputs,
      c.raw,
    )
