-- ===== src/Psbt/Grammar/Write.antt =====
-- packages/bip341-psbt-signer/src/index.ts: the serializer over the format.
use dynastytrust.Prelude.{
  ℕ, zero, suc, ◌-◌, ◌<◌, ◌≤◌, some, List, [], ◌∷◌, ◌++◌, map, All, length, take, ◌≡◌, refl, ap,
  sym, ◌∙◌, arith, length-append, if◌then◌else◌, ◌==◌, Bool-cases, inl, inr, get_elem?,
}
use mathlib.Core.List.{append_assoc}
use dynastytrust.Psbt.Result.{Result, ok}
use dynastytrust.Psbt.Hex.{Bytes, byte_at}
use dynastytrust.Psbt.Parse.{ScriptSig, PsbtInput, ParsedPsbt}
use dynastytrust.Psbt.Serialize.{
  slice_between, raw_loop, read_raw_kv_section, raw_entry, strip_loop, strip_key_type, sig_entry,
  sig_entries, write_inputs, copy_outputs, serialize_bytes,
}
use dynastytrust.Psbt.Grammar.{
  one, Entry, IsEntry, entry_bytes, entries_bytes, section, sections, Document, IsDocument,
  document_bytes,
}
use dynastytrust.Psbt.Grammar.Read.{
  take-append, drop-append, read-CompactSize, section-cons, length-entry-pos, length-section-pos,
  Decodes,
}
use dynastytrust.Psbt.Grammar.Signed.{
  is_sig_entry, unsigned, entry_of, signed, signed_inputs, set_all,
}

first_byte : (k t : Bytes) → 0 < length k → get_elem? (k ++ t) 0 ≡ some (byte_at k)
first_byte [] t h = absurd (omega arith)
first_byte (b ∷ k) t h = refl

raw_loop-entry :
    {e : Entry} (fuel : ℕ)
    → IsEntry e
    → (t : Bytes)
    → raw_loop (suc fuel) (e.key_size ++ (e.key ++ (e.value_size ++ (e.value ++ t))))
      ≡ raw_loop fuel t
unfolding raw_loop
raw_loop-entry {e} fuel v t = ground (
  arith,
  read-CompactSize v.key_sized (e.key ++ (e.value_size ++ (e.value ++ t))),
  drop-append e.key (e.value_size ++ (e.value ++ t)),
  read-CompactSize v.value_sized (e.value ++ t),
  drop-append e.value t,
)

entry_nested :
    (e : Entry) (t : Bytes)
    → entry_bytes e ++ t ≡ e.key_size ++ (e.key ++ (e.value_size ++ (e.value ++ t)))
entry_nested e t = simp append_assoc

raw_loop-section :
    (es : List Entry) (rest : Bytes) (fuel : ℕ)
    → All IsEntry es
    → length (section es rest) ≤ fuel
    → raw_loop fuel (section es rest) ≡ ok rest
raw_loop-section es rest zero v h = absurd (omega (arith, length-section-pos es rest))
raw_loop-section [] rest (suc fuel) v h =
    unfold entries_bytes raw_loop in
    ground (arith, read-CompactSize (one {n = 0} (omega arith)) rest)
raw_loop-section (e ∷ es) rest (suc fuel) (v, vs) h =
    let shorter : length (section es rest) ≤ fuel = omega (
      arith,
      ap length (section-cons e es rest),
      length-append {0} (entry_bytes e) (section es rest),
      length-entry-pos v,
    ) in
    rw (section-cons e es rest, entry_nested e (section es rest))
      (raw_loop-entry fuel v (section es rest) ∙ raw_loop-section es rest fuel vs shorter)

-- What stands before a suffix.
slice-append : (xs t : Bytes) → slice_between (xs ++ t) t ≡ xs
slice-append xs t =
    let e : length (xs ++ t) - length t ≡ length xs = omega (arith, length-append {0} xs t) in
    rw e (take-append xs t)

slice-section :
    (es : List Entry) (rest : Bytes) → slice_between (section es rest) rest ≡ section es []
slice-section es rest =
    rw (← append_assoc (entries_bytes es) (0x00 ∷ []) rest) (slice-append (section es []) rest)

pub read_raw-section :
    (es : List Entry) (rest : Bytes)
    → All IsEntry es
    → read_raw_kv_section (section es rest) ≡ ok (section es [], rest)
unfolding read_raw_kv_section
read_raw-section es rest v =
    rw (raw_loop-section es rest (suc (length (section es rest))) v (omega arith))
      (ap (λ raw. ok (raw, rest)) (slice-section es rest))

-- One entry of the raw section, without looking at what follows.
raw_entry-entry :
    {e : Entry}
    → IsEntry e
    → (t : Bytes)
    → raw_entry (e.key_size ++ (e.key ++ (e.value_size ++ (e.value ++ t))))
      ≡ ok (some (byte_at e.key), t)
unfolding raw_entry
raw_entry-entry {e} v t = ground (
  arith,
  read-CompactSize v.key_sized (e.key ++ (e.value_size ++ (e.value ++ t))),
  drop-append e.key (e.value_size ++ (e.value ++ t)),
  read-CompactSize v.value_sized (e.value ++ t),
  drop-append e.value t,
  first_byte e.key (e.value_size ++ (e.value ++ t)) v.key_there,
)

-- One round of the stripping loop, on raw bytes that are not empty.
strip_loop-step :
    (fuel : ℕ) (raw after kept : Bytes) (type : ℕ)
    → 0 < length raw
    → raw_entry raw ≡ ok (some type, after)
    → strip_loop 0x14 fuel after ≡ ok kept
    → strip_loop 0x14 (suc fuel) raw
      ≡ ok (if type == 0x14 then kept else slice_between raw after ++ kept)
unfolding strip_loop
strip_loop-step fuel [] after kept type h r k = absurd (omega arith)
strip_loop-step fuel (b ∷ raw) after kept type h r k = rw (r, k) refl

strip_loop-entry :
    (e : Entry) (fuel : ℕ) (t : Bytes) (kept : Bytes)
    → IsEntry e
    → strip_loop 0x14 fuel t ≡ ok kept
    → strip_loop 0x14 (suc fuel) (entry_bytes e ++ t)
      ≡ ok (if is_sig_entry e then kept else entry_bytes e ++ kept)
strip_loop-entry e fuel t kept v h =
    strip_loop-step fuel (entry_bytes e ++ t) t kept (byte_at e.key)
      (omega (arith, length-append {0} (entry_bytes e) t, length-entry-pos v))
      (ap raw_entry (entry_nested e t) ∙ raw_entry-entry v t) h
    ∙ ap (λ raw. ok (if is_sig_entry e then kept else raw ++ kept)) (slice-append (entry_bytes e) t)

kept_bytes :
    (e : Entry) (es : List Entry)
    → ◌≡◌ {A = Result Bytes}
        (ok (if is_sig_entry e then entries_bytes es else entry_bytes e ++ entries_bytes es))
        (ok (entries_bytes (if is_sig_entry e then es else e ∷ es)))
unfolding entries_bytes
kept_bytes e es = elim (Bool-cases (is_sig_entry e)) [ inl sig ↦ rw sig | inr other ↦ rw other ]

strip_loop-entries :
    (es : List Entry) (fuel : ℕ)
    → All IsEntry es
    → length (entries_bytes es) ≤ fuel
    → strip_loop 0x14 fuel (entries_bytes es) ≡ ok (entries_bytes (unsigned es))
unfolding entries_bytes unsigned
strip_loop-entries [] zero v h = unfold strip_loop in refl
strip_loop-entries [] (suc fuel) v h = unfold strip_loop in refl
strip_loop-entries (e ∷ es) zero (v, vs) h =
    absurd (omega (arith, length-append {0} (entry_bytes e) (entries_bytes es), length-entry-pos v))
strip_loop-entries (e ∷ es) (suc fuel) (v, vs) h =
    let shorter : length (entries_bytes es) ≤ fuel =
      omega (arith, length-append {0} (entry_bytes e) (entries_bytes es), length-entry-pos v) in
    strip_loop-entry e fuel (entries_bytes es) _ v (strip_loop-entries es fuel vs shorter)
    ∙ kept_bytes e (unsigned es)

-- The written signatures are the bytes of their entries.
sig_entries-bytes : (ss : List ScriptSig) → sig_entries ss ≡ entries_bytes (map entry_of ss)
unfolding sig_entries sig_entry entries_bytes
sig_entries-bytes [] = refl
sig_entries-bytes (s ∷ ss) = ap (λ r. sig_entry s ++ r) (sig_entries-bytes ss)

entries-append :
    (xs ys : List Entry) → entries_bytes (xs ++ ys) ≡ entries_bytes xs ++ entries_bytes ys
unfolding entries_bytes
entries-append [] ys = refl
entries-append (x ∷ xs) ys =
    ap (λ r. entry_bytes x ++ r) (entries-append xs ys)
    ∙ sym (append_assoc (entry_bytes x) (entries_bytes xs) (entries_bytes ys))

-- A section without its separator byte.
body : (es : List Entry) → take (length (section es []) - 1) (section es []) ≡ entries_bytes es
body es = slice-append (entries_bytes es) (0x00 ∷ [])

signed-section :
    (es : List Entry) (ss : List ScriptSig) (tail : Bytes)
    → entries_bytes (unsigned es) ++ (sig_entries ss ++ 0x00 ∷ tail) ≡ section (signed es ss) tail
signed-section es ss tail =
    rw (sig_entries-bytes ss, entries-append (unsigned es) (map entry_of ss))
      (sym (
        append_assoc (entries_bytes (unsigned es)) (entries_bytes (map entry_of ss)) (0x00 ∷ tail)))

write_inputs-sections :
    (ess : List (List Entry)) (sss : List (List ScriptSig)) (inps : List PsbtInput) (rest : Bytes)
    → All (All IsEntry) ess
    → length inps ≡ length ess
    → length sss ≡ length ess
    → write_inputs (set_all inps sss) (sections ess rest)
      ≡ ok (sections (signed_inputs ess sss) [], rest)
unfolding write_inputs sections signed_inputs set_all strip_key_type
write_inputs-sections [] [] [] rest v e f = refl
write_inputs-sections (es ∷ ess) (ss ∷ sss) (i ∷ is) rest (v, vs) e f =
    rw
      (
        read_raw-section es (sections ess rest) v,
        body es,
        strip_loop-entries es (length (entries_bytes es)) v (omega arith),
        write_inputs-sections ess sss is rest vs (omega arith) (omega arith),
      )
      (ap (λ raw. ok (raw, rest)) (signed-section es ss (sections (signed_inputs ess sss) [])))
write_inputs-sections [] [] (i ∷ is) rest v e f = absurd (omega arith)
write_inputs-sections [] (ss ∷ sss) is rest v e f = absurd (omega arith)
write_inputs-sections (es ∷ ess) [] is rest v e f = absurd (omega arith)
write_inputs-sections (es ∷ ess) (ss ∷ sss) [] rest v e f = absurd (omega arith)

section-nil : (es : List Entry) (t : Bytes) → section es [] ++ t ≡ section es t
section-nil es t = append_assoc (entries_bytes es) (0x00 ∷ []) t

copy_outputs-sections :
    {A : Type 0} (xs : List A) (ess : List (List Entry)) (rest : Bytes)
    → All (All IsEntry) ess
    → length xs ≡ length ess
    → copy_outputs xs (sections ess rest) ≡ ok (sections ess [])
unfolding copy_outputs sections
copy_outputs-sections [] [] rest v e = refl
copy_outputs-sections [] (es ∷ ess) rest v e = absurd (omega arith)
copy_outputs-sections (x ∷ xs) [] rest v e = absurd (omega arith)
copy_outputs-sections (x ∷ xs) (es ∷ ess) rest (v, vs) e =
    rw
      (
        read_raw-section es (sections ess rest) v,
        copy_outputs-sections xs ess rest vs (omega arith),
      )
      (ap ok (section-nil es (sections ess [])))

sections-nil : (ess : List (List Entry)) (t : Bytes) → sections ess [] ++ t ≡ sections ess t
unfolding sections
sections-nil [] t = refl
sections-nil (es ∷ ess) t =
    append_assoc (entries_bytes es) (0x00 ∷ sections ess []) t
    ∙ ap (λ r. section es r) (sections-nil ess t)

-- The document that is written: the signatures replaced, what trailed the outputs dropped.
abbrev pub written : Document → List (List ScriptSig) → Document
written d sss = record d { inputs = signed_inputs d.inputs sss; trailing = [] }

pub serialize_bytes-document :
    {d : Document} {p : ParsedPsbt}
    → IsDocument d
    → Decodes d p
    → length p.inputs ≡ length d.inputs
    → (sss : List (List ScriptSig)) → length sss ≡ length d.inputs
    → serialize_bytes (record p { inputs = set_all p.inputs sss })
      ≡ ok (document_bytes (written d sss))
unfolding serialize_bytes
serialize_bytes-document {d} {p} v c e sss f =
    let after = sections d.outputs d.trailing in
    let outputs = sections d.outputs [] in
    let inputs = signed_inputs d.inputs sss in
    let tail : section d.global [] ++ (sections inputs [] ++ outputs)
        ≡ section d.global (sections inputs outputs) =
      section-nil d.global _ ∙ ap (λ r. section d.global r) (sections-nil inputs outputs) in
    rw
      (
        c.raw,
        read_raw-section d.global (sections d.inputs after) v.global,
        write_inputs-sections d.inputs sss p.inputs after v.inputs e f,
        copy_outputs-sections p.tx.outputs d.outputs d.trailing v.outputs c.output_count,
      )
      (ap (λ r. ok (0x70 ∷ 0x73 ∷ 0x62 ∷ 0x74 ∷ 0xff ∷ r)) tail)
