-- ===== src/Psbt/Grammar/Signed.antt =====
-- packages/bip341-psbt-signer/src/index.ts: a document with its signatures replaced, and what its
-- input sections then decode to.
use dynastytrust.Prelude.{
  ℕ, ◌^◌, ◌<◌, Bool, true, false, List, [], ◌∷◌, ◌++◌, map, All, length, take, drop, ◌≡◌, refl, ap,
  sym, ◌∙◌, arith, length-append, if◌then◌else◌, ◌==◌, ltb, leb, Bool-cases, inl, inr, All-append,
}
use mathlib.Core.List.{append_assoc, append-nil}
use dynastytrust.Psbt.Result.{Result, ok, err, ◌>>=◌, >>=-eq-ok}
use dynastytrust.Psbt.Hex.{Bytes, byte_at, varint, write_uint32_le}
use dynastytrust.Psbt.Reader.{KeyValue}
use dynastytrust.Psbt.Parse.{ScriptSig, PsbtInput, input_step, witness_step, empty_input, sig_of}
use dynastytrust.Psbt.Serialize.{sig_key}
use dynastytrust.Psbt.Grammar.{CompactSize, one, three, five, Entry, IsEntry, kv_of, Document}
use dynastytrust.Psbt.Grammar.Read.{fold_kvs, decode_inputs, take-append, drop-append}

-- A signature as it is written: a key of 32 bytes, a leaf hash of 32 bytes, and a signature whose
-- length has a compact size.
pub record IsSig (s : ScriptSig) : Type 0 where
  pub pubkey : length s.pubkey ≡ 32
  pub leaf_hash : length s.leaf_hash ≡ 32
  pub sig : length s.sig < 2 ^ 32

abbrev pub is_sig_entry : Entry → Bool
is_sig_entry e = byte_at e.key == 0x14

-- The entries of a section that are no signatures, in order.
unfoldable pub unsigned : List Entry → List Entry
unsigned [] = []
unsigned (e ∷ es) = if is_sig_entry e then unsigned es else e ∷ unsigned es

abbrev pub entry_of : ScriptSig → Entry
entry_of s = record {
  key_size = varint (length (sig_key s));
  key = sig_key s;
  value_size = varint (length s.sig);
  value = s.sig;
}

abbrev pub signed : List Entry → List ScriptSig → List Entry
signed es ss = unsigned es ++ map entry_of ss

unfoldable pub signed_inputs : List (List Entry) → List (List ScriptSig) → List (List Entry)
signed_inputs [] sss = []
signed_inputs (es ∷ ess) [] = []
signed_inputs (es ∷ ess) (ss ∷ sss) = signed es ss ∷ signed_inputs ess sss

abbrev pub with_signatures : Document → List (List ScriptSig) → Document
with_signatures d sss = record d { inputs = signed_inputs d.inputs sss }

abbrev pub set_sigs : List ScriptSig → PsbtInput → PsbtInput
set_sigs ss inp = record inp { tap_script_sigs = ss }

unfoldable pub set_all : List PsbtInput → List (List ScriptSig) → List PsbtInput
set_all [] sss = []
set_all (i ∷ is) [] = []
set_all (i ∷ is) (ss ∷ sss) = set_sigs ss i ∷ set_all is sss

-- A variable-length integer of at most 32 bits is a compact size.
pub varint-CompactSize : (n : ℕ) → n < 2 ^ 32 → CompactSize (varint n) n
unfolding varint write_uint32_le
varint-CompactSize n h = elim (Bool-cases (ltb n 0xfd)) [
  | inl small ↦ rw small (one (ground arith))
  | inr large ↦ elim (Bool-cases (leb n 0xffff)) [
    | inl short ↦ rw (large, short) (three (ground arith))
    | inr long ↦ rw (large, long) (five (omega arith))
  ]
]

pub entry_of-IsEntry : {s : ScriptSig} → IsSig s → IsEntry (entry_of s)
unfolding sig_key
entry_of-IsEntry {s} v =
    let long : length (sig_key s) ≡ 65 =
      omega (arith, length-append {0} s.pubkey s.leaf_hash, v.pubkey, v.leaf_hash) in
    record {
      key_sized = varint-CompactSize _ (omega (arith, long));
      key_there = omega (arith, long);
      value_sized = varint-CompactSize _ v.sig;
    }

unsigned-IsEntry : (es : List Entry) → All IsEntry es → All IsEntry (unsigned es)
unfolding unsigned
unsigned-IsEntry [] v = tt
unsigned-IsEntry (e ∷ es) (v, vs) = ground (arith, unsigned-IsEntry es vs, v)

entries-IsEntry : (ss : List ScriptSig) → All IsSig ss → All IsEntry (map entry_of ss)
entries-IsEntry [] v = tt
entries-IsEntry (s ∷ ss) (v, vs) = (entry_of-IsEntry v, entries-IsEntry ss vs)

pub signed_inputs-IsEntry :
    (ess : List (List Entry)) (sss : List (List ScriptSig))
    → All (All IsEntry) ess
    → All (All IsSig) sss
    → All (All IsEntry) (signed_inputs ess sss)
unfolding signed_inputs
signed_inputs-IsEntry [] sss v w = tt
signed_inputs-IsEntry (es ∷ ess) [] v w = tt
signed_inputs-IsEntry (es ∷ ess) (ss ∷ sss) (v, vs) (w, ws) = (
  All-append IsEntry (unsigned es) (map entry_of ss) (unsigned-IsEntry es v) (entries-IsEntry ss w),
  signed_inputs-IsEntry ess sss vs ws,
)

bind_append :
    {S : Type 0} (r : Result S) (f g k : S → Result S)
    → ((s : S) → f s ≡ (g s >>= k))
    → (r >>= f) ≡ ((r >>= g) >>= k)
bind_append (ok s) f g k h = h s
bind_append (err e) f g k h = refl

fold-append :
    {S : Type 0} (step : S → KeyValue → Result S) (xs ys : List Entry) (s : S)
    → fold_kvs step (xs ++ ys) s ≡ (fold_kvs step xs s >>= fold_kvs step ys)
unfolding fold_kvs
fold-append step [] ys s = refl
fold-append step (x ∷ xs) ys s =
    bind_append (step s (kv_of x)) _ _ _ (λ s'. fold-append step xs ys s')

-- A step reads and writes no signature but for a signature entry.
step-set_sigs :
    (e : Entry) (inp : PsbtInput) (ss : List ScriptSig)
    → is_sig_entry e ≡ false
    → input_step (set_sigs ss inp) (kv_of e)
      ≡ (input_step inp (kv_of e) >>= λ i. ok (set_sigs ss i))
unfolding input_step witness_step
step-set_sigs e inp ss h = ground arith

step-sig :
    (e : Entry) (inp : PsbtInput)
    → is_sig_entry e ≡ true
    → input_step inp (kv_of e) ≡ ok (set_sigs (inp.tap_script_sigs ++ sig_of (kv_of e) ∷ []) inp)
unfolding input_step
step-sig e inp h = ground arith

set_sigs_twice :
    (inp mid : PsbtInput) (ss : List ScriptSig) (ts : List ScriptSig) {r : Result PsbtInput}
    → r ≡ ok mid
    → r ≡ ok (set_sigs ts inp)
    → set_sigs ss inp ≡ set_sigs ss mid
set_sigs_twice inp mid ss ts h k = let e : mid ≡ set_sigs ts inp = cc in rw e refl

fold-unsigned :
    (es : List Entry) (inp out : PsbtInput) (ss : List ScriptSig)
    → fold_kvs input_step es inp ≡ ok out
    → fold_kvs input_step (unsigned es) (set_sigs ss inp) ≡ ok (set_sigs ss out)
unfolding fold_kvs unsigned
fold-unsigned [] inp out ss h = ground arith
fold-unsigned (e ∷ es) inp out ss h =
    let (mid, stepped, later) = >>=-eq-ok (input_step inp (kv_of e)) _ h in
    elim (Bool-cases (is_sig_entry e)) [
      | inl sig ↦
          rw (sig, set_sigs_twice inp mid ss _ stepped (step-sig e inp sig))
            (fold-unsigned es mid out ss later)
      | inr other ↦
          rw (other, step-set_sigs e inp ss other, stepped) (fold-unsigned es mid out ss later)
    ]

take_of_length : {n : ℕ} (k t : Bytes) → length k ≡ n → take n (k ++ t) ≡ k
take_of_length k t e = rw (← e) (take-append k t)

drop_of_length : {n : ℕ} (k t : Bytes) → length k ≡ n → drop n (k ++ t) ≡ t
drop_of_length k t e = rw (← e) (drop-append k t)

take-all : {n : ℕ} (k : Bytes) → length k ≡ n → take n k ≡ k
take-all k e = ap (take _) (sym (append-nil k)) ∙ take_of_length k [] e

sig_of-entry_of : {s : ScriptSig} → IsSig s → sig_of (kv_of (entry_of s)) ≡ s
unfolding sig_of sig_key
sig_of-entry_of {s} v = ground (
  arith,
  take_of_length s.pubkey s.leaf_hash v.pubkey,
  drop_of_length s.pubkey s.leaf_hash v.pubkey,
  take-all s.leaf_hash v.leaf_hash,
)

step-entry_of :
    (s : ScriptSig) (inp : PsbtInput)
    → IsSig s
    → input_step inp (kv_of (entry_of s)) ≡ ok (set_sigs (inp.tap_script_sigs ++ s ∷ []) inp)
unfolding sig_key
step-entry_of s inp v =
    step-sig (entry_of s) inp refl
    ∙ ap (λ t. ok (set_sigs (inp.tap_script_sigs ++ t ∷ []) inp)) (sig_of-entry_of v)

-- The signatures that were written are read back, in order.
fold-entries :
    (ss : List ScriptSig) (inp : PsbtInput)
    → All IsSig ss
    → fold_kvs input_step (map entry_of ss) inp ≡ ok (set_sigs (inp.tap_script_sigs ++ ss) inp)
unfolding fold_kvs
fold-entries [] inp v = rw append-nil
fold-entries (s ∷ ss) inp (v, vs) = rw (step-entry_of s inp v) (
    fold-entries ss (set_sigs (inp.tap_script_sigs ++ s ∷ []) inp) vs
    ∙ ap (λ l. ok (set_sigs l inp)) (append_assoc inp.tap_script_sigs (s ∷ []) ss))

fold-signed :
    (es : List Entry) (ss : List ScriptSig) (out : PsbtInput)
    → All IsSig ss
    → fold_kvs input_step es empty_input ≡ ok out
    → fold_kvs input_step (signed es ss) empty_input ≡ ok (set_sigs ss out)
fold-signed es ss out v h =
    fold-append input_step (unsigned es) (map entry_of ss) empty_input
    ∙ rw (fold-unsigned es empty_input out [] h) (fold-entries ss (set_sigs [] out) v)

-- The inputs of the signed document are those of the document with the signatures given.
pub decode-signed :
    (ess : List (List Entry)) (sss : List (List ScriptSig)) (inps : List PsbtInput)
    → length sss ≡ length ess
    → All (All IsSig) sss
    → decode_inputs ess ≡ ok inps
    → decode_inputs (signed_inputs ess sss) ≡ ok (set_all inps sss)
unfolding decode_inputs signed_inputs set_all
decode-signed [] sss inps e v h = ground arith
decode-signed (es ∷ ess) [] inps e v h = absurd (omega arith)
decode-signed (es ∷ ess) (ss ∷ sss) inps e (v, vs) h =
    let (inp, first, rest) = >>=-eq-ok (fold_kvs input_step es empty_input) _ h in
    let (others, later, built) = >>=-eq-ok (decode_inputs ess) _ rest in
    let same : inps ≡ inp ∷ others = cc in
    rw (fold-signed es ss inp v first, decode-signed ess sss others (omega arith) vs later, same)
