-- ===== src/Psbt/Cosign/Combine.antt =====
-- apps/web/src/lib/psbt-signer.ts: what merging PSBTs gives, and when it succeeds.
use mathlib.Core.List.{append-nil, append_assoc}
use dynastytrust.Prelude.{
  ℕ, zero, suc, Bool, Option, none, some, List, [], ◌∷◌, ◌++◌, length, subst, find, ◌≡◌, ◌↔◌, refl,
  ap, sym, ◌∙◌, arith, Bool-cases, inl, inr,
}
use dynastytrust.Psbt.Result.{ok, guard, different_transaction, >>=-eq-ok, ok-injective}
use dynastytrust.Psbt.Parse.{ScriptSig, PsbtInput, PsbtTx, ParsedPsbt, parse_psbt}
use dynastytrust.Psbt.Cosign.{
  same_unsigned_tx, merge_sigs, merge_inputs, merge_one, merge_rest, merge_psbts,
}
use dynastytrust.Psbt.Serialize.{serialize_psbt}
use dynastytrust.Psbt.Cosign.SameTx.{same_unsigned_tx_iff, length-parse_psbt}
use dynastytrust.Psbt.Cosign.Merge.{at_slot, Distinct, at_slot-merge_sigs, merge_sigs-Distinct}

abbrev pub sigs_in : ℕ → List PsbtInput → List ScriptSig
sigs_in i [] = []
sigs_in zero (inp ∷ inps) = inp.tap_script_sigs
sigs_in (suc i) (inp ∷ inps) = sigs_in i inps

-- The texts parse to PSBTs of the transaction.
abbrev pub Copies : PsbtTx → List (List ℕ) → List ParsedPsbt → Type 0
Copies tx [] [] = Unit
Copies tx (hex ∷ hexes) (p ∷ ps) = (parse_psbt hex ≡ ok p) × (p.tx ≡ tx) × Copies tx hexes ps
Copies tx [] (p ∷ ps) = ⊥
Copies tx (hex ∷ hexes) [] = ⊥

-- The signatures of an input in all of the PSBTs, in their order.
abbrev pub all_sigs : ℕ → List ParsedPsbt → List ScriptSig
all_sigs i [] = []
all_sigs i (p ∷ ps) = sigs_in i p.inputs ++ all_sigs i ps

-- What is asked of the result of merging PSBTs into one.
pub record IsCombined (first : ParsedPsbt) (ps : List ParsedPsbt) (merged : ParsedPsbt)
    : Type 0 where
  pub same_tx : merged.tx ≡ first.tx
  pub same_raw : merged.raw ≡ first.raw
  pub inputs : length merged.inputs ≡ length first.inputs
  pub first_wins :
      (i : ℕ) (slot : ScriptSig)
      → at_slot slot (sigs_in i merged.inputs)
        ≡ at_slot slot (sigs_in i first.inputs ++ all_sigs i ps)
  pub distinct : (i : ℕ) → Distinct (sigs_in i first.inputs) → Distinct (sigs_in i merged.inputs)

sigs_in-merged :
    (i o : PsbtInput) (is os ms : List PsbtInput)
    → ((n : ℕ) → sigs_in n ms ≡ merge_sigs (sigs_in n is) (sigs_in n os))
    → (n : ℕ)
    → sigs_in n (record i { tap_script_sigs = merge_sigs i.tap_script_sigs o.tap_script_sigs } ∷ ms)
      ≡ merge_sigs (sigs_in n (i ∷ is)) (sigs_in n (o ∷ os))
sigs_in-merged i o is os ms each zero = refl
sigs_in-merged i o is os ms each (suc n) = each n

-- Merging the inputs merges the signatures of each.
merge_inputs-total :
    (is os : List PsbtInput)
    → length is ≡ length os
    → (ms : List PsbtInput) × (merge_inputs is os ≡ ok ms)
      × (length ms ≡ length is)
      × ((i : ℕ) → sigs_in i ms ≡ merge_sigs (sigs_in i is) (sigs_in i os))
unfolding merge_inputs merge_sigs
merge_inputs-total [] [] e = ([], refl, refl, λ i. refl)
merge_inputs-total [] (o ∷ os) e = absurd (omega arith)
merge_inputs-total (i ∷ is) [] e = absurd (omega arith)
merge_inputs-total (i ∷ is) (o ∷ os) e =
    let (ms, run, len, each) = merge_inputs-total is os (omega arith) in
    (
      record i { tap_script_sigs = merge_sigs i.tap_script_sigs o.tap_script_sigs } ∷ ms,
      rw run refl,
      omega (arith, len),
      sigs_in-merged i o is os ms each,
    )

merge_one-total :
    (first other : ParsedPsbt)
    → length first.inputs ≡ length other.inputs
    → other.tx ≡ first.tx
    → (merged : ParsedPsbt) × (merge_one first other ≡ ok merged)
      × (merged.tx ≡ first.tx)
      × (merged.raw ≡ first.raw)
      × (length merged.inputs ≡ length first.inputs)
      × ((i : ℕ)
          → sigs_in i merged.inputs ≡ merge_sigs (sigs_in i first.inputs) (sigs_in i other.inputs))
unfolding merge_one
merge_one-total first other len same =
    let (ms, run, kept, each) = merge_inputs-total first.inputs other.inputs len in
    let equal = (same_unsigned_tx_iff first.tx other.tx).1 (sym same) in
    (record first { inputs = ms }, rw (equal, run) refl, refl, refl, kept, each)

merge_one-tx :
    (first other merged : ParsedPsbt) → merge_one first other ≡ ok merged → merged.tx ≡ first.tx
unfolding merge_one
merge_one-tx first other merged h =
    let (u, _, h1) =
      >>=-eq-ok (guard (same_unsigned_tx first.tx other.tx) different_transaction) _ h in
    let (ms, _, done) = >>=-eq-ok (merge_inputs first.inputs other.inputs) _ h1 in
    let same : merged ≡ record first { inputs = ms } = cc in rw same refl

-- Whether a PSBT is of the transaction is decided by the first step of its merge.
merge_one-same :
    (first other merged : ParsedPsbt) → merge_one first other ≡ ok merged → other.tx ≡ first.tx
unfolding merge_one
merge_one-same first other merged h = elim (Bool-cases (same_unsigned_tx first.tx other.tx)) [
  | inl e ↦ sym ((same_unsigned_tx_iff first.tx other.tx).0 e)
  | inr e ↦ absurd (ground arith)
]

first_found {ℓ} : {A : Type ℓ} → Option A → Option A → Option A
first_found none b = b
first_found (some a) b = some a

find-append {ℓ} :
    {A : Type ℓ} (p : A → Bool) (xs ys : List A)
    → find p (xs ++ ys) ≡ first_found (find p xs) (find p ys)
unfolding first_found
find-append p [] ys = refl
find-append p (x ∷ xs) ys = elim (Bool-cases (p x)) [
  | inl e ↦ rw (e, find) refl
  | inr e ↦ rw (e, find) (find-append p xs ys)
]

at_slot-append :
    (slot : ScriptSig) (a b c : List ScriptSig)
    → at_slot slot (merge_sigs a b ++ c) ≡ at_slot slot (a ++ (b ++ c))
at_slot-append slot a b c =
    find-append _ (merge_sigs a b) c
    ∙ ap (λ o. first_found o (at_slot slot c)) (at_slot-merge_sigs slot a b)
    ∙ sym (find-append _ (a ++ b) c)
    ∙ ap (at_slot slot) (append_assoc a b c)

-- PSBTs of one transaction are always merged.
pub merge_rest-IsCombined :
    (first : ParsedPsbt) (hexes : List (List ℕ)) (ps : List ParsedPsbt)
    → length first.inputs ≡ length first.tx.inputs
    → Copies first.tx hexes ps
    → (merged : ParsedPsbt) × (merge_rest first hexes ≡ ok merged) × IsCombined first ps merged
unfolding merge_rest
merge_rest-IsCombined first [] [] len c = (
  first,
  refl,
  record {
    same_tx = refl;
    same_raw = refl;
    inputs = refl;
    first_wins = λ i slot. ap (at_slot slot) (sym (append-nil (sigs_in i first.inputs)));
    distinct = λ i d. d;
  },
)
merge_rest-IsCombined first [] (p ∷ ps) len c = absurd c
merge_rest-IsCombined first (hex ∷ hexes) [] len c = absurd c
merge_rest-IsCombined first (hex ∷ hexes) (p ∷ ps) len (read, same, c) =
    let lens : length first.inputs ≡ length p.inputs =
      len ∙ ap (λ tx. length tx.inputs) (sym same) ∙ sym (length-parse_psbt hex read) in
    let (one, run, tx, raw, kept, each) = merge_one-total first p lens same in
    let (merged, rest, all) =
      merge_rest-IsCombined one hexes ps (kept ∙ len ∙ ap (λ tx. length tx.inputs) (sym tx))
        (subst (λ t. Copies t hexes ps) (sym tx) c) in
    (
      merged,
      rw (read, run) rest,
      record {
        same_tx = all.same_tx ∙ tx;
        same_raw = all.same_raw ∙ raw;
        inputs = all.inputs ∙ kept;
        first_wins = λ i slot.
            all.first_wins i slot
            ∙ ap (λ ss. at_slot slot (ss ++ all_sigs i ps)) (each i)
            ∙ at_slot-append slot (sigs_in i first.inputs) (sigs_in i p.inputs) (all_sigs i ps);
        distinct = λ i d. all.distinct i (
            subst Distinct (sym (each i))
              (merge_sigs-Distinct (sigs_in i first.inputs) (sigs_in i p.inputs) d));
      },
    )

-- What is merged are PSBTs of one transaction.
pub merge_rest-Copies :
    (first merged : ParsedPsbt) (hexes : List (List ℕ))
    → merge_rest first hexes ≡ ok merged
    → (ps : List ParsedPsbt) × Copies first.tx hexes ps
unfolding merge_rest
merge_rest-Copies first merged [] h = ([], tt)
merge_rest-Copies first merged (hex ∷ hexes) h =
    let (p, read, h1) = >>=-eq-ok (parse_psbt hex) _ h in
    let (one, run, h2) = >>=-eq-ok (merge_one first p) _ h1 in
    let (ps, c) = merge_rest-Copies one merged hexes h2 in
    let same = merge_one-same first p one run in
    (p ∷ ps, (read, same, subst (λ t. Copies t hexes ps) (merge_one-tx first p one run) c))

-- Merging into a PSBT that was parsed succeeds exactly when each of the other texts parses to a PSBT
-- of the same transaction.
pub merge_rest_iff :
    (hex : List ℕ) (first : ParsedPsbt) (hexes : List (List ℕ))
    → parse_psbt hex ≡ ok first
    → ((merged : ParsedPsbt) × (merge_rest first hexes ≡ ok merged))
      ↔ ((ps : List ParsedPsbt) × Copies first.tx hexes ps)
merge_rest_iff hex first hexes read = (
  (λ (merged, run). merge_rest-Copies first merged hexes run),
  (λ (ps, c).
      let (merged, run, all) =
        merge_rest-IsCombined first hexes ps (length-parse_psbt hex read) c in
      (merged, run)),
)

-- A text that merging gives is the serialization of a PSBT with the transaction and the raw bytes of
-- the first, in which each input holds, for each key and leaf, the first signature that the PSBTs
-- hold in their order, and no second one where the first PSBT holds none twice. All texts parsed, to
-- PSBTs of one transaction.
pub merge_psbts-IsCombined :
    (hex : List ℕ) (hexes : List (List ℕ)) (out : List ℕ)
    → merge_psbts (hex ∷ hexes) ≡ ok out
    → (first : ParsedPsbt) × (ps : List ParsedPsbt) × (merged : ParsedPsbt) × (parse_psbt hex
        ≡ ok first)
      × Copies first.tx hexes ps
      × IsCombined first ps merged
      × (serialize_psbt merged ≡ ok out)
unfolding merge_psbts
merge_psbts-IsCombined hex hexes out h =
    let (first, read, h1) = >>=-eq-ok (parse_psbt hex) _ h in
    let (merged, run, written) = >>=-eq-ok (merge_rest first hexes) _ h1 in
    let (ps, c) = merge_rest-Copies first merged hexes run in
    let (merged', run', all) =
      merge_rest-IsCombined first hexes ps (length-parse_psbt hex read) c in
    (first, ps, merged, read, c, subst (IsCombined first ps) (ok-injective run' run) all, written)
