-- ===== src/Psbt/Cosign/Merge.antt =====
-- apps/web/src/lib/psbt-signer.ts: the signatures of a merged PSBT.
use dynastytrust.Prelude.{
  Bool, true, false, Option, List, [], ◌∷◌, ◌++◌, All, any, find, ◌≡◌, inl, inr, refl, ap, sym, ◌∙◌,
  arith, Bool-cases, All-append,
}
use mathlib.Core.List.{append_assoc, append-nil}
use dynastytrust.Psbt.Parse.{ScriptSig}
use dynastytrust.Psbt.Cosign.{same_slot, merge_sigs}
use dynastytrust.Psbt.Cosign.Check.{same_hex_iff}

-- The signature that a list holds for the key and leaf of another.
abbrev pub at_slot : ScriptSig → List ScriptSig → Option ScriptSig
at_slot slot = find (λ s. same_slot s slot)

-- No two of the signatures are by one key for one leaf.
abbrev pub Distinct : List ScriptSig → Type 0
Distinct [] = Unit
Distinct (s ∷ ss) = All (λ t. same_slot s t ≡ false) ss × Distinct ss

same_slot_trans :
    (s t u : ScriptSig) → same_slot s t ≡ true → same_slot t u ≡ true → same_slot s u ≡ true
same_slot_trans s t u h k = ground (
  arith,
  same_hex_iff s.pubkey t.pubkey,
  same_hex_iff t.pubkey u.pubkey,
  same_hex_iff s.pubkey u.pubkey,
  same_hex_iff s.leaf_hash t.leaf_hash,
  same_hex_iff t.leaf_hash u.leaf_hash,
  same_hex_iff s.leaf_hash u.leaf_hash,
)

any-slot :
    (sigs : List ScriptSig) (sig slot : ScriptSig)
    → same_slot sig slot ≡ true
    → any (λ s. same_slot s sig) sigs ≡ true
    → any (λ s. same_slot s slot) sigs ≡ true
any-slot [] sig slot e h = h
any-slot (s ∷ sigs) sig slot e h = elim (Bool-cases (same_slot s sig)) [
  | inl this ↦ ground (arith, same_slot_trans s sig slot this e)
  | inr other ↦ ground (arith, any-slot sigs sig slot e)
]

-- An element that does not pass, or that another before it outruns, may be left out.
find-skip {ℓ} :
    {A : Type ℓ} (p : A → Bool) (xs ys : List A) (y : A)
    → (p y ≡ true → any p xs ≡ true)
    → find p (xs ++ y ∷ ys) ≡ find p (xs ++ ys)
find-skip p [] ys y h = elim (Bool-cases (p y)) [
  | inl e ↦ absurd (ground (arith, h e))
  | inr e ↦ rw e refl
]
find-skip p (x ∷ xs) ys y h = elim (Bool-cases (p x)) [
  | inl e ↦ rw e refl
  | inr e ↦ rw (e, find-skip p xs ys y (λ k. ground (arith, h k))) refl
]

-- For each key and leaf, the merged list holds the first signature of the two lists.
pub at_slot-merge_sigs :
    (slot : ScriptSig) (sigs others : List ScriptSig)
    → at_slot slot (merge_sigs sigs others) ≡ at_slot slot (sigs ++ others)
unfolding merge_sigs
at_slot-merge_sigs slot sigs [] = ap (at_slot slot) (sym (append-nil sigs))
at_slot-merge_sigs slot sigs (sig ∷ others) = elim (Bool-cases (any (λ s. same_slot s sig) sigs)) [
  | inl e ↦ rw e (
      at_slot-merge_sigs slot sigs others
      ∙ sym (find-skip (λ s. same_slot s slot) sigs others sig (λ k. any-slot sigs sig slot k e)))
  | inr e ↦ rw e (
      at_slot-merge_sigs slot (sigs ++ sig ∷ []) others
      ∙ ap (at_slot slot) (append_assoc sigs (sig ∷ []) others))
]

none-All :
    (sigs : List ScriptSig) (sig : ScriptSig)
    → any (λ s. same_slot s sig) sigs ≡ false
    → Distinct sigs
    → Distinct (sigs ++ sig ∷ [])
none-All [] sig h d = (tt, tt)
none-All (s ∷ sigs) sig h (apart, d) = (
  All-append (λ t. same_slot s t ≡ false) sigs (sig ∷ []) apart (ground arith, tt),
  none-All sigs sig (ground arith) d,
)

pub merge_sigs-Distinct :
    (sigs others : List ScriptSig) → Distinct sigs → Distinct (merge_sigs sigs others)
unfolding merge_sigs
merge_sigs-Distinct sigs [] d = d
merge_sigs-Distinct sigs (sig ∷ others) d = elim (Bool-cases (any (λ s. same_slot s sig) sigs)) [
  | inl e ↦ rw e (merge_sigs-Distinct sigs others d)
  | inr e ↦ rw e (merge_sigs-Distinct (sigs ++ sig ∷ []) others (none-All sigs sig e d))
]
