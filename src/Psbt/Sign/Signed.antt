-- ===== src/Psbt/Sign/Signed.antt =====
-- apps/web/src/lib/psbt-signer.ts: what signing does to the signatures of an input.
use dynastytrust.Prelude.{
  ℕ, subst, true, false, Option, some, List, [], ◌∷◌, ◌++◌, if◌then◌else◌, ◌≡◌, ◌≢◌, ◌⊎◌, ◌↔◌, inl,
  inr, refl, sym, ◌∙◌, ap, arith, Bool-cases,
}
use dynastytrust.Psbt.Result.{Result, ok, err, ok-injective}
use dynastytrust.Psbt.Hex.{Bytes}
use dynastytrust.Psbt.Parse.{LeafScript, ScriptSig, ParsedPsbt}
use dynastytrust.Psbt.Sighash.{tapscript_sighash}
use dynastytrust.Psbt.Cosign.{same_slot}
use dynastytrust.Psbt.Cosign.Check.{same_hex_iff}
use dynastytrust.Psbt.Cosign.Merge.{at_slot}
use dynastytrust.Psbt.Sign.{
  Crypto, without, x_only, leaf_hash_of, signature_of, add_signature, names_key, sign_leaf,
  sign_leaves,
}

same_slot_iff :
    (s t : ScriptSig)
    → (same_slot s t ≡ true) ↔ ((s.pubkey ≡ t.pubkey) × (s.leaf_hash ≡ t.leaf_hash))
same_slot_iff s t =
    ground (arith, same_hex_iff s.pubkey t.pubkey, same_hex_iff s.leaf_hash t.leaf_hash)

-- The new signature takes its slot, and leaves the others.
at_slot-without :
    (new slot : ScriptSig) (sigs : List ScriptSig)
    → at_slot slot (without new sigs ++ new ∷ [])
      ≡ (if same_slot new slot then some new else at_slot slot sigs)
unfolding without
at_slot-without new slot [] = ground arith
at_slot-without new slot (s ∷ sigs) = ground (
  arith,
  at_slot-without new slot sigs,
  same_slot_iff s new,
  same_slot_iff s slot,
  same_slot_iff new slot,
)

-- One of the leaves of an input.
abbrev pub IsLeaf : LeafScript → List LeafScript → Type 0
IsLeaf leaf [] = ⊥
IsLeaf leaf (l ∷ ls) = (l ≡ leaf) ⊎ IsLeaf leaf ls

module _ (crypto : Crypto) (key : crypto.PrivateKey) (parsed : ParsedPsbt) (i : ℕ) where
  open crypto use {sha256}

  abbrev pub digest_of : LeafScript → Result Bytes
  digest_of leaf = tapscript_sighash sha256 parsed i (leaf_hash_of crypto leaf) 0x00

  add_signature-other :
      (leaf : LeafScript) (r : Result Bytes) (state : List ScriptSig × ℕ) (slot : ScriptSig)
      → slot.pubkey ≢ x_only crypto key
      → at_slot slot (add_signature crypto key leaf r state).0 ≡ at_slot slot state.0
  add_signature-other leaf (err e) state slot other = refl
  add_signature-other leaf (ok digest) (sigs, added) slot other =
      let new = signature_of crypto key leaf digest in
      let apart : same_slot new slot ≡ false = ground (arith, same_slot_iff new slot) in
      at_slot-without new slot sigs ∙ rw (apart, if◌then◌else◌) refl

  sign_leaf-named :
      (leaf : LeafScript) (state : List ScriptSig × ℕ)
      → names_key crypto key leaf ≡ true
      → sign_leaf crypto key parsed i leaf state
        ≡ add_signature crypto key leaf (digest_of leaf) state
  unfolding sign_leaf
  sign_leaf-named leaf state named =
      ap (λ b. if b then add_signature crypto key leaf (digest_of leaf) state else state) named

  sign_leaf-foreign :
      (leaf : LeafScript) (state : List ScriptSig × ℕ)
      → names_key crypto key leaf ≡ false
      → sign_leaf crypto key parsed i leaf state ≡ state
  unfolding sign_leaf
  sign_leaf-foreign leaf state foreign =
      ap (λ b. if b then add_signature crypto key leaf (digest_of leaf) state else state) foreign

  -- The signature of a slot after one leaf, under any guess of what it is.
  sign_leaf-at_slot :
      (leaf : LeafScript) (state : List ScriptSig × ℕ) (slot : ScriptSig) (held : Option ScriptSig)
      → at_slot slot (add_signature crypto key leaf (digest_of leaf) state).0 ≡ held
      → at_slot slot state.0 ≡ held
      → at_slot slot (sign_leaf crypto key parsed i leaf state).0 ≡ held
  sign_leaf-at_slot leaf state slot held signed same =
      elim (Bool-cases (names_key crypto key leaf)) [
        | inl named ↦ ap (λ st. at_slot slot st.0) (sign_leaf-named leaf state named) ∙ signed
        | inr foreign ↦ ap (λ st. at_slot slot st.0) (sign_leaf-foreign leaf state foreign) ∙ same
      ]

  -- Signing an input leaves what it holds of every other key, for every leaf.
  pub sign_leaves-other :
      (leaves : List LeafScript) (state : List ScriptSig × ℕ) (slot : ScriptSig)
      → slot.pubkey ≢ x_only crypto key
      → at_slot slot (sign_leaves crypto key parsed i leaves state).0 ≡ at_slot slot state.0
  unfolding sign_leaves
  sign_leaves-other [] state slot other = refl
  sign_leaves-other (leaf ∷ leaves) state slot other =
      sign_leaves-other leaves (sign_leaf crypto key parsed i leaf state) slot other
      ∙ sign_leaf-at_slot leaf state slot _
          (add_signature-other leaf (digest_of leaf) state slot other) refl

  add_signature-kept :
      (leaf other : LeafScript) (digest : Bytes) (r : Result Bytes) (state : List ScriptSig × ℕ)
      → digest_of leaf ≡ ok digest
      → digest_of other ≡ r
      → at_slot (signature_of crypto key leaf digest) state.0
        ≡ some (signature_of crypto key leaf digest)
      → at_slot (signature_of crypto key leaf digest) (add_signature crypto key other r state).0
        ≡ some (signature_of crypto key leaf digest)
  add_signature-kept leaf other digest (err e') state e f held = held
  add_signature-kept leaf other digest (ok d) (sigs, added) e f held =
      let mine = signature_of crypto key leaf digest in
      let new = signature_of crypto key other d in
      at_slot-without new mine sigs ∙ elim (Bool-cases (same_slot new mine)) [
        | inl same ↦
            let hashes : leaf_hash_of crypto other ≡ leaf_hash_of crypto leaf =
              ((same_slot_iff new mine).0 same).1 in
            let digests : d ≡ digest =
              ok-injective f (ap (λ h. tapscript_sighash sha256 parsed i h 0x00) hashes ∙ e) in
            let all : new ≡ mine = cc in rw (same, if◌then◌else◌) (ap some all)
        | inr apart ↦ rw (apart, if◌then◌else◌) held
      ]

  sign_leaves-kept :
      (leaf : LeafScript) (digest : Bytes) (leaves : List LeafScript) (state : List ScriptSig × ℕ)
      → digest_of leaf ≡ ok digest
      → at_slot (signature_of crypto key leaf digest) state.0
        ≡ some (signature_of crypto key leaf digest)
      → at_slot
          (signature_of crypto key leaf digest)
          (sign_leaves crypto key parsed i leaves state).0
        ≡ some (signature_of crypto key leaf digest)
  unfolding sign_leaves
  sign_leaves-kept leaf digest [] state e held = held
  sign_leaves-kept leaf digest (l ∷ leaves) state e held =
      sign_leaves-kept leaf digest leaves (sign_leaf crypto key parsed i l state) e (
        sign_leaf-at_slot l state (signature_of crypto key leaf digest) _
          (add_signature-kept leaf l digest (digest_of l) state e refl held) held)

  -- Signing an input signs each of its leaves whose script holds the key and whose digest can be
  -- computed: afterwards the input's signature for the key and that leaf is the Schnorr signature of
  -- that digest, whatever stood there before.
  pub sign_leaves-signs :
      (leaf : LeafScript) (digest : Bytes) (leaves : List LeafScript) (state : List ScriptSig × ℕ)
      → IsLeaf leaf leaves
      → names_key crypto key leaf ≡ true
      → digest_of leaf ≡ ok digest
      → at_slot
          (signature_of crypto key leaf digest)
          (sign_leaves crypto key parsed i leaves state).0
        ≡ some (signature_of crypto key leaf digest)
  unfolding sign_leaves
  sign_leaves-signs leaf digest [] state m named e = absurd m
  sign_leaves-signs leaf digest (l ∷ leaves) (sigs, added) (inl same) named e =
      let mine = signature_of crypto key leaf digest in
      let self : same_slot mine mine ≡ true = (same_slot_iff mine mine).1 (refl, refl) in
      subst
        (λ w.
          at_slot mine (sign_leaves crypto key parsed i (w ∷ leaves) (sigs, added)).0 ≡ some mine)
        (sym same)
        (sign_leaves-kept leaf digest leaves (sign_leaf crypto key parsed i leaf (sigs, added)) e (
          ap (λ st. at_slot mine st.0) (sign_leaf-named leaf (sigs, added) named)
          ∙ ap (λ r. at_slot mine (add_signature crypto key leaf r (sigs, added)).0) e
          ∙ at_slot-without mine mine sigs
          ∙ rw (self, if◌then◌else◌) refl))
  sign_leaves-signs leaf digest (l ∷ leaves) state (inr m) named e =
      sign_leaves-signs leaf digest leaves (sign_leaf crypto key parsed i l state) m named e
