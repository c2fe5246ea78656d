-- ===== src/Publish/Balance.antt =====
-- apps/web/src/lib/onchain-publish.ts: what a published transaction spends.
use dynastytrust.Prelude.{
  ℕ, ◌+◌, ◌-◌, ◌≤◌, ◌<◌, String, false, Option, none, some, List, [], ◌∷◌, ◌++◌, All, ◌≡◌, refl,
  arith, Bool-cases, inl, inr, leb, ltb, if◌then◌else◌,
}
use dynastytrust.Psbt.Hex.{Bytes}
use dynastytrust.Publish.{
  PublishOptions, PayTo, Output, UnsignedTx, Sizes, Publish, built, refused, Library, dust, is_dust,
  with_payment, pay_to_sats, estimated_fee, with_outputs, BuiltPublishTx, finish_tx,
  build_and_sign_publish_tx_from_keypair, assemble_tx, is_bitcoin, hex_to_bytes, change_outputs,
  tx_of, sizes_of,
}

abbrev pub total : List Output → ℕ
total [] = 0
total (o ∷ os) = o.amount + total os

-- The coin is spent; the data stands first, without value; no other output is dust; what goes in comes
-- out or is the fee that is reported; and the fee is the estimate, or less than the dust threshold
-- more.
pub record IsBalanced (lib : Library) (o : PublishOptions) (tx : UnsignedTx) (sizes : Sizes)
    : Type 0 where
  pub spends : tx.input ≡ o.utxo
  pub data_output : Output
  pub others : List Output
  pub shape : tx.outputs ≡ data_output ∷ others
  pub carries : data_output.script ≡ lib.op_return_script (hex_to_bytes o.op_return_data_hex)
  pub no_value : data_output.amount ≡ 0
  pub no_dust : All (λ out. dust ≤ out.amount) others
  pub conserved : total tx.outputs + sizes.fee_sats ≡ o.utxo.value_sats
  pub fee_enough : estimated_fee o ≤ sizes.fee_sats
  pub fee_bounded : sizes.fee_sats < estimated_fee o + dust

module _ (lib : Library) where
  change-no_dust :
      (script : Bytes) (change : ℕ)
      → All (λ out. dust ≤ out.amount) (change_outputs lib script change)
  change-no_dust script change = elim (Bool-cases (leb dust change)) [
    | inl large ↦ rw (large, if◌then◌else◌) (ground arith, tt)
    | inr small ↦ rw (small, if◌then◌else◌) tt
  ]

  total-change :
      (o : PublishOptions) (script : Bytes) (fee change : ℕ)
      → total (change_outputs lib script change) + (sizes_of lib o fee change).fee_sats
        ≡ fee + change
  total-change o script fee change = ground arith

  -- The sizes around a list of payments that are no dust.
  tx_of-IsBalanced :
      (o : PublishOptions) (script : Bytes) (change : ℕ) (payments : List Output)
      → All (λ out. dust ≤ out.amount) (payments ++ change_outputs lib script change)
      → total (payments ++ change_outputs lib script change)
          + (sizes_of lib o (estimated_fee o) change).fee_sats
        ≡ o.utxo.value_sats
      → IsBalanced lib o
          (tx_of lib o script (payments ++ change_outputs lib script change))
          (sizes_of lib o (estimated_fee o) change)
  tx_of-IsBalanced o script change payments fine sum = record {
    spends = refl;
    data_output = _;
    others = payments ++ change_outputs lib script change;
    shape = refl;
    carries = refl;
    no_value = refl;
    no_dust = fine;
    conserved = omega (arith, sum);
    fee_enough = ground arith;
    fee_bounded = ground arith;
  }

  with_outputs-IsBalanced :
      (o : PublishOptions) (script : Bytes) (change : ℕ) (pay : Option PayTo) (tx : UnsignedTx)
      (sizes : Sizes)
      → is_dust pay ≡ false
      → estimated_fee o + pay_to_sats pay + change ≡ o.utxo.value_sats
      → with_outputs lib o script (estimated_fee o) change pay ≡ built (tx, sizes)
      → IsBalanced lib o tx sizes
  unfolding with_outputs
  with_outputs-IsBalanced o script change none tx sizes fine sum h =
      let t : tx ≡ tx_of lib o script (change_outputs lib script change) = cc in
      let z : sizes ≡ sizes_of lib o (estimated_fee o) change = cc in
      rw (t, z)
        (tx_of-IsBalanced o script change [] (change-no_dust script change)
          (omega (arith, sum, total-change o script (estimated_fee o) change)))
  with_outputs-IsBalanced o script change (some p) tx sizes fine sum h =
      paid-to (lib.address_script (is_bitcoin o.network) p.address) h
    where
      paid-to :
          (decoded : Option Bytes)
          → with_payment lib o script (estimated_fee o) change p decoded ≡ built (tx, sizes)
          → IsBalanced lib o tx sizes
      paid-to none h = cc
      paid-to (some to) h =
          let payment : Output = record { script = to; amount = p.amount_sats } in
          let t : tx ≡ tx_of lib o script (payment ∷ change_outputs lib script change) = cc in
          let z : sizes ≡ sizes_of lib o (estimated_fee o) change = cc in
          rw (t, z)
            (tx_of-IsBalanced o script change (payment ∷ [])
              (ground arith, change-no_dust script change)
              (omega (arith, sum, total-change o script (estimated_fee o) change)))

  -- Every transaction that is assembled is balanced.
  assemble_tx-IsBalanced :
      (o : PublishOptions) (own : Option (String × Bytes)) (tx : UnsignedTx) (sizes : Sizes)
      → assemble_tx lib o own ≡ built (tx, sizes)
      → IsBalanced lib o tx sizes
  unfolding assemble_tx
  assemble_tx-IsBalanced o none tx sizes h = cc
  assemble_tx-IsBalanced o (some (address, script)) tx sizes h =
      let spent = estimated_fee o + pay_to_sats o.pay_to in
      elim (Bool-cases (is_dust o.pay_to)) [
        | inl small ↦ absurd (ground arith)
        | inr fine ↦ elim (Bool-cases (ltb o.utxo.value_sats spent)) [
          | inl short ↦ absurd (ground arith)
          | inr covered ↦
              with_outputs-IsBalanced o script (o.utxo.value_sats - spent) o.pay_to tx sizes fine
                (ground arith) (rw (fine, covered, if◌then◌else◌) at h)
        ]
      ]

  -- A transaction that is built was signed from one that spends the given coin, whose first output
  -- has the script that carries the given data, and no value, whose other outputs are no dust, and
  -- whose outputs make up, together with the fee that is reported, exactly the coin; the fee is the
  -- estimate, or more by less than the dust threshold.
  pub build_and_sign_publish_tx_from_keypair-IsBalanced :
      (key : lib.PrivateKey) (public_key : Bytes) (o : PublishOptions) (b : BuiltPublishTx)
      → build_and_sign_publish_tx_from_keypair lib key public_key o ≡ built b
      → (tx : UnsignedTx) × IsBalanced lib o tx b.sizes
        × (lib.sign_and_finalize key tx ≡ (b.hex, b.txid))
  unfolding build_and_sign_publish_tx_from_keypair finish_tx
  build_and_sign_publish_tx_from_keypair-IsBalanced key public_key o b h =
      finished (assemble_tx lib o (lib.p2wpkh public_key (is_bitcoin o.network))) refl h
    where
      finished :
          (r : Publish (UnsignedTx × Sizes))
          → assemble_tx lib o (lib.p2wpkh public_key (is_bitcoin o.network)) ≡ r
          → finish_tx lib key r ≡ built b
          → (tx : UnsignedTx) × IsBalanced lib o tx b.sizes
            × (lib.sign_and_finalize key tx ≡ (b.hex, b.txid))
      finished (refused e) f g = cc
      finished (built (tx, sizes)) f g =
          let same : b ≡ record {
            hex = (lib.sign_and_finalize key tx).0;
            txid = (lib.sign_and_finalize key tx).1;
            sizes = sizes;
          } =
            cc in
          (tx, rw same (assemble_tx-IsBalanced o _ tx sizes f), rw same refl)
