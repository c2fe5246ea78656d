-- ===== src/Publish.antt =====
-- apps/web/src/lib/onchain-publish.ts: the transaction that publishes data on the chain. The Bitcoin
-- library is a parameter. A fee rate is a fraction, without the rounding of its product; an
-- estimated size is counted in halves of a virtual byte, as odd data texts have half a byte.
pub mod Balance
use dynastytrust.Prelude.{
  ℕ, ◌+◌, ◌-◌, ◌*◌, ◌/◌, String, Bool, true, false, Option, none, some, List, [], ◌∷◌, ◌++◌, length,
  if◌then◌else◌, ltb, leb, ◌&&◌,
}
use dynastytrust.Psbt.Hex.{Bytes, is_space, byte_pairs}

pub data PublishNetwork : Type 0 where
  testnet signet bitcoin : PublishNetwork

abbrev pub is_bitcoin : PublishNetwork → Bool
is_bitcoin bitcoin = true
is_bitcoin _ = false

pub record PublishUtxo : Type 0 where
  pub txid : String
  pub vout : ℕ
  pub value_sats : ℕ

pub record PayTo : Type 0 where
  pub address : String
  pub amount_sats : ℕ

-- The rate is `rate_num / rate_den` satoshis for a virtual byte.
pub record PublishOptions : Type 0 where
  pub network : PublishNetwork
  pub utxo : PublishUtxo
  pub op_return_data_hex : List ℕ
  pub rate_num : ℕ
  pub rate_den : ℕ
  pub pay_to : Option PayTo

pub record Output : Type 0 where
  pub script : Bytes
  pub amount : ℕ

pub record UnsignedTx : Type 0 where
  pub input : PublishUtxo
  pub input_script : Bytes
  pub outputs : List Output

pub record Sizes : Type 0 where
  pub fee_sats : ℕ
  pub change_sats : ℕ
  pub pay_to_sats : Option ℕ

pub record BuiltPublishTx : Type 0 where
  pub hex : String
  pub txid : String
  pub sizes : Sizes

-- What the function throws.
pub data PublishError : Type 0 where
  no_address bad_address : PublishError
  below_dust : ℕ → PublishError
  not_covered : ℕ → ℕ → PublishError

pub data Publish {ℓ} (A : Type ℓ) : Type ℓ where
  built : A → Publish A
  refused : PublishError → Publish A

-- What the code calls of the library: the address and script of a key, the script that carries data,
-- the script of an address, and the signed transaction's text and id.
pub record Library : Type 1 where
  pub PrivateKey : Type 0
  pub p2wpkh : Bytes → Bool → Option (String × Bytes)
  pub op_return_script : Bytes → Bytes
  pub address_script : Bool → String → Option Bytes
  pub sign_and_finalize : PrivateKey → UnsignedTx → String × String

abbrev pub dust : ℕ
dust = 294

-- `text.trim()`
unfoldable pub trim_start : List ℕ → List ℕ
trim_start [] = []
trim_start (c ∷ cs) = let rest = trim_start cs in if is_space c then rest else c ∷ cs

abbrev cons_unless_blank : ℕ → List ℕ → List ℕ
cons_unless_blank c [] = if is_space c then [] else c ∷ []
cons_unless_blank c (d ∷ ds) = c ∷ d ∷ ds

unfoldable pub trim_end : List ℕ → List ℕ
trim_end [] = []
trim_end (c ∷ cs) = cons_unless_blank c (trim_end cs)

unfoldable pub hex_to_bytes : List ℕ → Bytes
hex_to_bytes hex = byte_pairs (trim_end (trim_start hex))

abbrev pub pay_to_vsize : Option PayTo → ℕ
pay_to_vsize none = 0
pay_to_vsize (some p) = 31

abbrev pub pay_to_sats : Option PayTo → ℕ
pay_to_sats none = 0
pay_to_sats (some p) = p.amount_sats

abbrev pub paid : Option PayTo → Option ℕ
paid none = none
paid (some p) = some p.amount_sats

-- Twice `estVsize`.
abbrev pub double_vsize : PublishOptions → ℕ
double_vsize o = 2 * (68 + 11 + pay_to_vsize o.pay_to + 31 + 11) + length o.op_return_data_hex

-- `Math.ceil(estVsize * feeRateSatsPerVb)`
unfoldable pub estimated_fee : PublishOptions → ℕ
estimated_fee o = (double_vsize o * o.rate_num + (2 * o.rate_den - 1)) / (2 * o.rate_den)

abbrev pub is_dust : Option PayTo → Bool
is_dust none = false
is_dust (some p) = ltb p.amount_sats dust

module _ (lib : Library) where
  open lib use {PrivateKey, p2wpkh, op_return_script, address_script, sign_and_finalize}

  -- The change output, left to the miner below the dust threshold.
  abbrev pub change_outputs : Bytes → ℕ → List Output
  change_outputs script change =
      if leb dust change then record { script = script; amount = change } ∷ [] else []

  abbrev pub sizes_of : PublishOptions → ℕ → ℕ → Sizes
  sizes_of o fee change = record {
    fee_sats = if leb dust change then fee else fee + change;
    change_sats = if leb dust change then change else 0;
    pay_to_sats = paid o.pay_to;
  }

  abbrev pub tx_of : PublishOptions → Bytes → List Output → UnsignedTx
  tx_of o script outputs = record {
    input = o.utxo;
    input_script = script;
    outputs =
        record { script = op_return_script (hex_to_bytes o.op_return_data_hex); amount = 0 }
        ∷ outputs;
  }

  -- The payment, whose address may not decode, and the change.
  abbrev pub with_payment :
      PublishOptions → Bytes → ℕ → ℕ → PayTo → Option Bytes → Publish (UnsignedTx × Sizes)
  with_payment o script fee change p none = refused bad_address
  with_payment o script fee change p (some to) = built (
    tx_of o script (record { script = to; amount = p.amount_sats } ∷ change_outputs script change),
    sizes_of o fee change,
  )

  -- The outputs behind the data.
  unfoldable pub with_outputs :
      PublishOptions → Bytes → ℕ → ℕ → Option PayTo → Publish (UnsignedTx × Sizes)
  with_outputs o script fee change none =
      built (tx_of o script (change_outputs script change), sizes_of o fee change)
  with_outputs o script fee change (some p) =
      with_payment o script fee change p (address_script (is_bitcoin o.network) p.address)

  -- The checks in their order. `changeSats < 0` is asked before the subtraction.
  unfoldable pub assemble_tx :
      PublishOptions → Option (String × Bytes) → Publish (UnsignedTx × Sizes)
  assemble_tx o none = refused no_address
  assemble_tx o (some (address, script)) =
      let fee = estimated_fee o in
      let spent = fee + pay_to_sats o.pay_to in
      if is_dust o.pay_to
      then refused (below_dust (pay_to_sats o.pay_to))
      else if ltb o.utxo.value_sats spent
      then refused (not_covered fee (pay_to_sats o.pay_to))
      else with_outputs o script fee (o.utxo.value_sats - spent) o.pay_to

  unfoldable pub finish_tx : PrivateKey → Publish (UnsignedTx × Sizes) → Publish BuiltPublishTx
  finish_tx key (refused e) = refused e
  finish_tx key (built (tx, sizes)) =
      let (hex, txid) = sign_and_finalize key tx in
      built (record { hex = hex; txid = txid; sizes = sizes })

  unfoldable pub build_and_sign_publish_tx_from_keypair :
      PrivateKey → Bytes → PublishOptions → Publish BuiltPublishTx
  unfolding assemble_tx finish_tx with_outputs
  build_and_sign_publish_tx_from_keypair key public_key o =
      finish_tx key (assemble_tx o (p2wpkh public_key (is_bitcoin o.network)))
