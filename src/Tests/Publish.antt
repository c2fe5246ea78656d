-- ===== src/Tests/Publish.antt =====
-- Two bytes of data and a payment: apps/web/src/lib/onchain-publish.ts on concrete data.
use dynastytrust.Prelude.{ℕ, some, [], ◌∷◌, ◌≡◌, refl}
use dynastytrust.Publish.{
  testnet, PublishOptions, UnsignedTx, BuiltPublishTx, built, Library, estimated_fee, with_outputs,
  assemble_tx, finish_tx, build_and_sign_publish_tx_from_keypair,
}
use dynastytrust.Publish.Balance.{IsBalanced, build_and_sign_publish_tx_from_keypair-IsBalanced}

abbrev library : Library
library = record {
  PrivateKey = ℕ;
  p2wpkh = λ key main. some ("tb1own", 0 ∷ key);
  op_return_script = λ bytes. 106 ∷ bytes;
  address_script = λ main address. some (0 ∷ 20 ∷ []);
  sign_and_finalize = λ key tx. ("0200", "id");
}

abbrev options : PublishOptions
options = record {
  network = testnet;
  utxo = record { txid = "aa"; vout = 0; value_sats = 10000 };
  op_return_data_hex = 97 ∷ 98 ∷ 99 ∷ 100 ∷ [];
  rate_num = 3;
  rate_den = 2;
  pay_to = some (record { address = "tb1q"; amount_sats = 5000 });
}

abbrev built_tx : BuiltPublishTx
built_tx = record {
  hex = "0200";
  txid = "id";
  sizes = record { fee_sats = 231; change_sats = 4769; pay_to_sats = some 5000 };
}

options_built : build_and_sign_publish_tx_from_keypair library 1 [] options ≡ built built_tx
unfolding build_and_sign_publish_tx_from_keypair assemble_tx finish_tx with_outputs estimated_fee
options_built = refl

build_and_sign_publish_tx_from_keypair-IsBalanced_example :
    (tx : UnsignedTx) × IsBalanced library options tx built_tx.sizes
    × (library.sign_and_finalize 1 tx ≡ (built_tx.hex, built_tx.txid))
build_and_sign_publish_tx_from_keypair-IsBalanced_example =
    build_and_sign_publish_tx_from_keypair-IsBalanced library 1 [] options built_tx options_built
