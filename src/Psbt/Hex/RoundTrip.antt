-- ===== src/Psbt/Hex/RoundTrip.antt =====
-- packages/bip341-psbt-signer/src/index.ts: hex text of bytes, read back.
use dynastytrust.Prelude.{
  ℕ, ◌*◌, ◌/◌, ◌%◌, ◌<◌, false, some, [], ◌∷◌, All, length, ◌≡◌, refl, arith,
}
use dynastytrust.Psbt.Hex.{
  Bytes, is_space, strip_spaces, hex_value, parse_byte, byte_pairs, from_hex, hex_digit, to_hex,
}

abbrev pub IsByte : ℕ → Type 0
IsByte b = b < 256

hex_value-hex_digit : (d : ℕ) → d < 16 → hex_value (hex_digit d) ≡ some d
unfolding hex_value hex_digit
hex_value-hex_digit d h = ground arith

hex_digit-not_space : (d : ℕ) → d < 16 → is_space (hex_digit d) ≡ false
unfolding is_space hex_digit
hex_digit-not_space d h = ground arith

parse_byte-digits : (b : ℕ) → IsByte b → parse_byte (hex_digit (b / 16)) (hex_digit (b % 16)) ≡ b
unfolding parse_byte
parse_byte-digits b h =
    let hi = hex_value-hex_digit (b / 16) (omega arith) in
    let lo = hex_value-hex_digit (b % 16) (omega arith) in ground arith

strip-to_hex : (bs : Bytes) → All IsByte bs → strip_spaces (to_hex bs) ≡ to_hex bs
unfolding strip_spaces to_hex
strip-to_hex [] v = refl
strip-to_hex (b ∷ bs) (h, v) = rw (
  hex_digit-not_space (b / 16) (omega arith),
  hex_digit-not_space (b % 16) (omega arith),
  strip-to_hex bs v,
)

pairs-to_hex : (bs : Bytes) → All IsByte bs → byte_pairs (to_hex bs) ≡ bs
unfolding byte_pairs to_hex
pairs-to_hex [] v = refl
pairs-to_hex (b ∷ bs) (h, v) = rw (parse_byte-digits b h, pairs-to_hex bs v)

pub from_hex-to_hex : (bs : Bytes) → All IsByte bs → from_hex (to_hex bs) ≡ bs
unfolding from_hex
from_hex-to_hex bs v = rw (strip-to_hex bs v) (pairs-to_hex bs v)

pub length-to_hex : (bs : Bytes) → length (to_hex bs) ≡ 2 * length bs
unfolding to_hex
length-to_hex [] = refl
length-to_hex (b ∷ bs) = omega (arith, length-to_hex bs)
