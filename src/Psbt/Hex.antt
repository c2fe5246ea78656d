-- ===== src/Psbt/Hex.antt =====
-- packages/bip341-psbt-signer/src/index.ts, the encoding helpers. A text is the list of its UTF-16
-- code units, a `Uint8Array` the list of its bytes.
pub mod RoundTrip
use dynastytrust.Prelude.{
  ℕ, ◌+◌, ◌-◌, ◌*◌, ◌/◌, ◌%◌, Bool, ◌||◌, ◌&&◌, Option, none, some, List, [], ◌∷◌, ◌++◌,
  if◌then◌else◌, leb, ltb, ◌==◌,
}

abbrev pub Bytes : Type 0
Bytes = List ℕ

-- The code units that `\s` matches.
unfoldable pub is_space : ℕ → Bool
is_space c =
    (leb 9 c && leb c 13)
    || (c == 32
        || (c == 0xa0
            || (c == 0x1680
                || ((leb 0x2000 c && leb c 0x200a)
                    || (c == 0x2028
                        || (c == 0x2029
                            || (c == 0x202f || (c == 0x205f || (c == 0x3000 || c == 0xfeff)))))))))

unfoldable pub strip_spaces : List ℕ → List ℕ
strip_spaces [] = []
strip_spaces (c ∷ cs) = let rest = strip_spaces cs in if is_space c then rest else c ∷ rest

unfoldable pub hex_value : ℕ → Option ℕ
hex_value c =
    if leb b'0' c && leb c b'9'
    then some (c - b'0')
    else if leb b'a' c && leb c b'f'
    then some (c - 87)
    else if leb b'A' c && leb c b'F'
    then some (c - 55)
    else none

-- `parseInt` of two characters to the base 16, stored into a byte: the digits up to the first
-- character that is none, a sign or white space before them, and 0 for NaN.
unfoldable pub parse_byte : ℕ → ℕ → ℕ
parse_byte c d = elim (hex_value c) [
  | some hi ↦ elim (hex_value d) [ some lo ↦ hi * 16 + lo | none ↦ hi ]
  | none ↦ elim (hex_value d) [
    | some lo ↦ if c == b'-' then (256 - lo) % 256 else if c == b'+' || is_space c then lo else 0
    | none ↦ 0
  ]
]

-- An odd character at the end gets no byte.
unfoldable pub byte_pairs : List ℕ → Bytes
byte_pairs (c ∷ d ∷ cs) = parse_byte c d ∷ byte_pairs cs
byte_pairs _ = []

unfoldable pub from_hex : List ℕ → Bytes
unfolding strip_spaces byte_pairs parse_byte hex_value is_space
from_hex hex = byte_pairs (strip_spaces hex)

unfoldable pub hex_digit : ℕ → ℕ
hex_digit d = if ltb d 10 then b'0' + d else 87 + d

unfoldable pub to_hex : Bytes → List ℕ
unfolding hex_digit
to_hex [] = []
to_hex (b ∷ bs) = hex_digit (b / 16) ∷ hex_digit (b % 16) ∷ to_hex bs

-- `buf[offset]`, an absent byte counting as 0 in the bit operations.
abbrev pub byte_at : Bytes → ℕ
byte_at [] = 0
byte_at (b ∷ bs) = b

unfoldable pub read_uint16_le : Bytes → ℕ
read_uint16_le (a ∷ bs) = a + 256 * byte_at bs
read_uint16_le [] = 0

unfoldable pub write_uint32_le : ℕ → Bytes
write_uint32_le n = n % 256 ∷ (n / 256) % 256 ∷ (n / 65536) % 256 ∷ (n / 16777216) % 256 ∷ []

unfoldable pub write_uint64_le : ℕ → Bytes
unfolding write_uint32_le
write_uint64_le n = write_uint32_le n ++ write_uint32_le (n / 4294967296)

unfoldable pub varint : ℕ → Bytes
unfolding write_uint32_le
varint n =
    if ltb n 0xfd
    then n ∷ []
    else if leb n 0xffff
    then 0xfd ∷ n % 256 ∷ (n / 256) % 256 ∷ []
    else 0xfe ∷ write_uint32_le n
