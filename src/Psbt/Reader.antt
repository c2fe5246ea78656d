-- ===== src/Psbt/Reader.antt =====
-- packages/bip341-psbt-signer/src/index.ts: the reading functions. A buffer with an offset is the
-- rest of the buffer from that offset on, and an offset moved on is that many bytes dropped.
use dynastytrust.Prelude.{
  ℕ, zero, suc, ◌+◌, ◌*◌, Option, none, some, String, length, take, drop, if◌then◌else◌, leb, ltb,
  ◌==◌,
}
use dynastytrust.Psbt.Result.{
  Result, ok, err, ◌>>=◌, ◌>>◌, guard, malformed, varint_64, type_error, out_of_fuel,
}
use dynastytrust.Psbt.Hex.{Bytes, byte_at, read_uint16_le}

-- `assertInBounds(buf, offset, len, what)`
abbrev pub assert_in_bounds : Bytes → ℕ → String → Result (Unit {0})
assert_in_bounds rest len what = guard (leb len (length rest)) (malformed what)

unfoldable pub read_uint32_le : Bytes → ℕ
unfolding read_uint16_le
read_uint32_le rest = read_uint16_le rest + 65536 * read_uint16_le (drop 2 rest)

-- `BigInt(buf[offset + i])` throws where the byte is absent.
unfoldable pub read_int64_le : Bytes → Result ℕ
unfolding read_uint32_le
read_int64_le rest = do
  guard (leb 8 (length rest)) type_error
  ok (read_uint32_le rest + 4294967296 * read_uint32_le (drop 4 rest))

-- The number behind the first byte of a variable-length integer, and the rest.
unfoldable pub var_int_from : ℕ → Bytes → Result (ℕ × Bytes)
var_int_from first tail =
    if ltb first 0xfd
    then ok (first, tail)
    else if first == 0xfd
    then (do assert_in_bounds tail 2 "varint"; ok (read_uint16_le tail, drop 2 tail))
    else if first == 0xfe
    then (do assert_in_bounds tail 4 "varint"; ok (read_uint32_le tail, drop 4 tail))
    else err varint_64

unfoldable pub read_var_int : Bytes → Result (ℕ × Bytes)
unfolding var_int_from
read_var_int rest = do assert_in_bounds rest 1 "varint"; var_int_from (byte_at rest) (drop 1 rest)

pub record KeyValue : Type 0 where
  pub key : Bytes
  pub value : Bytes

-- `readKV`: `none` at the separator.
unfoldable pub read_kv : Bytes → Result (Option KeyValue × Bytes)
read_kv rest = do
  (key_len, at_key) ← read_var_int rest
  if key_len == 0 then ok (none, at_key) else (do
    assert_in_bounds at_key key_len "KV key"
    (val_len, at_value) ← read_var_int (drop key_len at_key)
    assert_in_bounds at_value val_len "KV value"
    ok (
      some (record { key = take key_len at_key; value = take val_len at_value }),
      drop val_len at_value,
    ))

-- `while (true) { const kv = readKV(); if (!kv) break; … }`, the body being `step`.
unfoldable pub each_kv {ℓ} :
    {S : Type ℓ} → (S → KeyValue → Result S) → ℕ → Bytes → S → Result (S × Bytes)
each_kv step zero rest s = err out_of_fuel
each_kv step (suc fuel) rest s = do
  (kv, rest') ← read_kv rest
  elim kv [ none ↦ ok (s, rest') | some kv ↦ do s' ← step s kv; each_kv step fuel rest' s' ]

-- A round takes a byte at least, so that the length is fuel enough.
abbrev pub kv_section {ℓ} :
    {S : Type ℓ} → (S → KeyValue → Result S) → Bytes → S → Result (S × Bytes)
kv_section step rest s = each_kv step (suc (length rest)) rest s
