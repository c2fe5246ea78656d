-- ===== src/Psbt/Grammar.antt =====
-- The format of a partially signed transaction (BIP 174), as trees and the bytes that they stand
-- for, independent of the readers and writers of packages/bip341-psbt-signer/src/index.ts.
pub mod Read
pub mod Signed
pub mod Write
use dynastytrust.Prelude.{ℕ, ◌+◌, ◌*◌, ◌<◌, List, [], ◌∷◌, ◌++◌, All, length, ◌≡◌}
use dynastytrust.Psbt.Hex.{Bytes}
use dynastytrust.Psbt.Reader.{KeyValue}

-- A compact size of one, three or five bytes, not necessarily the shortest.
pub data CompactSize : Bytes → ℕ → Type 0 where
  one : {n : ℕ} → n < 0xfd → CompactSize (n ∷ []) n
  three : {n a b : ℕ} → n ≡ a + 256 * b → CompactSize (0xfd ∷ a ∷ b ∷ []) n
  five :
      {n a b c d : ℕ}
      → n ≡ a + 256 * b + 65536 * (c + 256 * d)
      → CompactSize (0xfe ∷ a ∷ b ∷ c ∷ d ∷ []) n

pub record Entry : Type 0 where
  pub key_size : Bytes
  pub key : Bytes
  pub value_size : Bytes
  pub value : Bytes

pub record IsEntry (e : Entry) : Type 0 where
  pub key_sized : CompactSize e.key_size (length e.key)
  pub key_there : 0 < length e.key
  pub value_sized : CompactSize e.value_size (length e.value)

abbrev pub kv_of : Entry → KeyValue
kv_of e = record { key = e.key; value = e.value }

abbrev pub entry_bytes : Entry → Bytes
entry_bytes e = e.key_size ++ (e.key ++ (e.value_size ++ e.value))

-- The entries of a section, before its separator.
unfoldable pub entries_bytes : List Entry → Bytes
entries_bytes [] = []
entries_bytes (e ∷ es) = entry_bytes e ++ entries_bytes es

-- A section and what follows it.
abbrev pub section : List Entry → Bytes → Bytes
section es rest = entries_bytes es ++ 0x00 ∷ rest

unfoldable pub sections : List (List Entry) → Bytes → Bytes
sections [] rest = rest
sections (es ∷ ess) rest = section es (sections ess rest)

-- A whole buffer behind the magic bytes; what trails the output sections is read by nobody.
pub record Document : Type 0 where
  pub global : List Entry
  pub inputs : List (List Entry)
  pub outputs : List (List Entry)
  pub trailing : Bytes

pub record IsDocument (d : Document) : Type 0 where
  pub global : All IsEntry d.global
  pub inputs : All (All IsEntry) d.inputs
  pub outputs : All (All IsEntry) d.outputs

abbrev pub magic : Bytes
magic = 0x70 ∷ 0x73 ∷ 0x62 ∷ 0x74 ∷ 0xff ∷ []

abbrev pub document_bytes : Document → Bytes
document_bytes d = magic ++ section d.global (sections d.inputs (sections d.outputs d.trailing))
