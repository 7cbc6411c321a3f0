-- ===== src/Serdes.antt =====
-- quickjs/src/internal/napi_serdes.cc: the numbers of the serializer and the deserializer, as
-- little-endian bytes. Bytes are numbers below 256, and the engine's conversions of arguments and
-- results are left out.
pub mod Roundtrip
mod Tests
use napi.Prelude.{
  ℕ, zero, suc, ◌+◌, ◌-◌, ◌*◌, ◌/◌, ◌%◌, ◌^◌, Bool, ◌||◌, Option, none, some, List, [], ◌∷◌, ◌++◌,
  ltb, if◌then◌else◌, length, drop,
}

-- The low bytes of a value, the lowest first.
pub little_endian : ℕ → ℕ → List ℕ
little_endian zero value = []
little_endian (suc n) value = value % 256 ∷ little_endian n (value / 256)

-- AppendLittleEndian, with sizeof(T).
pub append_little_endian : ℕ → ℕ → List ℕ → List ℕ
unfolding little_endian
append_little_endian width value bytes = bytes ++ little_endian width value

-- The loop of ReadLittleEndian, from the offset on; the bytes do not overlap, so that `|` adds them.
pub read_loop : ℕ → List ℕ → ℕ
read_loop zero bytes = 0
read_loop (suc n) [] = 0
read_loop (suc n) (b ∷ bytes) = b + 256 * read_loop n bytes

-- ReadLittleEndian: the value and the offset after it.
pub read_little_endian : List ℕ → ℕ → ℕ → Option (ℕ × ℕ)
unfolding read_loop
read_little_endian bytes offset width =
    if ltb (length bytes) offset || ltb (length bytes - offset) width || ltb 8 width
    then none
    else some (read_loop width (drop offset bytes), offset + width)

pub record Deserializer : Type 0 where
  pub bytes : List ℕ
  pub offset : ℕ

-- serializer_write_uint32
pub write_uint32 : ℕ → List ℕ → List ℕ
unfolding append_little_endian
write_uint32 value bytes = append_little_endian 4 value bytes

-- serializer_write_uint64
pub write_uint64 : ℕ → ℕ → List ℕ → List ℕ
unfolding append_little_endian
write_uint64 hi lo bytes = append_little_endian 8 (hi * 2 ^ 32 + lo) bytes

-- deserializer_read_uint32
pub read_uint32 : Deserializer → Option (ℕ × Deserializer)
read_uint32 d = elim (read_little_endian d.bytes d.offset 4) [
  | none ↦ none
  | some (value, offset) ↦ some (value % 2 ^ 32, record d { offset = offset })
]

-- deserializer_read_uint64: the high and the low half.
pub read_uint64 : Deserializer → Option ((ℕ × ℕ) × Deserializer)
read_uint64 d = elim (read_little_endian d.bytes d.offset 8) [
  | none ↦ none
  | some (value, offset) ↦
      some ((value / 2 ^ 32 % 2 ^ 32, value % 2 ^ 32), record d { offset = offset })
]

-- deserializer_read_raw_bytes: the offset of the bytes, for a length that is not negative.
pub read_raw_bytes : ℕ → Deserializer → Option (ℕ × Deserializer)
read_raw_bytes size d =
    if ltb (length d.bytes) d.offset || ltb (length d.bytes - d.offset) size
    then none
    else some (d.offset % 2 ^ 32, record d { offset = d.offset + size })
