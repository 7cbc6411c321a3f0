-- ===== src/Lease.antt =====
-- lib/src/napi_buffer_lease.cc: leases of a range of bytes of a view or buffer.
-- The N-API calls are parameters: each gives its status and what it stores. A pointer is an
-- address, 0 for null; a size_t is below 2^64.
pub mod Range
mod Tests
use napi.Prelude.{
  ℕ, zero, suc, ◌+◌, ◌-◌, ◌*◌, ◌/◌, ◌^◌, Bool, true, false, not, ◌&&◌, ◌||◌, Option, none, some,
  ltb, leb, ◌==◌, if◌then◌else◌,
}
use napi.Prelude.Int.{ℤ, pos, ltb_ℤ}

pub data Status : Type 0 where
  ok invalid_arg generic_failure : Status
  other_failure : ℕ → Status

-- napi_typedarray_type
pub data TypedarrayType : Type 0 where
  int8_array uint8_array uint8_clamped_array int16_array uint16_array int32_array uint32_array :
      TypedarrayType
  float16_array float32_array float64_array bigint64_array biguint64_array : TypedarrayType

-- TypedArrayElementSize
pub element_size : TypedarrayType → ℕ
element_size float16_array = 2
element_size int16_array = 2
element_size uint16_array = 2
element_size int32_array = 4
element_size uint32_array = 4
element_size float32_array = 4
element_size float64_array = 8
element_size bigint64_array = 8
element_size biguint64_array = 8
element_size int8_array = 1
element_size uint8_array = 1
element_size uint8_clamped_array = 1

abbrev pub size_max : ℕ
size_max = 2 ^ 64 - 1

-- What the engine answers about the value.
pub record View : Type 0 where
  pub is_typedarray : Status × Bool
  pub typedarray_info : Status × TypedarrayType × ℕ × ℕ
  pub is_dataview : Status × Bool
  pub dataview_info : Status × ℕ × ℕ
  pub is_arraybuffer : Status × Bool
  pub arraybuffer_info : Status × ℕ × ℕ

is_ok : Status → Bool
is_ok ok = true
is_ok _ = false

-- The status, the data and the length in bytes; the last two count where the status is ok.
pub get_lease_byte_view : View → Status × ℕ × ℕ
unfolding is_ok element_size
get_lease_byte_view view =
    let (status, matches) = view.is_typedarray in
    if not (is_ok status)
    then (status, 0, 0)
    else if matches
    then (let (status, type, element_length, raw_data) = view.typedarray_info in
        if not (is_ok status)
        then (status, 0, 0)
        else if ltb (size_max / element_size type) element_length
        then (invalid_arg, 0, 0)
        else (ok, raw_data, element_length * element_size type))
    else let (status, matches) = view.is_dataview in
      if not (is_ok status)
      then (status, 0, 0)
      else if matches
      then view.dataview_info
      else let (status, matches) = view.is_arraybuffer in
        if not (is_ok status) then (status, 0, 0) else view.arraybuffer_info

-- The mode's three values are 0, 1 and 2. `new_lease` is whether the allocation succeeds, and
-- `create_reference` what napi_create_reference answers.
pub acquire_buffer_lease : View → Bool → ℕ → ℕ → ℤ → Bool → (Status × ℕ) → Status × Option (ℕ × ℕ)
unfolding get_lease_byte_view is_ok
acquire_buffer_lease view pointers_ok byte_offset byte_length mode new_lease create_reference =
    if not pointers_ok || ltb_ℤ mode (pos 0) || ltb_ℤ (pos 2) mode
    then (invalid_arg, none)
    else let (status, base, length) = get_lease_byte_view view in
      if not (is_ok status)
      then (status, none)
      else if ltb length byte_offset || ltb (length - byte_offset) byte_length
      then (invalid_arg, none)
      else if not new_lease
      then (generic_failure, none)
      else let (status, reference) = create_reference in
        if not (is_ok status)
        then (status, none)
        else (ok, some (reference, if base == 0 then 0 else base + byte_offset))

-- The reference is deleted and the lease freed, whatever the status.
pub release_buffer_lease : Bool → Option ℕ → (ℕ → Status) → Status × Option ℕ
release_buffer_lease env_ok none delete_reference = (invalid_arg, none)
release_buffer_lease env_ok (some reference) delete_reference =
    if not env_ok then (invalid_arg, some reference) else (delete_reference reference, none)
