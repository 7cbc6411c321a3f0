-- ===== src/Lease/Range.antt =====
-- A lease lies in the bytes that the engine reports.
use napi.Prelude.{
  ℕ, ◌+◌, ◌*◌, ◌/◌, ◌^◌, ◌≤◌, ◌<◌, ◌≡◌, Bool, true, false, none, some, arith, ltb, leb, ◌==◌,
  if◌then◌else◌,
}
use napi.Prelude.Int.{ℤ, pos, ltb_ℤ}
use napi.Lease.{
  Status, ok, invalid_arg, View, TypedarrayType, int8_array, uint8_array, uint8_clamped_array,
  int16_array, uint16_array, int32_array, uint32_array, float16_array, float32_array, float64_array,
  bigint64_array, biguint64_array, element_size, size_max, is_ok, get_lease_byte_view,
  acquire_buffer_lease,
}

-- The lengths that the engine reports are values of a size_t.
pub record IsView (v : View) : Type 0 where
  pub typedarray : v.typedarray_info.2 < 2 ^ 64
  pub dataview : v.dataview_info.2 < 2 ^ 64
  pub arraybuffer : v.arraybuffer_info.2 < 2 ^ 64

fits_iff :
    (type : TypedarrayType) (n : ℕ)
    → ltb (size_max / element_size type) n ≡ ltb size_max (n * element_size type)
unfolding element_size
fits_iff int8_array n = ground arith
fits_iff uint8_array n = ground arith
fits_iff uint8_clamped_array n = ground arith
fits_iff int16_array n = ground arith
fits_iff uint16_array n = ground arith
fits_iff int32_array n = ground arith
fits_iff uint32_array n = ground arith
fits_iff float16_array n = ground arith
fits_iff float32_array n = ground arith
fits_iff float64_array n = ground arith
fits_iff bigint64_array n = ground arith
fits_iff biguint64_array n = ground arith

-- For lengths that are values of a size_t: the length in bytes of a view that is found is exact,
-- as no product wraps; and a typed array that the engine describes is refused exactly when the
-- product would not be a value of a size_t.
pub byte_view-exact :
    (v : View)
    → IsView v
    → ((get_lease_byte_view v).0 ≡ ok → (get_lease_byte_view v).2 < 2 ^ 64)
      × ((type : TypedarrayType) (n p : ℕ)
          → v.is_typedarray ≡ (ok, true)
          → v.typedarray_info ≡ (ok, type, n, p)
          → get_lease_byte_view v ≡ (
              if ltb size_max (n * element_size type)
              then (invalid_arg, 0, 0)
              else (ok, p, n * element_size type)))
unfolding get_lease_byte_view is_ok
byte_view-exact v k = (
  ground (arith, k.dataview, k.arraybuffer, fits_iff v.typedarray_info.1 v.typedarray_info.2),
  λ type n p a b. ground (arith, a, b, fits_iff type n),
)

-- A lease that is granted is of a range inside the byte view, and its data starts at the offset,
-- or is null with the view's data. And where the arguments, the allocation and the reference are
-- in order, the lease is granted exactly when the range ends inside the view.
pub acquire-range :
    (v : View) (pointers_ok : Bool) (off len : ℕ) (mode : ℤ) (new_lease : Bool)
    (create : Status × ℕ)
    → let r = acquire_buffer_lease v pointers_ok off len mode new_lease create in
      let view = get_lease_byte_view v in
      let start = if view.1 == 0 then 0 else view.1 + off in
      ((reference d : ℕ)
        → r.1 ≡ some (reference, d)
        → (r.0 ≡ ok) × (view.0 ≡ ok) × (off + len ≤ view.2) × (d ≡ start))
      × (pointers_ok ≡ true
          → ltb_ℤ mode (pos 0) ≡ false
          → ltb_ℤ (pos 2) mode ≡ false
          → view.0 ≡ ok
          → new_lease ≡ true
          → create.0 ≡ ok
          → r ≡ (
              if leb (off + len) view.2 then (ok, some (create.1, start)) else (invalid_arg, none)))
unfolding acquire_buffer_lease is_ok
acquire-range v pointers_ok off len mode new_lease create =
    (λ reference d e. ground (arith, e), λ a b c f g h. ground (arith, a, b, c, f, g, h))
