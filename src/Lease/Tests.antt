-- ===== src/Lease/Tests.antt =====
-- Concrete runs of the theorems on leases.
use napi.Prelude.{ℕ, ◌+◌, ◌≤◌, ◌≡◌, true, false, leb, ◌==◌, if◌then◌else◌, none, some}
use napi.Prelude.Int.{pos, ltb_ℤ}
use napi.Lease.{ok, invalid_arg, View, int32_array, get_lease_byte_view, acquire_buffer_lease}
use napi.Lease.Range.{acquire-range}

-- An Int32Array of 5 elements at address 4096.
abbrev ints : View
ints = record {
  is_typedarray = (ok, true);
  typedarray_info = (ok, int32_array, 5, 4096);
  is_dataview = (ok, false);
  dataview_info = (invalid_arg, 0, 0);
  is_arraybuffer = (ok, false);
  arraybuffer_info = (invalid_arg, 0, 0);
}

acquire-range_example :
    let r = acquire_buffer_lease ints true 4 16 (pos 2) true (ok, 9) in
    let view = get_lease_byte_view ints in
    let start = if view.1 == 0 then 0 else view.1 + 4 in
    ((reference d : ℕ)
      → r.1 ≡ some (reference, d)
      → (r.0 ≡ ok) × (view.0 ≡ ok) × (4 + 16 ≤ view.2) × (d ≡ start))
    × (true ≡ true
        → ltb_ℤ (pos 2) (pos 0) ≡ false
        → ltb_ℤ (pos 2) (pos 2) ≡ false
        → view.0 ≡ ok
        → true ≡ true
        → ok ≡ ok
        → r ≡ (if leb (4 + 16) view.2 then (ok, some (9, start)) else (invalid_arg, none)))
acquire-range_example = acquire-range ints true 4 16 (pos 2) true (ok, 9)
