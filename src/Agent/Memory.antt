-- ===== src/Agent/Memory.antt =====
-- External memory is counted in an int64_t that saturates.
use napi.Prelude.{◌≡◌, refl, arith, if◌then◌else◌}
use napi.Prelude.Int.{ℤ, pos, negsuc, ◌+ℤ◌, ◌-ℤ◌, ◌≤ℤ◌, ltb_ℤ}
use napi.Agent.{Agent, adjusted, adjust_external_memory, int64_max, int64_min}

abbrev pub IsInt64 : ℤ → Type 0
IsInt64 n = (int64_min ≤ℤ n) × (n ≤ℤ int64_max)

-- The nearest integer in the range of an int64_t.
abbrev pub clamp : ℤ → ℤ
clamp n = if ltb_ℤ int64_max n then int64_max else if ltb_ℤ n int64_min then int64_min else n

adjusted-clamp :
    (change memory : ℤ)
    → IsInt64 change
    → IsInt64 memory
    → (adjusted change memory ≡ clamp (memory +ℤ change)) × IsInt64 (adjusted change memory)
unfolding adjusted ◌+ℤ◌ ◌-ℤ◌
adjusted-clamp (pos c) (pos m) h k = ground arith
adjusted-clamp (pos c) (negsuc m) h k = ground arith
adjusted-clamp (negsuc c) (pos m) h k = ground arith
adjusted-clamp (negsuc c) (negsuc m) h k = ground arith

-- The new amount is the exact sum, or the bound of an int64_t that the sum passes; it is stored
-- and returned, and is again an int64_t.
pub adjust-clamp :
    (change : ℤ) (a : Agent)
    → IsInt64 change
    → IsInt64 a.external_memory
    → ((adjust_external_memory change a).0 ≡ clamp (a.external_memory +ℤ change))
      × ((adjust_external_memory change a).1.external_memory ≡ (adjust_external_memory change a).0)
      × IsInt64 (adjust_external_memory change a).0
unfolding adjust_external_memory
adjust-clamp change a c m = let r = adjusted-clamp change a.external_memory c m in (r.0, refl, r.1)
