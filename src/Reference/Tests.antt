-- ===== src/Reference/Tests.antt =====
-- Concrete runs of the theorems on references.
use napi.Prelude.{refl, Bool, true, false, some, arith}
use napi.Reference.{Value, counted, Reference, rem_ref, new_reference}
use napi.Reference.Ownership.{IsReference, created, removed, Reaches-IsReference}

-- Objects can be linked, other values not.
abbrev links : Value → Bool
links (counted p) = true
links _ = false

abbrev weak_reference : Reference
weak_reference = (rem_ref (some 7) links (new_reference (some 7) links 1 (counted 5) 1)).1

Reaches-IsReference_example : IsReference weak_reference
Reaches-IsReference_example =
    Reaches-IsReference 7 links weak_reference (λ n. refl)
      (removed (created 1 (counted 5) 1 (omega arith)))

abbrev strong_reference : Reference
strong_reference = record {
  env = some 1;
  value = counted 5;
  ref_count = 2;
  linked = false;
  dups = 1;
  frees = 0;
}
