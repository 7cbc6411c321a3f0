-- ===== src/Reference/Ownership.antt =====
-- A reference owns its value exactly when it is not weak.
use napi.Prelude.{
  ℕ, ◌+◌, ◌^◌, ◌<◌, ◌≡◌, Bool, true, false, not, ◌&&◌, none, some, arith, if◌then◌else◌,
}
use napi.Reference.{
  Value, undefined, immediate, Reference, is_empty_value, has_ref_count, dup_value, free_value,
  context_of, delete_weak_handle, clear_for_teardown, add_ref, clear_weak_target, make_weak,
  rem_ref, new_reference,
}

-- How many references to its value a reference owns.
unfoldable pub owned : Reference → ℕ
unfolding has_ref_count
owned r = if has_ref_count r.value && not r.linked then 1 else 0

-- The calls of the engine balance what is owned; a counted reference is not weak, and one that is
-- cleared or empty has no count and no link.
pub record IsReference (r : Reference) : Type 0 where
  pub balanced : r.dups ≡ owned r + r.frees
  pub weak : r.linked ≡ true → r.ref_count ≡ 0
  pub bound : r.ref_count < 2 ^ 32
  pub inactive : r.env ≡ none → (r.value ≡ undefined) × (r.linked ≡ false)
  pub nothing : is_empty_value r.value ≡ true → r.linked ≡ false

module _ (c : ℕ) where
  add-IsReference : (r : Reference) → IsReference r → IsReference (add_ref (some c) r).1
  unfolding add_ref delete_weak_handle context_of dup_value is_empty_value has_ref_count owned
  add-IsReference r k = record {
    balanced = ground (arith, k.balanced, k.weak, k.inactive, k.nothing);
    weak = ground (arith, k.weak);
    bound = ground (arith, k.bound);
    inactive = ground (arith, k.inactive);
    nothing = ground (arith, k.nothing);
  }

  clear-IsReference : (r : Reference) → IsReference r → IsReference (clear_for_teardown (some c) r)
  unfolding clear_for_teardown delete_weak_handle context_of free_value is_empty_value has_ref_count
      owned
  clear-IsReference r k = record {
    balanced = ground (arith, k.balanced, k.inactive);
    weak = ground (arith, k.weak, k.inactive);
    bound = ground (arith, k.bound);
    inactive = ground (arith, k.inactive);
    nothing = ground (arith, k.nothing);
  }

  module _ (add_link : Value → Bool) where
    rem-IsReference :
        (r : Reference)
        → ((n : ℕ) → add_link (immediate n) ≡ false)
        → IsReference r
        → IsReference (rem_ref (some c) add_link r).1
    unfolding rem_ref make_weak delete_weak_handle context_of free_value is_empty_value
        has_ref_count owned
    rem-IsReference r h k = record {
      balanced = ground (arith, k.balanced, k.weak, k.inactive, h);
      weak = ground (arith, k.weak);
      bound = ground (arith, k.bound);
      inactive = ground (arith, k.inactive);
      nothing = ground (arith, k.nothing);
    }

    new-IsReference :
        (env : ℕ) (v : Value) (n : ℕ)
        → ((n : ℕ) → add_link (immediate n) ≡ false)
        → n < 2 ^ 32
        → IsReference (new_reference (some c) add_link env v n)
    unfolding new_reference make_weak delete_weak_handle context_of dup_value is_empty_value
        has_ref_count owned
    new-IsReference env v n h b = record {
      balanced = ground (arith, h);
      weak = ground arith;
      bound = ground (arith, b);
      inactive = ground arith;
      nothing = ground arith;
    }

-- The engine drops the link of a weak reference, and then calls clear_weak_target.
pub finalized : Reference → Reference
unfolding clear_weak_target
finalized r = clear_weak_target (record r { linked = false })

finalized-IsReference :
    (r : Reference) → r.linked ≡ true → IsReference r → IsReference (finalized r)
unfolding finalized owned has_ref_count is_empty_value
finalized-IsReference r l k = record {
  balanced = ground (arith, k.balanced);
  weak = ground arith;
  bound = ground arith;
  inactive = ground arith;
  nothing = ground arith;
}

-- What can happen to a reference of an env whose context is `c`.
pub data Reaches (c : ℕ) (add_link : Value → Bool) : Reference → Type 0 where
  created :
      (env : ℕ) (v : Value) (n : ℕ)
      → n < 2 ^ 32
      → Reaches c add_link (new_reference (some c) add_link env v n)
  added : {r : Reference} → Reaches c add_link r → Reaches c add_link (add_ref (some c) r).1
  removed :
      {r : Reference} → Reaches c add_link r → Reaches c add_link (rem_ref (some c) add_link r).1
  cleared :
      {r : Reference} → Reaches c add_link r → Reaches c add_link (clear_for_teardown (some c) r)
  collected :
      {r : Reference} → Reaches c add_link r → r.linked ≡ true → Reaches c add_link (finalized r)

-- If the engine links no immediate value weakly: a reference that any sequence of its operations
-- and of collections of its weak target leads to has made exactly one more JS_DupValue than
-- JS_FreeValue while it holds a counted value strongly, and as many otherwise; a weak one has
-- count 0; and one whose env is gone holds undefined and no weak link.
pub Reaches-IsReference :
    (c : ℕ) (add_link : Value → Bool) (r : Reference)
    → ((n : ℕ) → add_link (immediate n) ≡ false)
    → Reaches c add_link r
    → IsReference r
Reaches-IsReference c l r h (created env v n b) = new-IsReference c l env v n h b
Reaches-IsReference c l _ h (added {r} p) = add-IsReference c r (Reaches-IsReference c l r h p)
Reaches-IsReference c l _ h (removed {r} p) =
    rem-IsReference c l r h (Reaches-IsReference c l r h p)
Reaches-IsReference c l _ h (cleared {r} p) = clear-IsReference c r (Reaches-IsReference c l r h p)
Reaches-IsReference c l _ h (collected {r} p e) =
    finalized-IsReference r e (Reaches-IsReference c l r h p)

-- On a reference that holds a value, with a count that can be raised, and whose value is not
-- empty: add_ref then rem_ref returns the old count and leaves the value, the count and the link
-- as they were, if the engine can link again each value that is linked now.
pub rem-add :
    (c : ℕ) (add_link : Value → Bool) (r : Reference)
    → IsReference r
    → is_empty_value r.value ≡ false
    → r.ref_count + 1 < 2 ^ 32
    → (r.ref_count ≡ 0 → add_link r.value ≡ r.linked)
    → let after = rem_ref (some c) add_link (add_ref (some c) r).1 in
      (after.0 ≡ r.ref_count)
      × (after.1.ref_count ≡ r.ref_count)
      × (after.1.value ≡ r.value)
      × (after.1.linked ≡ r.linked)
unfolding rem_ref add_ref make_weak delete_weak_handle context_of dup_value free_value
    is_empty_value has_ref_count
rem-add c l r k e b h = ground (arith, k.weak, k.inactive, h)
