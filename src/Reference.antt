-- ===== src/Reference.antt =====
-- quickjs/src/internal/napi_ref.cc: a reference to a JavaScript value, strong while its count is
-- positive and weak, where the engine can link the value weakly, at count 0.
-- The engine's weak links are a parameter: `add_link v` is whether JS_AddNativeWeakRefLink leaves
-- a link to `v`, and `context` the context of the reference's env.
pub mod Ownership
mod Tests
use napi.Prelude.{
  ℕ, zero, suc, ◌+◌, ◌-◌, ◌%◌, ◌^◌, Bool, true, false, not, ◌&&◌, Option, none, some, ◌==◌,
  if◌then◌else◌,
}

-- A JSValue: one with a reference count by its address, an immediate one by a number.
pub data Value : Type 0 where
  uninitialized undefined null : Value
  counted immediate : ℕ → Value

-- IsEmptyValue
pub is_empty_value : Value → Bool
is_empty_value uninitialized = true
is_empty_value undefined = true
is_empty_value null = true
is_empty_value _ = false

-- JS_VALUE_HAS_REF_COUNT
pub has_ref_count : Value → Bool
has_ref_count (counted p) = true
has_ref_count _ = false

-- napi_ref__; `linked` is whether weak_link_ is on the weak reference of a value.
-- `dups` and `frees` count the calls of JS_DupValue and JS_FreeValue on a counted value.
pub record Reference : Type 0 where
  pub env : Option ℕ
  pub value : Value
  pub ref_count : ℕ
  pub linked : Bool
  pub dups : ℕ
  pub frees : ℕ

dup_value : Value → Reference → Reference
unfolding has_ref_count
dup_value v r = if has_ref_count v then record r { dups = r.dups + 1 } else r

free_value : Value → Reference → Reference
unfolding has_ref_count
free_value v r = if has_ref_count v then record r { frees = r.frees + 1 } else r

-- weak_target_finalized, which the engine calls once the link is off.
pub clear_weak_target : Reference → Reference
clear_weak_target r = record r { value = undefined; ref_count = 0 }

module _ (context : Option ℕ) where
  -- context()
  context_of : Reference → Option ℕ
  context_of r = elim r.env [ none ↦ none | some _ ↦ context ]

  delete_weak_handle : Reference → Reference
  unfolding context_of
  delete_weak_handle r =
      if not r.linked
      then r
      else (elim (context_of r) [ none ↦ r | some _ ↦ record r { linked = false } ])

  pub clear_for_teardown : Reference → Reference
  unfolding context_of delete_weak_handle is_empty_value has_ref_count free_value
  clear_for_teardown r = elim r.env [
    | none ↦ r
    | some _ ↦
        let owns_strong_value =
          not r.linked && not (is_empty_value r.value) && has_ref_count r.value in
        let r1 = delete_weak_handle r in
        let r2 = record r1 { env = none; value = undefined; ref_count = 0 } in
        (elim (context_of r) [
          | none ↦ r2
          | some _ ↦ if owns_strong_value then free_value r.value r2 else r2
        ])
  ]

  pub add_ref : Reference → ℕ × Reference
  unfolding delete_weak_handle is_empty_value dup_value
  add_ref r =
      if is_empty_value r.value
      then (r.ref_count, r)
      else if r.ref_count == 0
      then (let r1 = delete_weak_handle r in
          if is_empty_value r1.value
          then (r1.ref_count, r1)
          else let r2 = if r.linked then dup_value r1.value r1 else r1 in
            ((r2.ref_count + 1) % 2 ^ 32, record r2 { ref_count = (r2.ref_count + 1) % 2 ^ 32 }))
      else ((r.ref_count + 1) % 2 ^ 32, record r { ref_count = (r.ref_count + 1) % 2 ^ 32 })

  module _ (add_link : Value → Bool) where
    make_weak : Reference → Bool × Reference
    unfolding delete_weak_handle context_of is_empty_value
    make_weak r =
        let r1 = delete_weak_handle r in
        elim (context_of r1) [
          | none ↦ (false, r1)
          | some _ ↦
              if is_empty_value r1.value
              then (false, r1)
              else (add_link r1.value, record r1 { linked = add_link r1.value })
        ]

    pub rem_ref : Reference → ℕ × Reference
    unfolding make_weak context_of free_value
    rem_ref r =
        if r.ref_count == 0
        then (r.ref_count, r)
        else let r1 = record r { ref_count = r.ref_count - 1 } in
          if r1.ref_count == 0
          then (let (became_weak, r2) = make_weak r1 in
              (
                r1.ref_count,
                (elim (context_of r1) [
                  | none ↦ r2
                  | some _ ↦ if became_weak then free_value r1.value r2 else r2
                ]),
              ))
          else (r1.ref_count, r1)

    -- The constructor.
    pub new_reference : ℕ → Value → ℕ → Reference
    unfolding make_weak has_ref_count dup_value
    new_reference env value initial_ref_count =
        let r : Reference = record {
          env = some env;
          value = value;
          ref_count = initial_ref_count;
          linked = false;
          dups = 0;
          frees = 0;
        } in
        if not (initial_ref_count == 0)
        then dup_value value r
        else let (weak, r1) = make_weak r in
          if not weak && has_ref_count value then dup_value value r1 else r1
