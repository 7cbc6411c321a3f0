-- ===== src/Cleanup.antt =====
-- quickjs/src/internal/napi_env.cc and napi_env_cleanup_hook.cc: the cleanup hooks of an env and
-- its instance data.
-- The hooks and finalizers are user code, a parameter; functions and pointers are numbers, and
-- none is null. env_cleanup_hooks_ is a list in the order of registration.
pub mod Hooks
pub mod Finalizers
mod Tests
use napi.Prelude.{
  ℕ, zero, suc, ◌+◌, Bool, true, false, not, ◌&&◌, ◌||◌, Option, none, some, List, [], ◌∷◌, ◌++◌,
  ◌==◌, if◌then◌else◌,
}

pub data Status : Type 0 where
  ok invalid_arg generic_failure : Status

-- napi_env_cleanup_hook__
pub record Hook : Type 0 where
  pub hook : ℕ
  pub arg : Option ℕ

pub same_arg : Option ℕ → Option ℕ → Bool
same_arg none none = true
same_arg (some a) (some b) = a == b
same_arg _ _ = false

-- matches
pub hook_matches : ℕ → Option ℕ → Hook → Bool
unfolding same_arg
hook_matches hook arg entry = (entry.hook == hook) && same_arg entry.arg arg

-- napi_add_env_cleanup_hook; `created` is whether the allocator of hooks gives an entry.
pub add_cleanup_hook : Bool → Bool → Option ℕ → Option ℕ → List Hook → Status × List Hook
add_cleanup_hook env_ok created none arg hooks = (invalid_arg, hooks)
add_cleanup_hook env_ok created (some hook) arg hooks =
    if not env_ok
    then (invalid_arg, hooks)
    else if not created
    then (generic_failure, hooks)
    else (ok, hooks ++ record { hook = hook; arg = arg } ∷ [])

-- The loop of remove_cleanup_hook.
remove_loop : ℕ → Option ℕ → List Hook → Status × List Hook
unfolding hook_matches
remove_loop hook arg [] = (invalid_arg, [])
remove_loop hook arg (entry ∷ rest) =
    let later = remove_loop hook arg rest in
    if hook_matches hook arg entry then (ok, rest) else (later.0, entry ∷ later.1)

-- napi_remove_env_cleanup_hook
pub remove_cleanup_hook : Bool → Option ℕ → Option ℕ → List Hook → Status × List Hook
unfolding remove_loop
remove_cleanup_hook env_ok none arg hooks = (invalid_arg, hooks)
remove_cleanup_hook env_ok (some hook) arg hooks =
    if not env_ok then (invalid_arg, hooks) else remove_loop hook arg hooks

-- back() and pop_back()
pub pop_back : List Hook → Option (List Hook × Hook)
pop_back [] = none
pop_back (entry ∷ rest) = elim (pop_back rest) [
  | none ↦ some ([], entry)
  | some (front, back) ↦ some (entry ∷ front, back)
]

-- run_cleanup_hooks, on fuel. `run` is what a hook does to the list of hooks; the calls are listed
-- in their order, and the Boolean is whether the loop came to its end.
pub run_cleanup_hooks :
    ℕ → (Hook → List Hook → List Hook) → List Hook → Bool × List Hook × List Hook
unfolding pop_back
run_cleanup_hooks zero run hooks = (false, hooks, [])
run_cleanup_hooks (suc n) run hooks = elim (pop_back hooks) [
  | none ↦ (true, hooks, [])
  | some (front, entry) ↦
      let (ended, left, calls) = run_cleanup_hooks n run (run entry front) in
      (ended, left, entry ∷ calls)
]

-- instance_data_, instance_data_finalize_cb_ and instance_data_finalize_hint_, none for null.
pub record Instance : Type 0 where
  pub data_ : Option ℕ
  pub finalize_cb : Option ℕ
  pub hint : Option ℕ

-- A call of a finalizer, with its data and hint.
pub record Finalized : Type 0 where
  pub callback : ℕ
  pub finalized : Option ℕ
  pub hint : Option ℕ

abbrev pub no_instance : Instance
no_instance = record { data_ = none; finalize_cb = none; hint = none }

-- call_instance_data_finalizer; what is called is listed the last one first.
call_instance_data_finalizer : Instance → List Finalized → List Finalized
call_instance_data_finalizer i calls = elim i.finalize_cb [
  | none ↦ calls
  | some cb ↦ record { callback = cb; finalized = i.data_; hint = i.hint } ∷ calls
]

-- finalize_instance_data
pub finalize_instance_data : Instance × List Finalized → Instance × List Finalized
unfolding call_instance_data_finalizer
finalize_instance_data (i, calls) = (no_instance, call_instance_data_finalizer i calls)

pub set_instance_data : Instance → Instance × List Finalized → Instance × List Finalized
unfolding call_instance_data_finalizer
set_instance_data new (old, calls) = (elim old.data_ [
  | none ↦ (new, calls)
  | some _ ↦ (new, call_instance_data_finalizer old calls)
])
