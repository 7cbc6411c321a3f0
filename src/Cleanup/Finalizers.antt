-- ===== src/Cleanup/Finalizers.antt =====
-- Instance data is finalized once.
use napi.Prelude.{
  ◌≡◌, ◌≢◌, refl, none, some, List, [], ◌∷◌, arith, All, Option-cases, inl, inr, ap, ◌∙◌,
}
use napi.Cleanup.{
  Instance, Finalized, no_instance, call_instance_data_finalizer, finalize_instance_data,
  set_instance_data,
}

abbrev pub set_all : List Instance → Instance × List Finalized → Instance × List Finalized
set_all [] s = s
set_all (i ∷ is) s = set_all is (set_instance_data i s)

-- The calls that finalize each instance that has a finalizer, in order, the last one first.
abbrev pub calls_for : List Instance → List Finalized → List Finalized
calls_for [] calls = calls
calls_for (i ∷ is) calls = calls_for is (elim i.finalize_cb [
  | none ↦ calls
  | some cb ↦ record { callback = cb; finalized = i.data_; hint = i.hint } ∷ calls
])

set-replaces :
    (i old : Instance) (calls : List Finalized)
    → old.data_ ≢ none
    → set_instance_data i (old, calls) ≡ (i, call_instance_data_finalizer old calls)
unfolding set_instance_data
set-replaces i old calls d = elim (Option-cases old.data_) [
  | inl e ↦ absurd (d e)
  | inr (x, e) ↦ ground (arith, e)
]

set_all-calls :
    (is : List Instance) (old : Instance) (calls : List Finalized)
    → old.data_ ≢ none
    → All (λ (i : Instance). i.data_ ≢ none) is
    → finalize_instance_data (set_all is (old, calls)) ≡ (no_instance, calls_for (old ∷ is) calls)
unfolding finalize_instance_data set_instance_data call_instance_data_finalizer
set_all-calls [] old calls d a = refl
set_all-calls (i ∷ is) old calls d a =
    ap (λ (s : Instance × List Finalized). finalize_instance_data (set_all is s))
      (set-replaces i old calls d)
    ∙ set_all-calls is i (call_instance_data_finalizer old calls) a.0 a.1

-- Setting non-null instance data any number of times, and finalizing what is left at the release
-- of the env: every data that came with a finalizer is finalized once, in the order of the calls,
-- and none is left.
pub finalize-set_all :
    (is : List Instance)
    → All (λ (i : Instance). i.data_ ≢ none) is
    → finalize_instance_data (set_all is (no_instance, [])) ≡ (no_instance, calls_for is [])
unfolding finalize_instance_data set_instance_data call_instance_data_finalizer
finalize-set_all [] a = refl
finalize-set_all (i ∷ is) a = set_all-calls is i [] a.0 a.1
