-- ===== src/Scope/Tests.antt =====
-- Concrete runs of the theorems on handle scopes.
use napi.Prelude.{
  ℕ, ◌≡◌, ◌≢◌, refl, true, false, ◌==◌, if◌then◌else◌, Option, none, some, arith, [], ◌∷◌, ◌⊎◌,
}
use napi.Scope.{
  ok, invalid_arg, escape_called_twice, Handle, Scope, Scopes, open_handle_scope,
  close_handle_scope, escape_handle, value_at, no_values,
}
use napi.Scope.Stack.{IsStack, open-IsStack, close-IsStack}
use napi.Scope.Escape.{handle, escape-outlives}

abbrev root : Scope
root = record { level = 0; parent = none; values = no_values; closed = false; escaped = false }

abbrev inner : Scope
inner = record {
  level = 1;
  parent = some 10;
  values = λ slot. if slot == 3 then some 77 else none;
  closed = false;
  escaped = false;
}

abbrev inner_handle : ℕ
inner_handle = 11

abbrev two_scopes : Scopes
two_scopes = record {
  live = λ h. if h == 10 then some root else if h == 11 then some inner else none;
  current = some 11;
}

abbrev first_free : (ℕ → Option Scope) → Option ℕ
first_free live = elim (live 12) [ none ↦ some 12 | some _ ↦ none ]

first_free-lem : (live : ℕ → Option Scope) (h : ℕ) → first_free live ≡ some h → live h ≡ none
first_free-lem live h e = ground (arith, e)

two_scopes-IsStack : IsStack (11 ∷ 10 ∷ []) two_scopes
two_scopes-IsStack = record {
  current = refl;
  chain = ((inner, (refl, refl, refl)), ((root, (refl, refl, refl)), tt));
  distinct = ground arith;
  only = λ h n. ground (arith, n);
}

open-IsStack_example :
    let r = open_handle_scope first_free true true two_scopes in
    ((r.0.0 ≢ ok) × (r.0.1 ≡ none) × (r.1 ≡ two_scopes))
    ⊎ ((h : ℕ) × ((r.0 ≡ (ok, some h)) × IsStack (h ∷ 11 ∷ 10 ∷ []) r.1))
open-IsStack_example =
    open-IsStack first_free (11 ∷ 10 ∷ []) two_scopes true true first_free-lem two_scopes-IsStack

close-IsStack_example :
    let r = close_handle_scope true (some 11) two_scopes in
    ((inner_handle ≡ inner_handle) × (r.0 ≡ ok) × IsStack (10 ∷ []) r.1)
    ⊎ ((inner_handle ≢ inner_handle) × (r ≡ (invalid_arg, two_scopes)))
close-IsStack_example = close-IsStack 11 11 (10 ∷ []) two_scopes two_scopes-IsStack

escape-outlives_example :
    let r = escape_handle (λ values. some 0) true (some 11) (some (handle 11 3)) true two_scopes in
    (r.0 ≡ (ok, some (handle 10 0)))
    × ((close_handle_scope true (some 11) r.1).0 ≡ ok)
    × (value_at (handle 10 0) (close_handle_scope true (some 11) r.1).1 ≡ some 77)
    × ((w : Handle)
        → escape_handle (λ values. some 0) true (some 11) (some w) true r.1
          ≡ ((escape_called_twice, none), r.1))
escape-outlives_example =
    escape-outlives (λ values. some 0) 11 10 3 0 77 inner root two_scopes refl refl refl
      (omega arith) refl refl refl refl refl
