-- ===== src/Scope/Stack.antt =====
-- The live scopes are a stack.
use napi.Prelude.{
  ℕ, ◌≡◌, ◌≢◌, refl, ap, sym, ◌∙◌, Bool, true, false, ◌&&◌, Option, none, some, List, [], ◌∷◌,
  arith, ◌==◌, update, has, Distinct, length, Bool-cases, Option-cases, inl, inr, ◌⊎◌, subst,
}
use napi.Scope.{
  ok, invalid_arg, generic_failure, Scope, Scopes, scope_at, level_below, new_scope, create_scope,
  open_handle_scope, destroy_scope, is_current_scope, close_handle_scope,
}

abbrev pub top : List ℕ → Option ℕ
top [] = none
top (h ∷ hs) = some h

-- The scopes `hs` are live, each the parent of the one before it, at levels that count down to 0.
abbrev pub IsChain : (ℕ → Option Scope) → List ℕ → Type 0
IsChain live [] = Unit
IsChain live (h ∷ hs) =
    ((s : Scope) × ((live h ≡ some s) × (s.parent ≡ top hs) × (s.level ≡ length hs)))
    × IsChain live hs

-- The handles `hs`, the innermost first, are exactly the live scopes.
pub record IsStack (hs : List ℕ) (s : Scopes) : Type 0 where
  pub current : s.current ≡ top hs
  pub chain : IsChain s.live hs
  pub distinct : Distinct hs
  pub only : (h : ℕ) → has h hs ≡ false → s.live h ≡ none

IsChain-update :
    (live : ℕ → Option Scope) (h : ℕ) (x : Option Scope) (hs : List ℕ)
    → has h hs ≡ false
    → IsChain live hs
    → IsChain (update live h x) hs
IsChain-update live h x [] e k = tt
IsChain-update live h x (g ∷ hs) e ((s, (a, b, c)), k) =
    ((s, (ground (arith, e, a), b, c)), IsChain-update live h x hs (ground (arith, e)) k)

live-top :
    (hs : List ℕ) (s : Scopes) → IsChain s.live hs → level_below (scope_at (top hs) s) ≡ length hs
unfolding level_below scope_at
live-top [] s k = refl
live-top (h ∷ hs) s ((x, (a, b, c)), k) = rw a (omega (arith, c))

has-not :
    (live : ℕ → Option Scope) (h : ℕ) (hs : List ℕ)
    → IsChain live hs
    → live h ≡ none
    → has h hs ≡ false
has-not live h [] k e = refl
has-not live h (g ∷ hs) ((x, (a, b, c)), k) e = ground (arith, a, e, has-not live h hs k e)

open-refused :
    (grant : (ℕ → Option Scope) → Option ℕ) (s : Scopes) (env_ok result_ok : Bool)
    → (env_ok && result_ok) ≡ false
    → open_handle_scope grant env_ok result_ok s ≡ ((invalid_arg, none), s)
unfolding open_handle_scope
open-refused grant s env_ok result_ok e = ground (arith, e)

open-fails :
    (grant : (ℕ → Option Scope) → Option ℕ) (s : Scopes)
    → grant s.live ≡ none
    → open_handle_scope grant true true s ≡ ((generic_failure, none), s)
unfolding open_handle_scope create_scope
open-fails grant s e = ground (arith, e)

pub open-top :
    (grant : (ℕ → Option Scope) → Option ℕ) (s : Scopes) (h : ℕ)
    → grant s.live ≡ some h
    → open_handle_scope grant true true s ≡ (
      (ok, some h),
      record { live = update s.live h (some (new_scope s.current s)); current = some h },
    )
unfolding open_handle_scope create_scope
open-top grant s h e = ground (arith, e)

pub close-top :
    (h : ℕ) (x : Scope) (s : Scopes)
    → s.current ≡ some h
    → s.live h ≡ some x
    → close_handle_scope true (some h) s
      ≡ (ok, record { live = update s.live h none; current = x.parent })
unfolding close_handle_scope scope_at is_current_scope destroy_scope
close-top h x s c e = ground (arith, c, e)

-- On a stack of scopes, when the allocator grants only free handles: opening a scope either fails
-- and leaves the stack, or makes it one handle longer, with the new handle current.
pub open-IsStack :
    (grant : (ℕ → Option Scope) → Option ℕ) (hs : List ℕ) (s : Scopes) (env_ok result_ok : Bool)
    → ((live : ℕ → Option Scope) (h : ℕ) → grant live ≡ some h → live h ≡ none)
    → IsStack hs s
    → let r = open_handle_scope grant env_ok result_ok s in
      (((r.0.0 ≢ ok) × (r.0.1 ≡ none) × (r.1 ≡ s))
        ⊎ ((h : ℕ) × ((r.0 ≡ (ok, some h)) × IsStack (h ∷ hs) r.1)))
unfolding new_scope
open-IsStack grant hs s false result_ok g k =
    rw (open-refused grant s false result_ok refl) (inl (λ e. cc, refl, refl))
open-IsStack grant hs s true false g k =
    rw (open-refused grant s true false refl) (inl (λ e. cc, refl, refl))
open-IsStack grant hs s true true g k = elim (Option-cases (grant s.live)) [
  | inl e ↦ rw (open-fails grant s e) (inl (λ e. cc, refl, refl))
  | inr (h, e) ↦
      let fresh = g s.live h e in
      let absent = has-not s.live h hs k.chain fresh in
      rw (open-top grant s h e) (
        inr (
          h,
          (
            refl,
            record {
              current = refl;
              chain = (
                (
                  new_scope s.current s,
                  (
                    ground arith,
                    k.current,
                    ap (λ (c : Option ℕ). level_below (scope_at c s)) k.current
                        ∙ live-top hs s k.chain,
                  ),
                ),
                IsChain-update s.live h (some (new_scope s.current s)) hs absent k.chain,
              );
              distinct = (absent, k.distinct);
              only = λ j n. ground (arith, k.only j, n);
            },
          ),
        ))
]

-- On a stack of scopes: closing the innermost one succeeds and leaves the rest of the stack, and
-- closing any other handle is refused and changes nothing.
pub close-IsStack :
    (h g : ℕ) (hs : List ℕ) (s : Scopes)
    → IsStack (h ∷ hs) s
    → let r = close_handle_scope true (some g) s in
      ((g ≡ h) × (r.0 ≡ ok) × IsStack hs r.1) ⊎ ((g ≢ h) × (r ≡ (invalid_arg, s)))
unfolding close_handle_scope scope_at is_current_scope destroy_scope
close-IsStack h g hs s k = elim (Bool-cases (h == g)) [
  | inr e ↦ inr (ground (arith, e), rw (k.current, e) refl)
  | inl e ↦
      let ((x, (a, b, c)), rest) = k.chain in
      let same : h ≡ g = ground (arith, e) in
      let popped : IsStack hs (record { live = update s.live h none; current = x.parent }) =
        record {
          current = b;
          chain = IsChain-update s.live h none hs k.distinct.0 rest;
          distinct = k.distinct.1;
          only = λ j n. ground (arith, k.only j, n);
        } in
      let r =
        subst
          (λ (j : ℕ).
            ((close_handle_scope true (some j) s).0 ≡ ok)
            × IsStack hs (close_handle_scope true (some j) s).1)
          same (rw (close-top h x s k.current a) (refl, popped)) in
      inl (sym same, r.0, r.1)
]
