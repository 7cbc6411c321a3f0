-- ===== src/Cleanup/Hooks.antt =====
-- Cleanup hooks run the most recent first, and each registration runs once.
use napi.Prelude.{
  ℕ, zero, suc, ◌+◌, ◌≤◌, ◌<◌, ◌≡◌, refl, ap, sym, ◌∙◌, Bool, true, Option, none, some, List, [],
  ◌∷◌, ◌++◌, arith, if◌then◌else◌, length, length-append,
}
use napi.Cleanup.{
  ok, invalid_arg, Hook, same_arg, hook_matches, add_cleanup_hook, remove_loop, remove_cleanup_hook,
  pop_back, run_cleanup_hooks,
}

-- The hooks in reverse order of registration, before `calls`.
abbrev pub newest_first : List Hook → List Hook → List Hook
newest_first [] calls = calls
newest_first (h ∷ hs) calls = newest_first hs (h ∷ calls)

pop-snoc : (hs : List Hook) (h : Hook) → pop_back (hs ++ h ∷ []) ≡ some (hs, h)
unfolding pop_back
pop-snoc [] h = refl
pop-snoc (g ∷ hs) h = rw (pop-snoc hs h) refl

-- What a list that is not empty ends with.
snoc-cases :
    (h : Hook) (hs : List Hook)
    → (front : List Hook) × ((back : Hook) × (h ∷ hs ≡ front ++ back ∷ []))
snoc-cases h [] = ([], (h, refl))
snoc-cases h (g ∷ hs) =
    let (front, (back, e)) = snoc-cases g hs in (h ∷ front, (back, ap (λ (x : List Hook). h ∷ x) e))

newest-snoc :
    (hs : List Hook) (h : Hook) (calls : List Hook)
    → newest_first (hs ++ h ∷ []) calls ≡ h ∷ newest_first hs calls
newest-snoc [] h calls = refl
newest-snoc (g ∷ hs) h calls = newest-snoc hs h (g ∷ calls)

run-empty :
    (n : ℕ) (run : Hook → List Hook → List Hook) → run_cleanup_hooks (suc n) run [] ≡ (true, [], [])
unfolding run_cleanup_hooks pop_back
run-empty n run = refl

run-snoc :
    (n : ℕ) (run : Hook → List Hook → List Hook) (hs : List Hook) (h : Hook)
    → run_cleanup_hooks (suc n) run (hs ++ h ∷ [])
      ≡ (let r = run_cleanup_hooks n run (run h hs) in (r.0, r.1, h ∷ r.2))
unfolding run_cleanup_hooks
run-snoc n run hs h = ground (arith, pop-snoc hs h)

-- Where no hook makes the list longer than it finds it, the loop comes to its end within one
-- round more than there are hooks, with no hook left and no more calls than there were hooks.
pub run-ends :
    (n : ℕ) (run : Hook → List Hook → List Hook) (hooks : List Hook)
    → ((h : Hook) (hs : List Hook) → length (run h hs) ≤ length hs)
    → length hooks < n
    → let r = run_cleanup_hooks n run hooks in
      (r.0 ≡ true) × (r.1 ≡ []) × (length r.2 ≤ length hooks)
run-ends zero run hooks k b = absurd (omega (arith, b))
run-ends (suc n) run [] k b = rw (run-empty n run) (refl, refl, omega arith)
run-ends (suc n) run (h ∷ hs) k b =
    let (front, (back, e)) = snoc-cases h hs in
    let len = length-append front (back ∷ []) in
    let same : length (h ∷ hs) ≡ length (front ++ back ∷ []) = ap length e in
    let ih = run-ends n run (run back front) k (omega (arith, b, len, same, k back front)) in
    rw (e, run-snoc n run front back) (ih.0, ih.1, omega (arith, ih.2, len, k back front))

-- Hooks that leave the list alone are called once for each registration, the most recent first.
pub run-newest_first :
    (n : ℕ) (hooks : List Hook)
    → length hooks < n
    → run_cleanup_hooks n (λ h hs. hs) hooks ≡ (true, [], newest_first hooks [])
run-newest_first zero hooks b = absurd (omega (arith, b))
run-newest_first (suc n) [] b = run-empty n (λ h hs. hs)
run-newest_first (suc n) (h ∷ hs) b =
    let (front, (back, e)) = snoc-cases h hs in
    let len = length-append front (back ∷ []) in
    let same : length (h ∷ hs) ≡ length (front ++ back ∷ []) = ap length e in
    let ih = run-newest_first n front (omega (arith, b, len, same)) in
    ap (run_cleanup_hooks (suc n) (λ h hs. hs)) e
    ∙ run-snoc n (λ h hs. hs) front back
    ∙ ap (λ (r : Bool × List Hook × List Hook). (r.0, r.1, back ∷ r.2)) ih
    ∙ ap (λ (calls : List Hook). (true, [], calls)) (sym (newest-snoc front back []))
    ∙ ap (λ (all : List Hook). (true, [], newest_first all [])) (sym e)

-- How many registrations match.
abbrev pub registered : ℕ → Option ℕ → List Hook → ℕ
registered hook arg [] = 0
registered hook arg (h ∷ hs) = (if hook_matches hook arg h then 1 else 0) + registered hook arg hs

same_arg_refl : (a : Option ℕ) → same_arg a a ≡ true
unfolding same_arg
same_arg_refl none = refl
same_arg_refl (some a) = ground arith

remove-snoc :
    (hook : ℕ) (arg : Option ℕ) (hs : List Hook)
    → registered hook arg hs ≡ 0
    → remove_loop hook arg (hs ++ record { hook = hook; arg = arg } ∷ []) ≡ (ok, hs)
unfolding remove_loop hook_matches
remove-snoc hook arg [] e = ground (arith, same_arg_refl arg)
remove-snoc hook arg (h ∷ hs) e = ground (arith, e, remove-snoc hook arg hs)

remove-absent :
    (hook : ℕ) (arg : Option ℕ) (hs : List Hook)
    → registered hook arg hs ≡ 0
    → remove_loop hook arg hs ≡ (invalid_arg, hs)
unfolding remove_loop
remove-absent hook arg [] e = refl
remove-absent hook arg (h ∷ hs) e = ground (arith, e, remove-absent hook arg hs)

-- A hook that is not registered with an argument: removing the two is refused and changes nothing,
-- adding them succeeds, and removing them then gives the list of before the addition.
pub remove-add_hook :
    (hook : ℕ) (arg : Option ℕ) (hooks : List Hook)
    → registered hook arg hooks ≡ 0
    → (remove_cleanup_hook true (some hook) arg hooks ≡ (invalid_arg, hooks))
      × ((add_cleanup_hook true true (some hook) arg hooks).0 ≡ ok)
      × (remove_cleanup_hook true
            (some hook)
            arg
            (add_cleanup_hook true true (some hook) arg hooks).1
          ≡ (ok, hooks))
unfolding remove_cleanup_hook add_cleanup_hook
remove-add_hook hook arg hooks e =
    (remove-absent hook arg hooks e, refl, remove-snoc hook arg hooks e)
