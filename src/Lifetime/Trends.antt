-- ===== src/Lifetime/Trends.antt =====
-- What the histories of the counters report.
use napi.Prelude.{
  ℕ, zero, suc, ◌≤◌, ◌<◌, ◌≡◌, refl, ap, ◌∙◌, true, List, [], ◌∷◌, arith, length, set,
}
use napi.Prelude.Int.{pos, ◌+ℤ◌, ◌-ℤ◌, ◌*ℤ◌}
use napi.Lifetime.{History, Trend, new_history, observe_counter, to_long}

pub record IsHistory (h : History) : Type 0 where
  pub width : length h.values ≡ 3
  pub next : h.next < 3
  pub size : h.size ≤ 3

pub new-IsHistory : IsHistory new_history
new-IsHistory = record { width = refl; next = omega arith; size = omega arith }

length-set : (xs : List ℕ) (i v : ℕ) → length (set xs i v) ≡ length xs
length-set [] i v = refl
length-set (x ∷ xs) zero v = refl
length-set (x ∷ xs) (suc i) v = ap suc (length-set xs i v)

pub observe-IsHistory : (h : History) (v : ℕ) → IsHistory h → IsHistory (observe_counter h v).1
unfolding observe_counter
observe-IsHistory h v k =
    let w = k.width in
    let n = k.next in
    let s = k.size in
    let l = length-set h.values h.next v in
    let e : length (set h.values h.next v) ≡ 3 = l ∙ w in
    record { width = e; next = rw e (omega arith); size = rw e (ground arith) }

-- First and second differences of three values, the middle one current.
abbrev pub trend_of : ℕ → ℕ → ℕ → Trend
trend_of a b c = record {
  available = true;
  current = b;
  speed = to_long c -ℤ to_long a;
  acceleration = to_long c -ℤ pos 2 *ℤ to_long b +ℤ to_long a;
}

-- The history after some values of its counter.
abbrev pub observe_all : History → List ℕ → History
observe_all h [] = h
observe_all h (v ∷ vs) = observe_all (observe_counter h v).1 vs

observe_all-IsHistory : (h : History) (vs : List ℕ) → IsHistory h → IsHistory (observe_all h vs)
observe_all-IsHistory h [] k = k
observe_all-IsHistory h (v ∷ vs) k =
    observe_all-IsHistory (observe_counter h v).1 vs (observe-IsHistory h v k)

third_of :
    (p q r n s a b c : ℕ)
    → n < 3
    → s ≤ 3
    → let h : History = record { values = p ∷ q ∷ r ∷ []; size = s; next = n } in
      (observe_counter (observe_all h (a ∷ b ∷ [])) c).0 ≡ trend_of a b c
unfolding observe_counter
third_of p q r zero s a b c h k = ground arith
third_of p q r (suc zero) s a b c h k = ground arith
third_of p q r (suc (suc zero)) s a b c h k = ground arith
third_of p q r (suc (suc (suc n))) s a b c h k = absurd (omega arith)

third_of-list :
    (xs : List ℕ) (n s a b c : ℕ)
    → length xs ≡ 3
    → n < 3
    → s ≤ 3
    → let h : History = record { values = xs; size = s; next = n } in
      (observe_counter (observe_all h (a ∷ b ∷ [])) c).0 ≡ trend_of a b c
third_of-list [] n s a b c e h k = absurd (omega arith)
third_of-list (p ∷ []) n s a b c e h k = absurd (omega arith)
third_of-list (p ∷ q ∷ []) n s a b c e h k = absurd (omega arith)
third_of-list (p ∷ q ∷ r ∷ []) n s a b c e h k = third_of p q r n s a b c h k
third_of-list (p ∷ q ∷ r ∷ t ∷ xs) n s a b c e h k = absurd (omega arith)

-- Whatever values a counter had before, the third of three further values reports the one in the
-- middle as current, and the first and second differences of the three.
pub observe-trend_of :
    (vs : List ℕ) (a b c : ℕ)
    → (observe_counter (observe_all (observe_all new_history vs) (a ∷ b ∷ [])) c).0 ≡ trend_of a b c
observe-trend_of vs a b c =
    let h = observe_all new_history vs in
    let k = observe_all-IsHistory new_history vs new-IsHistory in
    third_of-list h.values h.next h.size a b c k.width k.next k.size
