-- ===== src/Text/Decimal.antt =====
-- `decimal_digits_fit` compares the numbers that its two texts stand for.
use napi.Prelude.{
  ℕ, zero, suc, ◌+◌, ◌-◌, ◌*◌, ◌≤◌, ◌<◌, ◌≡◌, refl, ap, ◌∙◌, not, List, [], ◌∷◌, arith, ltb, leb,
  ◌==◌, if◌then◌else◌, length, All,
}
use napi.Text.{skip_zeros, strcmp_le, decimal_digits_fit}

abbrev pub IsDigit : ℕ → Type 0
IsDigit c = (b'0' ≤ c) × (c ≤ b'9')

abbrev pub power_of_ten : ℕ → ℕ
power_of_ten zero = 1
power_of_ten (suc n) = 10 * power_of_ten n

-- The number that a text of digits stands for.
abbrev pub decimal_value : List ℕ → ℕ
decimal_value [] = 0
decimal_value (c ∷ cs) = (c - b'0') * power_of_ten (length cs) + decimal_value cs

-- No leading zero, but for the text of one digit.
abbrev pub IsCanonical : List ℕ → Type 0
IsCanonical [] = Unit {0}
IsCanonical (c ∷ []) = Unit {0}
IsCanonical (c ∷ d ∷ cs) = b'0' < c

skip_zeros-All : (xs : List ℕ) → All IsDigit xs → All IsDigit (skip_zeros xs)
unfolding skip_zeros
skip_zeros-All [] h = tt
skip_zeros-All (c ∷ cs) h = ground (arith, skip_zeros-All cs h.1)

skip_zeros-value : (xs : List ℕ) → decimal_value (skip_zeros xs) ≡ decimal_value xs
unfolding skip_zeros
skip_zeros-value [] = refl
skip_zeros-value (c ∷ cs) = ground (arith, skip_zeros-value cs)

skip_zeros-IsCanonical : (xs : List ℕ) → All IsDigit xs → IsCanonical (skip_zeros xs)
unfolding skip_zeros
skip_zeros-IsCanonical [] h = tt
skip_zeros-IsCanonical (c ∷ []) h = ground arith
skip_zeros-IsCanonical (c ∷ d ∷ cs) h = ground (arith, skip_zeros-IsCanonical (d ∷ cs) h.1)

skip_zeros-nonempty : (x : ℕ) (xs : List ℕ) → 0 < length (skip_zeros (x ∷ xs))
unfolding skip_zeros
skip_zeros-nonempty c [] = ground arith
skip_zeros-nonempty c (d ∷ cs) = ground (arith, skip_zeros-nonempty d cs)

pub power_mono : (m n : ℕ) → m ≤ n → power_of_ten m ≤ power_of_ten n
power_mono zero zero h = omega arith
power_mono zero (suc n) h = omega (arith, power_mono zero n)
power_mono (suc m) zero h = absurd (omega arith)
power_mono (suc m) (suc n) h = omega (arith, power_mono m n (omega arith))

pub value-lt : (xs : List ℕ) → All IsDigit xs → decimal_value xs < power_of_ten (length xs)
value-lt [] h = omega arith
value-lt (c ∷ cs) h = let r = value-lt cs h.1 in let p : c - b'0' ≤ 9 = omega arith in grind arith

pub value-ge :
    (c d : ℕ) (cs : List ℕ) → b'0' < c → power_of_ten (length (d ∷ cs)) ≤ decimal_value (c ∷ d ∷ cs)
value-ge c d cs h =
    let p : 1 ≤ c - b'0' = omega arith in
    let q : 1 * power_of_ten (length (d ∷ cs)) ≤ (c - b'0') * power_of_ten (length (d ∷ cs)) =
      grind arith in
    omega arith

head_lt : (a b p r s : ℕ) → a < b → r < p → a * p + r < b * p + s
head_lt a b p r s h k = let q : suc a * p ≤ b * p = grind arith in omega (arith, q)

strcmp_le-leb :
    (xs ys : List ℕ)
    → All IsDigit xs
    → All IsDigit ys
    → length xs ≡ length ys
    → strcmp_le xs ys ≡ leb (decimal_value xs) (decimal_value ys)
unfolding strcmp_le
strcmp_le-leb [] ys h k e = ground arith
strcmp_le-leb (x ∷ xs) [] h k e = absurd (omega arith)
strcmp_le-leb (x ∷ xs) (y ∷ ys) h k e =
    let q : power_of_ten (length ys) ≡ power_of_ten (length xs) = ap power_of_ten (omega arith) in
    let p = power_of_ten (length xs) in
    let r = decimal_value xs in
    let t = decimal_value ys in
    rw q (
      ground (
        arith,
        strcmp_le-leb xs ys h.1 k.1 (omega arith),
        value-lt xs h.1,
        value-lt ys k.1,
        head_lt (x - b'0') (y - b'0') p r t,
        head_lt (y - b'0') (x - b'0') p t r,
      ))

-- A canonical text with more digits stands for a number that is no smaller.
shorter-lt :
    (xs ys : List ℕ)
    → All IsDigit xs
    → IsCanonical ys
    → 0 < length xs
    → length xs < length ys
    → decimal_value xs < decimal_value ys
shorter-lt xs [] h c p l = elim l [ ]
shorter-lt xs (y ∷ []) h c p l = absurd (omega arith)
shorter-lt xs (y ∷ z ∷ ys) h c p l = omega (
  arith,
  value-lt xs h,
  value-ge y z ys c,
  power_mono (length xs) (length (z ∷ ys)) (omega arith),
)

fit-leb :
    (xs ys : List ℕ)
    → All IsDigit xs
    → All IsDigit ys
    → IsCanonical xs
    → IsCanonical ys
    → 0 < length xs
    → 0 < length ys
    → (if not (length xs == length ys) then ltb (length xs) (length ys) else strcmp_le xs ys)
      ≡ leb (decimal_value xs) (decimal_value ys)
fit-leb xs ys h k c d p q =
    ground (arith, strcmp_le-leb xs ys h k, shorter-lt xs ys h d p, shorter-lt ys xs k c q)

-- For texts of digits, both non-empty and the second with no leading zero, `decimal_digits_fit`
-- holds exactly when the first stands for a number at most the second's, whatever zeros the first
-- begins with.
pub decimal_digits_fit-leb :
    (x y : ℕ) (xs ys : List ℕ)
    → All IsDigit (x ∷ xs)
    → All IsDigit (y ∷ ys)
    → IsCanonical (y ∷ ys)
    → decimal_digits_fit (x ∷ xs) (y ∷ ys) ≡ leb (decimal_value (x ∷ xs)) (decimal_value (y ∷ ys))
unfolding decimal_digits_fit
decimal_digits_fit-leb x y xs ys h k c =
    fit-leb (skip_zeros (x ∷ xs)) (y ∷ ys) (skip_zeros-All (x ∷ xs) h) k
      (skip_zeros-IsCanonical (x ∷ xs) h) c (skip_zeros-nonempty x xs) (omega arith)
    ∙ ap (λ v. leb v (decimal_value (y ∷ ys))) (skip_zeros-value (x ∷ xs))
