-- ===== src/Util/Numbers.antt =====
-- Decimal texts as numbers.
use napi.Prelude.{
  ℕ, zero, ◌+◌, ◌-◌, ◌*◌, ◌%◌, ◌^◌, ◌≤◌, ◌<◌, ◌≡◌, refl, ap, ◌∙◌, true, false, not, ◌||◌, none,
  some, List, [], ◌∷◌, arith, ltb, leb, ◌==◌, if◌then◌else◌, Bool-cases, length, All, inl, inr,
}
use napi.Text.{decimal_digits_fit}
use napi.Text.Decimal.{
  IsDigit, IsCanonical, decimal_value, power_of_ten, power_mono, value-lt, value-ge,
  decimal_digits_fit-leb,
}
use napi.Util.{
  index_loop, max_array_index, property_key_to_array_index, bigint_fits_signed64,
  bigint_fits_unsigned64, min_signed64, max_signed64, max_unsigned64,
}

digit-plain : (x : ℕ) → IsDigit x → (x == b'-') ≡ false
digit-plain x d = ground (arith, d)

fits-literal :
    (x : ℕ) (xs ys : List ℕ)
    → All IsDigit (x ∷ xs)
    → All IsDigit ys
    → IsCanonical ys
    → 0 < length ys
    → decimal_digits_fit (x ∷ xs) ys ≡ leb (decimal_value (x ∷ xs)) (decimal_value ys)
fits-literal x xs [] d e c l = absurd (omega (arith, l))
fits-literal x xs (y ∷ ys) d e c l = decimal_digits_fit-leb x y xs ys d e c

digit-below : (c : ℕ) → IsDigit c → (ltb c b'0' || ltb b'9' c) ≡ false
digit-below c d = ground (arith, d)

canonical-head :
    (x : ℕ) (xs : List ℕ) → IsCanonical (x ∷ xs) → (length (x ∷ xs) == 1 || not (x == b'0')) ≡ true
canonical-head x [] c = refl
canonical-head x (y ∷ ys) c = ground (arith, c)

long-value :
    (x : ℕ) (xs : List ℕ)
    → IsCanonical (x ∷ xs)
    → 1 ≤ length xs
    → power_of_ten (length xs) ≤ decimal_value (x ∷ xs)
long-value x [] c l = absurd (omega (arith, l))
long-value x (y ∷ ys) c l = value-ge x y ys c

-- For a digit text with a sign or none: the number fits an int64_t exactly when its magnitude is
-- at most 2^63 with the sign, and at most 2^63 - 1 without; and without a sign it fits a uint64_t
-- exactly when it is below 2^64, and with a sign it does not.
pub bigint_fits-range :
    (x : ℕ) (xs : List ℕ)
    → All IsDigit (x ∷ xs)
    → (bigint_fits_signed64 (x ∷ xs) ≡ leb (decimal_value (x ∷ xs)) (2 ^ 63 - 1))
      × (bigint_fits_signed64 (b'-' ∷ x ∷ xs) ≡ leb (decimal_value (x ∷ xs)) (2 ^ 63))
      × (bigint_fits_unsigned64 (x ∷ xs) ≡ ltb (decimal_value (x ∷ xs)) (2 ^ 64))
      × (bigint_fits_unsigned64 (b'-' ∷ x ∷ xs) ≡ false)
unfolding bigint_fits_signed64 bigint_fits_unsigned64
bigint_fits-range x xs d =
    let plain : (x == b'-') ≡ false = digit-plain x d.0 in
    (
      rw plain (fits-literal x xs max_signed64 d (ground arith) (ground arith) (ground arith)),
      fits-literal x xs min_signed64 d (ground arith) (ground arith) (ground arith),
      rw plain (
          fits-literal x xs max_unsigned64 d (ground arith) (ground arith) (ground arith)
          ∙ ground arith),
      refl,
    )

scale : (i d p v : ℕ) → (i * 10 + d) * p + v ≡ i * (10 * p) + (d * p + v)
scale i d p v = grind arith

grows : (n p : ℕ) → 1 ≤ p → n ≤ n * p
grows n p h = let q : n * 1 ≤ n * p = grind arith in omega (arith, q)

power-pos : (n : ℕ) → 1 ≤ power_of_ten n
power-pos n = power_mono zero n (omega arith)

index_step : (n : ℕ) → n < 2 ^ 64 → n % 2 ^ 64 ≡ n
index_step n h = omega (arith, h)

index_loop-value :
    (cs : List ℕ) (index : ℕ)
    → All IsDigit cs
    → index * power_of_ten (length cs) + decimal_value cs < 2 ^ 64
    → index_loop cs index ≡ some (index * power_of_ten (length cs) + decimal_value cs)
unfolding index_loop
index_loop-value [] index d b = ap some (omega arith)
index_loop-value (c ∷ cs) index d b =
    let p = power_of_ten (length cs) in
    let next = index * 10 + (c - b'0') in
    let s = scale index (c - b'0') p (decimal_value cs) in
    let small : next < 2 ^ 64 = omega (arith, b, s, grows next p (power-pos (length cs))) in
    let ih = index_loop-value cs next d.1 (omega (arith, b, s)) in
    rw (digit-below c d.0, index_step next small, ih) (ap some s)

-- For a non-empty text of digits with no leading zero but in `0` itself: the key is an array index
-- exactly when its number is at most 2^32 - 2, whatever its length, and the index is that number.
pub array_index-value :
    (x : ℕ) (xs : List ℕ)
    → All IsDigit (x ∷ xs)
    → IsCanonical (x ∷ xs)
    → property_key_to_array_index (x ∷ xs) ≡ (
        if leb (decimal_value (x ∷ xs)) max_array_index
        then some (decimal_value (x ∷ xs))
        else none)
unfolding property_key_to_array_index
array_index-value x xs d c = elim (Bool-cases (leb (length (x ∷ xs)) 10)) [
  | inl short ↦
      let v = value-lt (x ∷ xs) d in
      let m = power_mono (length (x ∷ xs)) 10 (ground (arith, short)) in
      let l = index_loop-value (x ∷ xs) 0 d (omega (arith, v, m)) in
      let q = canonical-head x xs c in ground (arith, short, l, q)
  | inr long ↦
      let m = power_mono 10 (length xs) (ground (arith, long)) in
      let v = long-value x xs c (ground (arith, long)) in ground (arith, long, v, m)
]
