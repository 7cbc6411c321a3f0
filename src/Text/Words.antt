-- ===== src/Text/Words.antt =====
-- `bigint_words_from_decimal_string` gives the number that the digits of its text stand for.
use mathlib.Core.List.{reverse-cons, reverse-reverse}
use napi.Prelude.{
  ℕ, ◌+◌, ◌-◌, ◌*◌, ◌/◌, ◌%◌, ◌^◌, ◌≤◌, ◌<◌, ◌≡◌, refl, ap, ◌∙◌, inl, inr, true, not, ◌&&◌, ◌||◌,
  List, [], ◌∷◌, ◌++◌, reverse, arith, ltb, ◌==◌, if◌then◌else◌, Bool-cases, length, get_or, All,
  is_empty,
}
use napi.Text.{
  add_digit_loop, add_digit, words_loop, pop_zeros, advance_cursor,
  bigint_words_from_decimal_string,
}
use napi.Text.Decimal.{decimal_value, power_of_ten}

-- The number that 64-bit words stand for, least significant first.
abbrev pub words_value : List ℕ → ℕ
words_value [] = 0
words_value (w ∷ ws) = w + 2 ^ 64 * words_value ws

abbrev pub IsWord : ℕ → Type 0
IsWord w = w < 2 ^ 64

-- The digits of a text, in order.
abbrev pub digits : List ℕ → List ℕ
digits [] = []
digits (c ∷ cs) = if not (ltb c b'0' || ltb b'9' c) then c ∷ digits cs else digits cs

-- Most significant first: the first word is not 0, unless it is the only one.
abbrev pub IsNormal : List ℕ → Type 0
IsNormal [] = Unit {0}
IsNormal (w ∷ []) = Unit {0}
IsNormal (w ∷ v ∷ ws) = 0 < w

abbrev pub last_part : List ℕ × ℕ → ℕ
last_part (ws, l) = l

abbrev pub with_last : List ℕ × ℕ → List ℕ
with_last (ws, l) = ws ++ l ∷ []

value-append-zero : (ws : List ℕ) → words_value (ws ++ 0 ∷ []) ≡ words_value ws
value-append-zero [] = omega arith
value-append-zero (w ∷ ws) = omega (arith, value-append-zero ws)

All-append-one : (ws : List ℕ) (l : ℕ) → All IsWord ws → IsWord l → All IsWord (ws ++ l ∷ [])
All-append-one [] l h k = (k, tt)
All-append-one (w ∷ ws) l h k = (h.0, All-append-one ws l h.1 k)

record Adds (ws : List ℕ) (carry : ℕ) (r : List ℕ × ℕ) : Type 0 where
  value : words_value (r.0 ++ r.1 ∷ []) ≡ 10 * words_value ws + carry
  words : All IsWord r.0
  last : r.1 ≤ 10

add_digit_loop-Adds :
    (ws : List ℕ) (carry : ℕ) → All IsWord ws → carry ≤ 10 → Adds ws carry (add_digit_loop ws carry)
unfolding add_digit_loop
add_digit_loop-Adds [] carry h k = record { value = omega arith; words = tt; last = k }
add_digit_loop-Adds (w ∷ ws) carry h k =
    let n : (w * 10 + carry) % 2 ^ 128 ≡ w * 10 + carry = omega arith in
    let c : (w * 10 + carry) / 2 ^ 64 % 2 ^ 32 ≡ (w * 10 + carry) / 2 ^ 64 = omega arith in
    let r = add_digit_loop-Adds ws ((w * 10 + carry) / 2 ^ 64) h.1 (omega arith) in
    rw (n, c)
      (record { value = omega (arith, r.value); words = (omega arith, r.words); last = r.last })

add_digit-value :
    (ws : List ℕ) (d : ℕ)
    → All IsWord ws
    → d ≤ 9
    → (words_value (add_digit ws d) ≡ 10 * words_value ws + d) × All IsWord (add_digit ws d)
unfolding add_digit
add_digit-value ws d h k =
    let r = add_digit_loop-Adds ws d h (omega arith) in
    finish (add_digit_loop ws d).0 (add_digit_loop ws d).1 r.value r.words r.last
  where
    finish :
        (xs : List ℕ) (l : ℕ)
        → words_value (xs ++ l ∷ []) ≡ 10 * words_value ws + d
        → All IsWord xs
        → l ≤ 10
        → (words_value (if not (l == 0) || is_empty xs then xs ++ l ∷ [] else xs)
            ≡ 10 * words_value ws + d)
          × All IsWord (if not (l == 0) || is_empty xs then xs ++ l ∷ [] else xs)
    finish [] l v w b = ground arith
    finish (x ∷ xs) l v w b = elim (Bool-cases (l == 0)) [
      | inl z ↦ rw z (ground (arith, value-append-zero (x ∷ xs)), w)
      | inr z ↦ rw z (v, All-append-one (x ∷ xs) l w (omega arith))
    ]

words_loop-value :
    (cs ws : List ℕ)
    → All IsWord ws
    → (words_value (words_loop ws cs)
        ≡ words_value ws * power_of_ten (length (digits cs)) + decimal_value (digits cs))
      × All IsWord (words_loop ws cs)
unfolding words_loop
words_loop-value [] ws h = (omega arith, h)
words_loop-value (c ∷ cs) ws h = elim (Bool-cases (ltb c b'0' || ltb b'9' c)) [
  | inl other ↦ rw other (words_loop-value cs ws h)
  | inr digit ↦
      let s = add_digit-value ws (c - b'0') h (ground arith) in
      let r = words_loop-value cs (add_digit ws (c - b'0')) s.1 in
      rw digit (r.0 ∙ rw s.0 (omega arith), r.1)
]

pop_zeros-value : (rs : List ℕ) → words_value (reverse (pop_zeros rs)) ≡ words_value (reverse rs)
unfolding pop_zeros
pop_zeros-value [] = refl
pop_zeros-value (w ∷ ws) = elim (Bool-cases (not (is_empty ws) && (w == 0))) [
  | inl z ↦
      rw (z, reverse-cons w ws)
        (pop_zeros-value ws ∙ ground (arith, value-append-zero (reverse ws)))
  | inr z ↦ rw z
]

pop_zeros-All : (rs : List ℕ) → All IsWord rs → All IsWord (pop_zeros rs)
unfolding pop_zeros
pop_zeros-All [] h = tt
pop_zeros-All (w ∷ ws) h = ground (arith, pop_zeros-All ws h.1)

pop_zeros-IsNormal : (rs : List ℕ) → IsNormal (pop_zeros rs)
unfolding pop_zeros
pop_zeros-IsNormal [] = tt
pop_zeros-IsNormal (w ∷ []) = ground arith
pop_zeros-IsNormal (w ∷ v ∷ ws) = ground (arith, pop_zeros-IsNormal (v ∷ ws))

All-reverse : (ws : List ℕ) → All IsWord ws → All IsWord (reverse ws)
All-reverse [] h = tt
All-reverse (w ∷ ws) h = rw reverse-cons (All-append-one (reverse ws) w (All-reverse ws h.1) h.0)

digits-advance :
    (cs : List ℕ) → (get_or cs 0 0 == b'-') ≡ true → digits (advance_cursor cs) ≡ digits cs
unfolding advance_cursor
digits-advance [] h = refl
digits-advance (c ∷ cs) h = ground arith

cursor : List ℕ → List ℕ
cursor cs = if get_or cs 0 0 == b'-' then advance_cursor cs else cs

digits-cursor : (cs : List ℕ) → digits (cursor cs) ≡ digits cs
unfolding cursor
digits-cursor cs = elim (Bool-cases (get_or cs 0 0 == b'-')) [
  | inl h ↦ rw h (digits-advance cs h)
  | inr h ↦ rw h
]

-- For every text the words stand for the number that its digits make up (a sign and all other
-- characters passed over), each fits in 64 bits, the most significant one is not 0 unless it is
-- the only one, and the flag says whether the text begins with a minus sign.
pub bigint_words-value :
    (cs : List ℕ)
    → let r = bigint_words_from_decimal_string cs in
      (words_value r.0 ≡ decimal_value (digits cs))
      × All IsWord r.0
      × IsNormal (reverse r.0)
      × (r.1 ≡ (get_or cs 0 0 == b'-'))
unfolding bigint_words_from_decimal_string cursor
bigint_words-value cs =
    let s = words_loop-value (cursor cs) [] tt in
    let ws = words_loop [] (cursor cs) in
    (
      pop_zeros-value (reverse ws)
          ∙ ap words_value (reverse-reverse ws)
          ∙ s.0
          ∙ rw digits-cursor (omega arith),
      All-reverse (pop_zeros (reverse ws)) (pop_zeros-All (reverse ws) (All-reverse ws s.1)),
      rw reverse-reverse (pop_zeros-IsNormal (reverse ws)),
      refl,
    )
