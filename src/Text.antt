-- ===== src/Text.antt =====
-- lib/src/napi_text.cc. A text is the list of its bytes, without the terminator of a C string:
-- a read at its end gives 0, as the terminator does, and `strlen` is `length`.
pub mod Decimal
pub mod Words
pub mod Prefix
pub mod Latin1
mod Tests
use napi.Prelude.{
  ℕ, zero, suc, ◌+◌, ◌-◌, ◌*◌, ◌/◌, ◌%◌, ◌^◌, Bool, true, false, not, ◌&&◌, ◌||◌, Option, none,
  some, List, [], ◌∷◌, ◌++◌, bit_and, bit_or, ltb, leb, ◌==◌, if◌then◌else◌, length, get_or,
  is_empty, map, reverse,
}

-- decimal_digits_fit

-- `while (*value == '0' && value[1] != '\0') ++value;`
skip_zeros : List ℕ → List ℕ
skip_zeros [] = []
skip_zeros (c ∷ cs) =
    let rest = skip_zeros cs in if (c == b'0') && not (get_or cs 0 0 == 0) then rest else c ∷ cs

-- `strcmp(a, b) <= 0`: the first bytes that differ decide, and a shorter text is the smaller.
strcmp_le : List ℕ → List ℕ → Bool
strcmp_le [] ys = true
strcmp_le (x ∷ xs) [] = false
strcmp_le (x ∷ xs) (y ∷ ys) = let rest = strcmp_le xs ys in if x == y then rest else ltb x y

pub decimal_digits_fit : List ℕ → List ℕ → Bool
unfolding skip_zeros strcmp_le
decimal_digits_fit value max =
    let value' = skip_zeros value in
    if not (length value' == length max)
    then ltb (length value') (length max)
    else strcmp_le value' max

-- bigint_words_from_decimal_string

-- The inner loop: `next` is the 128-bit `words[i] * 10 + carry`; its low 64 bits are the new word
-- and its high ones, as an `unsigned`, the next carry. The result is the words and the last carry.
add_digit_loop : List ℕ → ℕ → List ℕ × ℕ
add_digit_loop [] carry = ([], carry)
add_digit_loop (w ∷ ws) carry =
    let next = (w * 10 + carry) % 2 ^ 128 in
    let (rest, last) = add_digit_loop ws (next / 2 ^ 64 % 2 ^ 32) in (next % 2 ^ 64 ∷ rest, last)

-- One round of the outer loop at a digit: the carry is pushed unless it is 0 and there are words.
add_digit : List ℕ → ℕ → List ℕ
unfolding add_digit_loop
add_digit words digit =
    let (ws, carry) = add_digit_loop words digit in
    if not (carry == 0) || is_empty ws then ws ++ carry ∷ [] else ws

is_digit : ℕ → Bool
is_digit c = not (ltb c b'0' || ltb b'9' c)

-- The outer loop, from the cursor: other characters are passed over.
words_loop : List ℕ → List ℕ → List ℕ
unfolding add_digit is_digit
words_loop words [] = words
words_loop words (c ∷ cs) = words_loop (if is_digit c then add_digit words (c - b'0') else words) cs

-- `while (words.size() > 1 && words.back() == 0) words.pop_back();` on the reversed words.
pop_zeros : List ℕ → List ℕ
pop_zeros [] = []
pop_zeros (w ∷ ws) =
    let rest = pop_zeros ws in if not (is_empty ws) && (w == 0) then rest else w ∷ ws

-- `++cursor`
advance_cursor : List ℕ → List ℕ
advance_cursor [] = []
advance_cursor (c ∷ cs) = cs

-- The words, least significant first, and `*negative`.
pub bigint_words_from_decimal_string : List ℕ → List ℕ × Bool
unfolding words_loop pop_zeros advance_cursor
bigint_words_from_decimal_string decimal =
    let negative = get_or decimal 0 0 == b'-' in
    (
      reverse (
          pop_zeros
            (reverse (words_loop [] (if negative then advance_cursor decimal else decimal)))),
      negative,
    )

-- utf8_to_latin1

-- The code point and the advance at index `i`.
decode_at : List ℕ → ℕ → ℕ × ℕ
decode_at str i =
    let c = get_or str i 0 in
    let len = length str in
    if (bit_and c 0xe0 == 0xc0) && ltb (i + 1) len
    then (bit_or (bit_and c 0x1f * 2 ^ 6) (bit_and (get_or str (i + 1) 0) 0x3f), 2)
    else if (bit_and c 0xf0 == 0xe0) && ltb (i + 2) len
    then (
      bit_or (bit_or (bit_and c 0x0f * 2 ^ 12) (bit_and (get_or str (i + 1) 0) 0x3f * 2 ^ 6))
          (bit_and (get_or str (i + 2) 0) 0x3f),
      3,
    )
    else if (bit_and c 0xf8 == 0xf0) && ltb (i + 3) len
    then (b'?', 4)
    else (c, 1)

-- The loop with `rounds` left; `none` when they run out.
latin1_loop : ℕ → List ℕ → ℕ → Option (List ℕ)
latin1_loop zero str i = none
latin1_loop (suc k) str i =
    let (cp, advance) = decode_at str i in
    let rest = latin1_loop k str (i + advance) in
    if ltb i (length str)
    then (elim rest [ none ↦ none | some out ↦ some ((if leb cp 0xff then cp else b'?') ∷ out) ])
    else some []

-- Every round advances, so one more round than there are bytes is enough.
pub utf8_to_latin1 : List ℕ → Option (List ℕ)
unfolding latin1_loop
utf8_to_latin1 str = latin1_loop (suc (length str)) str 0

-- complete_utf8_prefix_length

-- The width that a lead byte announces; `none` is the `break` of the last branch.
pub utf8_width : ℕ → Option ℕ
utf8_width c =
    if bit_and c 0x80 == 0
    then some 1
    else if bit_and c 0xe0 == 0xc0
    then some 2
    else if bit_and c 0xf0 == 0xe0
    then some 3
    else if bit_and c 0xf8 == 0xf0
    then some 4
    else none

prefix_loop : ℕ → List ℕ → ℕ → Option ℕ
unfolding utf8_width
prefix_loop zero str i = none
prefix_loop (suc k) str i =
    if ltb i (length str)
    then (elim (utf8_width (get_or str i 0)) [
      | none ↦ some i
      | some width ↦
          let rest = prefix_loop k str (i + width) in
          if ltb (length str) (i + width) then some i else rest
    ])
    else some i

pub complete_utf8_prefix_length : List ℕ → Option ℕ
unfolding prefix_loop
complete_utf8_prefix_length str = prefix_loop (suc (length str)) str 0
