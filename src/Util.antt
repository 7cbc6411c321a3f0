-- ===== src/Util.antt =====
-- quickjs/src/internal/napi_util.cc: property keys that are array indices, the decimal texts of
-- bigints, and paths given as file URLs. A text is the list of its bytes.
pub mod Numbers
pub mod Urls
mod Tests
use napi.Prelude.{
  ℕ, zero, suc, ◌+◌, ◌-◌, ◌*◌, ◌%◌, ◌^◌, Bool, true, false, not, ◌&&◌, ◌||◌, Option, none, some,
  List, [], ◌∷◌, ◌++◌, bit_or, ltb, leb, ◌==◌, if◌then◌else◌, length, get_or, is_empty, take, drop,
}
use napi.Text.{decimal_digits_fit}

-- The loop of property_key_to_array_index, on a uint64_t; none where it leaves with no index.
index_loop : List ℕ → ℕ → Option ℕ
index_loop [] index = some index
index_loop (ch ∷ rest) index =
    let later = index_loop rest ((index * 10 + (ch - b'0')) % 2 ^ 64) in
    if ltb ch b'0' || ltb b'9' ch then none else later

abbrev pub max_array_index : ℕ
max_array_index = 2 ^ 32 - 1 - 1

-- property_key_to_array_index, for a key that is a string.
pub property_key_to_array_index : List ℕ → Option ℕ
unfolding index_loop
property_key_to_array_index text =
    let is_index =
      not (length text == 0)
      && leb (length text) 10
      && (length text == 1 || not (get_or text 0 0 == b'0')) in
    if not is_index then none else elim (index_loop text 0) [
      | none ↦ none
      | some index ↦ if ltb max_array_index index then none else some index
    ]

-- The literals that bigints are compared with.
abbrev pub min_signed64 : List ℕ
min_signed64 =
    b'9' ∷ b'2' ∷ b'2' ∷ b'3' ∷ b'3' ∷ b'7' ∷ b'2' ∷ b'0' ∷ b'3' ∷ b'6' ∷ b'8' ∷ b'5' ∷ b'4' ∷ b'7'
    ∷ b'7' ∷ b'5' ∷ b'8' ∷ b'0' ∷ b'8' ∷ []

abbrev pub max_signed64 : List ℕ
max_signed64 =
    b'9' ∷ b'2' ∷ b'2' ∷ b'3' ∷ b'3' ∷ b'7' ∷ b'2' ∷ b'0' ∷ b'3' ∷ b'6' ∷ b'8' ∷ b'5' ∷ b'4' ∷ b'7'
    ∷ b'7' ∷ b'5' ∷ b'8' ∷ b'0' ∷ b'7' ∷ []

abbrev pub max_unsigned64 : List ℕ
max_unsigned64 =
    b'1' ∷ b'8' ∷ b'4' ∷ b'4' ∷ b'6' ∷ b'7' ∷ b'4' ∷ b'4' ∷ b'0' ∷ b'7' ∷ b'3' ∷ b'7' ∷ b'0' ∷ b'9'
    ∷ b'5' ∷ b'5' ∷ b'1' ∷ b'6' ∷ b'1' ∷ b'5' ∷ []

-- bigint_fits_signed64 and bigint_fits_unsigned64, on the text that JS_ToCString gives.
pub bigint_fits_signed64 : List ℕ → Bool
bigint_fits_signed64 str =
    let negative = get_or str 0 0 == b'-' in
    decimal_digits_fit (if negative then drop 1 str else str)
      (if negative then min_signed64 else max_signed64)

pub bigint_fits_unsigned64 : List ℕ → Bool
bigint_fits_unsigned64 str = not (get_or str 0 0 == b'-') && decimal_digits_fit str max_unsigned64

-- hex_digit_value, none for -1.
pub hex_digit_value : ℕ → Option ℕ
hex_digit_value ch =
    if leb b'0' ch && leb ch b'9'
    then some (ch - b'0')
    else if leb b'a' ch && leb ch b'f'
    then some (10 + (ch - b'a'))
    else if leb b'A' ch && leb ch b'F'
    then some (10 + (ch - b'A'))
    else none

-- What the two digits after a `%` give, where they are digits: `(hi << 4) | lo`.
hex_pair : ℕ → ℕ → Option ℕ
unfolding hex_digit_value
hex_pair h l = elim (hex_digit_value h) [
  | none ↦ none
  | some hi ↦ (elim (hex_digit_value l) [ none ↦ none | some lo ↦ some (bit_or (hi * 2 ^ 4) lo) ])
]

pub percent_decode : List ℕ → List ℕ
unfolding hex_pair
percent_decode [] = []
percent_decode (c ∷ []) = c ∷ []
percent_decode (c ∷ h ∷ []) = c ∷ percent_decode (h ∷ [])
percent_decode (c ∷ h ∷ l ∷ rest) =
    let decoded = percent_decode rest in
    let kept = percent_decode (h ∷ l ∷ rest) in
    if c == b'%'
    then (elim (hex_pair h l) [ none ↦ c ∷ kept | some byte ↦ byte ∷ decoded ])
    else c ∷ kept

starts_with : List ℕ → List ℕ → Bool
starts_with value [] = true
starts_with [] (p ∷ prefix) = false
starts_with (v ∷ value) (p ∷ prefix) =
    let rest = starts_with value prefix in if v == p then rest else false

-- `rest.find('/')` and the erasure of what stands before it; none without a slash.
from_slash : List ℕ → Option (List ℕ)
from_slash [] = none
from_slash (c ∷ rest) = let later = from_slash rest in if c == b'/' then some (c ∷ rest) else later

abbrev pub file_scheme : List ℕ
file_scheme = b'f' ∷ b'i' ∷ b'l' ∷ b'e' ∷ b':' ∷ b'/' ∷ b'/' ∷ []

abbrev pub localhost : List ℕ
localhost = b'l' ∷ b'o' ∷ b'c' ∷ b'a' ∷ b'l' ∷ b'h' ∷ b'o' ∷ b's' ∷ b't' ∷ []

-- strip_file_url, with the path as its text.
pub strip_file_url : List ℕ → List ℕ
unfolding starts_with from_slash percent_decode
strip_file_url value =
    if not (starts_with value file_scheme)
    then value
    else let rest = drop 7 value in
      if starts_with rest (localhost ++ b'/' ∷ [])
      then percent_decode (drop 9 rest)
      else if not (is_empty rest) && not (get_or rest 0 0 == b'/')
      then (elim (from_slash rest) [ none ↦ [] | some path ↦ percent_decode path ])
      else percent_decode rest
