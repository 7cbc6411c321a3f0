-- ===== src/Text/Tests.antt =====
-- Runs of the text functions, and the theorems at those texts.
use Prim.Native.Char.{code}
use Prim.Native.String.{String}
use napi.Prelude.{ℕ, ◌≤◌, take, drop, ◌≡◌, refl, true, false, some, List, [], ◌∷◌, arith}
use napi.Text.{
  decimal_digits_fit, bigint_words_from_decimal_string, decode_at, utf8_to_latin1,
  complete_utf8_prefix_length,
}
use napi.Text.Words.{bigint_words-value, words_value}
use napi.Text.Latin1.{encode_latin1, utf8_to_latin1-encode}
use napi.Text.Prefix.{prefix-Whole, Whole, Stuck}

abbrev codes : String → List ℕ
codes String.[] = []
codes (String.◌∷◌ c s) = code c ∷ codes s

-- 2^64 + 5, with a sign and a separator.
big_words : bigint_words_from_decimal_string (codes "-18446744073_709551621") ≡ (5 ∷ 1 ∷ [], true)
unfolding bigint_words_from_decimal_string
big_words = refl

small_words : bigint_words_from_decimal_string (codes "0") ≡ (0 ∷ [], false)
unfolding bigint_words_from_decimal_string
small_words = refl

no_words : bigint_words_from_decimal_string [] ≡ ([], false)
unfolding bigint_words_from_decimal_string
no_words = refl

fit_test : decimal_digits_fit (codes "000255") (codes "255") ≡ true
unfolding decimal_digits_fit
fit_test = refl

-- "a", then the first two of the three bytes of U+20AC.
cut_euro : complete_utf8_prefix_length (b'a' ∷ 0xe2 ∷ 0x82 ∷ []) ≡ some 1
unfolding complete_utf8_prefix_length
cut_euro = refl

euro :
    utf8_to_latin1 (b'a' ∷ 0xe2 ∷ 0x82 ∷ 0xac ∷ 0xc3 ∷ 0xa9 ∷ []) ≡ some (b'a' ∷ b'?' ∷ 0xe9 ∷ [])
unfolding utf8_to_latin1 decode_at
euro = refl

bigint_words-value_example :
    words_value (bigint_words_from_decimal_string (codes "-36893488147419103235")).0
    ≡ 36893488147419103235
bigint_words-value_example = (bigint_words-value (codes "-36893488147419103235")).0

utf8_to_latin1-encode_example :
    utf8_to_latin1 (encode_latin1 (b'a' ∷ 0xe9 ∷ [])) ≡ some (b'a' ∷ 0xe9 ∷ [])
utf8_to_latin1-encode_example = utf8_to_latin1-encode (b'a' ∷ 0xe9 ∷ []) (omega arith)

prefix-Whole_example :
    (m : ℕ) × (complete_utf8_prefix_length (b'a' ∷ 0xe2 ∷ 0x82 ∷ []) ≡ some m)
    × (m ≤ 3)
    × Whole (take m (b'a' ∷ 0xe2 ∷ 0x82 ∷ []))
    × Stuck (drop m (b'a' ∷ 0xe2 ∷ 0x82 ∷ []))
prefix-Whole_example =
    prefix-Whole (b'a' ∷ 0xe2 ∷ 0x82 ∷ []) (omega arith, (omega arith, (omega arith, tt)))
