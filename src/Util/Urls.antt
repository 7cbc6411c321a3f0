-- ===== src/Util/Urls.antt =====
-- Percent-decoding undoes percent-encoding.
use napi.Prelude.{
  ℕ, every, every_lem, ◌+◌, ◌-◌, ◌/◌, ◌%◌, ◌^◌, ◌<◌, ◌≡◌, refl, ap, ◌∙◌, Bool, true, false, none,
  some, List, [], ◌∷◌, ◌++◌, arith, ltb, ◌==◌, if◌then◌else◌, Bool-cases, All, inl, inr,
}
use napi.Util.{
  hex_digit_value, hex_pair, percent_decode, starts_with, strip_file_url, file_scheme, localhost,
}

abbrev pub IsByte : ℕ → Type 0
IsByte c = c < 256

-- An upper case hexadecimal digit.
abbrev pub digit : ℕ → ℕ
digit d = if ltb d 10 then b'0' + d else b'A' + (d - 10)

-- Every byte but those that `keep` keeps as `%` and two digits.
abbrev pub percent_encode : (ℕ → Bool) → List ℕ → List ℕ
percent_encode keep [] = []
percent_encode keep (c ∷ cs) =
    if keep c
    then c ∷ percent_encode keep cs
    else b'%' ∷ digit (c / 2 ^ 4) ∷ digit (c % 2 ^ 4) ∷ percent_encode keep cs

pair_ok : ℕ → Bool
pair_ok c = elim (hex_pair (digit (c / 2 ^ 4)) (digit (c % 2 ^ 4))) [
  | none ↦ false
  | some byte ↦ byte == c
]

pair_table : every pair_ok 256 ≡ true
unfolding every pair_ok hex_pair hex_digit_value
pair_table = refl

pair-byte : (c : ℕ) → IsByte c → hex_pair (digit (c / 2 ^ 4)) (digit (c % 2 ^ 4)) ≡ some c
unfolding pair_ok
pair-byte c b = let t = every_lem pair_ok 256 c b pair_table in ground arith

decode-plain :
    (c : ℕ) (rest : List ℕ)
    → (c == b'%') ≡ false
    → percent_decode (c ∷ rest) ≡ c ∷ percent_decode rest
unfolding percent_decode
decode-plain c [] e = refl
decode-plain c (h ∷ []) e = refl
decode-plain c (h ∷ l ∷ rest) e = rw e refl

decode-pair :
    (c h l : ℕ) (rest : List ℕ)
    → hex_pair h l ≡ some c
    → percent_decode (b'%' ∷ h ∷ l ∷ rest) ≡ c ∷ percent_decode rest
unfolding percent_decode
decode-pair c h l rest e = rw e refl

kept-plain : (keep : ℕ → Bool) (c : ℕ) → keep b'%' ≡ false → keep c ≡ true → (c == b'%') ≡ false
kept-plain keep c k e = elim (Bool-cases (c == b'%')) [
  | inl h ↦ (let same : c ≡ b'%' = ground (arith, h) in let q = ap keep same in cc)
  | inr h ↦ h
]

-- Bytes that were percent-encoded, all but some that may be kept but never a `%`, decode to
-- themselves.
pub percent_decode-encode :
    (keep : ℕ → Bool) (cs : List ℕ)
    → keep b'%' ≡ false
    → All IsByte cs
    → percent_decode (percent_encode keep cs) ≡ cs
unfolding percent_decode
percent_decode-encode keep [] k b = refl
percent_decode-encode keep (c ∷ cs) k b =
    let ih = percent_decode-encode keep cs k b.1 in
    elim (Bool-cases (keep c)) [
      | inl e ↦ rw e (
          decode-plain c (percent_encode keep cs) (kept-plain keep c k e)
          ∙ ap (λ (x : List ℕ). c ∷ x) ih)
      | inr e ↦ rw e (
          decode-pair c (digit (c / 2 ^ 4)) (digit (c % 2 ^ 4)) (percent_encode keep cs)
            (pair-byte c b.0)
          ∙ ap (λ (x : List ℕ). c ∷ x) ih)
    ]

-- A path of bytes that begins with a slash, percent-encoded but for bytes that may be kept, `/`
-- always and `%` never among them, comes back as the path, after `file://` and after
-- `file://localhost`.
pub strip_file_url-encode :
    (keep : ℕ → Bool) (cs : List ℕ)
    → keep b'%' ≡ false
    → keep b'/' ≡ true
    → All IsByte cs
    → (strip_file_url (file_scheme ++ percent_encode keep (b'/' ∷ cs)) ≡ b'/' ∷ cs)
      × (strip_file_url (file_scheme ++ localhost ++ percent_encode keep (b'/' ∷ cs)) ≡ b'/' ∷ cs)
unfolding strip_file_url starts_with
strip_file_url-encode keep cs k s b =
    let e : percent_decode (b'/' ∷ percent_encode keep cs) ≡ b'/' ∷ cs =
      decode-plain b'/' (percent_encode keep cs) refl
      ∙ ap (λ (x : List ℕ). b'/' ∷ x) (percent_decode-encode keep cs k b) in
    rw s (e, e)
