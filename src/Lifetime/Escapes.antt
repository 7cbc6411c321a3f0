-- ===== src/Lifetime/Escapes.antt =====
-- What escaped_value_fragment prints: printable text, from which the bytes can be read back.
use napi.Prelude.{
  ℕ, every, every_lem, zero, suc, ◌+◌, ◌-◌, ◌*◌, ◌/◌, ◌^◌, ◌≤◌, ◌<◌, ◌≡◌, refl, ap, sym, ◌∙◌, Bool,
  true, not, ◌&&◌, Option, none, some, List, [], ◌∷◌, ◌++◌, arith, ltb, leb, ◌==◌, if◌then◌else◌,
  Bool-cases, length, length-append, All, take, bit_and, inl, inr,
}
use napi.Lifetime.{
  hex_digit, append_hex_escape, escape_byte, escape_loop, dump_max_bytes, escaped_value_fragment,
}

abbrev pub IsByte : ℕ → Type 0
IsByte c = c < 256

abbrev pub IsPrintable : ℕ → Type 0
IsPrintable c = (0x20 ≤ c) × (c ≤ 0x7e)

-- The value of a digit that append_hex_escape writes.
abbrev hex_value : ℕ → ℕ
hex_value d = if ltb d b'a' then d - b'0' else d - b'a' + 10

-- One byte read back from the front of an escaped text, and what follows it.
abbrev pub unescape : List ℕ → Option (ℕ × List ℕ)
unescape [] = none
unescape (c ∷ []) = some (c, [])
unescape (c ∷ d ∷ []) =
    if not (c == 0x5c)
    then some (c, d ∷ [])
    else some (
      (if d == b'n' then 0x0a else if d == b'r' then 0x0d else if d == b't' then 0x09 else d),
      [],
    )
unescape (c ∷ d ∷ h ∷ []) =
    if not (c == 0x5c)
    then some (c, d ∷ h ∷ [])
    else some (
      (if d == b'n' then 0x0a else if d == b'r' then 0x0d else if d == b't' then 0x09 else d),
      h ∷ [],
    )
unescape (c ∷ d ∷ h ∷ l ∷ rest) =
    if not (c == 0x5c)
    then some (c, d ∷ h ∷ l ∷ rest)
    else if d == b'x'
    then some (hex_value h * 16 + hex_value l, rest)
    else some (
      (if d == b'n' then 0x0a else if d == b'r' then 0x0d else if d == b't' then 0x09 else d),
      h ∷ l ∷ rest,
    )

hex_ok : ℕ → Bool
hex_ok c =
    let h = hex_digit (bit_and (c / 2 ^ 4) 0x0f) in
    let l = hex_digit (bit_and c 0x0f) in
    (hex_value h * 16 + hex_value l == c)
    && (leb 0x20 h && leb h 0x7e)
    && (leb 0x20 l && leb l 0x7e)

hex_table : every hex_ok 256 ≡ true
unfolding every hex_ok hex_digit
hex_table = refl

unescape-byte :
    (c : ℕ) (rest : List ℕ) → IsByte c → unescape (escape_byte c ++ rest) ≡ some (c, rest)
unfolding escape_byte append_hex_escape hex_ok
unescape-byte c [] b = let t = every_lem hex_ok 256 c b hex_table in ground arith
unescape-byte c (d ∷ []) b = let t = every_lem hex_ok 256 c b hex_table in ground arith
unescape-byte c (d ∷ e ∷ []) b = let t = every_lem hex_ok 256 c b hex_table in ground arith
unescape-byte c (d ∷ e ∷ f ∷ rest) b = let t = every_lem hex_ok 256 c b hex_table in ground arith

-- Different values are printed differently, as far as they are printed.
pub escape-injective :
    (xs ys : List ℕ) → All IsByte xs → All IsByte ys → escape_loop xs ≡ escape_loop ys → xs ≡ ys
unfolding escape_loop
escape-injective [] [] b c e = refl
escape-injective [] (y ∷ ys) b c e =
    let q = ap unescape e in let u = unescape-byte y (escape_loop ys) c.0 in cc
escape-injective (x ∷ xs) [] b c e =
    let q = ap unescape e in let u = unescape-byte x (escape_loop xs) b.0 in cc
escape-injective (x ∷ xs) (y ∷ ys) b c e =
    let q =
      sym (unescape-byte x (escape_loop xs) b.0)
      ∙ ap unescape e
      ∙ unescape-byte y (escape_loop ys) c.0 in
    let h : x ≡ y = ground arith in
    let t = escape-injective xs ys b.1 c.1 (ground arith) in ground arith

escape_byte-IsPrintable :
    (c : ℕ) → IsByte c → All IsPrintable (escape_byte c) × (length (escape_byte c) ≤ 4)
unfolding escape_byte append_hex_escape hex_ok
escape_byte-IsPrintable c b = let t = every_lem hex_ok 256 c b hex_table in ground arith

All-append : (xs ys : List ℕ) → All IsPrintable xs → All IsPrintable ys → All IsPrintable (xs ++ ys)
All-append [] ys h k = k
All-append (x ∷ xs) ys h k = (h.0, All-append xs ys h.1 k)

escape_loop-IsPrintable :
    (cs : List ℕ)
    → All IsByte cs
    → All IsPrintable (escape_loop cs) × (length (escape_loop cs) ≤ 4 * length cs)
unfolding escape_loop
escape_loop-IsPrintable [] b = (tt, omega arith)
escape_loop-IsPrintable (c ∷ cs) b =
    let h = escape_byte-IsPrintable c b.0 in
    let k = escape_loop-IsPrintable cs b.1 in
    (
      All-append (escape_byte c) (escape_loop cs) h.0 k.0,
      omega (arith, h.1, k.1, length-append (escape_byte c) (escape_loop cs)),
    )

take-All : (n : ℕ) (cs : List ℕ) → All IsByte cs → All IsByte (take n cs)
take-All zero cs b = tt
take-All (suc n) [] b = tt
take-All (suc n) (c ∷ cs) b = (b.0, take-All n cs b.1)

length-take : (n : ℕ) (cs : List ℕ) → length (take n cs) ≤ n
length-take zero cs = omega arith
length-take (suc n) [] = omega arith
length-take (suc n) (c ∷ cs) = omega (arith, length-take n cs)

-- Whatever the bytes of a value, its dump is printable ASCII of at most 963 characters.
pub fragment-IsPrintable :
    (cs : List ℕ)
    → All IsByte cs
    → All IsPrintable (escaped_value_fragment cs) × (length (escaped_value_fragment cs) ≤ 963)
unfolding escaped_value_fragment
fragment-IsPrintable cs b =
    let limit = if ltb (length cs) dump_max_bytes then length cs else dump_max_bytes in
    let k = escape_loop-IsPrintable (take limit cs) (take-All limit cs b) in
    let n = length-take limit cs in
    let m : limit ≤ 240 = ground arith in
    elim (Bool-cases (ltb limit (length cs))) [
      | inl more ↦ rw more (
        All-append (escape_loop (take limit cs)) (b'.' ∷ b'.' ∷ b'.' ∷ []) k.0 (omega arith),
        omega (arith, k.1, length-append (escape_loop (take limit cs)) (b'.' ∷ b'.' ∷ b'.' ∷ [])),
      )
      | inr whole ↦ rw whole (
        All-append (escape_loop (take limit cs)) [] k.0 tt,
        omega (arith, k.1, length-append {0} (escape_loop (take limit cs)) []),
      )
    ]
