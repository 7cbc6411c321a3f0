-- ===== src/Text/Latin1.antt =====
-- `utf8_to_latin1` undoes the UTF-8 encoding of Latin-1 text.
use napi.Prelude.{
  ℕ, every, every_lem, zero, suc, ◌+◌, ◌-◌, ◌*◌, ◌/◌, ◌%◌, ◌^◌, ◌≤◌, ◌<◌, ◌≡◌, refl, sym, ap, ◌∙◌,
  inl, inr, Bool, true, not, ◌&&◌, some, List, [], ◌∷◌, ◌++◌, arith, ltb, leb, ◌==◌, if◌then◌else◌,
  Bool-cases, length, get_or, All, bit_and, bit_or, lt→ltb, drop, length-drop,
}
use native.Mathlib.Nat.{add-zero}
use napi.Text.{decode_at, latin1_loop, utf8_to_latin1}
use napi.Text.Prefix.{drop_add, get_or-drop}

-- U+0000 to U+00FF in UTF-8: one byte below 0x80, two from there on.
abbrev encode_byte : ℕ → List ℕ
encode_byte c = if ltb c 0x80 then c ∷ [] else (0xc0 + c / 64) ∷ (0x80 + c % 64) ∷ []

abbrev pub encode_latin1 : List ℕ → List ℕ
encode_latin1 [] = []
encode_latin1 (c ∷ cs) = encode_byte c ++ encode_latin1 cs

abbrev pub IsByte : ℕ → Type 0
IsByte c = c < 256

ascii_ok : ℕ → Bool
ascii_ok c =
    not (bit_and c 0xe0 == 0xc0) && not (bit_and c 0xf0 == 0xe0) && not (bit_and c 0xf8 == 0xf0)

ascii_table : every ascii_ok 0x80 ≡ true
unfolding every ascii_ok
ascii_table = refl

pair_ok : ℕ → Bool
pair_ok k =
    let c = k + 0x80 in
    (bit_and (0xc0 + c / 64) 0xe0 == 0xc0)
    && (bit_or (bit_and (0xc0 + c / 64) 0x1f * 2 ^ 6) (bit_and (0x80 + c % 64) 0x3f) == c)

pair_table : every pair_ok 0x80 ≡ true
unfolding every pair_ok
pair_table = refl

-- The step at an encoded byte.
decode-ascii :
    (str cs : List ℕ) (i c : ℕ) → c < 0x80 → drop i str ≡ c ∷ cs → decode_at str i ≡ (c, 1)
unfolding decode_at ascii_ok
decode-ascii str cs i c h e =
    let g : get_or str i 0 ≡ c =
      ap (λ n. get_or str n 0) (sym (add-zero i))
      ∙ get_or-drop i 0 str
      ∙ ap (λ l. get_or l 0 0) e in
    rw g (ground (arith, every_lem ascii_ok 0x80 c h ascii_table))

decode-pair :
    (str cs : List ℕ) (i c : ℕ)
    → 0x80 ≤ c
    → c < 256
    → drop i str ≡ (0xc0 + c / 64) ∷ (0x80 + c % 64) ∷ cs
    → decode_at str i ≡ (c, 2)
unfolding decode_at pair_ok
decode-pair str cs i c l h e =
    let g : get_or str i 0 ≡ 0xc0 + c / 64 =
      ap (λ n. get_or str n 0) (sym (add-zero i))
      ∙ get_or-drop i 0 str
      ∙ ap (λ x. get_or x 0 0) e in
    let g' : get_or str (i + 1) 0 ≡ 0x80 + c % 64 =
      get_or-drop i 1 str ∙ ap (λ x. get_or x 1 0) e in
    let n : i + 1 < length str = omega (arith, length-drop i str, ap length e) in
    let k : c - 0x80 + 0x80 ≡ c = omega arith in
    let t = every_lem pair_ok 0x80 (c - 0x80) (omega arith) pair_table in
    rw (g, g', lt→ltb (i + 1) (length str) n) (ground (arith, k, (rw k at t)))

drop-tail : (str xs ys : List ℕ) (i : ℕ) → drop i str ≡ xs ++ ys → drop (i + length xs) str ≡ ys
drop-tail str xs ys i e = drop_add i (length xs) str ∙ ap (drop (length xs)) e ∙ drop_all xs
  where
    drop_all : (zs : List ℕ) → drop (length zs) (zs ++ ys) ≡ ys
    drop_all [] = refl
    drop_all (z ∷ zs) = drop_all zs

latin1_loop-encode :
    (k : ℕ) (str cs : List ℕ) (i : ℕ)
    → All IsByte cs
    → drop i str ≡ encode_latin1 cs
    → length cs < k
    → latin1_loop k str i ≡ some cs
unfolding latin1_loop
latin1_loop-encode zero str cs i b e f = absurd (omega arith)
latin1_loop-encode (suc k) str [] i b e f = ground (arith, length-drop i str, ap length e)
latin1_loop-encode (suc k) str (c ∷ cs) i b e f = elim (Bool-cases (ltb c 0x80)) [
  | inl low ↦
      let e' : drop i str ≡ c ∷ encode_latin1 cs = e ∙ rw low refl in
      let ih =
        latin1_loop-encode k str cs (i + 1) b.1 (drop-tail str (c ∷ []) (encode_latin1 cs) i e')
          (omega arith) in
      let d = decode-ascii str (encode_latin1 cs) i c (ground arith) e' in
      ground (arith, d, ih, length-drop i str, ap length e')
  | inr high ↦
      let e' : drop i str ≡ (0xc0 + c / 64) ∷ (0x80 + c % 64) ∷ encode_latin1 cs =
        e ∙ rw high refl in
      let ih =
        latin1_loop-encode k str cs (i + 2) b.1
          (drop-tail str ((0xc0 + c / 64) ∷ (0x80 + c % 64) ∷ []) (encode_latin1 cs) i e')
          (omega arith) in
      let d = decode-pair str (encode_latin1 cs) i c (ground arith) b.0 e' in
      ground (arith, d, ih, length-drop i str, ap length e')
]

length-encode : (cs : List ℕ) → length cs ≤ length (encode_latin1 cs)
length-encode [] = omega arith
length-encode (c ∷ cs) = ground (arith, length-encode cs)

-- A Latin-1 text that is encoded in UTF-8 comes back byte for byte.
pub utf8_to_latin1-encode :
    (cs : List ℕ) → All IsByte cs → utf8_to_latin1 (encode_latin1 cs) ≡ some cs
unfolding utf8_to_latin1
utf8_to_latin1-encode cs b =
    latin1_loop-encode (suc (length (encode_latin1 cs))) (encode_latin1 cs) cs 0 b refl
      (omega (arith, length-encode cs))

decode-advance : (str : List ℕ) (i : ℕ) → 1 ≤ (decode_at str i).1
unfolding decode_at
decode-advance str i = ground arith

latin1_loop-total :
    (k : ℕ) (str : List ℕ) (i : ℕ)
    → length str - i < k
    → (out : List ℕ) × (latin1_loop k str i ≡ some out)
      × (length out ≤ length str - i)
      × All IsByte out
unfolding latin1_loop
latin1_loop-total zero str i f = elim f [ ]
latin1_loop-total (suc k) str i f = elim (Bool-cases (ltb i (length str))) [
  | inr end ↦ ([], rw end, omega arith, tt)
  | inl more ↦
      let cp = (decode_at str i).0 in
      let a = decode-advance str i in
      let (out, e, n, b) = latin1_loop-total k str (i + (decode_at str i).1) (ground arith) in
      ((if leb cp 0xff then cp else b'?') ∷ out, rw (more, e), ground arith, (ground arith, b))
]

-- On every text the conversion returns, without running out of rounds, a text of bytes that is no
-- longer.
pub utf8_to_latin1-total :
    (str : List ℕ)
    → (out : List ℕ) × (utf8_to_latin1 str ≡ some out) × (length out ≤ length str) × All IsByte out
unfolding utf8_to_latin1
utf8_to_latin1-total str =
    let (out, e, n, b) = latin1_loop-total (suc (length str)) str 0 (omega arith) in
    (out, e, omega arith, b)
