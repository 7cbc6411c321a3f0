-- ===== src/Text/Prefix.antt =====
-- What `complete_utf8_prefix_length` finds: the longest prefix made of whole characters.
use Prim.Native.Nat.add
use napi.Prelude.{
  ℕ, Bool, true, false, every, every_lem, All, ◌==◌, if◌then◌else◌, zero, suc, ◌+◌, ◌-◌, ◌≤◌, ◌<◌,
  ◌≡◌, refl, ap, ◌∙◌, ltb→lt, lt→ltb, inl, inr, Option, none, some, List, [], ◌∷◌, ◌++◌, arith, ltb,
  Bool-cases, Option-cases, length, length-drop, get_or, take, drop,
}
use napi.Util.Urls.{IsByte}
use native.Mathlib.Nat.{add-zero}
use napi.Text.{utf8_width, prefix_loop, complete_utf8_prefix_length}

-- The bytes of a character by its lead byte, in the ranges of the table of UTF-8. As in the code,
-- a lead byte counts whether or not a shortest encoding begins with it.
abbrev pub announced : ℕ → Option ℕ
announced c =
    if ltb c 0x80
    then some 1
    else if ltb c 0xc0
    then none
    else if ltb c 0xe0
    then some 2
    else if ltb c 0xf0
    then some 3
    else if ltb c 0xf8
    then some 4
    else none

-- The bytes of whole characters: each lead byte comes with as many bytes as it announces. What
-- bytes follow a lead byte is not looked at.
pub data Whole : List ℕ → Type 0 where
  done : Whole []
  char :
      (c : ℕ) (cs rest : List ℕ)
      → announced c ≡ some (suc (length cs))
      → Whole rest
      → Whole (c ∷ cs ++ rest)

-- No whole character stands at the front: there is no byte, or it announces no width, or more
-- bytes than there are.
pub data Stuck : List ℕ → Type 0 where
  empty : Stuck []
  bad_lead : (c : ℕ) (cs : List ℕ) → announced c ≡ none → Stuck (c ∷ cs)
  cut : (c : ℕ) (cs : List ℕ) (w : ℕ) → announced c ≡ some w → length cs < w - 1 → Stuck (c ∷ cs)

take_nil : (m : ℕ) → ◌≡◌ {A = List ℕ} [] (take m [])
take_nil zero = refl
take_nil (suc m) = refl

drop_nil : (m : ℕ) → ◌≡◌ {A = List ℕ} [] (drop m [])
drop_nil zero = refl
drop_nil (suc m) = refl

take_add : (n m : ℕ) (xs : List ℕ) → take (n + m) xs ≡ take n xs ++ take m (drop n xs)
take_add zero m xs = rw add.zero
take_add (suc n) m [] = rw add.suc (take_nil m)
take_add (suc n) m (x ∷ xs) = rw add.suc (ap (◌∷◌ x) (take_add n m xs))

pub drop_add : (n m : ℕ) (xs : List ℕ) → drop (n + m) xs ≡ drop m (drop n xs)
drop_add zero m xs = rw add.zero
drop_add (suc n) m [] = rw add.suc (drop_nil m)
drop_add (suc n) m (x ∷ xs) = rw add.suc (drop_add n m xs)

pub get_or-drop : (i j : ℕ) (xs : List ℕ) → get_or xs (i + j) 0 ≡ get_or (drop i xs) j 0
get_or-drop zero j xs = rw add.zero
get_or-drop (suc i) j [] = refl
get_or-drop (suc i) j (x ∷ xs) = rw add.suc (get_or-drop i j xs)

length-take_le : (n : ℕ) (xs : List ℕ) → n ≤ length xs → length (take n xs) ≡ n
length-take_le zero xs h = refl
length-take_le (suc n) [] h = elim h [ ]
length-take_le (suc n) (x ∷ xs) h = ap suc (length-take_le n xs (omega arith))

widths_eq : Option ℕ → Option ℕ → Bool
widths_eq none none = true
widths_eq (some v) (some w) = v == w
widths_eq _ _ = false

widths_eq_lem : (v w : Option ℕ) → widths_eq v w ≡ true → v ≡ w
unfolding widths_eq
widths_eq_lem none none e = refl
widths_eq_lem none (some w) e = absurd (ground (arith, e))
widths_eq_lem (some v) none e = absurd (ground (arith, e))
widths_eq_lem (some v) (some w) e = ap some (ground (arith, e))

same_width : ℕ → Bool
unfolding utf8_width widths_eq
same_width c = widths_eq (utf8_width c) (announced c)

width_table : every same_width 256 ≡ true
unfolding every same_width
width_table = refl

width-announced : (c : ℕ) → c < 256 → utf8_width c ≡ announced c
unfolding same_width
width-announced c b = widths_eq_lem _ _ (every_lem same_width 256 c b width_table)

get_or-IsByte : (str : List ℕ) (i : ℕ) → All IsByte str → get_or str i 0 < 256
get_or-IsByte [] i b = omega arith
get_or-IsByte (c ∷ cs) zero b = b.0
get_or-IsByte (c ∷ cs) (suc i) b = get_or-IsByte cs i b.1

width_pos : (c w : ℕ) → announced c ≡ some w → 0 < w
width_pos c w h = ground arith

Whole-take :
    (w m : ℕ) (xs : List ℕ)
    → announced (get_or xs 0 0) ≡ some w
    → w ≤ length xs
    → Whole (take m (drop w xs))
    → Whole (take (w + m) xs)
Whole-take zero m xs h f r = absurd (omega (arith, width_pos (get_or xs 0 0) zero h))
Whole-take (suc w) m [] h f r = elim f [ ]
Whole-take (suc w) m (c ∷ xs) h f r =
    rw (add.suc, take_add w m xs)
      (char c (take w xs) (take m (drop w xs)) (rw (length-take_le w xs (omega arith)) h) r)

abbrev Found : List ℕ → ℕ → Option ℕ → Type 0
Found str i r =
    (m : ℕ) × (r ≡ some (i + m))
    × (i + m ≤ length str)
    × Whole (take m (drop i str))
    × Stuck (drop m (drop i str))

-- The loop stops at the first index that no whole character starts at.
Found-here : (str : List ℕ) (i : ℕ) → i ≤ length str → Stuck (drop i str) → Found str i (some i)
Found-here str i f s = (0, ground arith, omega arith, done, s)

Stuck-short :
    (xs : List ℕ) (w : ℕ)
    → announced (get_or xs 0 0) ≡ some w
    → length xs < w
    → 0 < length xs
    → Stuck xs
Stuck-short [] w h f p = empty
Stuck-short (c ∷ xs) w h f p = cut c xs w h (omega arith)

Stuck-bad : (xs : List ℕ) → announced (get_or xs 0 0) ≡ none → 0 < length xs → Stuck xs
Stuck-bad [] h p = empty
Stuck-bad (c ∷ xs) h p = bad_lead c xs h

Stuck-end : (xs : List ℕ) → length xs ≡ 0 → Stuck xs
Stuck-end [] h = empty
Stuck-end (c ∷ xs) h = absurd (omega arith)

-- The step at a byte with a width: the recursive call is handed over.
step-Found :
    (k : ℕ) (str : List ℕ) (i w : ℕ)
    → i < length str
    → utf8_width (get_or str i 0) ≡ some w
    → announced (get_or str i 0) ≡ some w
    → (i + w ≤ length str → Found str (i + w) (prefix_loop k str (i + w)))
    → Found str i (prefix_loop (suc k) str i)
unfolding prefix_loop
step-Found k str i w h e d ih =
    let at : announced (get_or (drop i str) 0 0) ≡ some w =
      rw (← get_or-drop i 0 str, add-zero) d in
    let left : length (drop i str) ≡ length str - i = length-drop i str in
    elim (Bool-cases (ltb (length str) (i + w))) [
      | inl over ↦
          rw (lt→ltb _ _ h, e, over)
            (Found-here str i (omega arith)
              (Stuck-short (drop i str) w at (ground arith) (omega arith)))
      | inr fits ↦
          let (m, r, b, whole, stuck) = ih (ground arith) in
          rw (lt→ltb _ _ h, e, fits)
            (
              w + m,
              r ∙ ap some (omega arith),
              omega arith,
              Whole-take w m (drop i str) at (ground arith) (rw (← drop_add i w str) whole),
              rw (drop_add w m (drop i str), ← drop_add i w str) stuck,
            )
    ]

prefix_loop-Found :
    (k : ℕ) (str : List ℕ) (i : ℕ)
    → All IsByte str
    → i ≤ length str
    → length str < i + k
    → Found str i (prefix_loop k str i)
unfolding prefix_loop
prefix_loop-Found zero str i y h f = absurd (omega arith)
prefix_loop-Found (suc k) str i y h f = elim (Bool-cases (ltb i (length str))) [
  | inr end ↦
      rw end (Found-here str i h (Stuck-end (drop i str) (ground (arith, length-drop i str))))
  | inl more ↦
      (let same = width-announced (get_or str i 0) (get_or-IsByte str i y) in
        elim (Option-cases (announced (get_or str i 0))) [
          | inl bad ↦
              rw (more, same ∙ bad)
                (Found-here str i h (
                  Stuck-bad (drop i str) (rw (← get_or-drop i 0 str, add-zero) bad)
                    (ground (arith, length-drop i str))))
          | inr (w, e) ↦ step-Found k str i w (ltb→lt _ _ more) (same ∙ e) e λ b.
              prefix_loop-Found k str (i + w) y b (omega (arith, width_pos (get_or str i 0) w e))
        ])
]

-- For every text of bytes the function returns, without running out of rounds, a length within the
-- text such that the bytes before it are whole characters, each a lead byte and as many bytes after
-- it, of whatever kind, as its range announces, and at it no character stands whole: the text ends,
-- or the byte leads no character, or the text is shorter than it announces.
pub prefix-Whole :
    (str : List ℕ)
    → All IsByte str
    → (m : ℕ) × (complete_utf8_prefix_length str ≡ some m)
      × (m ≤ length str)
      × Whole (take m str)
      × Stuck (drop m str)
unfolding complete_utf8_prefix_length
prefix-Whole str y =
    let (m, r, b, whole, stuck) =
      prefix_loop-Found (suc (length str)) str 0 y (omega arith) (omega arith) in
    (m, r ∙ ap some (omega arith), omega arith, whole, stuck)
