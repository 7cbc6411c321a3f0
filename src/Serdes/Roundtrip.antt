-- ===== src/Serdes/Roundtrip.antt =====
-- What is written is read back.
use napi.Prelude.{
  ℕ, zero, suc, ◌+◌, ◌*◌, ◌/◌, ◌%◌, ◌^◌, ◌<◌, ◌≡◌, refl, ap, sym, ◌∙◌, Bool, true, ◌&&◌, Option,
  none, some, List, [], ◌∷◌, ◌++◌, append_assoc, append-nil, arith, ltb, length, length-append,
  drop,
}
use napi.Serdes.{
  little_endian, append_little_endian, read_loop, read_little_endian, Deserializer, write_uint32,
  write_uint64, read_uint32, read_uint64,
}

-- The values of so many bytes.
abbrev bound : ℕ → ℕ
bound zero = 1
bound (suc n) = 256 * bound n

read-little_endian :
    (n v : ℕ) (post : List ℕ) → v < bound n → read_loop n (little_endian n v ++ post) ≡ v
unfolding read_loop little_endian
read-little_endian zero v post b = omega (arith, b)
read-little_endian (suc n) v post b =
    omega (arith, read-little_endian n (v / 256) post (omega (arith, b)))

length-little_endian : (n v : ℕ) → length (little_endian n v) ≡ n
unfolding little_endian
length-little_endian zero v = refl
length-little_endian (suc n) v = ap suc (length-little_endian n (v / 256))

drop-append : (xs ys : List ℕ) → drop (length xs) (xs ++ ys) ≡ ys
drop-append [] ys = refl
drop-append (x ∷ xs) ys = drop-append xs ys

read-append :
    (n v : ℕ) (pre post : List ℕ)
    → v < bound n
    → n < 9
    → read_little_endian (pre ++ (little_endian n v ++ post)) (length pre) n
      ≡ some (v, length pre + n)
unfolding read_little_endian
read-append n v pre post b w =
    let le = little_endian n v in
    let size = length-append pre (le ++ post) in
    let size2 = length-append le post in
    let size3 = length-little_endian n v in
    rw (drop-append pre (le ++ post), read-little_endian n v post b)
      (ground (arith, size, size2, size3, w))

-- A number that is written: one of 32 bits, or one of 64 by its halves.
pub data Item : Type 0 where
  uint32 : ℕ → Item
  uint64 : ℕ → ℕ → Item

abbrev pub fits : List Item → Bool
fits [] = true
fits (uint32 v ∷ items) = ltb v (2 ^ 32) && fits items
fits (uint64 hi lo ∷ items) = ltb hi (2 ^ 32) && ltb lo (2 ^ 32) && fits items

abbrev pub write_item : Item → List ℕ → List ℕ
write_item (uint32 v) bytes = write_uint32 v bytes
write_item (uint64 hi lo) bytes = write_uint64 hi lo bytes

abbrev pub write_items : List Item → List ℕ → List ℕ
write_items [] bytes = bytes
write_items (item ∷ items) bytes = write_items items (write_item item bytes)

-- Reading numbers of the same kinds.
abbrev pub read_item : Item → Deserializer → Option (Item × Deserializer)
read_item (uint32 v) d = elim (read_uint32 d) [ none ↦ none | some (w, e) ↦ some (uint32 w, e) ]
read_item (uint64 hi lo) d = elim (read_uint64 d) [
  | none ↦ none
  | some ((h, l), e) ↦ some (uint64 h l, e)
]

abbrev pub read_items : List Item → Deserializer → Option (List Item × Deserializer)
read_items [] d = some ([], d)
read_items (item ∷ items) d = elim (read_item item d) [
  | none ↦ none
  | some (read, e) ↦ (elim (read_items items e) [
    | none ↦ none
    | some (rest, f) ↦ some (read ∷ rest, f)
  ])
]

abbrev width : Item → ℕ
width (uint32 v) = 4
width (uint64 hi lo) = 8

abbrev encoded : Item → List ℕ
encoded (uint32 v) = little_endian 4 v
encoded (uint64 hi lo) = little_endian 8 (hi * 2 ^ 32 + lo)

write-encoded : (item : Item) (bytes : List ℕ) → write_item item bytes ≡ bytes ++ encoded item
unfolding write_uint32 write_uint64 append_little_endian
write-encoded (uint32 v) bytes = refl
write-encoded (uint64 hi lo) bytes = refl

read_uint32-append :
    (v : ℕ) (pre post : List ℕ)
    → v < 2 ^ 32
    → let bytes = pre ++ (little_endian 4 v ++ post) in
      read_uint32 (record { bytes = bytes; offset = length pre })
      ≡ some (v, record { bytes = bytes; offset = length pre + 4 })
unfolding read_uint32
read_uint32-append v pre post b =
    let low : v % 2 ^ 32 ≡ v = omega (arith, b) in
    rw (read_uint32, read-append 4 v pre post b (omega arith), low) refl

read_uint64-append :
    (hi lo : ℕ) (pre post : List ℕ)
    → hi < 2 ^ 32
    → lo < 2 ^ 32
    → let bytes = pre ++ (little_endian 8 (hi * 2 ^ 32 + lo) ++ post) in
      read_uint64 (record { bytes = bytes; offset = length pre })
      ≡ some ((hi, lo), record { bytes = bytes; offset = length pre + 8 })
unfolding read_uint64
read_uint64-append hi lo pre post h l =
    let v = hi * 2 ^ 32 + lo in
    let high : v / 2 ^ 32 % 2 ^ 32 ≡ hi = omega (arith, h, l) in
    let low : v % 2 ^ 32 ≡ lo = omega (arith, h, l) in
    rw (read_uint64, read-append 8 v pre post (omega (arith, h, l)) (omega arith), high, low) refl

read_item-encoded :
    (item : Item) (pre post : List ℕ)
    → fits (item ∷ []) ≡ true
    → read_item item (record { bytes = pre ++ (encoded item ++ post); offset = length pre })
      ≡ some
          (item, record { bytes = pre ++ (encoded item ++ post); offset = length pre + width item })
read_item-encoded (uint32 v) pre post f =
    rw (read_item, read_uint32-append v pre post (ground (arith, f))) refl
read_item-encoded (uint64 hi lo) pre post f =
    rw (read_item, read_uint64-append hi lo pre post (ground (arith, f)) (ground (arith, f))) refl

encoded_items : List Item → List ℕ
encoded_items [] = []
encoded_items (item ∷ items) = encoded item ++ encoded_items items

write_items-encoded :
    (items : List Item) (bytes : List ℕ) → write_items items bytes ≡ bytes ++ encoded_items items
unfolding encoded_items
write_items-encoded [] bytes = sym (append-nil bytes)
write_items-encoded (item ∷ items) bytes =
    write_items-encoded items (write_item item bytes)
    ∙ ap (λ (xs : List ℕ). xs ++ encoded_items items) (write-encoded item bytes)
    ∙ append_assoc bytes (encoded item) (encoded_items items)

length-encoded : (item : Item) → length (encoded item) ≡ width item
length-encoded (uint32 v) = length-little_endian 4 v
length-encoded (uint64 hi lo) = length-little_endian 8 (hi * 2 ^ 32 + lo)

fits_head : (item : Item) (items : List Item) → fits (item ∷ items) ≡ true → fits (item ∷ []) ≡ true
fits_head (uint32 v) items f = ground (arith, f)
fits_head (uint64 hi lo) items f = ground (arith, f)

fits_tail : (item : Item) (items : List Item) → fits (item ∷ items) ≡ true → fits items ≡ true
fits_tail (uint32 v) items f = ground (arith, f)
fits_tail (uint64 hi lo) items f = ground (arith, f)

read_item-at :
    (item : Item) (bytes pre post : List ℕ) (offset : ℕ)
    → fits (item ∷ []) ≡ true
    → bytes ≡ pre ++ (encoded item ++ post)
    → offset ≡ length pre
    → read_item item (record { bytes = bytes; offset = offset })
      ≡ some (item, record { bytes = bytes; offset = offset + width item })
read_item-at item bytes pre post offset f e o = rw (e, o) (read_item-encoded item pre post f)

read_items-encoded :
    (items : List Item) (bytes pre post : List ℕ) (offset : ℕ)
    → fits items ≡ true
    → bytes ≡ pre ++ (encoded_items items ++ post)
    → offset ≡ length pre
    → read_items items (record { bytes = bytes; offset = offset })
      ≡ some (items, record { bytes = bytes; offset = offset + length (encoded_items items) })
unfolding encoded_items
read_items-encoded [] bytes pre post offset f e o =
    ap (λ (n : ℕ). some ([], record { bytes = bytes; offset = n })) (omega arith)
read_items-encoded (item ∷ items) bytes pre post offset f e o =
    let es = encoded_items items in
    let split : bytes ≡ pre ++ (encoded item ++ (es ++ post)) =
      e ∙ ap (λ (xs : List ℕ). pre ++ xs) (append_assoc (encoded item) es post) in
    let joined : bytes ≡ (pre ++ encoded item) ++ (es ++ post) =
      split ∙ sym (append_assoc pre (encoded item) (es ++ post)) in
    let moved : offset + width item ≡ length (pre ++ encoded item) =
      omega (arith, o, length-append pre (encoded item), length-encoded item) in
    let total : offset + width item + length es ≡ offset + length (encoded item ++ es) =
      omega (arith, length-append (encoded item) es, length-encoded item) in
    rw
      (
        read_items,
        read_item-at item bytes pre (es ++ post) offset (fits_head item items f) split o,
        read_items-encoded items bytes (pre ++ encoded item) post (offset + width item)
            (fits_tail item items f) joined moved,
        total,
      )
      refl

-- Numbers of 32 and of 64 bits that are written one after the other, to any bytes there are and
-- with any bytes after them, are read back in that order from where they begin, and the reader
-- stands where they end.
pub read_items-write_items :
    (items : List Item) (pre post : List ℕ)
    → fits items ≡ true
    → let bytes = write_items items pre ++ post in
      read_items items (record { bytes = bytes; offset = length pre })
      ≡ some (items, record { bytes = bytes; offset = length (write_items items pre) })
read_items-write_items items pre post f =
    let w = write_items-encoded items pre in
    let es = encoded_items items in
    let e : write_items items pre ++ post ≡ pre ++ (es ++ post) =
      ap (λ (xs : List ℕ). xs ++ post) w ∙ append_assoc pre es post in
    let n : length pre + length es ≡ length (write_items items pre) =
      sym (ap (λ (xs : List ℕ). length xs) w ∙ length-append pre es) in
    read_items-encoded items (write_items items pre ++ post) pre post (length pre) f e refl
    ∙ ap (λ (m : ℕ). some (items, record { bytes = write_items items pre ++ post; offset = m })) n
