-- ===== src/Allocator/Counting.antt =====
-- `slot_count` and `count_active`, and how the operations change the latter.
use napi.Prelude.{
  ℕ, ◌+◌, ◌*◌, ◌≤◌, ◌≡◌, refl, ap, ◌⊎◌, true, false, List, [], ◌∷◌, arith, update, has, remove,
  length, sum_over, sum_over-remove, sum_over-update, remove-absent, has-remove_self,
}
use napi.Allocator.{
  Block, Allocator, Place, in_free, in_used, in_partial, linked, place, set_block, unlink_block,
  link_in,
}
use napi.Allocator.Blocks.{IsBlock}
use napi.Allocator.Invariant.{IsAllocator, rehome}

module _ {T : Type 0} where
  unfoldable pub count_used : Block T → ℕ
  count_used b = length b.used_slots

  pub storage_slot_count : ℕ → Allocator T → ℕ
  storage_slot_count n a = (length a.first_used + length a.first_partial + length a.first_free) * n

  unfoldable pub slot_count : ℕ → Allocator T → ℕ
  unfolding storage_slot_count
  slot_count n a = storage_slot_count n a

  -- The blocks of the used ring are full.
  unfoldable pub count_active : ℕ → Allocator T → ℕ
  unfolding count_used
  count_active n a =
      length a.first_used * n + sum_over (λ b. count_used (a.blocks b)) a.first_partial

  -- The slots in use, block by block.
  unfoldable pub in_use : Allocator T → ℕ
  unfolding count_used
  in_use a =
      sum_over (λ b. count_used (a.blocks b)) a.first_free
      + sum_over (λ b. count_used (a.blocks b)) a.first_used
      + sum_over (λ b. count_used (a.blocks b)) a.first_partial

  full-sum :
      (n : ℕ) (a : Allocator T) (bs : List ℕ)
      → ((b : ℕ) → has b bs ≡ true → count_used (a.blocks b) ≡ n)
      → sum_over (λ b. count_used (a.blocks b)) bs ≡ length bs * n
  full-sum n a [] h = omega arith
  full-sum n a (b ∷ bs) h =
      omega (arith, h b (ground arith), full-sum n a bs (λ c m. h c (ground arith)))

  bounded-sum :
      (n : ℕ) (a : Allocator T) (bs : List ℕ)
      → ((b : ℕ) → has b bs ≡ true → count_used (a.blocks b) ≤ n)
      → sum_over (λ b. count_used (a.blocks b)) bs ≤ length bs * n
  bounded-sum n a [] h = omega arith
  bounded-sum n a (b ∷ bs) h =
      omega (arith, h b (ground arith), bounded-sum n a bs (λ c m. h c (ground arith)))

  used-of-full : (n : ℕ) (b : Block T) → IsBlock n b → place b ≡ in_used → count_used b ≡ n
  unfolding place count_used
  used-of-full n b k e = go b.free_slots refl
    where
      go : (xs : List ℕ) → b.free_slots ≡ xs → length b.used_slots ≡ n
      go [] q = omega (arith, k.size, ap length q)
      go (x ∷ xs) q = ground (arith, e)

  used-of-empty : (b : Block T) → place b ≡ in_free → count_used b ≡ 0
  unfolding place count_used
  used-of-empty b e = go b.used_slots refl
    where
      go : (xs : List ℕ) → b.used_slots ≡ xs → length b.used_slots ≡ 0
      go [] q = ap length q
      go (x ∷ xs) q = ground (arith, e)

  -- `count_active` is the number of slots in use, and at most `slot_count`.
  pub count_active-in_use :
      (n : ℕ) (a : Allocator T)
      → IsAllocator n a
      → (count_active n a ≡ in_use a) × (in_use a ≤ slot_count n a)
  unfolding count_active in_use slot_count
  count_active-in_use n a k =
      let f = full-sum 0 a a.first_free (λ b h. used-of-empty (a.blocks b) (k.free_place b h)) in
      let u = full-sum n a a.first_used (λ b h.
        used-of-full n (a.blocks b) (k.block b (unfold linked in ground (arith, h)))
          (k.used_place b h)) in
      let p = bounded-sum n a a.first_partial (λ b h.
        unfold count_used in
        omega (arith, (k.block b (unfold linked in ground (arith, h))).size)) in
      (omega (arith, f, u), omega (arith, f, u, p))

  linked-cases :
      (b : ℕ) (a : Allocator T) (n : ℕ)
      → IsAllocator n a
      → linked b a ≡ true
      → ((has b a.first_free ≡ true)
          × (has b a.first_used ≡ false)
          × (has b a.first_partial ≡ false))
        ⊎ ((has b a.first_free ≡ false)
            × (has b a.first_used ≡ true)
            × (has b a.first_partial ≡ false))
        ⊎ ((has b a.first_free ≡ false)
            × (has b a.first_used ≡ false)
            × (has b a.first_partial ≡ true))
  unfolding linked
  linked-cases b a n k l = ground (arith, k.free_place b, k.used_place b, k.partial_place b)

  in_use-unlink :
      (n b : ℕ) (a : Allocator T)
      → IsAllocator n a
      → linked b a ≡ true
      → in_use (unlink_block b a) + count_used (a.blocks b) ≡ in_use a
  unfolding in_use unlink_block
  in_use-unlink n b a k l =
      let f = λ (j : ℕ). count_used (a.blocks j) in
      ground (
        arith,
        linked-cases b a n k l,
        sum_over-remove f b a.first_free,
        sum_over-remove f b a.first_used,
        sum_over-remove f b a.first_partial,
        remove-absent b a.first_free,
        remove-absent b a.first_used,
        remove-absent b a.first_partial,
      )

  pub in_use-rehome :
      (n b : ℕ) (blk : Block T) (a : Allocator T)
      → IsAllocator n a
      → linked b a ≡ true
      → in_use (rehome b blk a) + count_used (a.blocks b) ≡ in_use a + count_used blk
  unfolding rehome
  in_use-rehome n b blk a k l = go (place blk)
    where
      f : List ℕ → ℕ
      f = sum_over λ j. count_used (update a.blocks b blk j)

      g : List ℕ → ℕ
      g = sum_over λ j. count_used (a.blocks j)

      same : (xs : List ℕ) → has b xs ≡ false → f xs ≡ g xs
      same xs h = sum_over-update count_used a.blocks b blk xs h

      sf : f (remove b a.first_free) ≡ g (remove b a.first_free)
      sf = same (remove b a.first_free) (has-remove_self b a.first_free k.distinct_free)

      su : f (remove b a.first_used) ≡ g (remove b a.first_used)
      su = same (remove b a.first_used) (has-remove_self b a.first_used k.distinct_used)

      sp : f (remove b a.first_partial) ≡ g (remove b a.first_partial)
      sp = same (remove b a.first_partial) (has-remove_self b a.first_partial k.distinct_partial)

      self : count_used (update a.blocks b blk b) ≡ count_used blk
      self = ground arith

      go :
          (p : Place)
          → in_use (link_in p b (set_block b blk (unlink_block b a))) + count_used (a.blocks b)
            ≡ in_use a + count_used blk
      go in_free =
          unfold in_use unlink_block link_in set_block in
          omega (arith, in_use-unlink n b a k l, sf, su, sp, self)
      go in_used =
          unfold in_use unlink_block link_in set_block in
          omega (arith, in_use-unlink n b a k l, sf, su, sp, self)
      go in_partial =
          unfold in_use unlink_block link_in set_block in
          omega (arith, in_use-unlink n b a k l, sf, su, sp, self)
