-- ===== src/Allocator/Invariant.antt =====
-- The allocator's invariant: every block stands in the one ring that its slots say.
use napi.Prelude.{
  ℕ, ◌≡◌, refl, inl, inr, true, false, arith, ◌==◌, has, Distinct, has-remove_ne, Bool-cases,
  has-remove_self, remove-Distinct,
}
use napi.Allocator.{
  Event, Block, Allocator, Place, in_free, in_used, in_partial, linked, unlink_block, place,
  link_in, link_block, relink, set_block, log,
}
use napi.Allocator.Blocks.{IsBlock}

module _ {T : Type 0} where
  pub record IsAllocator (n : ℕ) (a : Allocator T) : Type 0 where
    pub block : (b : ℕ) → linked b a ≡ true → IsBlock n (a.blocks b)
    pub free_place : (b : ℕ) → has b a.first_free ≡ true → place (a.blocks b) ≡ in_free
    pub used_place : (b : ℕ) → has b a.first_used ≡ true → place (a.blocks b) ≡ in_used
    pub partial_place : (b : ℕ) → has b a.first_partial ≡ true → place (a.blocks b) ≡ in_partial
    pub distinct_free : Distinct a.first_free
    pub distinct_used : Distinct a.first_used
    pub distinct_partial : Distinct a.first_partial

  -- Block `b` with new contents, in the ring that they say and in no other.
  unfoldable pub rehome : ℕ → Block T → Allocator T → Allocator T
  unfolding unlink_block set_block link_in
  rehome b blk a = link_in (place blk) b (set_block b blk (unlink_block b a))

  pub log-IsAllocator :
      (n : ℕ) (e : Event) (a : Allocator T) → IsAllocator n a → IsAllocator n (log e a)
  unfolding log linked
  log-IsAllocator n e a v = record {
    block = v.block;
    free_place = v.free_place;
    used_place = v.used_place;
    partial_place = v.partial_place;
    distinct_free = v.distinct_free;
    distinct_used = v.distinct_used;
    distinct_partial = v.distinct_partial;
  }

  rehome_at-IsAllocator :
      (n b : ℕ) (blk : Block T) (a : Allocator T) (p : Place)
      → place blk ≡ p
      → IsBlock n blk
      → IsAllocator n a
      → IsAllocator n (link_in p b (set_block b blk (unlink_block b a)))
  unfolding link_in set_block unlink_block linked
  rehome_at-IsAllocator n b blk a in_free e k v = record {
    block = λ j h. elim (Bool-cases (j == b)) [
      | inl q ↦ rw q k
      | inr q ↦ rw q (
          v.block j (
            ground (
              arith,
              has-remove_ne b j a.first_free,
              has-remove_ne b j a.first_used,
              has-remove_ne b j a.first_partial,
            )))
    ];
    free_place = λ j h. ground (arith, v.free_place j, has-remove_ne b j a.first_free);
    used_place = λ j h. ground (
      arith,
      v.used_place j,
      has-remove_ne b j a.first_used,
      has-remove_self b a.first_used v.distinct_used,
    );
    partial_place = λ j h. ground (
      arith,
      v.partial_place j,
      has-remove_ne b j a.first_partial,
      has-remove_self b a.first_partial v.distinct_partial,
    );
    distinct_free = (
      has-remove_self b a.first_free v.distinct_free,
      remove-Distinct b a.first_free v.distinct_free,
    );
    distinct_used = remove-Distinct b a.first_used v.distinct_used;
    distinct_partial = remove-Distinct b a.first_partial v.distinct_partial;
  }
  rehome_at-IsAllocator n b blk a in_used e k v = record {
    block = λ j h. elim (Bool-cases (j == b)) [
      | inl q ↦ rw q k
      | inr q ↦ rw q (
          v.block j (
            ground (
              arith,
              has-remove_ne b j a.first_free,
              has-remove_ne b j a.first_used,
              has-remove_ne b j a.first_partial,
            )))
    ];
    free_place = λ j h. ground (
      arith,
      v.free_place j,
      has-remove_ne b j a.first_free,
      has-remove_self b a.first_free v.distinct_free,
    );
    used_place = λ j h. ground (arith, v.used_place j, has-remove_ne b j a.first_used);
    partial_place = λ j h. ground (
      arith,
      v.partial_place j,
      has-remove_ne b j a.first_partial,
      has-remove_self b a.first_partial v.distinct_partial,
    );
    distinct_free = remove-Distinct b a.first_free v.distinct_free;
    distinct_used = (
      has-remove_self b a.first_used v.distinct_used,
      remove-Distinct b a.first_used v.distinct_used,
    );
    distinct_partial = remove-Distinct b a.first_partial v.distinct_partial;
  }
  rehome_at-IsAllocator n b blk a in_partial e k v = record {
    block = λ j h. elim (Bool-cases (j == b)) [
      | inl q ↦ rw q k
      | inr q ↦ rw q (
          v.block j (
            ground (
              arith,
              has-remove_ne b j a.first_free,
              has-remove_ne b j a.first_used,
              has-remove_ne b j a.first_partial,
            )))
    ];
    free_place = λ j h. ground (
      arith,
      v.free_place j,
      has-remove_ne b j a.first_free,
      has-remove_self b a.first_free v.distinct_free,
    );
    used_place = λ j h. ground (
      arith,
      v.used_place j,
      has-remove_ne b j a.first_used,
      has-remove_self b a.first_used v.distinct_used,
    );
    partial_place = λ j h. ground (arith, v.partial_place j, has-remove_ne b j a.first_partial);
    distinct_free = remove-Distinct b a.first_free v.distinct_free;
    distinct_used = remove-Distinct b a.first_used v.distinct_used;
    distinct_partial = (
      has-remove_self b a.first_partial v.distinct_partial,
      remove-Distinct b a.first_partial v.distinct_partial,
    );
  }

  pub rehome-IsAllocator :
      (n b : ℕ) (blk : Block T) (a : Allocator T)
      → IsBlock n blk
      → IsAllocator n a
      → IsAllocator n (rehome b blk a)
  unfolding rehome
  rehome-IsAllocator n b blk a k v = rehome_at-IsAllocator n b blk a (place blk) refl k v

  -- A link that is in no ring after it was unlinked.
  pub unlink-linked :
      (n b : ℕ) (a : Allocator T) → IsAllocator n a → linked b (unlink_block b a) ≡ false
  unfolding linked unlink_block
  unlink-linked n b a v = ground (
    arith,
    has-remove_self b a.first_free v.distinct_free,
    has-remove_self b a.first_used v.distinct_used,
    has-remove_self b a.first_partial v.distinct_partial,
  )

  pub relink-rehome :
      (n b : ℕ) (blk : Block T) (e : Event) (a : Allocator T)
      → IsAllocator n a
      → relink b (log e (set_block b blk a)) ≡ rehome b blk (log e a)
  unfolding relink link_block log set_block unlink_block rehome
  relink-rehome n b blk e a v = rw (unlink-linked n b a v) (ground arith)
