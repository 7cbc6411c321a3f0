-- ===== src/Allocator/Contents.antt =====
-- The allocator as a map from payload pointers to payloads, and each operation on that map.
use napi.Prelude.{ℕ, ◌≡◌, refl, Option, none, arith, ◌==◌, if◌then◌else◌, has, has-remove_ne}
use napi.Allocator.{
  Block, Allocator, Place, in_free, in_used, in_partial, linked, unlink_block, place, link_in,
  set_block,
}
use napi.Allocator.Invariant.{rehome}

module _ {T : Type 0} where
  -- The payload of a slot in use.
  abbrev pub get_in : Block T → ℕ → Option T
  get_in b slot = if has slot b.used_slots then b.payload slot else none

  unfoldable pub get : Allocator T → ℕ → ℕ → Option T
  get a b slot = if linked b a then get_in (a.blocks b) slot else none

  pub get-rehome :
      (b c slot : ℕ) (blk : Block T) (a : Allocator T)
      → get (rehome b blk a) c slot ≡ (if c == b then get_in blk slot else get a c slot)
  unfolding get rehome linked unlink_block set_block
  get-rehome b c slot blk a = go (place blk)
    where
      go :
          (p : Place)
          → get (link_in p b (set_block b blk (unlink_block b a))) c slot
            ≡ (if c == b then get_in blk slot else get a c slot)
      go in_free = ground (
        arith,
        has-remove_ne b c a.first_free,
        has-remove_ne b c a.first_used,
        has-remove_ne b c a.first_partial,
      )
      go in_used = ground (
        arith,
        has-remove_ne b c a.first_free,
        has-remove_ne b c a.first_used,
        has-remove_ne b c a.first_partial,
      )
      go in_partial = ground (
        arith,
        has-remove_ne b c a.first_free,
        has-remove_ne b c a.first_used,
        has-remove_ne b c a.first_partial,
      )

  pub events-rehome : (b : ℕ) (blk : Block T) (a : Allocator T) → (rehome b blk a).events ≡ a.events
  unfolding rehome
  events-rehome b blk a = go (place blk)
    where
      go : (p : Place) → (link_in p b (set_block b blk (unlink_block b a))).events ≡ a.events
      go in_free = refl
      go in_used = refl
      go in_partial = refl
