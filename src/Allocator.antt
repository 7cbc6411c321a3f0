-- ===== src/Allocator.antt =====
-- lib/src/napi_allocator.h: the slab allocator of N-API wrapper objects.
-- A block is its address and a slot its index in the block's array, so a payload pointer is the
-- pair of them. Each ring of links is the list of what it links, first first; lib/src's link
-- itself is in Link, whose Ring says what `link` and `unlink` do to such a list.
pub mod Invariant
pub mod Blocks
pub mod Contents
pub mod Allocate
pub mod Release
pub mod Reentry
pub mod Peers
pub mod Counting
pub mod Traversal
mod Tests
use napi.Prelude.{
  ℕ, zero, suc, ◌+◌, ◌*◌, Bool, true, false, ◌||◌, Option, none, some, List, [], ◌∷◌, ◌++◌, ◌==◌,
  if◌then◌else◌, update, has, remove, is_empty, length, sum_over,
}

-- What the allocator tells the lifetime tracker, and the payload destructors that begin, in order.
pub data Event : Type 0 where
  record_create record_release destructed : ℕ → ℕ → Event

-- block__, with the rings of its free and its used slots and the payload that each slot holds.
pub record Block (T : Type 0) : Type 0 where
  pub free_slots : List ℕ
  pub used_slots : List ℕ
  pub payload : ℕ → Option T

pub record Allocator (T : Type 0) : Type 0 where
  pub blocks : ℕ → Block T
  pub first_free : List ℕ
  pub first_used : List ℕ
  pub first_partial : List ℕ
  pub events : List Event

-- The ring that a block belongs in.
pub data Place : Type 0 where
  in_free in_used in_partial : Place

abbrev pub head? : List ℕ → Option ℕ
head? [] = none
head? (x ∷ xs) = some x

-- The free list after the loop of `reset_free_list` from index `i` down.
reset_loop : ℕ → List ℕ → List ℕ
reset_loop zero free = free
reset_loop (suc i) free = reset_loop i (i ∷ free)

module _ {T : Type 0} where
  pub reset_free_list : ℕ → Block T → Block T
  unfolding reset_loop
  reset_free_list n b = record b { free_slots = reset_loop n []; used_slots = [] }

  pub new_block : ℕ → Block T
  unfolding reset_free_list
  new_block n = reset_free_list n (record { free_slots = []; used_slots = []; payload = λ _. none })

  pub is_full : Block T → Bool
  is_full b = is_empty b.free_slots

  pub is_empty_block : Block T → Bool
  is_empty_block b = is_empty b.used_slots

  pub link_used : ℕ → Block T → Block T
  link_used i b = record b { used_slots = i ∷ b.used_slots }

  pub unlink_used_slot : ℕ → Block T → Block T
  unlink_used_slot i b = record b { used_slots = remove i b.used_slots }

  pub link_free_slot : ℕ → Block T → Block T
  link_free_slot i b = record b { free_slots = i ∷ b.free_slots }

  pub construct : ℕ → T → Block T → Block T
  construct i v b = record b { payload = update b.payload i (some v) }

  pub destroy_slot : ℕ → Block T → Block T
  destroy_slot i b = record b { payload = update b.payload i none }

  -- `none` is a failed assertion: that there is a free slot, or, of `link_used`, that the slot's
  -- link for the used ring is not linked. The front of the free ring is linked in it.
  pub block_allocate : Block T → Option (ℕ × Block T)
  unfolding link_used
  block_allocate b = elim b.free_slots [
    | [] ↦ none
    | slot ∷ rest ↦
        if has slot b.used_slots
        then none
        else some (slot, link_used slot (record b { free_slots = rest }))
  ]

  -- Of the block's link, `linked` and `unlink`; `link_block` puts the block in its ring.
  pub linked : ℕ → Allocator T → Bool
  linked b a = has b a.first_free || (has b a.first_used || has b a.first_partial)

  pub unlink_block : ℕ → Allocator T → Allocator T
  unlink_block b a = record a {
    first_free = remove b a.first_free;
    first_used = remove b a.first_used;
    first_partial = remove b a.first_partial;
  }

  pub place : Block T → Place
  unfolding is_full is_empty_block
  place b = if is_empty_block b then in_free else if is_full b then in_used else in_partial

  pub link_in : Place → ℕ → Allocator T → Allocator T
  link_in in_free b a = record a { first_free = b ∷ a.first_free }
  link_in in_used b a = record a { first_used = b ∷ a.first_used }
  link_in in_partial b a = record a { first_partial = b ∷ a.first_partial }

  pub link_block : ℕ → Allocator T → Allocator T
  unfolding linked place link_in
  link_block b a = if linked b a then a else link_in (place (a.blocks b)) b a

  pub relink : ℕ → Allocator T → Allocator T
  unfolding unlink_block link_block
  relink b a = link_block b (unlink_block b a)

  pub set_block : ℕ → Block T → Allocator T → Allocator T
  set_block b blk a = record a { blocks = update a.blocks b blk }

  pub log : Event → Allocator T → Allocator T
  log e a = record a { events = a.events ++ e ∷ [] }

  -- The part of `allocate` once there is a block; `none` is a failed assertion, of the block's
  -- `allocate` or of the `unlink` of the block's link, which `relink` begins with.
  pub allocate_in : ℕ → T → Allocator T → Option ((ℕ × ℕ) × Allocator T)
  unfolding block_allocate construct set_block log relink linked
  allocate_in b v a = elim (block_allocate (a.blocks b)) [
    | none ↦ none
    | some (slot, blk) ↦
        let a1 = log (record_create b slot) (set_block b (construct slot v blk) a) in
        if linked b a1 then some ((b, slot), relink b a1) else none
  ]

  -- The pointer that `allocate` returns.
  pub returned : Option ((ℕ × ℕ) × Allocator T) → Option (Option (ℕ × ℕ) × Allocator T)
  returned none = none
  returned (some (p, a)) = some (some p, a)

  -- A new block, empty, at the front of the free ring.
  pub add_block : ℕ → ℕ → Allocator T → Allocator T
  unfolding new_block set_block
  add_block n b a =
      let a' = set_block b (new_block n) a in record a' { first_free = b ∷ a'.first_free }

  -- `fresh` is what `new (std::nothrow) block__` returns. The result is the payload pointer, null
  -- for the early return; `none` is a failed assertion.
  pub allocate : ℕ → Option ℕ → T → Allocator T → Option (Option (ℕ × ℕ) × Allocator T)
  unfolding allocate_in add_block returned
  allocate n fresh v a = elim (head? a.first_partial) [
    | some b ↦ returned (allocate_in b v a)
    | none ↦ elim (head? a.first_free) [
      | some b ↦ returned (allocate_in b v a)
      | none ↦ elim fresh [
        | none ↦ some (none, a)
        | some b ↦ returned (allocate_in b v (add_block n b a))
      ]
    ]
  ]

  -- `destructor` is what the payload's destructor does to the allocator: it may destroy peers of
  -- the payload or allocate. Meanwhile the slot is in neither ring and its block in none.
  pub destroy : (Allocator T → Allocator T) → ℕ → ℕ → Allocator T → Allocator T
  unfolding unlink_used_slot set_block log destroy_slot link_free_slot unlink_block link_block
      linked
  destroy destructor b slot a =
      let block_was_linked = linked b a in
      let a1 = set_block b (unlink_used_slot slot (a.blocks b)) a in
      let a2 = if block_was_linked then unlink_block b a1 else a1 in
      let a3 = log (record_release b slot) a2 in
      let a4 = destructor (log (destructed b slot) a3) in
      let a5 = set_block b (destroy_slot slot (a4.blocks b)) a4 in
      let a6 = set_block b (link_free_slot slot (a5.blocks b)) a5 in
      if block_was_linked then link_block b a6 else a6

  -- The part of `take_used` once there is a block; the payload stays constructed.
  pub take_from : ℕ → Allocator T → Option (Option (ℕ × ℕ) × Allocator T)
  unfolding unlink_used_slot link_free_slot set_block log relink
  take_from b a = elim (head? (a.blocks b).used_slots) [
    | none ↦ none
    | some slot ↦
        let a1 = log (record_release b slot) a in
        let blk = link_free_slot slot (unlink_used_slot slot (a1.blocks b)) in
        some (some (b, slot), relink b (set_block b blk a1))
  ]

  -- Null when nothing is in use; `none` is a block of those rings without a slot in use.
  pub take_used : Allocator T → Option (Option (ℕ × ℕ) × Allocator T)
  unfolding take_from
  take_used a = elim (head? a.first_used) [
    | some b ↦ take_from b a
    | none ↦ elim (head? a.first_partial) [ some b ↦ take_from b a | none ↦ some (none, a) ]
  ]
