-- ===== src/Allocator/Tests.antt =====
-- Runs of the allocator on two-slot blocks, and the theorems at its states.
use napi.Prelude.{ℕ, ◌≤◌, ◌≡◌, refl, false, Option, none, some, [], ◌∷◌, arith}
use napi.Allocator.{Block, Allocator, allocate, destroy, linked, place}
use napi.Allocator.Blocks.{IsBlock}
use napi.Allocator.Invariant.{IsAllocator}
use napi.Allocator.Contents.{get}
use napi.Allocator.Allocate.{Allocates, allocate_lem}
use napi.Allocator.Peers.{Held, destroy_all, said_all, ReleasesAll, destroy-ReleasesAll}
use napi.Allocator.Counting.{count_active, in_use, slot_count, count_active-in_use}
use napi.Allocator.Traversal.{visit, begin, visit-begin}

abbrev none_yet : Allocator ℕ
none_yet = record {
  blocks = λ _. record { free_slots = []; used_slots = []; payload = λ _. none };
  first_free = [];
  first_used = [];
  first_partial = [];
  events = [];
}

-- Block 5 with slot 0 in use.
abbrev half_block : Block ℕ
half_block = record { free_slots = 1 ∷ []; used_slots = 0 ∷ []; payload = λ _. some 7 }

abbrev one_used : Allocator ℕ
one_used = record none_yet { blocks = λ _. half_block; first_partial = 5 ∷ [] }

half_block-IsBlock : IsBlock 2 half_block
half_block-IsBlock = record {
  cover = λ i. ground arith;
  apart = λ i h. ground arith;
  distinct_free = (refl, tt);
  distinct_used = (refl, tt);
  size = refl;
  built = λ i h. ground arith;
}

one_used-IsAllocator : IsAllocator 2 one_used
unfolding place
one_used-IsAllocator = record {
  block = λ b h. half_block-IsBlock;
  free_place = λ b h. cc;
  used_place = λ b h. cc;
  partial_place = λ b h. refl;
  distinct_free = tt;
  distinct_used = tt;
  distinct_partial = (refl, tt);
}

-- Three payloads: the second block is made for the third.
infixl 5 ◌>>=◌
abbrev ◌>>=◌ : {A B : Type 0} → Option A → (A → Option B) → Option B
none >>= f = none
some a >>= f = f a

abbrev Report : Type 0
Report = Option (ℕ × ℕ) × Option (ℕ × ℕ) × ℕ × ℕ

three_payloads : Option Report
three_payloads = do
  (p, a) ← allocate 2 (some 5) 70 none_yet
  (q, b) ← allocate 2 none 71 a
  (r, c) ← allocate 2 (some 9) 72 b
  some (q, r, count_active 2 c, slot_count 2 c)

three_payloads_lem : three_payloads ≡ some (some (5, 1), some (9, 0), 3, 4)
unfolding three_payloads allocate count_active slot_count
three_payloads_lem = refl

-- Block 5 with no slot free, so that the new block 9 is used.
abbrev full_block : Block ℕ
full_block = record { free_slots = []; used_slots = 1 ∷ 0 ∷ []; payload = λ _. some 7 }

abbrev all_used : Allocator ℕ
all_used = record none_yet { blocks = λ _. full_block; first_used = 5 ∷ [] }

full_block-IsBlock : IsBlock 2 full_block
full_block-IsBlock = record {
  cover = λ i. ground arith;
  apart = λ i h. ground arith;
  distinct_free = tt;
  distinct_used = (refl, (refl, tt));
  size = refl;
  built = λ i h. ground arith;
}

all_used-IsAllocator : IsAllocator 2 all_used
unfolding place
all_used-IsAllocator = record {
  block = λ b h. full_block-IsBlock;
  free_place = λ b h. cc;
  used_place = λ b h. refl;
  partial_place = λ b h. cc;
  distinct_free = tt;
  distinct_used = (refl, tt);
  distinct_partial = tt;
}

fresh-linked : (b : ℕ) → some 9 ≡ some b → linked b all_used ≡ false
unfolding linked
fresh-linked b e = ground (arith, e)

allocate_lem_example : Allocates 2 (some 9) 8 all_used (allocate 2 (some 9) 8 all_used)
allocate_lem_example =
    allocate_lem 2 (some 9) 8 all_used all_used-IsAllocator (omega arith) fresh-linked

-- Both handles of the full block 5: the destructor of one destroys the other.
all_used-Held : Held all_used ((5, 0) ∷ (5, 1) ∷ [])
unfolding get linked
all_used-Held = (λ e. cc, refl, (λ e. cc, refl, tt))

destroy-ReleasesAll_example :
    let r = destroy (destroy_all ((5, 1) ∷ [])) 5 0 all_used in
    ReleasesAll 2 all_used ((5, 0) ∷ (5, 1) ∷ []) r
    × (r.events ≡ said_all ((5, 0) ∷ (5, 1) ∷ []) [])
destroy-ReleasesAll_example =
    destroy-ReleasesAll 2 5 0 ((5, 1) ∷ []) all_used all_used-IsAllocator all_used-Held

count_active-in_use_example :
    (count_active 2 one_used ≡ in_use one_used) × (in_use one_used ≤ slot_count 2 one_used)
count_active-in_use_example = count_active-in_use 2 one_used one_used-IsAllocator

visit-begin_example : visit 2 one_used (begin one_used) ≡ some ((5, 0) ∷ [])
visit-begin_example = visit-begin 2 one_used (omega arith)
