-- ===== src/Allocator/Traversal.antt =====
-- The iterator of the allocator: it visits the slots in use, the full blocks' first.
use napi.Prelude.{
  ℕ, zero, suc, ◌<◌, ◌≡◌, refl, ap, sym, ◌∙◌, Bool, true, false, Option, none, some, List, [], ◌∷◌,
  ◌++◌, arith, map, append_assoc, append-nil, length,
}
use napi.Allocator.{Allocator}

-- `at`: `link_` is the first of the blocks before the ring's tail, `slot_` the first of the
-- remaining slots in use of its block, and the other ring is the one behind `next_tail_`.
pub data Iterator : Type 0 where
  at_end : Iterator
  at : List ℕ → Option (List ℕ) → List ℕ → Iterator

-- The pointer of `*`.
deref : Iterator → Option (ℕ × ℕ)
deref (at (b ∷ bs) next (slot ∷ rest)) = some (b, slot)
deref it = none

abbrev at_block : ℕ → List ℕ → List (ℕ × ℕ)
at_block b slots = map (λ s. (b, s)) slots

-- An iterator that is not at the end stands at a slot.
abbrev is_valid : Iterator → Bool
is_valid (at (b ∷ bs) next []) = false
is_valid it = true

module _ {T : Type 0} where
  -- The loop of `select_used_slot` over the blocks of one ring; `after` is what it finds behind.
  select_in : Allocator T → List ℕ → Option (List ℕ) → Iterator → Iterator
  select_in a [] next after = after
  select_in a (b ∷ bs) next after =
      let later = select_in a bs next after in
      elim (a.blocks b).used_slots [ [] ↦ later | slot ∷ rest ↦ at (b ∷ bs) next (slot ∷ rest) ]

  select_used_slot : Allocator T → List ℕ → Option (List ℕ) → Iterator
  unfolding select_in
  select_used_slot a bs none = select_in a bs none at_end
  select_used_slot a bs (some next) = select_in a bs (some next) (select_in a next none at_end)

  pub begin : Allocator T → Iterator
  unfolding select_used_slot
  begin a = select_used_slot a a.first_used (some a.first_partial)

  -- `++` of the end, or at a slot that is none, is no step of the source's.
  increment : Allocator T → Iterator → Iterator
  unfolding select_used_slot
  increment a (at (b ∷ bs) next (slot ∷ [])) = select_used_slot a bs next
  increment a (at (b ∷ bs) next (slot ∷ other ∷ rest)) = at (b ∷ bs) next (other ∷ rest)
  increment a it = at_end

  -- `for (T &x : allocator)`: the pointers visited, or `none` when the rounds run out.
  pub visit : ℕ → Allocator T → Iterator → Option (List (ℕ × ℕ))
  unfolding increment deref
  visit zero a it = none
  visit (suc k) a it =
      let rest = visit k a (increment a it) in
      elim (deref it) [
        | none ↦ some []
        | some p ↦ (elim rest [ none ↦ none | some ps ↦ some (p ∷ ps) ])
      ]

  -- The slots in use of the blocks of a ring, in order.
  abbrev pub pointers : Allocator T → List ℕ → List (ℕ × ℕ)
  pointers a [] = []
  pointers a (b ∷ bs) = at_block b (a.blocks b).used_slots ++ pointers a bs

  abbrev behind : Allocator T → Option (List ℕ) → List (ℕ × ℕ)
  behind a none = []
  behind a (some bs) = pointers a bs

  -- What is still to be visited.
  abbrev remaining : Allocator T → Iterator → List (ℕ × ℕ)
  remaining a at_end = []
  remaining a (at [] next slots) = []
  remaining a (at (b ∷ bs) next slots) = at_block b slots ++ (pointers a bs ++ behind a next)

  remaining-select_in :
      (a : Allocator T) (bs : List ℕ) (next : Option (List ℕ)) (after : Iterator)
      → remaining a after ≡ behind a next
      → remaining a (select_in a bs next after) ≡ pointers a bs ++ behind a next
  unfolding select_in
  remaining-select_in a [] next after h = h
  remaining-select_in a (b ∷ bs) next after h =
      go (a.blocks b).used_slots (remaining-select_in a bs next after h)
    where
      go :
          (us : List ℕ)
          → remaining a (select_in a bs next after) ≡ pointers a bs ++ behind a next
          → remaining a (elim us [
            | [] ↦ select_in a bs next after
            | slot ∷ rest ↦ at (b ∷ bs) next (slot ∷ rest)
          ])
            ≡ (at_block b us ++ pointers a bs) ++ behind a next
      go [] ih = ih
      go (u ∷ us) ih = sym (append_assoc (at_block b (u ∷ us)) (pointers a bs) (behind a next))

  select_in-valid :
      (a : Allocator T) (bs : List ℕ) (next : Option (List ℕ)) (after : Iterator)
      → is_valid after ≡ true
      → is_valid (select_in a bs next after) ≡ true
  unfolding select_in
  select_in-valid a [] next after h = h
  select_in-valid a (b ∷ bs) next after h =
      go (a.blocks b).used_slots (select_in-valid a bs next after h)
    where
      go :
          (us : List ℕ)
          → is_valid (select_in a bs next after) ≡ true
          → is_valid (elim us [
            | [] ↦ select_in a bs next after
            | slot ∷ rest ↦ at (b ∷ bs) next (slot ∷ rest)
          ])
            ≡ true
      go [] ih = ih
      go (u ∷ us) ih = refl

  select-valid :
      (a : Allocator T) (bs : List ℕ) (next : Option (List ℕ))
      → is_valid (select_used_slot a bs next) ≡ true
  unfolding select_used_slot
  select-valid a bs none = select_in-valid a bs none at_end refl
  select-valid a bs (some ns) =
      select_in-valid a bs (some ns) (select_in a ns none at_end)
        (select_in-valid a ns none at_end refl)

  remaining-select :
      (a : Allocator T) (bs : List ℕ) (next : Option (List ℕ))
      → remaining a (select_used_slot a bs next) ≡ pointers a bs ++ behind a next
  unfolding select_used_slot
  remaining-select a bs none = remaining-select_in a bs none at_end refl
  remaining-select a bs (some ns) =
      remaining-select_in a bs (some ns) (select_in a ns none at_end)
        (remaining-select_in a ns none at_end refl ∙ append-nil (pointers a ns))

  visit-remaining :
      (k : ℕ) (a : Allocator T) (it : Iterator)
      → is_valid it ≡ true
      → length (remaining a it) < k
      → visit k a it ≡ some (remaining a it)
  unfolding visit
  visit-remaining zero a it v h = absurd (omega arith)
  visit-remaining (suc k) a at_end v h = refl
  visit-remaining (suc k) a (at [] next slots) v h = refl
  visit-remaining (suc k) a (at (b ∷ bs) next []) v h = cc
  visit-remaining (suc k) a (at (b ∷ bs) next (s ∷ [])) v h =
      let e = remaining-select a bs next in
      rw (
        visit-remaining k a (select_used_slot a bs next) (select-valid a bs next)
            (omega (arith, ap length e)),
        e,
      )
  visit-remaining (suc k) a (at (b ∷ bs) next (s ∷ t ∷ us)) v h =
      rw (visit-remaining k a (at (b ∷ bs) next (t ∷ us)) refl (omega arith))

  -- A traversal visits exactly the slots in use, those of the full blocks and then those of the
  -- partly used ones, each block's in the order of its ring, and ends: more rounds than there are
  -- slots to visit are enough.
  pub visit-begin :
      (k : ℕ) (a : Allocator T)
      → length (pointers a a.first_used ++ pointers a a.first_partial) < k
      → visit k a (begin a) ≡ some (pointers a a.first_used ++ pointers a a.first_partial)
  unfolding begin
  visit-begin k a h =
      let e = remaining-select a a.first_used (some a.first_partial) in
      visit-remaining k a (select_used_slot a a.first_used (some a.first_partial))
        (select-valid a a.first_used (some a.first_partial)) (omega (arith, ap length e))
      ∙ ap some e
