-- ===== src/Allocator/Allocate.antt =====
-- `allocate`: it fails only when there is no room and no memory, and otherwise grants a new handle.
use napi.Prelude.{
  ℕ, ◌+◌, ◌<◌, ◌≡◌, refl, ap, subst, sym, ◌∙◌, ◌⊎◌, inl, inr, true, false, ◌&&◌, Option, none, some,
  List, [], ◌∷◌, arith, ◌==◌, if◌then◌else◌, update, has, length, Bool-cases, sum_over-update, ◌++◌,
}
use napi.Allocator.{
  record_create, Block, Allocator, in_free, in_partial, block_allocate, linked, place, set_block,
  log, new_block, allocate_in, add_block, allocate, reset_free_list, returned, construct, link_used,
}
use napi.Allocator.Blocks.{IsBlock, reset-IsBlock, take-IsBlock}
use napi.Allocator.Contents.{get, get-rehome, events-rehome}
use napi.Allocator.Counting.{count_used, in_use, in_use-rehome}
use napi.Allocator.Invariant.{
  IsAllocator, log-IsAllocator, rehome, rehome-IsAllocator, relink-rehome,
}

module _ {T : Type 0} where
  -- The block that `allocate_in` leaves.
  granted : ℕ → List ℕ → T → Block T → Block T
  granted slot rest v b = construct slot v (link_used slot (record b { free_slots = rest }))

  allocate_in-rehome :
      (n b slot : ℕ) (rest : List ℕ) (v : T) (a : Allocator T)
      → IsAllocator n a
      → linked b a ≡ true
      → (a.blocks b).free_slots ≡ slot ∷ rest
      → allocate_in b v a
        ≡ some
            ((b, slot), rehome b (granted slot rest v (a.blocks b)) (log (record_create b slot) a))
  unfolding allocate_in granted block_allocate
  allocate_in-rehome n b slot rest v a k l e =
      let unused : has slot (a.blocks b).used_slots ≡ false =
        ground (arith, (k.block b l).apart slot) in
      let still : (blk : Block T)
          → linked b (log (record_create b slot) (set_block b blk a)) ≡ true =
        λ blk. unfold linked log set_block in l in
      rw (e, unused, allocate_in, still _)
        (ap (λ (x : Allocator T). some ((b, slot), x))
          (relink-rehome n b
            (construct slot v (link_used slot (record (a.blocks b) { free_slots = rest })))
            (record_create b slot) a k))

  -- What a call that granted a slot did: a handle that held nothing now holds the payload, every
  -- other handle holds what it held, and the creation is recorded.
  pub record Grants (n : ℕ) (v : T) (a : Allocator T) (b slot : ℕ) (a' : Allocator T) : Type 0 where
    pub keeps : IsAllocator n a'
    pub vacant : get a b slot ≡ none
    pub holds : (c j : ℕ) → get a' c j ≡ (if (c == b) && (j == slot) then some v else get a c j)
    pub recorded : a'.events ≡ a.events ++ record_create b slot ∷ []
    pub counted : in_use a' ≡ in_use a + 1

  free-front :
      (n b : ℕ) (blk : Block T)
      → IsBlock n blk
      → 0 < n
      → (place blk ≡ in_partial) ⊎ (place blk ≡ in_free)
      → (slot : ℕ) × (rest : List ℕ) × (blk.free_slots ≡ slot ∷ rest)
  unfolding place
  free-front n b blk k pos e = go blk.free_slots refl
    where
      go :
          (xs : List ℕ)
          → blk.free_slots ≡ xs
          → (slot : ℕ) × (rest : List ℕ) × (blk.free_slots ≡ slot ∷ rest)
      go [] q = absurd (impossible blk.used_slots refl)
        where
          impossible : (us : List ℕ) → blk.used_slots ≡ us → ⊥
          impossible [] r = omega (arith, k.size, ap length q, ap length r)
          impossible (u ∷ us) r = ground (arith, e, q, r)
      go (x ∷ xs) q = (x, xs, q)

  allocate_in-Grants :
      (n b : ℕ) (v : T) (a : Allocator T)
      → IsAllocator n a
      → linked b a ≡ true
      → 0 < n
      → (place (a.blocks b) ≡ in_partial) ⊎ (place (a.blocks b) ≡ in_free)
      → (slot : ℕ) × (a' : Allocator T) × (allocate_in b v a ≡ some ((b, slot), a'))
        × Grants n v a b slot a'
  allocate_in-Grants n b v a k l pos e =
      let (slot, rest, q) = free-front n b (a.blocks b) (k.block b l) pos e in
      let blk = granted slot rest v (a.blocks b) in
      let a0 = log (record_create b slot) a in
      (
        slot,
        rehome b blk a0,
        allocate_in-rehome n b slot rest v a k l q,
        record {
          keeps =
              rehome-IsAllocator n b blk a0
                (unfold granted in take-IsBlock n slot rest v (a.blocks b) (k.block b l) q)
                (log-IsAllocator n (record_create b slot) a k);
          vacant = unfold get in ground (arith, (k.block b l).apart slot);
          holds = λ c j.
              get-rehome b c j blk a0
              ∙ unfold get granted construct link_used log linked in ground (arith, l);
          recorded = events-rehome b blk a0 ∙ unfold log in refl;
          counted =
              unfold granted construct link_used count_used log in_use in
              omega (
                arith,
                in_use-rehome n b blk a0 (log-IsAllocator n (record_create b slot) a k)
                    (unfold log linked in l),
              );
        },
      )

  add_block-IsAllocator :
      (n b : ℕ) (a : Allocator T)
      → IsAllocator n a
      → linked b a ≡ false
      → IsAllocator n (add_block n b a)
  unfolding add_block linked place new_block set_block
  add_block-IsAllocator n b a k out = record {
    block = λ j h. elim (Bool-cases (j == b)) [
      | inl q ↦
          rw q (reset-IsBlock n (record { free_slots = []; used_slots = []; payload = λ _. none }))
      | inr q ↦ rw q (k.block j (ground arith))
    ];
    free_place = λ j h. elim (Bool-cases (j == b)) [
      | inl q ↦ rw q (unfold reset_free_list in refl)
      | inr q ↦ rw q (k.free_place j (ground arith))
    ];
    used_place = λ j h. ground (arith, k.used_place j);
    partial_place = λ j h. ground (arith, k.partial_place j);
    distinct_free = (ground arith, k.distinct_free);
    distinct_used = k.distinct_used;
    distinct_partial = k.distinct_partial;
  }

  add_block-get :
      (n b c j : ℕ) (a : Allocator T) → linked b a ≡ false → get (add_block n b a) c j ≡ get a c j
  unfolding add_block get linked set_block new_block reset_free_list
  add_block-get n b c j a out = ground arith

  add_block-in_use :
      (n b : ℕ) (a : Allocator T) → linked b a ≡ false → in_use (add_block n b a) ≡ in_use a
  unfolding add_block in_use linked set_block
  add_block-in_use n b a out =
      let f = sum_over-update count_used a.blocks b (new_block n) in
      omega (
        arith,
        f a.first_free (ground arith),
        f a.first_used (ground arith),
        f a.first_partial (ground arith),
        new-block-unused,
      )
    where
      new-block-unused : count_used (update a.blocks b (new_block n) b) ≡ 0
      new-block-unused = unfold new_block reset_free_list count_used in ground arith

  abbrev pub Allocates :
      ℕ → Option ℕ → T → Allocator T → Option (Option (ℕ × ℕ) × Allocator T) → Type 0
  Allocates n fresh v a r =
      ((fresh ≡ none) × (a.first_partial ≡ []) × (a.first_free ≡ []) × (r ≡ some (none, a)))
      ⊎ ((b : ℕ) × (slot : ℕ) × (a' : Allocator T) × (r ≡ some (some (b, slot), a'))
          × Grants n v a b slot a')

  existing-Allocates :
      (n b : ℕ) (fresh : Option ℕ) (v : T) (a : Allocator T)
      → IsAllocator n a
      → 0 < n
      → linked b a ≡ true
      → (place (a.blocks b) ≡ in_partial) ⊎ (place (a.blocks b) ≡ in_free)
      → Allocates n fresh v a (returned (allocate_in b v a))
  unfolding returned
  existing-Allocates n b fresh v a k pos l e =
      let (slot, a', q, g) = allocate_in-Grants n b v a k l pos e in
      inr (b, slot, a', rw (q, returned), g)

  new-Allocates :
      (n b : ℕ) (fresh : Option ℕ) (v : T) (a : Allocator T)
      → IsAllocator n a
      → 0 < n
      → linked b a ≡ false
      → Allocates n fresh v a (returned (allocate_in b v (add_block n b a)))
  unfolding returned
  new-Allocates n b fresh v a k pos out =
      let k' = add_block-IsAllocator n b a k out in
      let l : linked b (add_block n b a) ≡ true =
        unfold linked add_block set_block in ground arith in
      let p : has b (add_block n b a).first_free ≡ true =
        unfold add_block set_block in ground arith in
      let (slot, a', q, g) =
        allocate_in-Grants n b v (add_block n b a) k' l pos (inr (k'.free_place b p)) in
      inr (
        b,
        slot,
        a',
        rw (q, returned),
        record {
          keeps = g.keeps;
          vacant = sym (add_block-get n b b slot a out) ∙ g.vacant;
          holds = λ c j. g.holds c j ∙ rw (add_block-get n b c j a out);
          recorded = g.recorded ∙ unfold add_block set_block in refl;
          counted = omega (arith, g.counted, add_block-in_use n b a out);
        },
      )

  -- Whatever the block that `new` returns, if it is no block of the allocator: `allocate` fails
  -- none of its assertions that a slot is free, that the slot is not in the used ring and that the
  -- block is in a ring, and keeps the invariant; it returns null, and changes nothing, only when no block
  -- has room and there is no memory for another; and else it returns a handle that held nothing,
  -- which then holds the payload, while every other handle holds what it held, and it records one
  -- creation.
  pub allocate_lem :
      (n : ℕ) (fresh : Option ℕ) (v : T) (a : Allocator T)
      → IsAllocator n a
      → 0 < n
      → ((b : ℕ) → fresh ≡ some b → linked b a ≡ false)
      → Allocates n fresh v a (allocate n fresh v a)
  unfolding allocate
  allocate_lem n fresh v a k pos out = partials a.first_partial refl
    where
      fresh_case :
          (f : Option ℕ)
          → fresh ≡ f
          → a.first_partial ≡ []
          → a.first_free ≡ []
          → Allocates n fresh v a (allocate n fresh v a)
      fresh_case none ef ep e = inl (ef, ep, e, ground arith)
      fresh_case (some b) ef ep e =
          let q : allocate n fresh v a ≡ returned (allocate_in b v (add_block n b a)) =
            ground arith in
          subst (Allocates n fresh v a) (sym q) (new-Allocates n b fresh v a k pos (out b ef))

      frees :
          (xs : List ℕ)
          → a.first_free ≡ xs
          → a.first_partial ≡ []
          → Allocates n fresh v a (allocate n fresh v a)
      frees [] e ep = fresh_case fresh refl ep e
      frees (b ∷ bs) e ep =
          let q : allocate n fresh v a ≡ returned (allocate_in b v a) = ground arith in
          subst (Allocates n fresh v a) (sym q) (
            existing-Allocates n b fresh v a k pos (unfold linked in ground (arith, e))
              (inr (k.free_place b (ground (arith, e)))))

      partials : (xs : List ℕ) → a.first_partial ≡ xs → Allocates n fresh v a (allocate n fresh v a)
      partials [] e = frees a.first_free refl e
      partials (b ∷ bs) e =
          let q : allocate n fresh v a ≡ returned (allocate_in b v a) = ground arith in
          subst (Allocates n fresh v a) (sym q) (
            existing-Allocates n b fresh v a k pos (unfold linked in ground (arith, e))
              (inl (k.partial_place b (ground (arith, e)))))
