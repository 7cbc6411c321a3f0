-- ===== src/Allocator/Release.antt =====
-- `destroy` and `take_used` on the map from payload pointers to payloads.
use napi.Prelude.{
  ℕ, ◌+◌, ◌<◌, ◌≡◌, ◌≢◌, refl, ap, subst, sym, ◌∙◌, ◌⊎◌, inl, inr, true, ◌&&◌, Option, none, some,
  List, [], ◌∷◌, arith, ◌==◌, if◌then◌else◌, update, has, remove, length, has-remove_ne,
  has-remove_self, length-remove, ◌++◌, append_assoc,
}
use mathlib.Core.Path.{fun_ext}
use napi.Allocator.{
  Event, record_release, destructed, Block, Allocator, Place, in_free, in_used, in_partial, head?,
  linked, unlink_block, place, link_in, link_block, relink, set_block, log, destroy, take_from,
  take_used, unlink_used_slot, link_free_slot, destroy_slot,
}
use napi.Allocator.Blocks.{IsBlock, give-IsBlock}
use napi.Allocator.Contents.{get_in, get, get-rehome, events-rehome}
use napi.Allocator.Counting.{count_used, in_use, in_use-rehome}
use napi.Allocator.Invariant.{
  IsAllocator, log-IsAllocator, rehome, rehome-IsAllocator, relink-rehome,
}

module _ {T : Type 0} where
  -- The handle is gone, every other handle holds what it held, and `es` was recorded.
  pub record Releases (n : ℕ) (a : Allocator T) (b slot : ℕ) (es : List Event) (a' : Allocator T)
      : Type 0 where
    pub keeps : IsAllocator n a'
    pub held : get a b slot ≢ none
    pub holds : (c j : ℕ) → get a' c j ≡ (if (c == b) && (j == slot) then none else get a c j)
    pub recorded : a'.events ≡ a.events ++ es
    pub counted : in_use a' + 1 ≡ in_use a

  log_twice : Event → Event → Allocator T → Allocator T
  log_twice d e a = log e (log d a)

  -- The block without the slot in use.
  released : ℕ → (ℕ → Option T) → Block T → Block T
  released slot p b = record b {
    free_slots = slot ∷ b.free_slots;
    used_slots = remove slot b.used_slots;
    payload = p;
  }

  get-released :
      (n slot j : ℕ) (p : ℕ → Option T) (blk : Block T)
      → IsBlock n blk
      → (j ≢ slot → p j ≡ blk.payload j)
      → get_in (released slot p blk) j ≡ (if j == slot then none else get_in blk j)
  unfolding released
  get-released n slot j p blk k same = ground (
    arith,
    has-remove_ne slot j blk.used_slots,
    has-remove_self slot blk.used_slots k.distinct_used,
  )

  rehome-Releases :
      (n b slot : ℕ) (p : ℕ → Option T) (es : List Event) (a a0 : Allocator T)
      → IsAllocator n a
      → IsAllocator n a0
      → ((c j : ℕ) → get a0 c j ≡ get a c j)
      → a0.events ≡ a.events ++ es
      → a0.blocks ≡ a.blocks
      → in_use a0 ≡ in_use a
      → linked b a0 ≡ true
      → linked b a ≡ true
      → has slot (a.blocks b).used_slots ≡ true
      → ((i : ℕ) → i ≢ slot → p i ≡ (a.blocks b).payload i)
      → Releases n a b slot es (rehome b (released slot p (a.blocks b)) a0)
  rehome-Releases n b slot p es a a0 k k0 g e m c l0 l u same = record {
    keeps =
        rehome-IsAllocator n b (released slot p (a.blocks b)) a0
          (unfold released in give-IsBlock n slot p (a.blocks b) (k.block b l) u same) k0;
    held = unfold get in ground (arith, (k.block b l).built slot);
    holds = λ d j.
        get-rehome b d j (released slot p (a.blocks b)) a0
        ∙ rw (get-released n slot j p (a.blocks b) (k.block b l) (same j), g d j)
            (unfold get in ground (arith, l));
    recorded = events-rehome b (released slot p (a.blocks b)) a0 ∙ e;
    counted =
        unfold released count_used in
        omega (
          arith,
          c,
          in_use-rehome n b (released slot p (a.blocks b)) a0 k0 l0,
          ap (λ (f : ℕ → Block T). length (f b).used_slots) m,
          length-remove slot (a.blocks b).used_slots u,
        );
  }

  -- The three writes to the block are one.
  writes_once :
      (b slot : ℕ) (m : ℕ → Block T)
      → (let m1 = update m b (unlink_used_slot slot (m b)) in
          let m2 = update m1 b (destroy_slot slot (m1 b)) in
          update m2 b (link_free_slot slot (m2 b)))
        ≡ update m b (released slot (update (m b).payload slot none) (m b))
  unfolding unlink_used_slot destroy_slot link_free_slot released
  writes_once b slot m = fun_ext λ j. ground arith

  destroy-rehome :
      (n b slot : ℕ) (a : Allocator T)
      → IsAllocator n a
      → linked b a ≡ true
      → destroy (λ x. x) b slot a
        ≡ rehome b
            (released slot (update (a.blocks b).payload slot none) (a.blocks b))
            (log_twice (record_release b slot) (destructed b slot) a)
  unfolding log_twice
  destroy-rehome n b slot a k l =
      destroy-relink
      ∙ relink-rehome n b (released slot (update (a.blocks b).payload slot none) (a.blocks b))
          (destructed b slot) (log (record_release b slot) a)
          (log-IsAllocator n (record_release b slot) a k)
    where
      destroy-relink :
          destroy (λ x. x) b slot a
          ≡ relink b (
              log (destructed b slot) (
                set_block b
                  (released slot (update (a.blocks b).payload slot none) (a.blocks b))
                  (log (record_release b slot) a)))
      destroy-relink =
          unfold destroy in
          rw l (
            unfold relink log set_block unlink_block in
            ap
              (λ (m : ℕ → Block T).
                link_block b
                  (record (unlink_block b
                    (log_twice (record_release b slot) (destructed b slot) a)) { blocks = m }))
              (writes_once b slot a.blocks))

  -- Where the payload's destructor does not call the allocator, `destroy` of a handle in use keeps the invariant and takes that handle away, every other
  -- handle keeps its payload, and the release is recorded before the payload is destructed.
  pub destroy_lem :
      (n b slot : ℕ) (a : Allocator T)
      → IsAllocator n a
      → get a b slot ≢ none
      → Releases n a b slot
          (record_release b slot ∷ destructed b slot ∷ [])
          (destroy (λ x. x) b slot a)
  unfolding log_twice
  destroy_lem n b slot a k h =
      let l : linked b a ≡ true = unfold get in ground arith in
      let u : has slot (a.blocks b).used_slots ≡ true = unfold get in ground arith in
      let r = record_release b slot in
      let d = destructed b slot in
      subst (Releases n a b slot (r ∷ d ∷ [])) (sym (destroy-rehome n b slot a k l)) (
        rehome-Releases n b slot (update (a.blocks b).payload slot none) (r ∷ d ∷ []) a
          (log_twice r d a) k (log-IsAllocator n d (log r a) (log-IsAllocator n r a k))
          (λ c j. unfold get log linked in refl)
          (unfold log in append_assoc a.events (r ∷ []) (d ∷ [])) (unfold log in refl)
          (unfold log in_use in refl) (unfold log linked in l) l u (λ i ne. ground arith))

  -- What `take_used` returns: null when no handle is in use, and else a handle in use, which is
  -- taken away while its payload stays constructed.
  abbrev pub Takes : ℕ → Allocator T → Option (Option (ℕ × ℕ) × Allocator T) → Type 0
  Takes n a r =
      ((r ≡ some (none, a)) × ((c j : ℕ) → get a c j ≡ none))
      ⊎ ((b : ℕ) × (slot : ℕ) × (a' : Allocator T) × (r ≡ some (some (b, slot), a'))
          × Releases n a b slot (record_release b slot ∷ []) a'
          × ((a'.blocks b).payload slot ≡ get a b slot))

  payload-rehome :
      (b slot : ℕ) (blk : Block T) (a : Allocator T)
      → ((rehome b blk a).blocks b).payload slot ≡ blk.payload slot
  unfolding rehome set_block
  payload-rehome b slot blk a = go (place blk)
    where
      go :
          (p : Place)
          → ((link_in p b (set_block b blk (unlink_block b a))).blocks b).payload slot
            ≡ blk.payload slot
      go in_free = ground arith
      go in_used = ground arith
      go in_partial = ground arith

  take_from-rehome :
      (n b slot : ℕ) (a : Allocator T)
      → IsAllocator n a
      → head? (a.blocks b).used_slots ≡ some slot
      → take_from b a
        ≡ some (
          some (b, slot),
          rehome b
              (released slot (a.blocks b).payload (a.blocks b))
              (log (record_release b slot) a),
        )
  unfolding take_from released log set_block unlink_used_slot link_free_slot
  take_from-rehome n b slot a k h =
      rw (h, take_from)
        (ap (λ (x : Allocator T). some (some (b, slot), x))
          (relink-rehome n b (released slot (a.blocks b).payload (a.blocks b))
            (record_release b slot) a k))

  take_from-Takes :
      (n b slot : ℕ) (rest : List ℕ) (a : Allocator T)
      → IsAllocator n a
      → linked b a ≡ true
      → (a.blocks b).used_slots ≡ slot ∷ rest
      → Takes n a (take_from b a)
  take_from-Takes n b slot rest a k l e =
      let u : has slot (a.blocks b).used_slots ≡ true = ground arith in
      let r = record_release b slot in
      let blk = released slot (a.blocks b).payload (a.blocks b) in
      inr (
        b,
        slot,
        rehome b blk (log r a),
        take_from-rehome n b slot a k (ap head? e),
        rehome-Releases n b slot (a.blocks b).payload (r ∷ []) a (log r a) k
            (log-IsAllocator n r a k) (λ c j. unfold get log linked in refl) (unfold log in refl)
            (unfold log in refl) (unfold log in_use in refl) (unfold log linked in l) l u
            (λ i ne. refl),
        payload-rehome b slot blk (log r a) ∙ unfold get released in ground (arith, l),
      )

  used-front :
      (n : ℕ) (blk : Block T)
      → IsBlock n blk
      → 0 < n
      → (place blk ≡ in_partial) ⊎ (place blk ≡ in_used)
      → (slot : ℕ) × (rest : List ℕ) × (blk.used_slots ≡ slot ∷ rest)
  unfolding place
  used-front n blk k pos e = go blk.used_slots refl
    where
      go :
          (xs : List ℕ)
          → blk.used_slots ≡ xs
          → (slot : ℕ) × (rest : List ℕ) × (blk.used_slots ≡ slot ∷ rest)
      go [] q = absurd (ground (arith, e))
      go (x ∷ xs) q = (x, xs, q)

  -- On an allocator that keeps the invariant `take_used` fails no assertion: it returns null
  -- exactly where no handle is in use, and else takes one, recording one release.
  pub take_used_lem : (n : ℕ) (a : Allocator T) → IsAllocator n a → 0 < n → Takes n a (take_used a)
  unfolding take_used
  take_used_lem n a k pos = useds a.first_used refl
    where
      nothing : a.first_used ≡ [] → a.first_partial ≡ [] → (c j : ℕ) → get a c j ≡ none
      nothing eu ep c j = unfold get linked place in ground (arith, k.free_place c)

      from :
          (b : ℕ)
          → linked b a ≡ true
          → (place (a.blocks b) ≡ in_partial) ⊎ (place (a.blocks b) ≡ in_used)
          → Takes n a (take_from b a)
      from b l e =
          let (slot, rest, q) = used-front n (a.blocks b) (k.block b l) pos e in
          take_from-Takes n b slot rest a k l q

      partials : (xs : List ℕ) → a.first_partial ≡ xs → a.first_used ≡ [] → Takes n a (take_used a)
      partials [] ep eu = inl (ground arith, nothing eu ep)
      partials (b ∷ bs) ep eu =
          let q : take_used a ≡ take_from b a = ground arith in
          subst (Takes n a) (sym q) (
            from b (unfold linked in ground (arith, ep))
              (inl (k.partial_place b (ground (arith, ep)))))

      useds : (xs : List ℕ) → a.first_used ≡ xs → Takes n a (take_used a)
      useds [] eu = partials a.first_partial refl eu
      useds (b ∷ bs) eu =
          let q : take_used a ≡ take_from b a = ground arith in
          subst (Takes n a) (sym q) (
            from b (unfold linked in ground (arith, eu))
              (inr (k.used_place b (ground (arith, eu)))))
