-- ===== src/Allocator/Reentry.antt =====
-- Payload destructors that destroy peers: `destroy` called again inside `destroy`.
use napi.Prelude.{
  ℕ, ◌≡◌, ◌≢◌, refl, ap, sym, ◌∙◌, true, false, List, [], ◌∷◌, arith, update, remove, has-remove_ne,
  has-remove_self, remove-absent, remove-Distinct, Distinct, ◌++◌,
}
use mathlib.Core.Path.{fun_ext}
use napi.Allocator.{
  Event, record_release, destructed, Block, Allocator, Place, in_free, in_used, in_partial, linked,
  unlink_block, place, link_in, link_block, set_block, log, destroy, unlink_used_slot,
  link_free_slot, destroy_slot,
}
use napi.Allocator.Invariant.{IsAllocator, unlink-linked}

pub remove_comm : (x y : ℕ) (xs : List ℕ) → remove x (remove y xs) ≡ remove y (remove x xs)
remove_comm x y [] = refl
remove_comm x y (z ∷ xs) = ground (arith, remove_comm x y xs)

remove_again : (b : ℕ) (xs : List ℕ) → Distinct xs → remove b (remove b xs) ≡ remove b xs
remove_again b xs d = remove-absent b (remove b xs) (has-remove_self b xs d)

remove_front : (b : ℕ) (xs : List ℕ) → remove b (b ∷ xs) ≡ xs
remove_front b xs = ground arith

remove_past :
    (b c : ℕ) (xs : List ℕ) → c ≢ b → remove b (c ∷ remove c xs) ≡ c ∷ remove c (remove b xs)
remove_past b c xs ne = ground (arith, remove_comm b c xs)

-- The events with those of a destruction.
abbrev pub said : ℕ → ℕ → List Event → List Event
said c j es = (es ++ record_release c j ∷ []) ++ destructed c j ∷ []

module _ {T : Type 0} where
  unfoldable pub at_events : List Event → Allocator T → Allocator T
  at_events es a = record a { events = es }

  -- The slot leaves the used ring, and its block the rings, for the destruction.
  unfoldable pub detach : ℕ → ℕ → Allocator T → Allocator T
  unfolding unlink_used_slot set_block unlink_block
  detach b slot a = unlink_block b (set_block b (unlink_used_slot slot (a.blocks b)) a)

  -- The block once a payload is destroyed.
  emptied : ℕ → Block T → Block T
  unfolding unlink_used_slot destroy_slot link_free_slot
  emptied j blk = link_free_slot j (destroy_slot j (unlink_used_slot j blk))

  -- A peer of the same block: the block stays out of the rings.
  same_at :
      (n b slot j : ℕ) (es : List Event) (p : Place) (a : Allocator T)
      → IsAllocator n a
      → set_block b (emptied j ((detach b slot a).blocks b)) (at_events es (detach b slot a))
        ≡ detach b slot
            (at_events es (link_in p b (set_block b (emptied j (a.blocks b)) (unlink_block b a))))
  unfolding set_block emptied detach at_events link_in unlink_block unlink_used_slot destroy_slot
      link_free_slot
  same_at n b slot j es p a k = go p
    where
      blocks :
          (let m1 = update a.blocks b (unlink_used_slot slot (a.blocks b)) in
            update m1 b (emptied j (m1 b)))
          ≡ (let m2 = update a.blocks b (emptied j (a.blocks b)) in
              update m2 b (unlink_used_slot slot (m2 b)))
      blocks = fun_ext λ i. ground (arith, remove_comm slot j (a.blocks b).used_slots)

      go :
          (p : Place)
          → set_block b (emptied j ((detach b slot a).blocks b)) (at_events es (detach b slot a))
            ≡ detach b slot (
                at_events es
                  (link_in p b (set_block b (emptied j (a.blocks b)) (unlink_block b a))))
      go in_free = λ i. record {
        blocks = blocks i;
        first_free = sym (remove_front b (remove b a.first_free)) i;
        first_used = sym (remove_again b a.first_used k.distinct_used) i;
        first_partial = sym (remove_again b a.first_partial k.distinct_partial) i;
        events = es;
      }
      go in_used = λ i. record {
        blocks = blocks i;
        first_free = sym (remove_again b a.first_free k.distinct_free) i;
        first_used = sym (remove_front b (remove b a.first_used)) i;
        first_partial = sym (remove_again b a.first_partial k.distinct_partial) i;
        events = es;
      }
      go in_partial = λ i. record {
        blocks = blocks i;
        first_free = sym (remove_again b a.first_free k.distinct_free) i;
        first_used = sym (remove_again b a.first_used k.distinct_used) i;
        first_partial = sym (remove_front b (remove b a.first_partial)) i;
        events = es;
      }

  -- A peer of another block `c`, which goes back to the ring of its new state.
  other_at :
      (b slot c : ℕ) (blk : Block T) (es : List Event) (p : Place) (a : Allocator T)
      → c ≢ b
      → link_in p c (set_block c blk (unlink_block c (at_events es (detach b slot a))))
        ≡ detach b slot (at_events es (link_in p c (set_block c blk (unlink_block c a))))
  unfolding set_block detach at_events link_in unlink_block unlink_used_slot
  other_at b slot c blk es p a ne = go p
    where
      blocks :
          update (update a.blocks b (unlink_used_slot slot (a.blocks b))) c blk
          ≡ (let m2 = update a.blocks c blk in update m2 b (unlink_used_slot slot (m2 b)))
      blocks = fun_ext λ i. ground arith

      go :
          (p : Place)
          → link_in p c (set_block c blk (unlink_block c (at_events es (detach b slot a))))
            ≡ detach b slot (at_events es (link_in p c (set_block c blk (unlink_block c a))))
      go in_free = λ i. record {
        blocks = blocks i;
        first_free = sym (remove_past b c a.first_free ne) i;
        first_used = remove_comm c b a.first_used i;
        first_partial = remove_comm c b a.first_partial i;
        events = es;
      }
      go in_used = λ i. record {
        blocks = blocks i;
        first_free = remove_comm c b a.first_free i;
        first_used = sym (remove_past b c a.first_used ne) i;
        first_partial = remove_comm c b a.first_partial i;
        events = es;
      }
      go in_partial = λ i. record {
        blocks = blocks i;
        first_free = remove_comm c b a.first_free i;
        first_used = remove_comm c b a.first_used i;
        first_partial = sym (remove_past b c a.first_partial ne) i;
        events = es;
      }

  emptied_once :
      (c j : ℕ) (m : ℕ → Block T)
      → (let m1 = update m c (unlink_used_slot j (m c)) in
          let m2 = update m1 c (destroy_slot j (m1 c)) in update m2 c (link_free_slot j (m2 c)))
        ≡ update m c (emptied j (m c))
  unfolding unlink_used_slot destroy_slot link_free_slot emptied
  emptied_once c j m = fun_ext λ i. ground arith

  destroy-shut :
      (c j : ℕ) (x : Allocator T)
      → linked c x ≡ false
      → destroy (λ y. y) c j x
        ≡ set_block c (emptied j (x.blocks c)) (at_events (said c j x.events) x)
  unfolding destroy set_block log at_events
  destroy-shut c j x l =
      rw (l, destroy)
        (ap (λ (m : ℕ → Block T). record x { blocks = m; events = said c j x.events })
          (emptied_once c j x.blocks))

  destroy-links :
      (c j : ℕ) (x : Allocator T)
      → linked c x ≡ true
      → destroy (λ y. y) c j x
        ≡ link_block c (
            set_block c (emptied j (x.blocks c)) (unlink_block c (at_events (said c j x.events) x)))
  unfolding at_events
  destroy-links c j x l =
      unfold destroy in
      rw l (
        unfold log set_block unlink_block in
        ap
          (λ (m : ℕ → Block T).
            link_block c (record (unlink_block c x) { blocks = m; events = said c j x.events }))
          (emptied_once c j x.blocks))

  link_fresh :
      (c : ℕ) (blk : Block T) (y : Allocator T)
      → linked c y ≡ false
      → link_block c (set_block c blk y) ≡ link_in (place blk) c (set_block c blk y)
  unfolding link_block set_block linked
  link_fresh c blk y u = rw u (ground arith)

  destroy-open :
      (c j : ℕ) (x : Allocator T)
      → linked c x ≡ true
      → linked c (unlink_block c x) ≡ false
      → destroy (λ y. y) c j x
        ≡ link_in (place (emptied j (x.blocks c))) c (
            set_block c (emptied j (x.blocks c)) (unlink_block c (at_events (said c j x.events) x)))
  unfolding at_events
  destroy-open c j x l u =
      destroy-links c j x l
      ∙ link_fresh c (emptied j (x.blocks c)) (unlink_block c (at_events (said c j x.events) x))
          (unfold unlink_block linked in u)

  forget :
      (c : ℕ) (blk : Block T) (es fs : List Event) (p : Place) (a : Allocator T)
      → at_events es (link_in p c (set_block c blk (unlink_block c (at_events fs a))))
        ≡ at_events es (link_in p c (set_block c blk (unlink_block c a)))
  unfolding at_events link_in set_block unlink_block
  forget c blk es fs in_free a = refl
  forget c blk es fs in_used a = refl
  forget c blk es fs in_partial a = refl

  opened :
      (n c j : ℕ) (es : List Event) (a : Allocator T)
      → IsAllocator n a
      → linked c a ≡ true
      → at_events es (destroy (λ y. y) c j a)
        ≡ at_events es (
            link_in
              (place (emptied j (a.blocks c)))
              c
              (set_block c (emptied j (a.blocks c)) (unlink_block c a)))
  opened n c j es a k l =
      ap (at_events es) (destroy-open c j a l (unlink-linked n c a k))
      ∙ forget c (emptied j (a.blocks c)) es (said c j a.events) (place (emptied j (a.blocks c))) a

  detach-linked_self :
      (n b slot : ℕ) (es : List Event) (a : Allocator T)
      → IsAllocator n a
      → linked b (detach b slot (at_events es a)) ≡ false
  unfolding detach at_events set_block linked unlink_block
  detach-linked_self n b slot es a k = unlink-linked n b a k

  detach-linked :
      (b slot c : ℕ) (es : List Event) (a : Allocator T)
      → c ≢ b
      → linked c (detach b slot (at_events es a)) ≡ linked c a
  unfolding detach at_events set_block linked unlink_block
  detach-linked b slot c es a ne =
      rw
        (
          has-remove_ne b c a.first_free ne,
          has-remove_ne b c a.first_used ne,
          has-remove_ne b c a.first_partial ne,
        )
        refl

  detach-unlinked :
      (n b slot c : ℕ) (es : List Event) (a : Allocator T)
      → IsAllocator n a
      → linked c (unlink_block c (detach b slot (at_events es a))) ≡ false
  unfolding detach at_events set_block linked unlink_block
  detach-unlinked n b slot c es a k =
      rw
        (
          has-remove_self c (remove b a.first_free)
              (remove-Distinct b a.first_free k.distinct_free),
          has-remove_self c (remove b a.first_used)
              (remove-Distinct b a.first_used k.distinct_used),
          has-remove_self c (remove b a.first_partial)
              (remove-Distinct b a.first_partial k.distinct_partial),
        )
        refl

  pub same_commute :
      (n b slot j : ℕ) (es : List Event) (a : Allocator T)
      → IsAllocator n a
      → linked b a ≡ true
      → destroy (λ y. y) b j (detach b slot (at_events es a))
        ≡ detach b slot (at_events (said b j es) (destroy (λ y. y) b j a))
  unfolding detach at_events set_block
  same_commute n b slot j es a k l =
      destroy-shut b j (detach b slot (at_events es a)) (detach-linked_self n b slot es a k)
      ∙ same_at n b slot j (said b j es) (place (emptied j (a.blocks b))) a k
      ∙ ap (detach b slot) (sym (opened n b j (said b j es) a k l))

  pub other_commute :
      (n b slot c j : ℕ) (es : List Event) (a : Allocator T)
      → IsAllocator n a
      → linked c a ≡ true
      → c ≢ b
      → destroy (λ y. y) c j (detach b slot (at_events es a))
        ≡ detach b slot (at_events (said c j es) (destroy (λ y. y) c j a))
  unfolding detach at_events
  other_commute n b slot c j es a k l ne =
      let x = detach b slot (at_events es a) in
      let same : x.blocks c ≡ a.blocks c = unfold set_block unlink_block in ground arith in
      let blk = emptied j (a.blocks c) in
      destroy-open c j x (detach-linked b slot c es a ne ∙ l) (detach-unlinked n b slot c es a k)
      ∙ ap
          (λ (z : Block T).
            link_in (place (emptied j z)) c
              (set_block c (emptied j z) (unlink_block c (at_events (said c j es) x))))
          same
      ∙ other_at b slot c blk (said c j es) (place blk) a ne
      ∙ ap (detach b slot) (sym (opened n c j (said c j es) a k l))
