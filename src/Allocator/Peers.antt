-- ===== src/Allocator/Peers.antt =====
-- `destroy` of a payload whose destructor destroys peers, against the same destructions in turn.
use napi.Prelude.{
  ℕ, ◌+◌, ◌≡◌, ◌≢◌, refl, ap, subst, sym, ◌∙◌, inl, inr, Bool, true, false, ◌&&◌, ◌||◌, none, List,
  [], ◌∷◌, arith, ◌==◌, if◌then◌else◌, length, Bool-cases,
}
use napi.Allocator.{
  Event, Allocator, linked, unlink_block, link_block, set_block, log, destroy, link_free_slot,
  destroy_slot,
}
use napi.Allocator.Invariant.{IsAllocator}
use napi.Allocator.Contents.{get}
use napi.Allocator.Counting.{in_use}
use napi.Allocator.Release.{Releases, destroy_lem}
use napi.Allocator.Reentry.{said, at_events, detach, same_commute, other_commute}

-- Whether a handle, a block and a slot in it, is in the list.
abbrev pub has_handle : ℕ → ℕ → List (ℕ × ℕ) → Bool
has_handle b slot [] = false
has_handle b slot ((c, j) ∷ hs) = ((b == c) && (slot == j)) || has_handle b slot hs

-- The releases and destructions of handles, in order.
abbrev pub said_all : List (ℕ × ℕ) → List Event → List Event
said_all [] es = es
said_all ((c, j) ∷ hs) es = said_all hs (said c j es)

module _ {T : Type 0} where
  -- The handles are in use, and no two are the same.
  abbrev pub Held : Allocator T → List (ℕ × ℕ) → Type 0
  Held a [] = Unit {0}
  Held a ((c, j) ∷ hs) = (get a c j ≢ none) × (has_handle c j hs ≡ false) × Held a hs

  -- What a destructor does that destroys these payloads in turn, whose own destructors do nothing.
  abbrev pub destroy_all : List (ℕ × ℕ) → Allocator T → Allocator T
  destroy_all [] a = a
  destroy_all ((c, j) ∷ hs) a = destroy_all hs (destroy (λ x. x) c j a)

  held-linked : (b slot : ℕ) (a : Allocator T) → get a b slot ≢ none → linked b a ≡ true
  unfolding get
  held-linked b slot a h = ground arith

  -- Handles other than the one destroyed are held still.
  destroy-Held :
      (n c j : ℕ) (a : Allocator T) (es : List Event) (a' : Allocator T) (hs : List (ℕ × ℕ))
      → Releases n a c j es a'
      → has_handle c j hs ≡ false
      → Held a hs
      → Held a' hs
  destroy-Held n c j a es a' [] r o h = tt
  destroy-Held n c j a es a' ((d, i) ∷ hs) r o h = (
    ground (arith, r.holds d i, h.0, o),
    h.1,
    destroy-Held n c j a es a' hs r (ground (arith, o)) h.2,
  )

  commute :
      (n b slot c j : ℕ) (es : List Event) (a : Allocator T)
      → IsAllocator n a
      → linked b a ≡ true
      → linked c a ≡ true
      → destroy (λ y. y) c j (detach b slot (at_events es a))
        ≡ detach b slot (at_events (said c j es) (destroy (λ y. y) c j a))
  commute n b slot c j es a k l m = elim (Bool-cases (c == b)) [
    | inl q ↦
        subst
          (λ (d : ℕ).
            destroy (λ y. y) d j (detach b slot (at_events es a))
            ≡ detach b slot (at_events (said d j es) (destroy (λ y. y) d j a)))
          (ground (arith, q)) (same_commute n b slot j es a k l)
    | inr q ↦ other_commute n b slot c j es a k m (λ e. ground (arith, q, e))
  ]

  -- The destructions inside a destruction are those before it.
  all_commute :
      (n b slot : ℕ) (hs : List (ℕ × ℕ)) (es : List Event) (a : Allocator T)
      → IsAllocator n a
      → get a b slot ≢ none
      → has_handle b slot hs ≡ false
      → Held a hs
      → destroy_all hs (detach b slot (at_events es a))
        ≡ detach b slot (at_events (said_all hs es) (destroy_all hs a))
  all_commute n b slot [] es a k g o h = refl
  all_commute n b slot ((c, j) ∷ hs) es a k g o h =
      let r = destroy_lem n c j a k h.0 in
      let l = held-linked b slot a g in
      ap (destroy_all hs) (commute n b slot c j es a k l (held-linked c j a h.0))
      ∙ all_commute n b slot hs (said c j es) (destroy (λ x. x) c j a) r.keeps
          (ground (arith, r.holds b slot, g, o)) (ground (arith, o))
          (destroy-Held n c j a _ _ hs r h.1 h.2)

  -- The rest of `destroy` once the destructor is done.
  finish : ℕ → ℕ → Allocator T → Allocator T
  finish b slot y =
      let y1 = set_block b (destroy_slot slot (y.blocks b)) y in
      link_block b (set_block b (link_free_slot slot (y1.blocks b)) y1)

  destroy-finish :
      (d : Allocator T → Allocator T) (b slot : ℕ) (a : Allocator T)
      → linked b a ≡ true
      → destroy d b slot a ≡ finish b slot (d (detach b slot (at_events (said b slot a.events) a)))
  unfolding destroy finish log detach at_events set_block unlink_block
  destroy-finish d b slot a l = rw (l, destroy) refl

  finish-events :
      (b slot : ℕ) (es : List Event) (y : Allocator T)
      → finish b slot (at_events es y) ≡ at_events es (finish b slot y)
  unfolding finish at_events set_block link_block linked
  finish-events b slot es y = ground arith

  -- Destroying all of the handles in turn: each is gone, and every other handle holds what it held.
  pub record ReleasesAll (n : ℕ) (a : Allocator T) (hs : List (ℕ × ℕ)) (a' : Allocator T)
      : Type 0 where
    pub keeps : IsAllocator n a'
    pub holds : (c j : ℕ) → get a' c j ≡ (if has_handle c j hs then none else get a c j)
    pub counted : in_use a' + length hs ≡ in_use a

  destroy_all-ReleasesAll :
      (n : ℕ) (hs : List (ℕ × ℕ)) (a : Allocator T)
      → IsAllocator n a
      → Held a hs
      → ReleasesAll n a hs (destroy_all hs a)
  destroy_all-ReleasesAll n [] a k h = record {
    keeps = k;
    holds = λ c j. refl;
    counted = omega arith;
  }
  destroy_all-ReleasesAll n ((c, j) ∷ hs) a k h =
      let r = destroy_lem n c j a k h.0 in
      let rest =
        destroy_all-ReleasesAll n hs (destroy (λ x. x) c j a) r.keeps
          (destroy-Held n c j a _ _ hs r h.1 h.2) in
      record {
        keeps = rest.keeps;
        holds = λ d i. ground (arith, rest.holds d i, r.holds d i);
        counted = omega (arith, rest.counted, r.counted);
      }

  destroy_all-get :
      (n b slot : ℕ) (hs : List (ℕ × ℕ)) (a : Allocator T)
      → ReleasesAll n a hs (destroy_all hs a)
      → get a b slot ≢ none
      → has_handle b slot hs ≡ false
      → get (destroy_all hs a) b slot ≢ none
  destroy_all-get n b slot hs a r g o = ground (arith, r.holds b slot, g, o)

  events-ReleasesAll :
      (n b slot : ℕ) (hs : List (ℕ × ℕ)) (es fs : List Event) (a c d : Allocator T)
      → ReleasesAll n a hs c
      → Releases n c b slot fs d
      → ReleasesAll n a ((b, slot) ∷ hs) (at_events es d)
  unfolding at_events
  events-ReleasesAll n b slot hs es fs a c d p r = record {
    keeps =
        unfold linked in
        record {
          block = r.keeps.block;
          free_place = r.keeps.free_place;
          used_place = r.keeps.used_place;
          partial_place = r.keeps.partial_place;
          distinct_free = r.keeps.distinct_free;
          distinct_used = r.keeps.distinct_used;
          distinct_partial = r.keeps.distinct_partial;
        };
    holds = λ e j. unfold get linked in ground (arith, p.holds e j, r.holds e j);
    counted = unfold in_use in omega (arith, p.counted, r.counted);
  }

  moved :
      (b slot : ℕ) (es : List Event) (y : Allocator T)
      → finish b slot (detach b slot (at_events es y))
        ≡ at_events es (finish b slot (detach b slot y))
  unfolding detach at_events set_block unlink_block
  moved b slot es y = finish-events b slot es (detach b slot y)

  -- Destroying inside a destructor is, but for the order of the events, destroying before it.
  destroy-before :
      (n b slot : ℕ) (hs : List (ℕ × ℕ)) (a : Allocator T)
      → IsAllocator n a
      → Held a ((b, slot) ∷ hs)
      → destroy (destroy_all hs) b slot a
        ≡ at_events
            (said_all hs (said b slot a.events))
            (destroy (λ x. x) b slot (destroy_all hs a))
  unfolding at_events
  destroy-before n b slot hs a k h =
      let es = said b slot a.events in
      let all = destroy_all-ReleasesAll n hs a k h.2 in
      let b1 = destroy_all hs a in
      let g = destroy_all-get n b slot hs a all h.0 h.1 in
      destroy-finish (destroy_all hs) b slot a (held-linked b slot a h.0)
      ∙ ap (finish b slot) (all_commute n b slot hs es a k h.0 h.1 h.2)
      ∙ moved b slot (said_all hs es) b1
      ∙ sym (
          ap (at_events (said_all hs es)) (
            destroy-finish (λ x. x) b slot b1 (held-linked b slot b1 g)
            ∙ moved b slot (said b slot b1.events) b1))

  -- `destroy` of a handle in use, whose payload's destructor destroys peers in use, other handles of
  -- the same block or of others, all different, whose own destructors do not call the allocator:
  -- the invariant is kept, and so no block is in two rings or in the wrong one; that handle and the
  -- peers are gone, and every other handle keeps its payload; and the events are, for the handle
  -- first and then for each peer, one release and then the beginning of one destruction.
  pub destroy-ReleasesAll :
      (n b slot : ℕ) (hs : List (ℕ × ℕ)) (a : Allocator T)
      → IsAllocator n a
      → Held a ((b, slot) ∷ hs)
      → let r = destroy (destroy_all hs) b slot a in
        ReleasesAll n a ((b, slot) ∷ hs) r × (r.events ≡ said_all ((b, slot) ∷ hs) a.events)
  destroy-ReleasesAll n b slot hs a k h =
      let all = destroy_all-ReleasesAll n hs a k h.2 in
      let g = destroy_all-get n b slot hs a all h.0 h.1 in
      let r = destroy_lem n b slot (destroy_all hs a) all.keeps g in
      let q = destroy-before n b slot hs a k h in
      (
        subst (ReleasesAll n a ((b, slot) ∷ hs)) (sym q)
            (events-ReleasesAll n b slot hs _ _ a (destroy_all hs a) _ all r),
        ap (λ (x : Allocator T). x.events) q ∙ unfold at_events in refl,
      )
