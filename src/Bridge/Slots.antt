-- ===== src/Bridge/Slots.antt =====
-- Which slots are in use: exactly those that some open frame owns, each by one frame.
use napi.Prelude.{
  ℕ, zero, suc, ◌+◌, ◌≤◌, ◌<◌, ◌≡◌, refl, ap, sym, ◌∙◌, Bool, true, false, ◌&&◌, ◌||◌, List, [],
  ◌∷◌, ◌++◌, arith, ltb, ◌==◌, length, length-append, update, is_some, has, has-append, Distinct,
  Bool-cases, Option-cases, List-cases, subst, inl, inr,
}
use napi.Bridge.{
  generations, value_id_max_slots, new_slot, Frame, root_frame, Agent, with_root, own_at, occupy,
  free_value_slot, free_slots, scope_to_close, close_scope, pop_current_frame,
}

abbrev pub owned_all : List Frame → List ℕ
owned_all [] = []
owned_all (f ∷ fs) = f.owned_slots ++ owned_all fs

-- The slots `os` are in use, and the free list holds the others.
pub record Owns (os : List ℕ) (a : Agent) : Type 0 where
  pub free_distinct : Distinct a.value_free_slots
  pub distinct : Distinct os
  pub disjoint : (i : ℕ) → has i a.value_free_slots ≡ true → has i os ≡ false
  pub free_inside : (i : ℕ) → has i a.value_free_slots ≡ true → i < a.slot_count
  pub inside : (i : ℕ) → has i os ≡ true → i < a.slot_count
  pub used : (i : ℕ) → (a.value_slots i).in_use ≡ has i os
  pub valued : (i : ℕ) → has i os ≡ true → is_some (a.value_slots i).value ≡ true
  pub generation : (i : ℕ) → (a.value_slots i).generation < generations
  pub live : a.live_value_count ≡ length os
  pub size : a.slot_count ≤ value_id_max_slots

-- The agent's frames own the slots in use.
abbrev pub IsBridge : Agent → Type 0
IsBridge a = Owns (owned_all a.scope_frames) a

Distinct-append :
    (xs ys : List ℕ)
    → Distinct xs
    → Distinct ys
    → ((i : ℕ) → has i xs ≡ true → has i ys ≡ false)
    → Distinct (xs ++ ys)
Distinct-append [] ys p q d = q
Distinct-append (x ∷ xs) ys p q d = (
  ground (arith, has-append x xs ys, d x, p.0),
  Distinct-append xs ys p.1 q (λ i h. d i (ground (arith, h))),
)

pub Distinct-left : (xs ys : List ℕ) → Distinct (xs ++ ys) → Distinct xs
Distinct-left [] ys d = tt
Distinct-left (x ∷ xs) ys d = (ground (arith, has-append x xs ys, d.0), Distinct-left xs ys d.1)

Distinct-right : (xs ys : List ℕ) → Distinct (xs ++ ys) → Distinct ys
Distinct-right [] ys d = d
Distinct-right (x ∷ xs) ys d = Distinct-right xs ys d.1

pub Distinct-disjoint :
    (xs ys : List ℕ) (i : ℕ) → Distinct (xs ++ ys) → has i xs ≡ true → has i ys ≡ false
Distinct-disjoint [] ys i d h = cc
Distinct-disjoint (x ∷ xs) ys i d h =
    ground (arith, has-append x xs ys, d.0, h, Distinct-disjoint xs ys i d.1)

has-own :
    (k index j : ℕ) (fs : List Frame)
    → k < length fs
    → has j (owned_all (own_at k index fs)) ≡ (j == index || has j (owned_all fs))
unfolding own_at
has-own k index j [] b = absurd (omega (arith, b))
has-own zero index j (f ∷ fs) b = ground (
  arith,
  has-append j (f.owned_slots ++ index ∷ []) (owned_all fs),
  has-append j f.owned_slots (index ∷ []),
  has-append j f.owned_slots (owned_all fs),
)
has-own (suc k) index j (f ∷ fs) b = ground (
  arith,
  has-append j f.owned_slots (owned_all (own_at k index fs)),
  has-append j f.owned_slots (owned_all fs),
  has-own k index j fs (omega (arith, b)),
)

own-past : (k index : ℕ) (fs : List Frame) → length fs ≤ k → own_at k index fs ≡ fs
unfolding own_at
own-past k index [] b = refl
own-past zero index (f ∷ fs) b = absurd (omega (arith, b))
own-past (suc k) index (f ∷ fs) b =
    ap (λ (x : List Frame). f ∷ x) (own-past k index fs (omega (arith, b)))

length-own :
    (k index : ℕ) (fs : List Frame)
    → k < length fs
    → length (owned_all (own_at k index fs)) ≡ length (owned_all fs) + 1
unfolding own_at
length-own k index [] b = absurd (omega (arith, b))
length-own zero index (f ∷ fs) b = omega (
  arith,
  length-append (f.owned_slots ++ index ∷ []) (owned_all fs),
  length-append f.owned_slots (index ∷ []),
  length-append f.owned_slots (owned_all fs),
)
length-own (suc k) index (f ∷ fs) b = omega (
  arith,
  length-append f.owned_slots (owned_all (own_at k index fs)),
  length-append f.owned_slots (owned_all fs),
  length-own k index fs (omega (arith, b)),
)

own-disjoint :
    (k index i : ℕ) (f : Frame) (fs : List Frame)
    → Distinct (f.owned_slots ++ owned_all fs)
    → has index (f.owned_slots ++ owned_all fs) ≡ false
    → has i f.owned_slots ≡ true
    → has i (owned_all (own_at k index fs)) ≡ false
own-disjoint k index i f fs d n e =
    let h = has-append index f.owned_slots (owned_all fs) in
    let out = Distinct-disjoint f.owned_slots (owned_all fs) i d e in
    elim (Bool-cases (ltb k (length fs))) [
      | inl b ↦ ground (arith, e, h, n, out, has-own k index i fs (ground (arith, b)))
      | inr b ↦ rw (own-past k index fs (ground (arith, b))) out
    ]

Distinct-own :
    (k index : ℕ) (fs : List Frame)
    → Distinct (owned_all fs)
    → has index (owned_all fs) ≡ false
    → Distinct (owned_all (own_at k index fs))
unfolding own_at
Distinct-own k index [] d n = tt
Distinct-own zero index (f ∷ fs) d n =
    let h = has-append index f.owned_slots (owned_all fs) in
    Distinct-append (f.owned_slots ++ index ∷ []) (owned_all fs)
      (Distinct-append f.owned_slots (index ∷ []) (Distinct-left f.owned_slots (owned_all fs) d)
        (refl, tt) (λ i e. ground (arith, e, h, n)))
      (Distinct-right f.owned_slots (owned_all fs) d)
      (λ i e. ground (
        arith,
        e,
        h,
        n,
        has-append i f.owned_slots (index ∷ []),
        Distinct-disjoint f.owned_slots (owned_all fs) i d,
      ))
Distinct-own (suc k) index (f ∷ fs) d n =
    let h = has-append index f.owned_slots (owned_all fs) in
    let bound = Distinct-right f.owned_slots (owned_all fs) d in
    Distinct-append f.owned_slots (owned_all (own_at k index fs))
      (Distinct-left f.owned_slots (owned_all fs) d)
      (Distinct-own k index fs bound (ground (arith, h, n)))
      (λ i e. own-disjoint k index i f fs d n e)

pub free-Owns : (i : ℕ) (os : List ℕ) (a : Agent) → Owns (i ∷ os) a → Owns os (free_value_slot i a)
unfolding free_value_slot
free-Owns i os a k =
    let u = k.used i in
    let l = k.live in
    record {
      free_distinct = ground (arith, u, k.free_distinct, k.disjoint i);
      distinct = k.distinct.1;
      disjoint = λ j h. ground (arith, u, h, k.disjoint j, k.distinct.0);
      free_inside = λ j h. ground (arith, u, h, k.free_inside j, k.inside i);
      inside = λ j h. ground (arith, u, h, k.inside j);
      used = λ j. ground (arith, u, k.used j, k.distinct.0);
      valued = λ j h. ground (arith, u, h, k.valued j, k.distinct.0);
      generation = λ j. ground (arith, u, k.generation j);
      live = ground (arith, u, l);
      size = ground (arith, u, k.size);
    }

pub free_slots-Owns : (xs os : List ℕ) (a : Agent) → Owns (xs ++ os) a → Owns os (free_slots xs a)
unfolding free_slots
free_slots-Owns [] os a k = k
free_slots-Owns (x ∷ xs) os a k =
    free_slots-Owns xs os (free_value_slot x a) (free-Owns x (xs ++ os) a k)

-- The slots do not depend on the frames and the scopes.
pub Owns-frames :
    (os : List ℕ) (fs : List Frame) (closed : List ℕ) (next : ℕ) (a : Agent)
    → Owns os a
    → Owns os (record a { scope_frames = fs; closed = closed; next_scope_id = next })
Owns-frames os fs closed next a k = record {
  free_distinct = k.free_distinct;
  distinct = k.distinct;
  disjoint = k.disjoint;
  free_inside = k.free_inside;
  inside = k.inside;
  used = k.used;
  valued = k.valued;
  generation = k.generation;
  live = k.live;
  size = k.size;
}

free_slot-frames : (x : ℕ) (a : Agent) → (free_value_slot x a).scope_frames ≡ a.scope_frames
unfolding free_value_slot
free_slot-frames x a = ground arith

pub free_slots-frames : (xs : List ℕ) (a : Agent) → (free_slots xs a).scope_frames ≡ a.scope_frames
unfolding free_slots
free_slots-frames [] a = refl
free_slots-frames (x ∷ xs) a = free_slots-frames xs (free_value_slot x a) ∙ free_slot-frames x a

close_scope-cases :
    (b : Bool) (f : Frame) (a : Agent)
    → (c : List ℕ) × (close_scope b f a ≡ record a { closed = c })
unfolding close_scope
close_scope-cases b f a = elim (Bool-cases (b && is_some a.env && is_some f.env)) [
  | inl e ↦ (elim (Option-cases (scope_to_close f)) [
    | inl n ↦ (a.closed, rw (e, n) refl)
    | inr (s, n) ↦ (s ∷ a.closed, rw (e, n) refl)
  ])
  | inr e ↦ (a.closed, rw e refl)
]

-- What is left after the innermost frame is popped.
pub pop-Owns :
    (b : Bool) (f : Frame) (fs : List Frame) (a : Agent)
    → a.scope_frames ≡ f ∷ fs
    → IsBridge a
    → ((pop_current_frame b a).scope_frames ≡ fs) × IsBridge (pop_current_frame b a)
unfolding pop_current_frame
pop-Owns b f fs a e k =
    let start : Owns (f.owned_slots ++ owned_all fs) a =
      subst (λ (x : List Frame). Owns (owned_all x) a) e k in
    let a1 : Agent = record a { scope_frames = fs } in
    let a2 = free_slots f.owned_slots a1 in
    let k2 =
      free_slots-Owns f.owned_slots (owned_all fs) a1
        (Owns-frames _ fs a.closed a.next_scope_id a start) in
    let same : a2.scope_frames ≡ fs = free_slots-frames f.owned_slots a1 in
    let (c, q) = close_scope-cases b f a2 in
    rw (e, q)
      (
        same,
        subst (λ (x : List Frame). Owns (owned_all x) (record a2 { closed = c })) (sym same)
            (Owns-frames (owned_all fs) a2.scope_frames c a2.next_scope_id a2 k2),
      )

pub pop-IsBridge : (b : Bool) (a : Agent) → IsBridge a → IsBridge (pop_current_frame b a)
unfolding pop_current_frame
pop-IsBridge b a k = elim (List-cases a.scope_frames) [
  | inl e ↦
      (let same : pop_current_frame b a ≡ a = ground (arith, e) in subst IsBridge (sym same) k)
  | inr (f, (fs, e)) ↦ (pop-Owns b f fs a e k).1
]

pub root-IsBridge : (a : Agent) → IsBridge a → IsBridge (with_root a)
unfolding with_root
root-IsBridge a k = elim (List-cases a.scope_frames) [
  | inl e ↦ rw e (
      Owns-frames [] (root_frame ∷ []) a.closed a.next_scope_id a
        (subst (λ (x : List Frame). Owns (owned_all x) a) e k))
  | inr (f, (fs, e)) ↦
      (let same : with_root a ≡ a = ground (arith, e) in subst IsBridge (sym same) k)
]

pub occupy-IsBridge :
    (n i v : ℕ) (a : Agent)
    → IsBridge a
    → n < length a.scope_frames
    → has i (owned_all a.scope_frames) ≡ false
    → has i a.value_free_slots ≡ false
    → i < a.slot_count
    → IsBridge (occupy n i v a).1
unfolding occupy
occupy-IsBridge n i v a k b fresh off inside = record {
  free_distinct = k.free_distinct;
  distinct = Distinct-own n i a.scope_frames k.distinct fresh;
  disjoint = λ j h. ground (arith, h, off, k.disjoint j, has-own n i j a.scope_frames b);
  free_inside = k.free_inside;
  inside = λ j h. ground (arith, h, inside, k.inside j, has-own n i j a.scope_frames b);
  used = λ j. ground (arith, k.used j, has-own n i j a.scope_frames b);
  valued = λ j h. ground (arith, h, k.valued j, has-own n i j a.scope_frames b);
  generation = λ j. ground (arith, k.generation j, k.generation i);
  live = omega (arith, k.live, length-own n i a.scope_frames b);
  size = k.size;
}

-- A slot taken off the free list, or a new one at the end of the slots.
pub reuse-Owns :
    (os : List ℕ) (i : ℕ) (rest : List ℕ) (a : Agent)
    → a.value_free_slots ≡ i ∷ rest
    → Owns os a
    → Owns os (record a { value_free_slots = rest })
reuse-Owns os i rest a e k = record {
  free_distinct = (subst Distinct e k.free_distinct).1;
  distinct = k.distinct;
  disjoint =
      λ j h. k.disjoint j (subst (λ (x : List ℕ). has j x ≡ true) (sym e) (ground (arith, h)));
  free_inside =
      λ j h. k.free_inside j (subst (λ (x : List ℕ). has j x ≡ true) (sym e) (ground (arith, h)));
  inside = k.inside;
  used = k.used;
  valued = k.valued;
  generation = k.generation;
  live = k.live;
  size = k.size;
}

pub extend-Owns :
    (os : List ℕ) (a : Agent)
    → a.slot_count < value_id_max_slots
    → Owns os a
    → Owns os (record a {
      slot_count = a.slot_count + 1;
      value_slots = update a.value_slots a.slot_count new_slot;
    })
extend-Owns os a b k = record {
  free_distinct = k.free_distinct;
  distinct = k.distinct;
  disjoint = k.disjoint;
  free_inside = λ j h. omega (arith, k.free_inside j h);
  inside = λ j h. omega (arith, k.inside j h);
  used = λ j. ground (arith, k.used j, k.inside j);
  valued = λ j h. ground (arith, k.valued j h, k.inside j h);
  generation = λ j. ground (arith, k.generation j);
  live = k.live;
  size = omega (arith, b);
}
