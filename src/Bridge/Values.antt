-- ===== src/Bridge/Values.antt =====
-- What an id of a value names, through stores and through the closing of frames.
use napi.Prelude.{
  ℕ, ◌+◌, ◌-◌, ◌/◌, ◌%◌, ◌^◌, ◌<◌, ◌≡◌, ◌≢◌, ◌⊎◌, refl, ap, sym, ◌∙◌, Bool, true, false, not, ◌&&◌,
  ◌||◌, none, some, List, [], ◌∷◌, ◌++◌, arith, ltb, leb, ◌==◌, if◌then◌else◌, length, update,
  is_some, has, has-append, Distinct, Bool-cases, Option-cases, List-cases, subst, inl, inr,
}
use napi.Bridge.{
  generations, value_id_max_slots, Slot, new_slot, Frame, Agent, value_id, own_at, occupy,
  store_value_in_frame, load_value, free_value_slot, free_slots, scope_to_close, close_scope,
  pop_current_frame,
}
use napi.Bridge.Slots.{
  owned_all, IsBridge, occupy-IsBridge, reuse-Owns, extend-Owns, pop-Owns, Distinct-left,
}

-- The slot that an id names, where it names one.
abbrev pub slot_of : ℕ → ℕ
slot_of id = id / generations - 1

-- `load_value` by the parts of an id.
pub load_lem :
    (a : Agent) (id : ℕ)
    → load_value id a ≡ (
        if is_some a.env
          && ltb 0 (id / generations)
          && leb (id / generations) a.slot_count
          && (a.value_slots (slot_of id)).in_use
          && (a.value_slots (slot_of id)).generation == id % generations
        then (a.value_slots (slot_of id)).value
        else none)
unfolding load_value
load_lem a id = ground arith

id-parts :
    (i g : ℕ)
    → g < generations
    → (value_id i g / generations ≡ i + 1) × (value_id i g % generations ≡ g)
id-parts i g b = (omega (arith, b), omega (arith, b))

occupy-loads :
    (n i v id : ℕ) (a : Agent)
    → IsBridge a
    → is_some a.env ≡ true
    → has i (owned_all a.scope_frames) ≡ false
    → i < a.slot_count
    → let r = occupy n i v a in
      (load_value r.0 r.1 ≡ some v)
      × (load_value r.0 a ≡ none)
      × (id ≢ r.0 → load_value id r.1 ≡ load_value id a)
unfolding occupy
occupy-loads n i v id a k e f b =
    let g = (a.value_slots i).generation in
    let p = id-parts i g (k.generation i) in
    let r = occupy n i v a in
    let u = k.used i in
    (
      ground (arith, load_lem r.1 (value_id i g), p, e, b),
      ground (arith, load_lem a (value_id i g), p, u, f),
      λ ne. ground (arith, load_lem r.1 id, load_lem a id, u, f, ne),
    )

reuse-loads :
    (rest : List ℕ) (id : ℕ) (a : Agent)
    → load_value id (record a { value_free_slots = rest }) ≡ load_value id a
unfolding load_value
reuse-loads rest id a = refl

extend-loads :
    (id : ℕ) (a : Agent)
    → load_value id (record a {
      slot_count = a.slot_count + 1;
      value_slots = update a.value_slots a.slot_count new_slot;
    })
      ≡ load_value id a
extend-loads id a =
    let a1 : Agent = record a {
      slot_count = a.slot_count + 1;
      value_slots = update a.value_slots a.slot_count new_slot;
    } in
    ground (arith, load_lem a1 id, load_lem a id)

-- Whether a store is refused: for the limit of the agent, or since all slots are taken.
abbrev pub is_refused : Agent → Bool
is_refused a =
    (not (a.value_limit == 0) && leb a.value_limit a.live_value_count)
    || (elim a.value_free_slots [ [] ↦ true | _ ∷ _ ↦ false ]
        && leb value_id_max_slots a.slot_count)

-- A value stored under a new id.
pub record Stored (n v : ℕ) (a : Agent) (r : ℕ × Agent) : Type 0 where
  pub nonzero : 0 < r.0
  pub fits : r.0 < 2 ^ 32
  pub keeps : IsBridge r.1
  pub names : load_value r.0 r.1 ≡ some v
  pub fresh : load_value r.0 a ≡ none
  pub unowned : has (slot_of r.0) (owned_all a.scope_frames) ≡ false
  pub frames : r.1.scope_frames ≡ own_at n (slot_of r.0) a.scope_frames
  pub loads : (id : ℕ) → load_value id r.1 ≡ (if id == r.0 then some v else load_value id a)

occupy-Stored :
    (n i v : ℕ) (a b : Agent)
    → ((id : ℕ) → load_value id b ≡ load_value id a)
    → IsBridge b
    → is_some b.env ≡ true
    → n < length b.scope_frames
    → has i (owned_all b.scope_frames) ≡ false
    → has i b.value_free_slots ≡ false
    → i < b.slot_count
    → b.scope_frames ≡ a.scope_frames
    → Stored n v a (occupy n i v b)
unfolding occupy
occupy-Stored n i v a b same k e m f off inside fr =
    let r = occupy n i v b in
    let p = (id-parts i (b.value_slots i).generation (k.generation i)).0 in
    let s : slot_of r.0 ≡ i = omega (arith, p) in
    let g = k.generation i in
    record {
      nonzero = omega (arith, g);
      fits = omega (arith, g, inside, k.size);
      keeps = occupy-IsBridge n i v b k m f off inside;
      names = (occupy-loads n i v 0 b k e f inside).0;
      unowned = rw (s, sym fr) f;
      frames = rw (s, fr) refl;
      fresh = sym (same r.0) ∙ (occupy-loads n i v 0 b k e f inside).1;
      loads = λ id. ground (arith, (occupy-loads n i v id b k e f inside), same id);
    }

pub store-cases :
    (n v : ℕ) (a : Agent)
    → IsBridge a
    → is_some a.env ≡ true
    → n < length a.scope_frames
    → let r = store_value_in_frame n (some v) a in
      (is_refused a ≡ true → r ≡ (0, a)) × (is_refused a ≡ false → Stored n v a r)
unfolding store_value_in_frame
store-cases n v a k e m = elim (List-cases a.value_free_slots) [
  | inl z ↦
      let a1 : Agent = record a {
        slot_count = a.slot_count + 1;
        value_slots = update a.value_slots a.slot_count new_slot;
      } in
      (
        ground (arith, z, e),
        λ open_.
            let room : a.slot_count < value_id_max_slots = ground (arith, z, open_) in
            let eq : store_value_in_frame n (some v) a ≡ occupy n a.slot_count v a1 =
              ground (arith, z, e, open_) in
            let out = k.inside a.slot_count in
            subst (Stored n v a) (sym eq) (
              occupy-Stored n a.slot_count v a a1 (λ id. extend-loads id a) (extend-Owns _ a room k)
                e m (ground (arith, out)) (ground (arith, z)) (omega arith) refl),
      )
  | inr (i, (rest, z)) ↦
      let a1 : Agent = record a { value_free_slots = rest } in
      (
        ground (arith, z, e),
        λ open_.
            let eq : store_value_in_frame n (some v) a ≡ occupy n i v a1 =
              ground (arith, z, e, open_) in
            let there : has i a.value_free_slots ≡ true = ground (arith, z) in
            subst (Stored n v a) (sym eq) (
              occupy-Stored n i v a a1 (λ id. reuse-loads rest id a) (reuse-Owns _ i rest a z k) e m
                (k.disjoint i there) (subst Distinct z k.free_distinct).0 (k.free_inside i there)
                refl),
      )
]

-- Where the env is open and the frame is there: either the agent's limit is reached or all slots are
-- taken, and a store gives the id 0 and changes nothing; or it gives a non-zero id of 32 bits that
-- named nothing before, which names the value then, while every other id names what it named, and
-- the frames own exactly the slots in use.
pub store-Stored :
    (n v : ℕ) (a : Agent)
    → IsBridge a
    → is_some a.env ≡ true
    → n < length a.scope_frames
    → let r = store_value_in_frame n (some v) a in
      ((is_refused a ≡ true) × (r ≡ (0, a))) ⊎ ((is_refused a ≡ false) × Stored n v a r)
store-Stored n v a k e m = elim (Bool-cases (is_refused a)) [
  | inl r ↦ inl (r, (store-cases n v a k e m).0 r)
  | inr r ↦ inr (r, (store-cases n v a k e m).1 r)
]

abbrev pub freed : Slot → Slot
freed slot = record {
  value = none;
  generation = (slot.generation + 1) % generations;
  in_use = false;
}

free_slot-slots :
    (x : ℕ) (a : Agent)
    → (a.value_slots x).in_use ≡ true
    → (j : ℕ)
    → ((free_value_slot x a).value_slots j
        ≡ (if j == x then freed (a.value_slots j) else a.value_slots j))
      × ((free_value_slot x a).slot_count ≡ a.slot_count)
      × ((free_value_slot x a).env ≡ a.env)
unfolding free_value_slot
free_slot-slots x a u j = (ground (arith, u), ground (arith, u), ground (arith, u))

free_slots-slots :
    (xs : List ℕ) (j : ℕ) (a : Agent)
    → Distinct xs
    → ((i : ℕ) → has i xs ≡ true → (a.value_slots i).in_use ≡ true)
    → ((free_slots xs a).value_slots j
        ≡ (if has j xs then freed (a.value_slots j) else a.value_slots j))
      × ((free_slots xs a).slot_count ≡ a.slot_count)
      × ((free_slots xs a).env ≡ a.env)
unfolding free_slots
free_slots-slots [] j a d u = (refl, refl, refl)
free_slots-slots (x ∷ xs) j a d u =
    let a1 = free_value_slot x a in
    let step = free_slot-slots x a (u x (ground arith)) in
    let ih = free_slots-slots xs j a1 d.1 (λ i h. ground (arith, h, u i, (step i).0, d.0)) in
    let s = step j in (ground (arith, ih.0, s.0, d.0), ih.1 ∙ s.1, ih.2 ∙ s.2)

close_scope-slots :
    (b : Bool) (f : Frame) (a : Agent)
    → ((close_scope b f a).value_slots ≡ a.value_slots)
      × ((close_scope b f a).slot_count ≡ a.slot_count)
      × ((close_scope b f a).env ≡ a.env)
unfolding close_scope
close_scope-slots b f a = elim (Bool-cases (b && is_some a.env && is_some f.env)) [
  | inl e ↦ (elim (Option-cases (scope_to_close f)) [
    | inl n ↦ rw (e, n) (refl, refl, refl)
    | inr (s, n) ↦ rw (e, n) (refl, refl, refl)
  ])
  | inr e ↦ rw e (refl, refl, refl)
]

pub pop-slots :
    (b : Bool) (f : Frame) (fs : List Frame) (a : Agent) (j : ℕ)
    → a.scope_frames ≡ f ∷ fs
    → IsBridge a
    → let r = pop_current_frame b a in
      (r.value_slots j ≡ (if has j f.owned_slots then freed (a.value_slots j) else a.value_slots j))
      × (r.slot_count ≡ a.slot_count)
      × (r.env ≡ a.env)
unfolding pop_current_frame
pop-slots b f fs a j e k =
    let a1 : Agent = record a { scope_frames = fs } in
    let d : Distinct (f.owned_slots ++ owned_all fs) =
      subst (λ (x : List Frame). Distinct (owned_all x)) e k.distinct in
    let s =
      free_slots-slots f.owned_slots j a1 (Distinct-left f.owned_slots (owned_all fs) d) (λ i h.
        k.used i
        ∙ subst (λ (x : List Frame). has i (owned_all x) ≡ true) (sym e)
            (ground (arith, has-append i f.owned_slots (owned_all fs), h))) in
    let c = close_scope-slots b f (free_slots f.owned_slots a1) in
    rw e (ap (λ (m : ℕ → Slot). m j) c.0 ∙ s.0, c.1 ∙ s.1, c.2 ∙ s.2)

-- When the innermost frame is popped, the ids of the slots that it owns name nothing any more,
-- every other id names what it named, and the frames left own exactly the slots in use.
pub pop-load :
    (b : Bool) (f : Frame) (fs : List Frame) (a : Agent)
    → a.scope_frames ≡ f ∷ fs
    → IsBridge a
    → let r = pop_current_frame b a in
      (r.scope_frames ≡ fs)
      × IsBridge r
      × ((id : ℕ)
          → load_value id r ≡ (if has (slot_of id) f.owned_slots then none else load_value id a))
pop-load b f fs a e k =
    let p = pop-Owns b f fs a e k in
    (
      p.0,
      p.1,
      λ id.
          let s = pop-slots b f fs a (slot_of id) e k in
          ground (arith, load_lem (pop_current_frame b a) id, load_lem a id, s),
    )
