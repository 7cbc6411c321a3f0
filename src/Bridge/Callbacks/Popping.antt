-- ===== src/Bridge/Callbacks/Popping.antt =====
-- Stores and popped frames, above the frames below a callback.
use napi.Prelude.{
  ℕ, ◌<◌, ◌≡◌, ◌⊎◌, ap, sym, ◌∙◌, true, false, Option, none, some, List, [], ◌∷◌, ◌++◌, arith,
  length, is_some, has, has-append, Distinct, Bool-cases, Option-cases, subst, inl, inr,
}
use napi.Bridge.{Frame, Agent, own_at, load_value, store_value_in_frame, pop_current_frame}
use napi.Bridge.Slots.{owned_all, IsBridge, Distinct-disjoint}
use napi.Bridge.Values.{slot_of, load_lem, Stored, store-Stored, pop-load, pop-slots}
use napi.Bridge.Calls.Keeping.{in_frame-Keeps}
use napi.Bridge.Callbacks.Inside.{Extends, own-Extends, Extends-has, none_has, Inside, own-inner}

then-named :
    (a b d : Agent)
    → ((id : ℕ) → (load_value id a ≡ none) ⊎ (load_value id b ≡ load_value id a))
    → ((id : ℕ) → (load_value id b ≡ none) ⊎ (load_value id d ≡ load_value id b))
    → (id : ℕ) → (load_value id a ≡ none) ⊎ (load_value id d ≡ load_value id a)
then-named a b d p q id = elim (p id) [
  | inl n ↦ inl n
  | inr e ↦ elim (q id) [ inl n ↦ inl (sym e ∙ n) | inr g ↦ inr (g ∙ e) ]
]

Stored-Inside :
    (c n v : ℕ) (a b : Agent) (r : ℕ × Agent)
    → Inside c a b
    → ((id : ℕ) → (load_value id b ≡ none) ⊎ (load_value id r.1 ≡ load_value id b))
    → Stored n v b r
    → Inside c a r.1
Stored-Inside c n v a b r k named s =
    let i = slot_of r.0 in
    let (zs, ws, e, apart, w) = own-inner c n i k.inner k.outer k.apart in
    let before = load_lem r.1 r.0 in
    let names = s.names in
    record {
      inner = zs;
      outer = ws;
      frames = s.frames ∙ ap (own_at n i) k.frames ∙ e;
      extends = elim w [
        | inl q ↦ subst (Extends a.scope_frames) (sym q) k.extends
        | inr (j, q) ↦
            subst (Extends a.scope_frames) (sym q)
              (own-Extends j i a.scope_frames k.outer k.extends)
      ];
      apart = apart;
      bridge = s.keeps;
      named = then-named a b r.1 k.named named;
      env = ground (arith, before, names);
    }

-- A store in any frame.
pub store-Inside :
    (c n : ℕ) (v : Option ℕ) (a b : Agent)
    → Inside c a b
    → n < length b.scope_frames
    → Inside c a (store_value_in_frame n v b).1
unfolding store_value_in_frame
store-Inside c n none a b k l = k
store-Inside c n (some v) a b k l = elim (store-Stored n v b k.bridge k.env l) [
  | inl (r, e) ↦ subst (Inside c a) (sym (ap (λ (x : ℕ × Agent). x.1) e)) k
  | inr (r, s) ↦
      Stored-Inside c n v a b (store_value_in_frame n (some v) b) k
        (in_frame-Keeps n (some v) b k.bridge l).named s
]

-- The slot of an id that names a value is owned by a frame.
named-owned :
    (a : Agent) (id v : ℕ)
    → IsBridge a
    → load_value id a ≡ some v
    → has (slot_of id) (owned_all a.scope_frames) ≡ true
named-owned a id v k e = let l = load_lem a id in ground (arith, l, e, k.used (slot_of id))

owned-later :
    (fs gs : List Frame) (j : ℕ) → has j (owned_all gs) ≡ true → has j (owned_all (fs ++ gs)) ≡ true
owned-later [] gs j h = h
owned-later (f ∷ fs) gs j h =
    ground (arith, has-append j f.owned_slots (owned_all (fs ++ gs)), owned-later fs gs j h)

-- The bridge keeps the ids that name a value in `a`.
pub record Kept (a b : Agent) : Type 0 where
  pub bridge : IsBridge b
  pub named : (id : ℕ) → (load_value id a ≡ none) ⊎ (load_value id b ≡ load_value id a)
  pub env : is_some b.env ≡ true

-- Popping a frame above those that own the slots of these ids.
pub pop-Kept :
    (f : Frame) (fs outer : List Frame) (a b : Agent)
    → IsBridge a
    → Kept a b
    → b.scope_frames ≡ f ∷ (fs ++ outer)
    → Extends a.scope_frames outer
    → ((pop_current_frame true b).scope_frames ≡ fs ++ outer) × Kept a (pop_current_frame true b)
pop-Kept f fs outer a b ka k e ext =
    let (frames, bridge, loads) = pop-load true f (fs ++ outer) b e k.bridge in
    let d : Distinct (f.owned_slots ++ owned_all (fs ++ outer)) =
      subst (λ (x : List Frame). Distinct (owned_all x)) e k.bridge.distinct in
    (
      frames,
      record {
        bridge = bridge;
        named = λ id. elim (Option-cases (load_value id a)) [
          | inl n ↦ inl n
          | inr (v, q) ↦
              (let j = slot_of id in
                let low = Extends-has a.scope_frames outer j ext (named-owned a id v ka q) in
                let high = owned-later fs outer j low in
                let off : has j f.owned_slots ≡ false = elim (Bool-cases (has j f.owned_slots)) [
                  | inr h ↦ h
                  | inl h ↦ absurd (
                      ground (
                        arith,
                        high,
                        Distinct-disjoint f.owned_slots (owned_all (fs ++ outer)) j d h,
                      ))
                ] in
                elim (k.named id) [
                  | inl n ↦ inl n
                  | inr g ↦ inr (ground (arith, loads id, off, g))
                ])
        ];
        env = ap is_some (pop-slots true f (fs ++ outer) b 0 e k.bridge).2 ∙ k.env;
      },
    )

pub Inside-Kept : (c : ℕ) (a b : Agent) → Inside c a b → Kept a b
Inside-Kept c a b k = record { bridge = k.bridge; named = k.named; env = k.env }

-- Popping a frame of the guest's.
pub pop-Inside :
    (c : ℕ) (f : Frame) (fs outer : List Frame) (a b : Agent)
    → IsBridge a
    → Inside c a b
    → b.scope_frames ≡ f ∷ (fs ++ outer)
    → none_has c fs ≡ true
    → Extends a.scope_frames outer
    → Inside c a (pop_current_frame true b)
pop-Inside c f fs outer a b ka k e apart ext =
    let (frames, kept) = pop-Kept f fs outer a b ka (Inside-Kept c a b k) e ext in
    record {
      inner = fs;
      outer = outer;
      frames = frames;
      extends = ext;
      apart = apart;
      bridge = kept.bridge;
      named = kept.named;
      env = kept.env;
    }
