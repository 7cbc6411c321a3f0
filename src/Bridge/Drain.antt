-- ===== src/Bridge/Drain.antt =====
-- What DisposeBridgeState does to the values of an agent before its owner is released: it pops
-- every frame and empties the slots.
use napi.Prelude.{ℕ, ◌≡◌, refl, sym, true, false, none, List, [], ◌∷◌, arith, subst}
use napi.Bridge.{Frame, Agent, load_value, pop_current_frame}
use napi.Bridge.Slots.{owned_all, Owns, IsBridge, pop-Owns}
use napi.Bridge.Values.{slot_of, load_lem}

-- `while (!scope_frames.empty()) PopCurrentFrame`, over the frames there are.
pub drain : List Frame → Agent → Agent
drain [] a = a
drain (f ∷ fs) a = drain fs (pop_current_frame true a)

-- The loop, and the slots emptied.
pub clear_values : Agent → Agent
unfolding drain
clear_values a =
    let drained = drain a.scope_frames a in
    record drained {
      slot_count = 0;
      value_free_slots = [];
      live_value_count = 0;
      next_scope_id = 1;
    }

drain-IsBridge :
    (fs : List Frame) (a : Agent)
    → IsBridge a
    → a.scope_frames ≡ fs
    → IsBridge (drain fs a) × ((drain fs a).scope_frames ≡ [])
unfolding drain
drain-IsBridge [] a k e = (k, e)
drain-IsBridge (f ∷ fs) a k e =
    let (rest, kept) = pop-Owns true f fs a e k in
    drain-IsBridge fs (pop_current_frame true a) kept rest

-- Before the slots are emptied, popping every frame has freed them all: no slot is in use, none
-- counts as live, and no id names a value. Emptying them keeps this, and the frames own exactly the
-- slots in use.
pub clear_values-drain :
    (a : Agent)
    → IsBridge a
    → let d = drain a.scope_frames a in
      (d.scope_frames ≡ [])
      × (d.live_value_count ≡ 0)
      × ((i : ℕ) → (d.value_slots i).in_use ≡ false)
      × ((id : ℕ) → load_value id d ≡ none)
      × IsBridge (clear_values a)
      × ((id : ℕ) → load_value id (clear_values a) ≡ none)
unfolding clear_values
clear_values-drain a k =
    let d = drain a.scope_frames a in
    let (kept, empty) = drain-IsBridge a.scope_frames a k refl in
    let owned : Owns [] d = subst (λ (fs : List Frame). Owns (owned_all fs) d) empty kept in
    let used = owned.used in
    let after = clear_values a in
    let cleared : Owns [] after = record {
      free_distinct = tt;
      distinct = tt;
      disjoint = λ i h. refl;
      free_inside = λ i h. absurd (ground (arith, h));
      inside = λ i h. absurd (ground (arith, h));
      used = used;
      valued = λ i h. absurd (ground (arith, h));
      generation = owned.generation;
      live = refl;
      size = omega arith;
    } in
    (
      empty,
      owned.live,
      used,
      λ id. ground (arith, load_lem d id, used (slot_of id)),
      subst (λ (fs : List Frame). Owns (owned_all fs) after) (sym empty) cleared,
      λ id. ground (arith, load_lem after id, used (slot_of id)),
    )
