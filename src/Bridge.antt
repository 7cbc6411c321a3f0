-- ===== src/Bridge.antt =====
-- src/napi_bridge_init.cc: the bridge between a WASM guest and the engine. The guest sees numbers
-- only; this file has the slots that the ids of values name and the scope frames that own them.
-- A napi_value, a scope and an env of the engine are numbers, null is `none`. `value_slots` is a
-- map and its length, and the frames stand innermost first, the reverse of the vector.
pub mod Slots
pub mod Values
pub mod Generations
pub mod Scopes
pub mod Handles
pub mod Callbacks
pub mod Calls
pub mod Release
pub mod Drain
mod Tests
use napi.Prelude.{
  ℕ, zero, suc, ◌+◌, ◌-◌, ◌*◌, ◌/◌, ◌%◌, ◌^◌, Bool, true, false, not, ◌&&◌, ◌||◌, Option, none,
  some, List, [], ◌∷◌, ◌++◌, ltb, leb, ◌==◌, if◌then◌else◌, length, update, is_some,
}

abbrev pub value_id_gen_bits : ℕ
value_id_gen_bits = 12

abbrev pub generations : ℕ
generations = 2 ^ value_id_gen_bits

abbrev pub value_id_max_slots : ℕ
value_id_max_slots = 2 ^ 20 - 1

-- ValueSlot
pub record Slot : Type 0 where
  pub value : Option ℕ
  pub generation : ℕ
  pub in_use : Bool

abbrev pub new_slot : Slot
new_slot = record { value = none; generation = 0; in_use = false }

-- ScopeFrame
pub record Frame : Type 0 where
  pub scope : Option ℕ
  pub esc_scope : Option ℕ
  pub env : Option ℕ
  pub owned_slots : List ℕ
  pub id : ℕ

abbrev pub root_frame : Frame
root_frame = record { scope = none; esc_scope = none; env = none; owned_slots = []; id = 0 }

-- SnapiAgentState, less the buffers that frames reuse. `env` is the env of the state that calls,
-- and `closed` the scopes of the engine that were closed, the last one first.
pub record Agent : Type 0 where
  pub env : Option ℕ
  pub value_slots : ℕ → Slot
  pub slot_count : ℕ
  pub value_free_slots : List ℕ
  pub live_value_count : ℕ
  pub scope_frames : List Frame
  pub next_scope_id : ℕ
  pub value_limit : ℕ
  pub closed : List ℕ

-- CurrentFrame: makes the root frame on first use.
pub with_root : Agent → Agent
with_root a = elim a.scope_frames [ [] ↦ record a { scope_frames = root_frame ∷ [] } | _ ∷ _ ↦ a ]

pub push_scope_frame : Option ℕ → Option ℕ → ℕ → Agent → Agent
unfolding with_root
push_scope_frame scope esc_scope id a =
    let a1 = with_root a in
    record a1 {
      scope_frames =
          record { scope = scope; esc_scope = esc_scope; env = a.env; owned_slots = []; id = id }
          ∷ a1.scope_frames;
    }

-- The low 12 bits of the shifted index are 0, so that `|` adds the generation.
abbrev pub value_id : ℕ → ℕ → ℕ
value_id index generation = (index + 1) * generations + generation

-- `frame.owned_slots.push_back(index)` of the frame at a position, the innermost at 0.
pub own_at : ℕ → ℕ → List Frame → List Frame
own_at k index [] = []
own_at zero index (f ∷ fs) = record f { owned_slots = f.owned_slots ++ index ∷ [] } ∷ fs
own_at (suc k) index (f ∷ fs) = f ∷ own_at k index fs

-- The last part of StoreValueInFrame, with the index of a slot that is not in use.
pub occupy : ℕ → ℕ → ℕ → Agent → ℕ × Agent
unfolding own_at
occupy k index value a = (
  value_id index (a.value_slots index).generation,
  record a {
    value_slots = update a.value_slots index (record {
      value = some value;
      generation = (a.value_slots index).generation;
      in_use = true;
    });
    live_value_count = a.live_value_count + 1;
    scope_frames = own_at k index a.scope_frames;
  },
)

-- StoreValueInFrame, with the position of the frame.
pub store_value_in_frame : ℕ → Option ℕ → Agent → ℕ × Agent
unfolding occupy
store_value_in_frame k none a = (0, a)
store_value_in_frame k (some value) a =
    if not (is_some a.env)
    then (0, a)
    else if not (a.value_limit == 0) && leb a.value_limit a.live_value_count
    then (0, a)
    else elim a.value_free_slots [
      | index ∷ rest ↦ occupy k index value (record a { value_free_slots = rest })
      | [] ↦
          if leb value_id_max_slots a.slot_count
          then (0, a)
          else occupy k a.slot_count value (record a {
            slot_count = a.slot_count + 1;
            value_slots = update a.value_slots a.slot_count new_slot;
          })
    ]

pub store_value : Option ℕ → Agent → ℕ × Agent
unfolding with_root store_value_in_frame
store_value value a = store_value_in_frame 0 value (with_root a)

pub load_value : ℕ → Agent → Option ℕ
load_value id a =
    if id == 0
    then none
    else if not (is_some a.env)
    then none
    else let index_plus_one = id / generations in
      if index_plus_one == 0 || ltb a.slot_count index_plus_one
      then none
      else let slot = a.value_slots (index_plus_one - 1) in
        if not slot.in_use || not (slot.generation == id % generations) then none else slot.value

pub free_value_slot : ℕ → Agent → Agent
free_value_slot index a =
    let slot = a.value_slots index in
    if not slot.in_use then a else record a {
      value_slots = update a.value_slots index (record {
        value = none;
        generation = (slot.generation + 1) % generations;
        in_use = false;
      });
      value_free_slots = index ∷ a.value_free_slots;
      live_value_count = a.live_value_count - 1;
    }

pub free_slots : List ℕ → Agent → Agent
unfolding free_value_slot
free_slots [] a = a
free_slots (index ∷ rest) a = free_slots rest (free_value_slot index a)

-- Which scope of the engine a frame closes.
pub scope_to_close : Frame → Option ℕ
scope_to_close f = elim f.esc_scope [ some s ↦ some s | none ↦ f.scope ]

close_scope : Bool → Frame → Agent → Agent
unfolding scope_to_close
close_scope close_napi_scope f a =
    if close_napi_scope && is_some a.env && is_some f.env
    then (elim (scope_to_close f) [ none ↦ a | some s ↦ record a { closed = s ∷ a.closed } ])
    else a

pub pop_current_frame : Bool → Agent → Agent
unfolding free_slots close_scope
pop_current_frame close_napi_scope a = elim a.scope_frames [
  | [] ↦ a
  | frame ∷ rest ↦
      close_scope close_napi_scope frame
        (free_slots frame.owned_slots (record a { scope_frames = rest }))
]

-- FindFrameById, as a position, the innermost at 0.
pub find_frame : ℕ → List Frame → Option ℕ
find_frame id [] = none
find_frame id (f ∷ fs) =
    let later = find_frame id fs in
    if f.id == id then some 0 else elim later [ none ↦ none | some k ↦ some (k + 1) ]

pub find_frame_by_id : ℕ → Agent → Option ℕ
unfolding find_frame
find_frame_by_id scope_id a = if scope_id == 0 then none else find_frame scope_id a.scope_frames

pub data Status : Type 0 where
  ok invalid_arg generic_failure handle_scope_mismatch : Status
  other_status : ℕ → Status

pub is_ok : Status → Bool
is_ok ok = true
is_ok _ = false

-- RequireEnvState; `owned` is whether the calling thread owns the env.
pub require_env_state : Bool → Agent → Bool
require_env_state owned a = owned && is_some a.env
