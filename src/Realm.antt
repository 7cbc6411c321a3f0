-- ===== src/Realm.antt =====
-- quickjs/src/internal/napi_env.cc: the realm frames of an env. A frame with token 0 is that of a
-- native callback, any other that of a scope of unofficial_napi_enter_realm.
-- realm_frames_ is a list, the innermost frame (the vector's back) first; contexts and the
-- functions that anchor them are numbers.
pub mod Nesting
mod Tests
use napi.Prelude.{
  ℕ, zero, suc, ◌+◌, ◌-◌, ◌%◌, ◌^◌, Bool, true, false, not, ◌&&◌, ◌||◌, Option, none, some, List,
  [], ◌∷◌, ltb, ◌==◌, if◌then◌else◌, length,
}

-- napi_realm_frame__; the anchor is none where it is undefined.
pub record Frame : Type 0 where
  pub scope : ℕ
  pub ctx : ℕ
  pub anchor : Option ℕ

-- `freed` is the anchors given to JS_FreeValue, the last one first.
pub record Realms : Type 0 where
  pub context : ℕ
  pub realm_frames : List Frame
  pub last_realm_scope : ℕ
  pub freed : List ℕ

-- context()
pub current_context : Realms → ℕ
current_context r = elim r.realm_frames [ [] ↦ r.context | frame ∷ _ ↦ frame.ctx ]

pub current_realm_anchor : Realms → Option ℕ
current_realm_anchor r = elim r.realm_frames [ [] ↦ none | frame ∷ _ ↦ frame.anchor ]

-- The depth that pop_realm_frames restores, and the env with the frame.
pub push_realm_frame : Option ℕ → Option ℕ → Realms → ℕ × Realms
push_realm_frame ctx anchor r = (
  length r.realm_frames,
  record r {
    realm_frames =
        record { scope = 0; ctx = elim ctx [ none ↦ r.context | some c ↦ c ]; anchor = anchor }
        ∷ r.realm_frames;
  },
)

-- What leaving a frame frees.
free_anchor : Frame → List ℕ → List ℕ
free_anchor frame freed = elim frame.anchor [
  | none ↦ freed
  | some v ↦ if frame.scope == 0 then freed else v ∷ freed
]

pop_loop : ℕ → List Frame → List ℕ → List Frame × List ℕ
unfolding free_anchor
pop_loop depth [] freed = ([], freed)
pop_loop depth (frame ∷ rest) freed =
    let popped = pop_loop depth rest (free_anchor frame freed) in
    if ltb depth (length (frame ∷ rest)) then popped else (frame ∷ rest, freed)

pub pop_realm_frames : ℕ → Realms → Realms
unfolding pop_loop
pop_realm_frames depth r =
    let (frames, freed) = pop_loop depth r.realm_frames r.freed in
    record r { realm_frames = frames; freed = freed }

pub enter_realm : ℕ → Option ℕ → Realms → ℕ × Realms
enter_realm ctx anchor r =
    let token = (r.last_realm_scope + 1) % 2 ^ 64 in
    (
      token,
      record r {
        last_realm_scope = token;
        realm_frames = record { scope = token; ctx = ctx; anchor = anchor } ∷ r.realm_frames;
      },
    )

pub leave_realm : ℕ → Realms → Bool × Realms
unfolding pop_realm_frames
leave_realm scope r = if scope == 0 then (false, r) else elim r.realm_frames [
  | [] ↦ (false, r)
  | frame ∷ rest ↦
      if frame.scope == scope
      then (true, pop_realm_frames (length (frame ∷ rest) - 1) r)
      else (false, r)
]

-- What runs between the constructor and the destructor of a napi_realm_frame_scope__.
pub in_realm_frame : Option ℕ → Option ℕ → (Realms → Realms) → Realms → Realms
unfolding push_realm_frame pop_realm_frames
in_realm_frame ctx anchor body r =
    let (depth, r1) = push_realm_frame ctx anchor r in pop_realm_frames depth (body r1)
