-- ===== src/Bridge/Scopes.antt =====
-- The handle scope calls of the bridge. What the engine answers is a parameter.
pub mod Closing
pub mod Opening
pub mod Escaping
use napi.Prelude.{
  ℕ, ◌+◌, ◌%◌, ◌^◌, ◌<◌, ◌≡◌, ◌⊎◌, refl, ap, sym, ◌∙◌, Bool, true, false, not, Option, none, some,
  List, [], ◌∷◌, ◌++◌, arith, ◌==◌, if◌then◌else◌, length, get_elem?, is_some, has, has-append,
  Bool-cases, Option-cases, List-cases, subst, inl, inr,
}
use napi.Bridge.{
  Frame, Agent, with_root, push_scope_frame, own_at, store_value_in_frame, load_value,
  pop_current_frame, free_slots, close_scope, scope_to_close, find_frame, find_frame_by_id, Status,
  ok, invalid_arg, handle_scope_mismatch, is_ok, require_env_state,
}
use napi.Bridge.Slots.{owned_all, IsBridge, Owns-frames, root-IsBridge}
use napi.Bridge.Values.{slot_of, load_lem, is_refused, store-cases, pop-load}

-- `next_scope_id++`, again when the first one gave 0.
pub take_scope_id : Agent → ℕ × Agent
take_scope_id a =
    if a.next_scope_id == 0
    then (1, record a { next_scope_id = 2 })
    else (a.next_scope_id, record a { next_scope_id = (a.next_scope_id + 1) % 2 ^ 32 })

-- Of the two kinds of scope, `esc` for the escapable ones.
pub open_scope : Bool → Bool → Status × ℕ → Agent → (Status × ℕ) × Agent
unfolding require_env_state is_ok take_scope_id push_scope_frame
open_scope esc owned engine a =
    if not (require_env_state owned a)
    then ((invalid_arg, 0), a)
    else if not (is_ok engine.0)
    then ((engine.0, 0), a)
    else let (id, a1) = take_scope_id a in
      (
        (ok, id),
        push_scope_frame (if esc then none else some engine.1) (if esc then some engine.1 else none)
            id a1,
      )

-- snapi_bridge_open_handle_scope
pub open_handle_scope : Bool → Status × ℕ → Agent → (Status × ℕ) × Agent
unfolding open_scope
open_handle_scope = open_scope false

-- snapi_bridge_open_escapable_handle_scope
pub open_escapable_handle_scope : Bool → Status × ℕ → Agent → (Status × ℕ) × Agent
unfolding open_scope
open_escapable_handle_scope = open_scope true

pub has_kind : Bool → Option Frame → Bool
has_kind esc none = false
has_kind esc (some f) = is_some (if esc then f.esc_scope else f.scope)

pub close_scope_id : Bool → Bool → ℕ → Agent → Status × Agent
unfolding require_env_state has_kind
close_scope_id esc owned scope_id a =
    if not (require_env_state owned a)
    then (invalid_arg, a)
    else elim (find_frame_by_id scope_id a) [
      | none ↦ (invalid_arg, a)
      | some k ↦
          if not (has_kind esc (get_elem? a.scope_frames k))
          then (invalid_arg, a)
          else if not (k == 0)
          then (handle_scope_mismatch, a)
          else (ok, pop_current_frame true a)
    ]

-- snapi_bridge_close_handle_scope
pub close_handle_scope : Bool → ℕ → Agent → Status × Agent
unfolding close_scope_id
close_handle_scope = close_scope_id false

-- snapi_bridge_close_escapable_handle_scope
pub close_escapable_handle_scope : Bool → ℕ → Agent → Status × Agent
unfolding close_scope_id
close_escapable_handle_scope = close_scope_id true

pub esc_scope_at : ℕ → Agent → Option ℕ
esc_scope_at k a = elim (get_elem? a.scope_frames k) [ none ↦ none | some f ↦ f.esc_scope ]

-- snapi_bridge_escape_handle; the engine escapes a value from one of its scopes. The outermost
-- frame, the vector's first, has no frame around it.
pub escape_handle : Bool → ℕ → ℕ → (ℕ → ℕ → Status × Option ℕ) → Agent → (Status × ℕ) × Agent
unfolding require_env_state esc_scope_at is_ok
escape_handle owned scope_id escapee_id engine a =
    if not (require_env_state owned a)
    then ((invalid_arg, 0), a)
    else elim (find_frame_by_id scope_id a) [
      | none ↦ ((invalid_arg, 0), a)
      | some k ↦
          if k + 1 == length a.scope_frames
          then ((invalid_arg, 0), a)
          else elim (esc_scope_at k a) [
            | none ↦ ((invalid_arg, 0), a)
            | some scope ↦ (elim (load_value escapee_id a) [
              | none ↦ ((invalid_arg, 0), a)
              | some escapee ↦
                  let (status, result) = engine scope escapee in
                  if not (is_ok status)
                  then ((status, 0), a)
                  else let (id, a1) = store_value_in_frame (k + 1) result a in ((ok, id), a1)
            ])
          ]
    ]
