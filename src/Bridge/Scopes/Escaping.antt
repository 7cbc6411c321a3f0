-- ===== src/Bridge/Scopes/Escaping.antt =====
-- Escaping a value to the frame around an escapable scope.
use napi.Prelude.{
  ℕ, ◌+◌, ◌<◌, ◌≡◌, ◌⊎◌, refl, ap, sym, ◌∙◌, Bool, true, false, Option, none, some, List, [], ◌∷◌,
  ◌++◌, arith, ◌==◌, if◌then◌else◌, length, is_some, has, has-append, Bool-cases, Option-cases,
  subst, inl, inr,
}
use napi.Bridge.{
  Frame, Agent, own_at, store_value_in_frame, load_value, pop_current_frame, find_frame,
  find_frame_by_id, Status, ok, is_ok, require_env_state,
}
use napi.Bridge.Slots.{owned_all, IsBridge}
use napi.Bridge.Values.{slot_of, load_lem, is_refused, store-cases, pop-load}
use napi.Bridge.Scopes.{
  has_kind, close_scope_id, close_escapable_handle_scope, esc_scope_at, escape_handle,
}

find-bound : (id k : ℕ) (fs : List Frame) → find_frame id fs ≡ some k → k < length fs
unfolding find_frame
find-bound id k [] e = absurd (ground (arith, e))
find-bound id k (f ∷ fs) e = elim (Option-cases (find_frame id fs)) [
  | inl n ↦ ground (arith, n, e)
  | inr (j, n) ↦ ground (arith, n, e, find-bound id j fs n)
]

find-inside : (id k : ℕ) (a : Agent) → find_frame_by_id id a ≡ some k → k < length a.scope_frames
unfolding find_frame_by_id
find-inside id k a e = elim (Bool-cases (id == 0)) [
  | inl z ↦ absurd (ground (arith, z, e))
  | inr z ↦ find-bound id k a.scope_frames (ground (arith, z, e))
]

-- Escaping changes nothing in the bridge, or stores a value in a frame.
pub escape_handle-cases :
    (owned : Bool) (sid eid : ℕ) (engine : ℕ → ℕ → Status × Option ℕ) (a : Agent)
    → ((escape_handle owned sid eid engine a).1 ≡ a)
      ⊎ ((n : ℕ) × (w : Option ℕ) × (n < length a.scope_frames)
          × ((escape_handle owned sid eid engine a).1 ≡ (store_value_in_frame n w a).1))
unfolding escape_handle
escape_handle-cases owned sid eid engine a = elim (Bool-cases (require_env_state owned a)) [
  | inr e ↦ inl (rw (escape_handle, e) refl)
  | inl e ↦ elim (Option-cases (find_frame_by_id sid a)) [
    | inl n ↦ inl (rw (escape_handle, e, n) refl)
    | inr (k, n) ↦ elim (Bool-cases (k + 1 == length a.scope_frames)) [
      | inl l ↦ inl (rw (escape_handle, e, n, l) refl)
      | inr l ↦ elim (Option-cases (esc_scope_at k a)) [
        | inl m ↦ inl (rw (escape_handle, e, n, l, m) refl)
        | inr (s, m) ↦ elim (Option-cases (load_value eid a)) [
          | inl o ↦ inl (rw (escape_handle, e, n, l, m, o) refl)
          | inr (v, o) ↦ elim (Bool-cases (is_ok (engine s v).0)) [
            | inr q ↦ inl (rw (escape_handle, e, n, l, m, o, q) refl)
            | inl q ↦ inr (
              k + 1,
              (engine s v).1,
              ground (arith, l, find-inside sid k a n),
              rw (escape_handle, e, n, l, m, o, q) refl,
            )
          ]
        ]
      ]
    ]
  ]
]

escape-store :
    (sid eid s v w : ℕ) (engine : ℕ → ℕ → Status × Option ℕ) (f g : Frame) (fs : List Frame)
    (a : Agent)
    → is_some a.env ≡ true
    → a.scope_frames ≡ f ∷ g ∷ fs
    → f.id ≡ sid
    → 0 < sid
    → f.esc_scope ≡ some s
    → load_value eid a ≡ some v
    → engine s v ≡ (ok, some w)
    → let stored = store_value_in_frame 1 (some w) a in
      escape_handle true sid eid engine a ≡ ((ok, stored.0), stored.1)
unfolding escape_handle require_env_state find_frame_by_id find_frame esc_scope_at is_ok
escape-store sid eid s v w engine f g fs a e frames i p scope l q =
    ground (arith, e, frames, i, p, scope, l, q)

-- An escaped value: its new id, in the state `x.1` and once the innermost frame `f` is closed.
pub record Escapes (sid w : ℕ) (f : Frame) (a : Agent) (x : (Status × ℕ) × Agent) : Type 0 where
  pub status : x.0.0 ≡ ok
  pub names : load_value x.0.1 x.1 ≡ some w
  pub close : Agent
  pub closed : close_escapable_handle_scope true sid x.1 ≡ (ok, close)
  pub survives : load_value x.0.1 close ≡ some w
  pub keeps : IsBridge close
  pub loads :
      (id : ℕ)
      → load_value id close ≡ (
          if id == x.0.1
          then some w
          else if has (slot_of id) f.owned_slots
          then none
          else load_value id a)

close-first :
    (sid s : ℕ) (f : Frame) (fs : List Frame) (a : Agent)
    → is_some a.env ≡ true
    → a.scope_frames ≡ f ∷ fs
    → f.id ≡ sid
    → 0 < sid
    → f.esc_scope ≡ some s
    → close_escapable_handle_scope true sid a ≡ (ok, pop_current_frame true a)
unfolding close_escapable_handle_scope close_scope_id require_env_state find_frame_by_id find_frame
    has_kind
close-first sid s f fs a e frames i p scope = ground (arith, e, frames, i, p, scope)

stored-Escapes :
    (sid s w : ℕ) (f g : Frame) (fs : List Frame) (a : Agent)
    → IsBridge a
    → is_some a.env ≡ true
    → a.scope_frames ≡ f ∷ g ∷ fs
    → f.id ≡ sid
    → 0 < sid
    → f.esc_scope ≡ some s
    → is_refused a ≡ false
    → let stored = store_value_in_frame 1 (some w) a in Escapes sid w f a ((ok, stored.0), stored.1)
unfolding own_at
stored-Escapes sid s w f g fs a k e frames i p scope r =
    let x = store_value_in_frame 1 (some w) a in
    let n = slot_of x.0 in
    let done =
      (store-cases 1 w a k e (ground (arith, ap (λ (y : List Frame). length y) frames))).1 r in
    let inside : x.1.scope_frames ≡ f ∷ (record g { owned_slots = g.owned_slots ++ n ∷ [] }) ∷ fs =
      done.frames ∙ ap (own_at 1 n) frames in
    let out : has n (f.owned_slots ++ owned_all (g ∷ fs)) ≡ false =
      subst (λ (y : List Frame). has n (owned_all y) ≡ false) frames done.unowned in
    let off : has n f.owned_slots ≡ false =
      ground (arith, has-append n f.owned_slots (owned_all (g ∷ fs)), out) in
    let named = done.names in
    let before = load_lem x.1 x.0 in
    let env : is_some x.1.env ≡ true = ground (arith, before, named) in
    let (_, k2, loads) = pop-load true f _ x.1 inside done.keeps in
    record {
      status = refl;
      names = named;
      close = pop_current_frame true x.1;
      closed = close-first sid s f _ x.1 env inside i p scope;
      survives = ground (arith, loads x.0, off, named);
      keeps = k2;
      loads = λ id. ground (arith, loads id, off, done.loads id);
    }

-- When the innermost frame is an escapable scope with a frame around it, the engine escapes the
-- value that an id names, and a store is not refused: the call is `ok`, and its new id names the
-- engine's result, also after the escapable scope is closed by its id, which is `ok`, while every
-- other id then names what it named, or nothing where the closed frame owned its slot.
pub escape_handle-Escapes :
    (sid eid s v w : ℕ) (engine : ℕ → ℕ → Status × Option ℕ) (f g : Frame) (fs : List Frame)
    (a : Agent)
    → IsBridge a
    → is_some a.env ≡ true
    → a.scope_frames ≡ f ∷ g ∷ fs
    → f.id ≡ sid
    → 0 < sid
    → f.esc_scope ≡ some s
    → load_value eid a ≡ some v
    → engine s v ≡ (ok, some w)
    → is_refused a ≡ false
    → Escapes sid w f a (escape_handle true sid eid engine a)
escape_handle-Escapes sid eid s v w engine f g fs a k e frames i p scope l q r =
    subst (Escapes sid w f a)
      (sym (escape-store sid eid s v w engine f g fs a e frames i p scope l q))
      (stored-Escapes sid s w f g fs a k e frames i p scope r)
