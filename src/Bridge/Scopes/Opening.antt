-- ===== src/Bridge/Scopes/Opening.antt =====
-- A scope that is opened and closed.
use napi.Prelude.{
  ℕ, ◌+◌, ◌%◌, ◌^◌, ◌<◌, ◌≡◌, refl, ap, ◌∙◌, Bool, true, false, none, some, List, [], ◌∷◌, arith,
  ◌==◌, if◌then◌else◌, is_some, Bool-cases, List-cases, inl, inr,
}
use napi.Bridge.{
  Agent, with_root, push_scope_frame, load_value, pop_current_frame, free_slots, close_scope,
  scope_to_close, find_frame, find_frame_by_id, ok, is_ok, require_env_state,
}
use napi.Bridge.Slots.{owned_all, IsBridge, Owns-frames, root-IsBridge}
use napi.Bridge.Scopes.{take_scope_id, open_scope, has_kind, close_scope_id}

-- The state right after a scope was opened.
unfoldable pub opened : Bool → ℕ → ℕ → ℕ → Agent → Agent
opened esc scope id next a = record a {
  next_scope_id = next;
  scope_frames =
      record {
        scope = if esc then none else some scope;
        esc_scope = if esc then some scope else none;
        env = a.env;
        owned_slots = [];
        id = id;
      }
      ∷ a.scope_frames;
}

opened-close :
    (esc : Bool) (scope id next : ℕ) (a : Agent)
    → is_some a.env ≡ true
    → 0 < id
    → close_scope_id esc true id (opened esc scope id next a)
      ≡ (ok, record a { next_scope_id = next; closed = scope ∷ a.closed })
unfolding close_scope_id opened find_frame_by_id find_frame has_kind require_env_state
    pop_current_frame free_slots close_scope scope_to_close
opened-close true scope id next a e p = ground (arith, e, p)
opened-close false scope id next a e p = ground (arith, e, p)

take_scope_id_lem :
    (a : Agent)
    → (next : ℕ) × (0 < (take_scope_id a).0)
      × ((take_scope_id a).1 ≡ record a { next_scope_id = next })
unfolding take_scope_id
take_scope_id_lem a = elim (Bool-cases (a.next_scope_id == 0)) [
  | inl z ↦ (2, ground (arith, z), rw z refl)
  | inr z ↦ ((a.next_scope_id + 1) % 2 ^ 32, ground (arith, z), rw z refl)
]

scopes-load :
    (id next : ℕ) (closed : List ℕ) (a : Agent)
    → load_value id (record a { next_scope_id = next; closed = closed }) ≡ load_value id a
unfolding load_value
scopes-load id next closed a = refl

pub root-load : (id : ℕ) (a : Agent) → load_value id (with_root a) ≡ load_value id a
unfolding with_root load_value
root-load id a = elim (List-cases a.scope_frames) [
  | inl e ↦ rw e refl
  | inr (f, (fs, e)) ↦ rw e refl
]

pub root-parts : (a : Agent) → ((with_root a).env ≡ a.env) × ((with_root a).closed ≡ a.closed)
unfolding with_root
root-parts a = elim (List-cases a.scope_frames) [
  | inl e ↦ rw e (refl, refl)
  | inr (f, (fs, e)) ↦ rw e (refl, refl)
]

pub open_scope_lem :
    (esc : Bool) (scope : ℕ) (a : Agent)
    → is_some a.env ≡ true
    → (next : ℕ) × (id : ℕ) × (0 < id)
      × (open_scope esc true (ok, scope) a ≡ ((ok, id), opened esc scope id next (with_root a)))
unfolding open_scope require_env_state is_ok push_scope_frame with_root opened
open_scope_lem esc scope a e =
    let (next, p, q) = take_scope_id_lem a in
    (
      next,
      (take_scope_id a).0,
      p,
      elim (List-cases a.scope_frames) [
        | inl f ↦ rw (e, q, f) refl
        | inr (f, (fs, g)) ↦ rw (e, q, g) refl
      ],
    )

-- A handle scope of either kind that is opened, and then closed by the id that opening gave: the
-- id is not 0, both calls are `ok`, the engine's scope is the one closed, the frames are as
-- before (the root frame made on first use counts as there), and every id of a value names what it
-- named.
pub open_scope-close_scope_id :
    (esc : Bool) (scope : ℕ) (a : Agent)
    → IsBridge a
    → is_some a.env ≡ true
    → let opened = open_scope esc true (ok, scope) a in
      let closed = close_scope_id esc true opened.0.1 opened.1 in
      (opened.0.0 ≡ ok)
      × (0 < opened.0.1)
      × (closed.0 ≡ ok)
      × (closed.1.closed ≡ scope ∷ a.closed)
      × (closed.1.scope_frames ≡ (with_root a).scope_frames)
      × IsBridge closed.1
      × ((id : ℕ) → load_value id closed.1 ≡ load_value id a)
open_scope-close_scope_id esc scope a k e =
    let (next, id, p, q) = open_scope_lem esc scope a e in
    let b = with_root a in
    let (env, closed) = root-parts a in
    let shut = opened-close esc scope id next b (ap is_some env ∙ e) p in
    rw (q, shut)
      (
        refl,
        p,
        refl,
        ap (λ (c : List ℕ). scope ∷ c) closed,
        refl,
        Owns-frames (owned_all b.scope_frames) b.scope_frames (scope ∷ b.closed) next b
            (root-IsBridge a k),
        λ i. scopes-load i next (scope ∷ b.closed) b ∙ root-load i a,
      )
