-- ===== src/Bridge/Scopes/Closing.antt =====
-- What closing a scope by its id comes to.
use napi.Prelude.{
  ℕ, ◌<◌, ◌≡◌, ◌⊎◌, refl, Bool, true, false, some, List, [], ◌∷◌, arith, ◌==◌, Bool-cases,
  Option-cases, inl, inr,
}
use napi.Bridge.{
  Frame, Agent, pop_current_frame, find_frame, find_frame_by_id, is_ok, require_env_state,
}
use napi.Bridge.Scopes.{has_kind, close_scope_id}

-- What closing a scope by its id comes to.
pub record Closes (esc : Bool) (id : ℕ) (a b : Agent) : Type 0 where
  pub frame : Frame
  pub rest : List Frame
  pub innermost : a.scope_frames ≡ frame ∷ rest
  pub named : frame.id ≡ id
  pub nonzero : 0 < id
  pub kind : has_kind esc (some frame) ≡ true
  pub popped : b ≡ pop_current_frame true a

find-first :
    (id : ℕ) (fs : List Frame)
    → find_frame id fs ≡ some 0
    → (f : Frame) × (rest : List Frame) × (fs ≡ f ∷ rest) × (f.id ≡ id)
unfolding find_frame
find-first id [] e = absurd (ground (arith, e))
find-first id (f ∷ fs) e = (
  f,
  fs,
  refl,
  elim (Bool-cases (f.id == id)) [
    | inl h ↦ ground (arith, h)
    | inr h ↦ elim (Option-cases (find_frame id fs)) [
      | inl n ↦ absurd (ground (arith, h, n, e))
      | inr (k, n) ↦ absurd (ground (arith, h, n, e))
    ]
  ],
)

-- Closing a scope of either kind by its id: when the status is not `ok`, nothing changed; when it
-- is, the innermost frame had that id, which is not 0, and a scope of that kind, and that frame was
-- popped and its scope closed. So no frame of id 0, as a callback has, is ever closed by an id.
pub close_scope_id-outcome :
    (esc owned : Bool) (id : ℕ) (a : Agent)
    → let r = close_scope_id esc owned id a in
      ((is_ok r.0 ≡ false) × (r.1 ≡ a)) ⊎ ((is_ok r.0 ≡ true) × Closes esc id a r.1)
unfolding close_scope_id find_frame_by_id is_ok
close_scope_id-outcome esc owned id a = elim (Bool-cases (require_env_state owned a)) [
  | inr e ↦ inl (ground (arith, e), ground (arith, e))
  | inl e ↦ elim (Option-cases (find_frame_by_id id a)) [
    | inl n ↦ inl (ground (arith, e, n), ground (arith, e, n))
    | inr (k, n) ↦ elim (Bool-cases (is_ok (close_scope_id esc owned id a).0)) [
      | inr h ↦ inl (h, ground (arith, e, n, h))
      | inl h ↦ inr (
        h,
        let z : k ≡ 0 = ground (arith, e, n, h) in
            let found : find_frame id a.scope_frames ≡ some 0 = ground (arith, n, z) in
            let (f, rest, q, i) = find-first id a.scope_frames found in
            record {
              frame = f;
              rest = rest;
              innermost = q;
              named = i;
              nonzero = ground (arith, n);
              kind = ground (arith, e, n, z, h, q);
              popped = ground (arith, e, n, h);
            },
      )
    ]
  ]
]
