-- ===== src/Bridge/Callbacks/Frames.antt =====
-- The frames around a callback of the guest.
use napi.Prelude.{
  ℕ, ◌≡◌, refl, ap, sym, ◌∙◌, Bool, true, false, Option, none, some, List, [], ◌∷◌, ◌++◌, arith,
  is_some, subst, inl, inr,
}
use napi.Bridge.{Frame, Agent, with_root, push_scope_frame, load_value, pop_current_frame}
use napi.Bridge.Slots.{owned_all, IsBridge, Owns-frames, root-IsBridge}
use napi.Bridge.Scopes.Opening.{root-load, root-parts}
use napi.Bridge.Release.{same_env}
use napi.Bridge.Callbacks.{has_esc_scope, pop_above, close_callback, open_callback}
use napi.Bridge.Callbacks.Inside.{
  Extends, refl-Extends, none_has, Inside, GuestOp, guest_ops, opens_other,
}
use napi.Bridge.Callbacks.Popping.{Kept, pop-Kept, Inside-Kept}
use napi.Bridge.Callbacks.Guests.{guest_ops-Inside}

-- The innermost of the frames has the scope.
abbrev has_first : ℕ → List Frame → Bool
has_first c [] = false
has_first c (g ∷ rest) = same_env c g.esc_scope

-- Closing the frames that the guest left open above a frame with the scope `c`.
above-Kept :
    (c : ℕ) (xs outer : List Frame) (a b : Agent)
    → IsBridge a
    → Kept a b
    → b.scope_frames ≡ xs ++ outer
    → none_has c xs ≡ true
    → has_first c outer ≡ true
    → Extends a.scope_frames outer
    → ((pop_above c (xs ++ outer) b).scope_frames ≡ outer) × Kept a (pop_above c (xs ++ outer) b)
unfolding pop_above
above-Kept c [] [] a b ka k e n h ext = absurd (ground (arith, h))
above-Kept c [] (g ∷ rest) a b ka k e n h ext = rw h (e, k)
above-Kept c (f ∷ fs) outer a b ka k e n h ext =
    let (frames, kept) = pop-Kept f fs outer a b ka k e ext in
    let not_here : same_env c f.esc_scope ≡ false = ground (arith, n) in
    rw not_here
      (above-Kept c fs outer a (pop_current_frame true b) ka kept frames (ground (arith, n)) h ext)

has-above :
    (c : ℕ) (xs outer : List Frame)
    → has_first c outer ≡ true
    → has_esc_scope c (xs ++ outer) ≡ true
has-above c [] [] h = absurd (ground (arith, h))
has-above c [] (g ∷ rest) h = ground (arith, h)
has-above c (f ∷ fs) outer h = ground (arith, has-above c fs outer h)

-- The state in which a callback's guest code starts.
unfoldable pub callback_frame : ℕ → Agent → Frame
callback_frame c a = record {
  scope = none;
  esc_scope = some c;
  env = a.env;
  owned_slots = [];
  id = 0;
}

frames-load :
    (id : ℕ) (fs : List Frame) (a : Agent)
    → load_value id (record a { scope_frames = fs }) ≡ load_value id a
unfolding load_value
frames-load id fs a = refl

pub open-parts :
    (c : ℕ) (a : Agent)
    → let a1 = open_callback (some c) a in
      (a1.scope_frames ≡ callback_frame c a ∷ (with_root a).scope_frames)
      × (IsBridge a → IsBridge a1)
      × ((id : ℕ) → load_value id a1 ≡ load_value id a)
      × (a1.env ≡ a.env)
unfolding open_callback push_scope_frame callback_frame
open-parts c a =
    let w = with_root a in
    (
      refl,
      λ k. Owns-frames (owned_all w.scope_frames) _ w.closed w.next_scope_id w (root-IsBridge a k),
      λ id. frames-load id (callback_frame c a ∷ w.scope_frames) w ∙ root-load id a,
      (root-parts a).0,
    )

-- The ids name the same in two states of the agent.
moved-Kept : (a b d : Agent) → ((id : ℕ) → load_value id a ≡ load_value id b) → Kept a d → Kept b d
moved-Kept a b d e k = record {
  bridge = k.bridge;
  named = λ id. elim (k.named id) [ inl n ↦ inl (sym (e id) ∙ n) | inr q ↦ inr (q ∙ e id) ];
  env = k.env;
}

pub start-Inside : (c : ℕ) (a : Agent) → IsBridge a → is_some a.env ≡ true → Inside c a a
start-Inside c a k e = record {
  inner = [];
  outer = a.scope_frames;
  frames = refl;
  extends = refl-Extends a.scope_frames;
  apart = refl;
  bridge = k;
  named = λ id. inr refl;
  env = e;
}

-- The frames and the ids once the callback's frame is closed.
shut-Kept :
    (c : ℕ) (a b : Agent)
    → IsBridge a
    → Inside c (open_callback (some c) a) b
    → (has_esc_scope c b.scope_frames ≡ true)
      × (let d = pop_current_frame true (pop_above c b.scope_frames b) in
          Extends (with_root a).scope_frames d.scope_frames × Kept a d)
unfolding callback_frame
shut-Kept c a b k inside =
    let w = with_root a in
    let a1 = open_callback (some c) a in
    let cb = callback_frame c a in
    let (frames, bridge, loads, env) = open-parts c a in
    let (extra, rest, q, more) =
      subst (λ (fs : List Frame). Extends fs inside.outer) frames inside.extends in
    let first : has_first c inside.outer ≡ true = ap (has_first c) q ∙ ground arith in
    let above =
      above-Kept c inside.inner inside.outer a1 b (bridge k) (Inside-Kept c a1 b inside)
        inside.frames inside.apart first inside.extends in
    let d = pop_above c (inside.inner ++ inside.outer) b in
    let last =
      pop-Kept (record cb { owned_slots = cb.owned_slots ++ extra }) [] rest w d (root-IsBridge a k)
        (moved-Kept a1 w d (λ id. loads id ∙ sym (root-load id a)) above.1) (above.0 ∙ q) more in
    subst
      (λ (fs : List Frame).
        (has_esc_scope c fs ≡ true)
        × (Extends w.scope_frames (pop_current_frame true (pop_above c fs b)).scope_frames
            × Kept a (pop_current_frame true (pop_above c fs b))))
      (sym inside.frames)
      (
        has-above c inside.inner inside.outer first,
        (
          subst (Extends w.scope_frames) (sym last.0) more,
          moved-Kept w a (pop_current_frame true d) (λ id. root-load id a) last.1,
        ),
      )

-- The frames and the ids once a callback is closed.
pub closed-Kept :
    (c id : ℕ) (escape : ℕ → Option ℕ) (a d : Agent)
    → IsBridge a
    → Inside c (open_callback (some c) a) d
    → Extends
        (with_root a).scope_frames
        (close_callback c escape (load_value id d) d).1.scope_frames
      × Kept a (close_callback c escape (load_value id d) d).1
unfolding close_callback
closed-Kept c id escape a d k i =
    let (found, rest) = shut-Kept c a d k i in rw (close_callback, found) rest

-- A callback of the guest, whatever its code does with scopes and values, leaving open what it
-- likes, where the engine opens no other escapable scope with the callback's handle: the result is
-- what the engine lets escape of the value that the result's id names; the frames are those of
-- before, the root frame counted as there, and may own more slots; every id that named a value
-- before names it still, and the frames own exactly the slots in use.
pub close_callback-Kept :
    (c id : ℕ) (ops : List GuestOp) (escape : ℕ → Option ℕ) (a : Agent)
    → IsBridge a
    → is_some a.env ≡ true
    → opens_other c ops ≡ true
    → let b = guest_ops ops (open_callback (some c) a) in
      let r = close_callback c escape (load_value id b) b in
      (r.0 ≡ (elim (load_value id b) as (λ x. Option ℕ) [ none ↦ none | some v ↦ escape v ]))
      × Extends (with_root a).scope_frames r.1.scope_frames
      × Kept a r.1
unfolding close_callback callback_frame
close_callback-Kept c id ops escape a k e o =
    let a1 = open_callback (some c) a in
    let (frames, bridge, loads, env) = open-parts c a in
    let inside =
      guest_ops-Inside c (callback_frame c a) (with_root a).scope_frames ops a1 a1 (bridge k) frames
        refl o (start-Inside c a1 (bridge k) (ap is_some env ∙ e)) in
    let (found, (extends, kept)) = shut-Kept c a (guest_ops ops a1) k inside in
    rw (close_callback, found) (refl, extends, kept)
