-- ===== src/Bridge/Calls/Reentry.antt =====
-- What the engine's functions do to the bridge: nothing of their own, but the JavaScript that they
-- run calls callbacks of the guest, the guest's code calls the bridge, and the bridge the engine.
use napi.Prelude.{
  ℕ, ◌≡◌, refl, sym, ◌∙◌, ap, subst, true, Option, some, List, [], ◌∷◌, ◌++◌, is_some, inl, inr,
  arith, append_assoc,
}
use napi.Bridge.{Frame, Agent, load_value, with_root}
use napi.Bridge.Slots.{IsBridge}
use napi.Bridge.Callbacks.{open_callback, close_callback}
use napi.Bridge.Callbacks.Inside.{Extends, none_has, Inside, GuestOp, guest_op, opens_other}
use napi.Bridge.Callbacks.Guests.{guest_op-Inside, rooted, Inside-some}
use napi.Bridge.Callbacks.Popping.{Kept}
use napi.Bridge.Callbacks.Frames.{callback_frame, open-parts, start-Inside, closed-Kept}

-- The guest's code in a callback for which the engine opened the scope `c`, from one bridge to
-- another: it does what guest code does with scopes and values, and what it asks of the engine
-- runs further callbacks.
pub data Does : ℕ → Agent → Agent → Type 0 where
  start : (c : ℕ) (a : Agent) → Does c a a
  step :
      {c : ℕ} {a b : Agent} (op : GuestOp)
      → opens_other c (op ∷ []) ≡ true
      → Does c a b
      → Does c a (guest_op op b)
  calls_back :
      {c : ℕ} {a b d : Agent} (e id : ℕ) (escape : ℕ → Option ℕ)
      → Does e (open_callback (some e) b) d
      → Does c a b
      → Does c a (close_callback e escape (load_value id d) d).1

-- From one bridge to another by callbacks, each with a scope of its own.
pub data Runs (a : Agent) : Agent → Type 0 where
  quiet : Runs a a
  callback :
      {b d : Agent} (c id : ℕ) (escape : ℕ → Option ℕ)
      → Does c (open_callback (some c) b) d
      → Runs a b
      → Runs a (close_callback c escape (load_value id d) d).1

then-Kept : (a b d : Agent) → Kept a b → Kept b d → Kept a d
then-Kept a b d j k = record {
  bridge = k.bridge;
  named = λ id. elim (j.named id) [
    | inl n ↦ inl n
    | inr p ↦ elim (k.named id) [ inl n ↦ inl (sym p ∙ n) | inr q ↦ inr (q ∙ p) ]
  ];
  env = k.env;
}

Extends-trans : (fs gs hs : List Frame) → Extends fs gs → Extends gs hs → Extends fs hs
Extends-trans [] gs hs p q = subst (λ (x : List Frame). Extends x hs) p q
Extends-trans (f ∷ fs) gs hs (extra, rest, e, more) q =
    let (extra1, rest1, e1, more1) = subst (λ (x : List Frame). Extends x hs) e q in
    (
      extra ++ extra1,
      rest1,
      e1
          ∙ ap (λ (xs : List ℕ). (record f { owned_slots = xs }) ∷ rest1)
              (append_assoc f.owned_slots extra extra1),
      Extends-trans fs rest rest1 more more1,
    )

Extends-append :
    (c : ℕ) (xs ys gs : List Frame)
    → none_has c xs ≡ true
    → Extends (xs ++ ys) gs
    → (zs : List Frame) × (ws : List Frame) × (gs ≡ zs ++ ws)
      × Extends ys ws
      × (none_has c zs ≡ true)
Extends-append c [] ys gs n p = ([], gs, refl, p, refl)
Extends-append c (x ∷ xs) ys gs n (extra, rest, e, more) =
    let (zs, ws, q, r, m) = Extends-append c xs ys rest (ground (arith, n)) more in
    let x1 = record x { owned_slots = x.owned_slots ++ extra } in
    (x1 ∷ zs, ws, e ∙ ap (λ (fs : List Frame). x1 ∷ fs) q, r, ground (arith, n, m))

Kept-Inside :
    (c : ℕ) (a b d : Agent)
    → Inside c a b
    → Extends b.scope_frames d.scope_frames
    → Kept b d
    → Inside c a d
Kept-Inside c a b d k x j =
    let (zs, ws, e, r, m) =
      Extends-append c k.inner k.outer d.scope_frames k.apart
        (subst (λ (fs : List Frame). Extends fs d.scope_frames) k.frames x) in
    let all = then-Kept a b d (record { bridge = k.bridge; named = k.named; env = k.env }) j in
    record {
      inner = zs;
      outer = ws;
      frames = e;
      extends = Extends-trans a.scope_frames k.outer ws k.extends r;
      apart = m;
      bridge = all.bridge;
      named = all.named;
      env = all.env;
    }

-- What is below the callback stays, whatever callbacks run inside of it.
Does-Inside :
    (c : ℕ) (cb : Frame) (base : List Frame) (a b : Agent)
    → IsBridge a
    → a.scope_frames ≡ cb ∷ base
    → cb.id ≡ 0
    → is_some a.env ≡ true
    → Does c a b
    → Inside c a b
unfolding callback_frame
Does-Inside c cb base a b ka f z n (start _ _) = start-Inside c a ka n
Does-Inside c cb base a b ka f z n (step op o g) =
    guest_op-Inside c cb base op a _ ka f z o (Does-Inside c cb base a _ ka f z n g)
Does-Inside c cb base a b ka f z n (calls_back {b = b1} {d = d} e id escape inner g) =
    let k = Does-Inside c cb base a b1 ka f z n g in
    let (frames, bridge, loads, env) = open-parts e b1 in
    let i =
      Does-Inside e (callback_frame e b1) (with_root b1).scope_frames _ d (bridge k.bridge) frames
        refl (ap is_some env ∙ k.env) inner in
    let (extends, kept) = closed-Kept e id escape b1 d k.bridge i in
    Kept-Inside c a b1 b k
      (subst (λ (x : Agent). Extends x.scope_frames b.scope_frames)
        (rooted b1 (Inside-some c cb base a b1 f k)) extends)
      kept

-- From a bridge with an open env to another by callbacks of the guest, one after another or inside
-- each other, each in an escapable scope that the engine opens for it and whose handle it gives to
-- no scope that the guest opens in it; whatever the guest's code stores, opens, closes and escapes,
-- and whatever it leaves open: every id that named a value names it still, the frames own exactly
-- the slots in use, and the env is open.
pub Runs-Kept : (a b : Agent) → IsBridge a → is_some a.env ≡ true → Runs a b → Kept a b
unfolding callback_frame
Runs-Kept a b k e quiet = record { bridge = k; named = λ id. inr refl; env = e }
Runs-Kept a x k e (callback {b = b} {d = d} c id escape g r) =
    let j = Runs-Kept a b k e r in
    let (frames, bridge, loads, env) = open-parts c b in
    let i =
      Does-Inside c (callback_frame c b) (with_root b).scope_frames _ d (bridge j.bridge) frames
        refl (ap is_some env ∙ j.env) g in
    then-Kept a b x j (closed-Kept c id escape b d j.bridge i).1
