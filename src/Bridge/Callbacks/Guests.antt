-- ===== src/Bridge/Callbacks/Guests.antt =====
-- What the code of a guest in a callback leaves of the frames below it.
use napi.Prelude.{
  ℕ, suc, ◌+◌, ◌<◌, ◌≡◌, refl, ap, sym, ◌∙◌, Bool, true, false, ◌==◌, ◌&&◌, Option, none, some,
  List, [], ◌∷◌, ◌++◌, arith, if◌then◌else◌, length, length-append, List-cases, subst, inl, inr,
}
use napi.Bridge.{
  Frame, Agent, with_root, load_value, store_value_in_frame, store_value, pop_current_frame, Status,
}
use napi.Bridge.Slots.{owned_all, IsBridge, Owns-frames}
use napi.Bridge.Scopes.Closing.{Closes, close_scope_id-outcome}
use napi.Bridge.Scopes.Escaping.{escape_handle-cases}
use napi.Bridge.Scopes.Opening.{opened, open_scope_lem}
use napi.Bridge.Callbacks.Inside.{
  Extends, none_has, Inside, GuestOp, guest_op, guest_ops, opens_other, opens, closes, stores,
  escapes,
}
use napi.Bridge.Callbacks.Popping.{store-Inside, pop-Inside}

same-Inside : (c : ℕ) (a b d : Agent) → d ≡ b → Inside c a b → Inside c a d
same-Inside c a b d e k = subst (Inside c a) (sym e) k

pub rooted : (b : Agent) → 0 < length b.scope_frames → with_root b ≡ b
unfolding with_root
rooted b l = elim (List-cases b.scope_frames) [
  | inl e ↦ absurd (ground (arith, ap (λ (x : List Frame). length x) e, l))
  | inr (f, (fs, e)) ↦ ground (arith, e)
]

opened-load :
    (esc : Bool) (scope id next i : ℕ) (b : Agent)
    → load_value i (opened esc scope id next b) ≡ load_value i b
unfolding opened load_value
opened-load esc scope id next i b = refl

opened-Inside :
    (c scope id next : ℕ) (esc : Bool) (a b : Agent)
    → Inside c a b
    → (esc && c == scope) ≡ false
    → Inside c a (opened esc scope id next b)
unfolding opened
opened-Inside c scope id next esc a b k other =
    let frame : Frame = record {
      scope = if esc then none else some scope;
      esc_scope = if esc then some scope else none;
      env = b.env;
      owned_slots = [];
      id = id;
    } in
    record {
      inner = frame ∷ k.inner;
      outer = k.outer;
      frames = ap (λ (fs : List Frame). frame ∷ fs) k.frames;
      extends = k.extends;
      apart = ground (arith, other, k.apart);
      bridge = Owns-frames (owned_all b.scope_frames) _ b.closed next b k.bridge;
      named = λ i. elim (k.named i) [
        | inl n ↦ inl n
        | inr e ↦ inr (opened-load esc scope id next i b ∙ e)
      ];
      env = k.env;
    }

-- The frames of `b` are not empty, and the innermost has the id 0 where none is the guest's.
Extends-head :
    (cb : Frame) (base outer : List Frame) (old : List Frame)
    → old ≡ cb ∷ base
    → Extends old outer
    → (g : Frame) × (rest : List Frame) × (outer ≡ g ∷ rest)
      × (g.id ≡ cb.id)
      × (g.esc_scope ≡ cb.esc_scope)
Extends-head cb base outer old e x =
    let (extra, rest, q, more) = subst (λ (fs : List Frame). Extends fs outer) e x in
    (record cb { owned_slots = cb.owned_slots ++ extra }, rest, q, refl, refl)

pub Inside-some :
    (c : ℕ) (cb : Frame) (base : List Frame) (a b : Agent)
    → a.scope_frames ≡ cb ∷ base
    → Inside c a b
    → 0 < length b.scope_frames
Inside-some c cb base a b e k =
    let (g, rest, q, _, _) = Extends-head cb base k.outer a.scope_frames e k.extends in
    let n : length b.scope_frames ≡ length k.inner + suc (length rest) =
      ap (λ (x : List Frame). length x) k.frames
      ∙ length-append k.inner k.outer
      ∙ ap (λ (x : List Frame). length k.inner + length x) q in
    omega (arith, n)

abbrev head_id : List Frame → ℕ
head_id [] = 0
head_id (f ∷ fs) = f.id

Closes-Inside :
    (c : ℕ) (cb : Frame) (base : List Frame) (esc : Bool) (id : ℕ) (a b d : Agent)
    → IsBridge a
    → a.scope_frames ≡ cb ∷ base
    → cb.id ≡ 0
    → Inside c a b
    → Closes esc id b d
    → Inside c a d
Closes-Inside c cb base esc id a b d ka e z k cl = elim (List-cases k.inner) [
  | inl n ↦
      (let (g, rest, q, i, _) = Extends-head cb base k.outer a.scope_frames e k.extends in
        let head : cl.frame ∷ cl.rest ≡ g ∷ rest =
          sym cl.innermost ∙ k.frames ∙ ap (λ (x : List Frame). x ++ k.outer) n ∙ q in
        absurd
          (ground (arith, ap (λ (x : List Frame). head_id x) head, cl.named, cl.nonzero, i, z)))
  | inr (f, (fs, n)) ↦
      (let split : b.scope_frames ≡ f ∷ (fs ++ k.outer) =
          k.frames ∙ ap (λ (x : List Frame). x ++ k.outer) n in
        same-Inside c a (pop_current_frame true b) d cl.popped (
          pop-Inside c f fs k.outer a b ka k split (ground (arith, k.apart, ap (none_has c) n))
            k.extends))
]

stored_rooted :
    (v : Option ℕ) (b : Agent)
    → 0 < length b.scope_frames
    → (store_value v b).1 ≡ (store_value_in_frame 0 v b).1
unfolding store_value
stored_rooted v b l = ap (λ (x : Agent). (store_value_in_frame 0 v x).1) (rooted b l)

pub guest_op-Inside :
    (c : ℕ) (cb : Frame) (base : List Frame) (op : GuestOp) (a b : Agent)
    → IsBridge a
    → a.scope_frames ≡ cb ∷ base
    → cb.id ≡ 0
    → opens_other c (op ∷ []) ≡ true
    → Inside c a b
    → Inside c a (guest_op op b)
guest_op-Inside c cb base (opens esc scope) a b ka e z o k =
    let (next, id, p, q) = open_scope_lem esc scope b k.env in
    let root = rooted b (Inside-some c cb base a b e k) in
    same-Inside c a (opened esc scope id next b) _
      (ap (λ (x : (Status × ℕ) × Agent). x.1) q ∙ ap (opened esc scope id next) root)
      (opened-Inside c scope id next esc a b k (ground (arith, o)))
guest_op-Inside c cb base (closes esc id) a b ka e z o k =
    elim (close_scope_id-outcome esc true id b) [
      | inl (n, same) ↦ same-Inside c a b _ same k
      | inr (n, cl) ↦ Closes-Inside c cb base esc id a b _ ka e z k cl
    ]
guest_op-Inside c cb base (stores v) a b ka e z o k =
    let l = Inside-some c cb base a b e k in
    same-Inside c a (store_value_in_frame 0 v b).1 _ (stored_rooted v b l)
      (store-Inside c 0 v a b k l)
guest_op-Inside c cb base (escapes sid eid engine) a b ka e z o k =
    elim (escape_handle-cases true sid eid engine b) [
      | inl same ↦ same-Inside c a b _ same k
      | inr (n, w, l, q) ↦
          same-Inside c a (store_value_in_frame n w b).1 _ q (store-Inside c n w a b k l)
    ]

opens_split :
    (c : ℕ) (op : GuestOp) (ops : List GuestOp)
    → opens_other c (op ∷ ops) ≡ true
    → (opens_other c (op ∷ []) ≡ true) × (opens_other c ops ≡ true)
opens_split c (opens esc scope) ops o = (ground (arith, o), ground (arith, o))
opens_split c (closes esc id) ops o = (refl, o)
opens_split c (stores v) ops o = (refl, o)
opens_split c (escapes sid eid engine) ops o = (refl, o)

pub guest_ops-Inside :
    (c : ℕ) (cb : Frame) (base : List Frame) (ops : List GuestOp) (a b : Agent)
    → IsBridge a
    → a.scope_frames ≡ cb ∷ base
    → cb.id ≡ 0
    → opens_other c ops ≡ true
    → Inside c a b
    → Inside c a (guest_ops ops b)
guest_ops-Inside c cb base [] a b ka e z o k = k
guest_ops-Inside c cb base (op ∷ ops) a b ka e z o k =
    let (now, later) = opens_split c op ops o in
    guest_ops-Inside c cb base ops a (guest_op op b) ka e z later
      (guest_op-Inside c cb base op a b ka e z now k)
