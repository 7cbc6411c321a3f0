-- ===== src/Bridge/Callbacks/Inside.antt =====
-- What guest code can do to the frames below the one it runs in.
use napi.Prelude.{
  ℕ, zero, suc, ◌≡◌, ◌⊎◌, refl, ap, sym, ◌∙◌, Bool, true, not, ◌==◌, ◌&&◌, Option, none, List, [],
  ◌∷◌, ◌++◌, append_assoc, append-nil, arith, is_some, has, has-append, inl, inr,
}
use napi.Bridge.{Frame, Agent, own_at, load_value, store_value, Status, ok}
use napi.Bridge.Slots.{owned_all, IsBridge}
use napi.Bridge.Scopes.{open_scope, close_scope_id, escape_handle}
use napi.Bridge.Release.{same_env}

-- The same frames, but for slots that they came to own.
abbrev pub Extends : List Frame → List Frame → Type 0
Extends [] gs = gs ≡ []
Extends (f ∷ fs) gs =
    (extra : List ℕ) × (rest : List Frame) × (gs
      ≡ (record f { owned_slots = f.owned_slots ++ extra }) ∷ rest)
    × Extends fs rest

pub refl-Extends : (fs : List Frame) → Extends fs fs
refl-Extends [] = refl
refl-Extends (f ∷ fs) = (
  [],
  fs,
  ap (λ (xs : List ℕ). (record f { owned_slots = xs }) ∷ fs) (sym (append-nil f.owned_slots)),
  refl-Extends fs,
)

pub own-Extends : (k i : ℕ) (fs gs : List Frame) → Extends fs gs → Extends fs (own_at k i gs)
unfolding own_at
own-Extends k i [] gs e = ap (own_at k i) e
own-Extends zero i (f ∷ fs) gs (extra, rest, e, more) = (
  extra ++ i ∷ [],
  rest,
  ap (own_at 0 i) e
      ∙ ap (λ (xs : List ℕ). (record f { owned_slots = xs }) ∷ rest)
          (append_assoc f.owned_slots extra (i ∷ [])),
  more,
)
own-Extends (suc k) i (f ∷ fs) gs (extra, rest, e, more) =
    (extra, own_at k i rest, ap (own_at (suc k) i) e, own-Extends k i fs rest more)

pub Extends-has :
    (fs gs : List Frame) (j : ℕ)
    → Extends fs gs
    → has j (owned_all fs) ≡ true
    → has j (owned_all gs) ≡ true
Extends-has [] gs j e h = absurd (ground (arith, h))
Extends-has (f ∷ fs) gs j (extra, rest, e, more) h = rw e (
    ground (
      arith,
      has-append j f.owned_slots (owned_all fs),
      h,
      has-append j (f.owned_slots ++ extra) (owned_all rest),
      has-append j f.owned_slots extra,
      Extends-has fs rest j more,
    ))

-- No frame has the escapable scope.
abbrev pub none_has : ℕ → List Frame → Bool
none_has c [] = true
none_has c (f ∷ fs) = not (same_env c f.esc_scope) && none_has c fs

-- The frames of `b` are those of `a`, with frames of the guest's above, none of which has the
-- scope `c`; and the ids that named a value in `a` name it still.
pub record Inside (c : ℕ) (a b : Agent) : Type 0 where
  pub inner : List Frame
  pub outer : List Frame
  pub frames : b.scope_frames ≡ inner ++ outer
  pub extends : Extends a.scope_frames outer
  pub apart : none_has c inner ≡ true
  pub bridge : IsBridge b
  pub named : (id : ℕ) → (load_value id a ≡ none) ⊎ (load_value id b ≡ load_value id a)
  pub env : is_some b.env ≡ true

pub own-inner :
    (c k i : ℕ) (xs ys : List Frame)
    → none_has c xs ≡ true
    → (zs : List Frame) × (ws : List Frame) × (own_at k i (xs ++ ys) ≡ zs ++ ws)
      × (none_has c zs ≡ true)
      × ((ws ≡ ys) ⊎ ((j : ℕ) × (ws ≡ own_at j i ys)))
unfolding own_at
own-inner c k i [] ys h = ([], own_at k i ys, refl, refl, inr (k, refl))
own-inner c zero i (x ∷ xs) ys h =
    ((record x { owned_slots = x.owned_slots ++ i ∷ [] }) ∷ xs, ys, refl, h, inl refl)
own-inner c (suc k) i (x ∷ xs) ys h =
    let (zs, ws, e, n, w) = own-inner c k i xs ys (ground (arith, h)) in
    (x ∷ zs, ws, ap (λ (fs : List Frame). x ∷ fs) e, ground (arith, h, n), w)

-- What a guest's code does with scopes and values: it opens and closes scopes of either kind,
-- stores values, and escapes them. The scopes are those that the engine opens.
pub data GuestOp : Type 0 where
  opens : Bool → ℕ → GuestOp
  closes : Bool → ℕ → GuestOp
  stores : Option ℕ → GuestOp
  escapes : ℕ → ℕ → (ℕ → ℕ → Status × Option ℕ) → GuestOp

abbrev pub guest_op : GuestOp → Agent → Agent
guest_op (opens esc scope) a = (open_scope esc true (ok, scope) a).1
guest_op (closes esc id) a = (close_scope_id esc true id a).1
guest_op (stores v) a = (store_value v a).1
guest_op (escapes scope_id id engine) a = (escape_handle true scope_id id engine a).1

abbrev pub guest_ops : List GuestOp → Agent → Agent
guest_ops [] a = a
guest_ops (op ∷ ops) a = guest_ops ops (guest_op op a)

-- The engine opens no escapable scope that is the callback's.
abbrev pub opens_other : ℕ → List GuestOp → Bool
opens_other c [] = true
opens_other c (opens esc scope ∷ ops) = not (esc && c == scope) && opens_other c ops
opens_other c (closes esc id ∷ ops) = opens_other c ops
opens_other c (stores v ∷ ops) = opens_other c ops
opens_other c (escapes scope_id id engine ∷ ops) = opens_other c ops
