-- ===== src/Bridge/Calls/Refinement.antt =====
-- The calls of the bridge on ids against the engine's functions on values, and runs of calls.
use napi.Prelude.{
  ℕ, ◌≡◌, ◌⊎◌, refl, ◌∙◌, Bool, true, false, ◌&&◌, Option, none, some, List, [], ◌∷◌, arith,
  is_some, Bool-cases, List-cases, inl, inr, All,
}
use napi.Bridge.{
  Agent, Status, ok, invalid_arg, generic_failure, handle_scope_mismatch, other_status, is_ok,
  require_env_state, with_root, store_value_in_frame, store_value,
}
use napi.Bridge.Slots.{IsBridge, root-IsBridge}
use napi.Bridge.Values.{is_refused, Stored, store-Stored}
use napi.Bridge.Calls.{Host, Call, makes, passes, view}
use napi.Bridge.Calls.Engine.{Maker, Reader}
use napi.Bridge.Calls.Shapes.{answer_if}
use napi.Bridge.Calls.Keeping.{Keeps, none-Keeps, then-Keeps, root-length, store_value-Keeps}
use napi.Bridge.Calls.Reentry.{Runs, Runs-Kept}
use napi.Bridge.Calls.Makes
use napi.Bridge.Calls.Reads

-- What a guest does with values: a list of calls.
pub data GuestCall : Type 0 where
  make : Makes.MakeCall → GuestCall
  read : Reads.ReadCall → GuestCall

pub record Engine (H : Type 0) : Type 0 where
  pub maker : Maker H
  pub reader : Reader H

abbrev pub perform : {H : Type 0} → Engine H → Bool → GuestCall → Host H → Host H
perform engine owned (make call) h = (Makes.serve engine.maker owned call h).1
perform engine owned (read call) h = (Reads.serve engine.reader owned call h).1

abbrev pub perform_all : {H : Type 0} → Engine H → Bool → List GuestCall → Host H → Host H
perform_all engine owned [] h = h
perform_all engine owned (call ∷ calls) h =
    perform_all engine owned calls (perform engine owned call h)

-- The engine's function of a call changes the bridge only by callbacks of the guest that it runs,
-- and the callbacks inside of these, whatever values it is given and in whatever state.
abbrev pub Reenters : {H : Type 0} → Engine H → GuestCall → Type 0
Reenters {H} engine (make call) =
    (view : ℕ → Option ℕ) (h : Host H) → Runs h.0 (Makes.ask engine.maker view call h).1.0
Reenters {H} engine (read call) =
    (view : ℕ → Option ℕ) (h : Host H) → Runs h.0 (Reads.ask engine.reader view call h).1.0

Runs-Keeps : (a b : Agent) → IsBridge a → is_some a.env ≡ true → Runs a b → Keeps a b
Runs-Keeps a b k e r = let j = Runs-Kept a b k e r in record { bridge = j.bridge; named = j.named }

makes-Keeps :
    {H : Type 0} (engine : Call H (Option ℕ)) (h : Host H)
    → Keeps h.0 (engine h).1.0
    → Keeps h.0 (makes engine h).1.0
unfolding makes
makes-Keeps engine h k = elim (Bool-cases (is_ok (engine h).0.0)) [
  | inl q ↦
      rw q (
        then-Keeps h.0 (engine h).1.0 _ k
          (store_value-Keeps (engine h).0.1 (engine h).1.0 k.bridge))
  | inr q ↦ rw q k
]

reached-env : (a : Agent) (b c : Bool) → require_env_state b a && c ≡ true → is_some a.env ≡ true
unfolding require_env_state
reached-env a b c e = ground (arith, e)

answer_if-Keeps :
    {H : Type 0} (owned served : Bool) (answer : Host H → (Status × Option ℕ) × Host H) (h : Host H)
    → IsBridge h.0
    → (is_some h.0.env ≡ true → Keeps h.0 (answer h).1.0)
    → Keeps h.0 (answer_if (require_env_state owned h.0 && served) answer h).1.0
answer_if-Keeps owned served answer h k j =
    elim (Bool-cases (require_env_state owned h.0 && served)) [
      | inl q ↦ rw q (j (reached-env h.0 owned served q))
      | inr q ↦ rw q (none-Keeps h.0 k)
    ]

perform-Keeps :
    {H : Type 0} (engine : Engine H) (owned : Bool) (call : GuestCall) (h : Host H)
    → Reenters engine call
    → IsBridge h.0
    → Keeps h.0 (perform engine owned call h).0
unfolding passes
perform-Keeps engine owned (make call) h r k =
    let direct = Makes.ask engine.maker (view h.0) call in
    rw (perform, Makes.serve_lem engine.maker owned call h)
      (answer_if-Keeps owned (Makes.is_served (view h.0) call) (makes direct) h k
        (λ e. makes-Keeps direct h (Runs-Keeps h.0 (direct h).1.0 k e (r (view h.0) h))))
perform-Keeps engine owned (read call) h r k =
    let direct = Reads.ask engine.reader (view h.0) call in
    rw (perform, Reads.serve-passes engine.reader owned call h)
      (answer_if-Keeps owned (Reads.is_served (view h.0) call) (passes direct) h k
        (λ e. Runs-Keeps h.0 (direct h).1.0 k e (r (view h.0) h)))

-- Whatever a guest asks in a run of the calls that make, read, test or change values, and whatever
-- the engine answers, where the engine's functions change the bridge only by running callbacks of
-- the guest, one after another or inside each other, and for each callback its own escapable scope
-- opens, whose handle is given to no scope that the guest opens in it: every id that named a value
-- names the same value afterwards, and the frames own exactly the slots in use.
pub perform_all-Keeps :
    {H : Type 0} (engine : Engine H) (owned : Bool) (calls : List GuestCall) (h : Host H)
    → All (Reenters engine) calls
    → IsBridge h.0
    → Keeps h.0 (perform_all engine owned calls h).0
perform_all-Keeps engine owned [] h r k = none-Keeps h.0 k
perform_all-Keeps engine owned (call ∷ calls) h r k =
    let j = perform-Keeps engine owned call h r.0 k in
    let next = perform engine owned call h in
    then-Keeps h.0 next.0 _ j (perform_all-Keeps engine owned calls next r.1 j.bridge)

-- What a call that makes a value comes to, by the answer of the engine and the state `h` that its
-- function leaves: the engine fails, or its value is null or cannot be stored, or its value is
-- stored.
pub record Made {H : Type 0} (v : ℕ) (h : Host H) (r : (Status × Option ℕ) × Host H) : Type 0 where
  pub id : ℕ
  pub written : r.0 ≡ (ok, some id)
  pub engine : r.1.1 ≡ h.1
  pub stored : Stored 0 v (with_root h.0) (id, r.1.0)

abbrev pub MadeBy :
    {H : Type 0} → (Status × Option ℕ) × Host H → (Status × Option ℕ) × Host H → Type 0
MadeBy ((s, none), h) r =
    ((is_ok s ≡ false) × (r ≡ ((s, none), h)))
    ⊎ ((s ≡ ok) × (r ≡ ((ok, some 0), (with_root h.0, h.1))))
MadeBy ((s, some v), h) r =
    ((is_ok s ≡ false) × (r ≡ ((s, none), h)))
    ⊎ ((s ≡ ok) × (is_refused (with_root h.0) ≡ true) × (r ≡ ((ok, some 0), (with_root h.0, h.1))))
    ⊎ ((s ≡ ok) × (is_refused (with_root h.0) ≡ false) × Made v h r)

is_ok_lem : (s : Status) → (is_ok s ≡ true) → s ≡ ok
unfolding is_ok
is_ok_lem ok e = refl
is_ok_lem invalid_arg e = absurd (ground (arith, e))
is_ok_lem generic_failure e = absurd (ground (arith, e))
is_ok_lem handle_scope_mismatch e = absurd (ground (arith, e))
is_ok_lem (other_status n) e = absurd (ground (arith, e))

makes-MadeBy :
    {H : Type 0} (answer : (Status × Option ℕ) × Host H) (h : Host H)
    → IsBridge answer.1.0
    → is_some (with_root answer.1.0).env ≡ true
    → MadeBy answer (makes (λ h. answer) h)
unfolding makes store_value is_ok store_value_in_frame
makes-MadeBy ((s, none), next) h k o = elim (Bool-cases (is_ok s)) [
  | inr q ↦ inl (q, rw q refl)
  | inl q ↦ inr (is_ok_lem s q, rw q refl)
]
makes-MadeBy ((s, some v), next) h k o = elim (Bool-cases (is_ok s)) [
  | inr q ↦ inl (q, rw q refl)
  | inl q ↦
      inr
        (elim (store-Stored 0 v (with_root next.0) (root-IsBridge next.0 k) o
          (root-length next.0)) [
            | inl (r, e) ↦ inl (is_ok_lem s q, r, rw (q, e) refl)
            | inr (r, e) ↦ inr (
              is_ok_lem s q,
              r,
              rw q (record { id = _; written = refl; engine = refl; stored = e }),
            )
          ])
]

env-reached :
    (a : Agent) (b : Bool) → is_some a.env ≡ true → b ≡ true → require_env_state true a && b ≡ true
unfolding require_env_state
env-reached a b e f = ground (arith, e, f)

root-env : (a : Agent) → is_some (with_root a).env ≡ is_some a.env
unfolding with_root
root-env a = elim (List-cases a.scope_frames) [ inl e ↦ rw e refl | inr (f, (fs, e)) ↦ rw e refl ]

-- A call that makes a value, where its ids name values, against the engine's function on those
-- values, which may run callbacks of the guest, one after another or inside each other, each in an
-- escapable scope of its own. When the engine fails, its status is returned and the state is the one that its
-- function, callbacks included, leaves. When it gives no value, or a store is refused, the call is
-- `ok` and writes the id 0. Otherwise it is `ok` and writes a new id that names the engine's value,
-- while every other id names what it named when the engine's function returned.
pub serve-MadeBy :
    {H : Type 0} (engine : Engine H) (call : Makes.MakeCall) (h : Host H)
    → Reenters engine (make call)
    → IsBridge h.0
    → is_some h.0.env ≡ true
    → Makes.is_served (view h.0) call ≡ true
    → MadeBy (Makes.ask engine.maker (view h.0) call h) (Makes.serve engine.maker true call h)
unfolding makes
serve-MadeBy engine call h r k e served =
    let direct = Makes.ask engine.maker (view h.0) call h in
    let after = Runs-Kept h.0 direct.1.0 k e (r (view h.0) h) in
    let reached : require_env_state true h.0 && Makes.is_served (view h.0) call ≡ true =
      env-reached h.0 _ e served in
    rw (Makes.serve_lem engine.maker true call h, reached)
      (makes-MadeBy direct h after.bridge (root-env direct.1.0 ∙ after.env))
