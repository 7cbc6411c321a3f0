-- ===== src/Bridge/Callbacks/Stopped.antt =====
-- Callbacks that run no guest code.
use napi.Prelude.{
  ℕ, ◌≡◌, refl, ap, Bool, false, ◌&&◌, Option, none, some, arith, if◌then◌else◌, is_some,
  Bool-cases, Option-cases, inl, inr,
}
use napi.Bridge.Release.{Life, enter_guest, leave_guest}
use napi.Bridge.Callbacks.{Registration, Site, Engine, Guest, run_registered, generic_wasm_callback}

-- Whether a callback finds its env open, its registration, the guest's context, and leave to run.
abbrev pub runs_guest : Bool → Engine → Site → Bool
runs_guest env_open engine s =
    env_open
    && (enter_guest s.life).0.0
    && is_some s.active_callback_ctx
    && (elim engine.reg_id as (λ x. Bool) [
      | none ↦ false
      | some reg_id ↦ is_some (s.cb_registry reg_id)
    ])

enter_leave : (l : Life) → leave_guest (enter_guest l).0.1 (enter_guest l).1 ≡ l
unfolding enter_guest leave_guest
enter_leave l = ground arith

unregistered :
    (engine : Engine) (guest : Guest) (ctx : Option ℕ) (registration : Option Registration)
    (s : Site)
    → (is_some ctx && is_some registration) ≡ false
    → run_registered engine guest ctx registration s ≡ (none, s)
unfolding run_registered
unregistered engine guest none registration s e = refl
unregistered engine guest (some ctx) none s e = refl
unregistered engine guest (some ctx) (some registration) s e = absurd (ground (arith, e))

-- A callback of an env that is gone, of a function that is not registered, without a guest that
-- drives the agent, or after a stop was requested during the release, runs no guest code: it
-- gives undefined and leaves the bridge and its counts as they were.
pub generic_wasm_callback-stopped :
    (env_open : Bool) (engine : Engine) (guest : Guest) (s : Site)
    → runs_guest env_open engine s ≡ false
    → generic_wasm_callback env_open engine guest s ≡ (none, s)
unfolding generic_wasm_callback
generic_wasm_callback-stopped env_open engine guest s e =
    let l = (enter_guest s.life).1 in
    let back : record s { life = leave_guest (enter_guest s.life).0.1 l } ≡ s =
      ap (λ (x : Life). record s { life = x }) (enter_leave s.life) in
    elim (Option-cases engine.reg_id) [
      | inl n ↦ rw (generic_wasm_callback, n) refl
      | inr (reg_id, n) ↦ elim (Bool-cases env_open) [
        | inr o ↦ rw (generic_wasm_callback, n, o) refl
        | inl o ↦
            (let ctx = if (enter_guest s.life).0.0 then s.active_callback_ctx else none in
              let idle =
                unregistered engine guest ctx (s.cb_registry reg_id) (record s { life = l })
                  (ground (arith, e, n, o)) in
              rw (generic_wasm_callback, n, o, idle) (ap (λ (x : Site). (none, x)) back))
      ]
    ]
