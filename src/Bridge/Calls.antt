-- ===== src/Bridge/Calls.antt =====
-- The calls of the bridge on values: each checks the env, loads the values that its ids name, asks
-- the engine, and stores the value that the engine gives. What the calls share is here.
pub mod Engine
pub mod Make
pub mod Derive
pub mod Read
pub mod Act
pub mod Shapes
pub mod Makes
pub mod Reads
pub mod Keeping
pub mod Reentry
pub mod Refinement
use napi.Prelude.{
  ℕ, Bool, true, false, not, ◌==◌, ◌&&◌, Option, none, some, List, [], if◌then◌else◌,
}
use napi.Bridge.{Agent, Status, ok, invalid_arg, is_ok, require_env_state, load_value, store_value}

-- The bridge and the engine together.
abbrev pub Host : Type 0 → Type 0
Host H = Agent × H

-- A function of the engine: its status and what it gives, from one state of the bridge and the
-- engine to the next. It may run JavaScript, which calls the guest's callbacks, which call the
-- bridge; so the bridge is not as before when it returns.
abbrev pub Call : Type 0 → Type 0 → Type 0
Call H R = Host H → (Status × R) × Host H

-- A call of the bridge: its status, and the number that it writes for the guest if any.
abbrev pub Answer : Type 0 → Type 0
Answer H = Host H → (Status × Option ℕ) × Host H

-- `RequireEnvState` and the return without an env.
pub guarded : {H : Type 0} → Bool → Answer H → Answer H
unfolding require_env_state
guarded owned body h = if require_env_state owned h.0 then body h else ((invalid_arg, none), h)

-- `LoadValue` and the return without a value.
pub loaded : {H : Type 0} → ℕ → (ℕ → Answer H) → Answer H
loaded id body h = elim (load_value id h.0) [ none ↦ ((invalid_arg, none), h) | some v ↦ body v h ]

-- A value that may be null.
pub maybe_loaded : {H : Type 0} → ℕ → (Option ℕ → Answer H) → Answer H
maybe_loaded id body h = body (load_value id h.0) h

-- A name that may not be null.
pub given : {H : Type 0} → Option (List ℕ) → (List ℕ → Answer H) → Answer H
given none body h = ((invalid_arg, none), h)
given (some text) body h = body text h

-- NAPI_AUTO_LENGTH is `none`.
pub auto_length : ℕ → Option ℕ
auto_length wasm_length = if wasm_length == 0xFFFFFFFF then none else some wasm_length

-- The last lines of a call that gives the guest the id of a value.
pub makes : {H : Type 0} → Call H (Option ℕ) → Answer H
unfolding is_ok store_value
makes engine h =
    let ((s, result), (a, e)) = engine h in
    if not (is_ok s)
    then ((s, none), (a, e))
    else let (id, a1) = store_value result a in ((ok, some id), (a1, e))

-- The engine writes the result itself.
pub passes : {H : Type 0} → Call H (Option ℕ) → Answer H
passes engine h = engine h

-- A number that is written once the engine's status is known.
abbrev pub answer_of : {H : Type 0} → Call H ℕ → Call H (Option ℕ)
answer_of engine h =
    let ((s, result), h1) = engine h in ((s, if is_ok s then some result else none), h1)

abbrev pub test_of : {H : Type 0} → Call H Bool → Call H (Option ℕ)
test_of engine h =
    let ((s, result), h1) = engine h in
    ((s, if is_ok s then some (if result then 1 else 0) else none), h1)

abbrev pub act_of : {H : Type 0} → (Host H → Status × Host H) → Call H (Option ℕ)
act_of engine h = let (s, h1) = engine h in ((s, none), h1)

pub reads : {H : Type 0} → Call H ℕ → Answer H
unfolding is_ok
reads engine = passes (answer_of engine)

pub tests : {H : Type 0} → Call H Bool → Answer H
unfolding is_ok
tests engine = passes (test_of engine)

pub acts : {H : Type 0} → (Host H → Status × Host H) → Answer H
acts engine = passes (act_of engine)

-- The value of an id that names one, and a name that is there.
abbrev pub at : Option ℕ → ℕ
at none = 0
at (some v) = v

abbrev pub at_text : Option (List ℕ) → List ℕ
at_text none = []
at_text (some text) = text

-- What each id names.
abbrev pub view : Agent → ℕ → Option ℕ
view a id = load_value id a
