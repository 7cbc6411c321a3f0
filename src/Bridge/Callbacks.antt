-- ===== src/Bridge/Callbacks.antt =====
-- The callbacks of the guest that the engine calls: their registration, the invocation tokens, and
-- the scope frame around each callback.
pub mod Inside
pub mod Popping
pub mod Guests
pub mod Frames
pub mod Stopped
use napi.Prelude.{
  ℕ, ◌+◌, ◌%◌, ◌^◌, Bool, true, false, not, ◌==◌, ◌&&◌, ◌||◌, Option, none, some, List, [], ◌∷◌,
  if◌then◌else◌, ltb, leb, update, is_some, sum_over,
}
use napi.Bridge.{Frame, Agent, push_scope_frame, load_value, pop_current_frame}
use napi.Bridge.Release.{Life, same_env, enter_guest, leave_guest}

-- CbRegistration
pub record Registration : Type 0 where
  pub guest_env : ℕ
  pub wasm_fn_ptr : ℕ
  pub wasm_setter_fn_ptr : ℕ
  pub data_val : ℕ

-- CallbackInvocation: an id and the engine's callback info.
pub record Invocation : Type 0 where
  pub id : ℕ
  pub info : ℕ

-- The agent, its counts of guest code, the invocations (innermost first, the reverse of the
-- vector), and the registrations of the env that is called.
pub record Site : Type 0 where
  pub agent : Agent
  pub life : Life
  pub callback_invocations : List Invocation
  pub next_callback_invocation_id : ℕ
  pub active_callback_ctx : Option ℕ
  pub cb_registry : ℕ → Option Registration
  pub next_cb_reg_id : ℕ

-- RegisterCallbackInvocation, whose id is never 0.
pub register_callback_invocation : ℕ → Site → ℕ × Site
register_callback_invocation info s =
    let id = if s.next_callback_invocation_id == 0 then 1 else s.next_callback_invocation_id in
    (
      id,
      record s {
        callback_invocations = record { id = id; info = info } ∷ s.callback_invocations;
        next_callback_invocation_id = (id + 1) % 2 ^ 32;
      },
    )

abbrev find_invocation : ℕ → List Invocation → Option ℕ
find_invocation id [] = none
find_invocation id (i ∷ rest) = if i.id == id then some i.info else find_invocation id rest

-- FindCallbackInvocation
pub find_callback_invocation : ℕ → Site → Option ℕ
find_callback_invocation id s = find_invocation id s.callback_invocations

-- The erasure of the innermost invocation with an id.
abbrev pub erase_invocation : ℕ → List Invocation → List Invocation
erase_invocation id [] = []
erase_invocation id (i ∷ rest) = if i.id == id then rest else i ∷ erase_invocation id rest

-- AgentCallbackRegistrations and AgentCallbackBindings, by the count of each env of the agent.
pub agent_callback_registrations : (ℕ → ℕ) → List ℕ → ℕ
agent_callback_registrations registrations envs = sum_over registrations envs

pub agent_callback_bindings : (ℕ → ℕ) → List ℕ → ℕ
agent_callback_bindings bindings envs = sum_over bindings envs

-- snapi_bridge_alloc_cb_reg_id, with the number of registrations of the agent.
pub alloc_cb_reg_id : Bool → ℕ → Site → ℕ × Site
alloc_cb_reg_id env_open registrations s =
    if not env_open
    then (0, s)
    else if not (s.agent.value_limit == 0) && leb s.agent.value_limit registrations
    then (0, s)
    else (s.next_cb_reg_id, record s { next_cb_reg_id = (s.next_cb_reg_id + 1) % 2 ^ 32 })

-- snapi_bridge_register_callback_pair
pub register_callback_pair : Bool → ℕ → ℕ → ℕ → ℕ → ℕ → Site → Site
register_callback_pair env_open reg_id guest_env getter setter data_val s =
    if not env_open || reg_id == 0 then s else record s {
      cb_registry = update s.cb_registry reg_id (
          some (record {
            guest_env = guest_env;
            wasm_fn_ptr = getter;
            wasm_setter_fn_ptr = setter;
            data_val = data_val;
          }));
    }

-- snapi_bridge_register_callback
pub register_callback : Bool → ℕ → ℕ → ℕ → ℕ → Site → Site
unfolding register_callback_pair
register_callback env_open reg_id guest_env wasm_fn_ptr data_val s =
    register_callback_pair env_open reg_id guest_env wasm_fn_ptr 0 data_val s

abbrev pub has_esc_scope : ℕ → List Frame → Bool
has_esc_scope scope [] = false
has_esc_scope scope (f ∷ fs) = same_env scope f.esc_scope || has_esc_scope scope fs

-- `while (frames.back().esc_scope != cb_scope) PopCurrentFrame`, over the frames there are.
pub pop_above : ℕ → List Frame → Agent → Agent
pop_above scope [] a = a
pop_above scope (f ∷ fs) a =
    let popped = pop_above scope fs (pop_current_frame true a) in
    if same_env scope f.esc_scope then a else popped

-- After the guest's code: escape the result, close the scopes the guest left open, and its own.
pub close_callback : ℕ → (ℕ → Option ℕ) → Option ℕ → Agent → Option ℕ × Agent
unfolding pop_above
close_callback scope escape result a =
    if not (has_esc_scope scope a.scope_frames) then (result, a) else (
      elim result [ none ↦ none | some v ↦ escape v ],
      pop_current_frame true (pop_above scope a.scope_frames a),
    )

-- What the engine says to a callback: the argument count, the registration of the function called,
-- the callback info, the escapable scope it opens if any, and what escapes from this scope.
pub record Engine : Type 0 where
  pub argc : ℕ
  pub reg_id : Option ℕ
  pub info : ℕ
  pub cb_scope : Option ℕ
  pub escape : ℕ → Option ℕ

-- What runs in the guest: from its context, env, function and callback info to the id of a result.
abbrev pub Guest : Type 0
Guest = ℕ → ℕ → ℕ → ℕ → Site → ℕ × Site

-- The frame around a callback, where the engine opened a scope for it.
pub open_callback : Option ℕ → Agent → Agent
unfolding push_scope_frame
open_callback none a = a
open_callback (some scope) a = push_scope_frame none (some scope) 0 a

pub leave_callback : Option ℕ → (ℕ → Option ℕ) → Option ℕ → Agent → Option ℕ × Agent
unfolding close_callback
leave_callback none escape result a = (result, a)
leave_callback (some scope) escape result a = close_callback scope escape result a

-- The callback proper, once its registration is found.
pub run_callback : Engine → Guest → ℕ → Registration → Site → Option ℕ × Site
unfolding register_callback_invocation open_callback leave_callback
run_callback engine guest ctx registration s =
    let (cbinfo_id, s1) = register_callback_invocation engine.info s in
    let a = open_callback engine.cb_scope s1.agent in
    let fn =
      if not (registration.wasm_setter_fn_ptr == 0) && ltb 0 engine.argc
      then registration.wasm_setter_fn_ptr
      else registration.wasm_fn_ptr in
    let (result_id, s2) = guest ctx registration.guest_env fn cbinfo_id (record s1 { agent = a }) in
    let s3 = record s2 {
      callback_invocations = erase_invocation cbinfo_id s2.callback_invocations;
    } in
    let result = load_value result_id s3.agent in
    let (value, a1) = leave_callback engine.cb_scope engine.escape result s3.agent in
    (value, record s3 { agent = a1 })

-- Without a guest's context or a registration, no guest code runs.
pub run_registered : Engine → Guest → Option ℕ → Option Registration → Site → Option ℕ × Site
unfolding run_callback
run_registered engine guest none registration s = (none, s)
run_registered engine guest (some ctx) none s = (none, s)
run_registered engine guest (some ctx) (some registration) s =
    run_callback engine guest ctx registration s

-- generic_wasm_callback; `none` is undefined.
pub generic_wasm_callback : Bool → Engine → Guest → Site → Option ℕ × Site
unfolding enter_guest leave_guest run_registered
generic_wasm_callback env_open engine guest s = elim engine.reg_id [
  | none ↦ (none, s)
  | some reg_id ↦
      if not env_open
      then (none, s)
      else let ((allowed, counted), life) = enter_guest s.life in
        let s1 = record s { life = life } in
        let ctx = if allowed then s.active_callback_ctx else none in
        let (value, s2) = run_registered engine guest ctx (s.cb_registry reg_id) s1 in
        (value, record s2 { life = leave_guest counted s2.life })
]
