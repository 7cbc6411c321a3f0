-- ===== src/Bridge/Tests.antt =====
-- Runs of the bridge at concrete states.
use napi.Prelude.{
  ℕ, ◌+◌, ◌%◌, ◌≤◌, ◌<◌, ◌≡◌, ◌⊎◌, refl, true, false, not, ◌==◌, ◌&&◌, Option, none, some, List, [],
  ◌∷◌, arith, if◌then◌else◌, update, has, All,
}
use napi.Bridge.{
  new_slot, Frame, Agent, with_root, Status, ok, invalid_arg, is_ok, store_value_in_frame,
  load_value, pop_current_frame,
}
use napi.Bridge.Slots.{IsBridge}
use napi.Bridge.Values.{slot_of, is_refused, Stored, store-Stored, pop-load}
use napi.Bridge.Generations.{Op, store_at, push, pop, run, frees, load-run}
use napi.Bridge.Scopes.{open_scope, close_scope_id, escape_handle}
use napi.Bridge.Scopes.Closing.{Closes, close_scope_id-outcome}
use napi.Bridge.Scopes.Opening.{open_scope-close_scope_id}
use napi.Bridge.Scopes.Escaping.{Escapes, escape_handle-Escapes}
use napi.Bridge.Handles.{empty_table, store, load, Desk}
use napi.Bridge.Handles.Table.{put, take, apply_ops, retires, takes, store-run}
use napi.Bridge.Handles.Messages.{message_take, message_drop, message_take-once}
use napi.Bridge.Release.{
  Life, Process, enter_guest, terminate, leave_guest, release_owner, finish_release,
  dispose_bridge_state, env_release_refused, next_owned, dispose,
}
use napi.Bridge.Release.Threads.{env_release_refused-dispose}
use napi.Bridge.Release.Guests.{Stack, leave, here, after, Counts, counted_scopes, Reach-stopped}
use napi.Bridge.Release.Dispose.{owned_envs, dispose-stuck}
use napi.Bridge.Release.Ending.{Owned, Quiet, dispose-ends}
use napi.Bridge.Callbacks.{Site, Guest, open_callback, close_callback, generic_wasm_callback}
use napi.Bridge.Drain.{drain, clear_values, clear_values-drain}
use napi.Bridge.Callbacks
use napi.Bridge.Callbacks.Inside.{Extends, GuestOp, opens, closes, stores, guest_op, guest_ops}
use napi.Bridge.Callbacks.Popping.{Kept}
use napi.Bridge.Callbacks.Frames.{close_callback-Kept}
use napi.Bridge.Callbacks.Stopped.{runs_guest, generic_wasm_callback-stopped}
use napi.Bridge.Calls.{view}
use napi.Bridge.Calls.Engine.{Maker, Reader}
use napi.Bridge.Calls.Makes
use napi.Bridge.Calls.Reads
use napi.Bridge.Calls.Keeping.{Keeps}
use napi.Bridge.Calls.Reentry.{start, step, calls_back, Runs, Runs-Kept, quiet, callback}
use napi.Bridge.Calls.Refinement

-- One value, 5, in slot 0, which the root frame owns; its id is 4096.
abbrev one : Agent
one = record {
  env = some 1;
  value_slots =
      λ i. if i == 0 then record { value = some 5; generation = 0; in_use = true } else new_slot;
  slot_count = 1;
  value_free_slots = [];
  live_value_count = 1;
  scope_frames =
      record { scope = none; esc_scope = none; env = none; owned_slots = 0 ∷ []; id = 0 } ∷ [];
  next_scope_id = 1;
  value_limit = 0;
  closed = [];
}

one-IsBridge : IsBridge one
one-IsBridge = record {
  free_distinct = tt;
  distinct = (refl, tt);
  disjoint = λ i h. absurd (ground (arith, h));
  free_inside = λ i h. absurd (ground (arith, h));
  inside = λ i h. ground (arith, h);
  used = λ i. ground arith;
  valued = λ i h. ground (arith, h);
  generation = λ i. ground arith;
  live = refl;
  size = omega arith;
}

one-load : load_value 4096 one ≡ some 5
unfolding load_value
one-load = refl

store-Stored_example :
    let r = store_value_in_frame 0 (some 7) one in
    ((is_refused one ≡ true) × (r ≡ (0, one))) ⊎ ((is_refused one ≡ false) × Stored 0 7 one r)
store-Stored_example = store-Stored 0 7 one one-IsBridge refl (omega arith)

abbrev root_of_one : Frame
root_of_one = record { scope = none; esc_scope = none; env = none; owned_slots = 0 ∷ []; id = 0 }

pop-load_example :
    let r = pop_current_frame true one in
    (r.scope_frames ≡ [])
    × IsBridge r
    × ((id : ℕ) → load_value id r ≡ (if has (slot_of id) (0 ∷ []) then none else load_value id one))
pop-load_example = pop-load true root_of_one [] one refl one-IsBridge

clear_values-drain_example :
    let d = drain one.scope_frames one in
    (d.scope_frames ≡ [])
    × (d.live_value_count ≡ 0)
    × ((i : ℕ) → (d.value_slots i).in_use ≡ false)
    × ((id : ℕ) → load_value id d ≡ none)
    × IsBridge (clear_values one)
    × ((id : ℕ) → load_value id (clear_values one) ≡ none)
clear_values-drain_example = clear_values-drain one one-IsBridge

-- The slot of the value is freed and given out again.
abbrev reuse : List Op
reuse = pop true ∷ push none none 0 ∷ store_at 0 9 ∷ []

load-run_example :
    let n = frees (slot_of 4096) reuse one in
    let slot = (run reuse one).value_slots (slot_of 4096) in
    load_value 4096 (run reuse one)
    ≡ (if n == 0 then some 5 else if n % 4096 == 0 && slot.in_use then slot.value else none)
load-run_example = load-run reuse 4096 5 one one-IsBridge one-load

close_scope_id-outcome_example :
    let r = close_scope_id false true 3 one in
    ((is_ok r.0 ≡ false) × (r.1 ≡ one)) ⊎ ((is_ok r.0 ≡ true) × Closes false 3 one r.1)
close_scope_id-outcome_example = close_scope_id-outcome false true 3 one

open_scope-close_scope_id_example :
    let opened = open_scope false true (ok, 40) one in
    let closed = close_scope_id false true opened.0.1 opened.1 in
    (opened.0.0 ≡ ok)
    × (0 < opened.0.1)
    × (closed.0 ≡ ok)
    × (closed.1.closed ≡ 40 ∷ [])
    × (closed.1.scope_frames ≡ (with_root one).scope_frames)
    × IsBridge closed.1
    × ((id : ℕ) → load_value id closed.1 ≡ load_value id one)
open_scope-close_scope_id_example = open_scope-close_scope_id false 40 one one-IsBridge refl

-- An escapable scope of id 3 over the root frame.
abbrev esc_frame : Frame
esc_frame = record { scope = none; esc_scope = some 30; env = some 1; owned_slots = []; id = 3 }

abbrev nested : Agent
nested = record one { scope_frames = esc_frame ∷ root_of_one ∷ [] }

nested-IsBridge : IsBridge nested
nested-IsBridge = record {
  free_distinct = tt;
  distinct = (refl, tt);
  disjoint = λ i h. absurd (ground (arith, h));
  free_inside = λ i h. absurd (ground (arith, h));
  inside = λ i h. ground (arith, h);
  used = λ i. ground arith;
  valued = λ i h. ground (arith, h);
  generation = λ i. ground arith;
  live = refl;
  size = omega arith;
}

nested-load : load_value 4096 nested ≡ some 5
unfolding load_value
nested-load = refl

abbrev moves : ℕ → ℕ → Status × Option ℕ
moves scope v = (ok, some (v + 100))

escape_handle-Escapes_example :
    Escapes 3 105 esc_frame nested (escape_handle true 3 4096 moves nested)
escape_handle-Escapes_example =
    escape_handle-Escapes 3 4096 30 5 105 moves esc_frame root_of_one [] nested nested-IsBridge refl
      refl refl (omega arith) refl nested-load refl (ground arith)

store-run_example :
    let stored = store (some 7) empty_table in
    let after = apply_ops (put 8 ∷ take 1 ∷ []) stored.1 in
    (0 < stored.0)
    × (load stored.0 after ≡ (if retires stored.0 (put 8 ∷ take 1 ∷ []) then none else some 7))
    × (takes stored.0 (put 8 ∷ take 1 ∷ []) stored.1 ≤ 1)
store-run_example = store-run 7 (put 8 ∷ take 1 ∷ []) empty_table (omega arith) (omega arith)

abbrev desk : Desk ℕ
desk = record {
  agent = one;
  refs = empty_table;
  deferreds = empty_table;
  bytecode = empty_table;
  messages = record { handles = λ id. if id == 4 then some 70 else none; next_id = 5 };
  engine = 0;
}

abbrev take_message : ℕ → ℕ → (Status × Option ℕ) × ℕ
take_message handle e = ((ok, some handle), e + 1)

abbrev drop_message : ℕ → ℕ → ℕ
drop_message handle e = e + 1

message_take-once_example :
    let taken = (message_take take_message drop_message true 4 desk).1 in
    let dropped = message_drop drop_message 4 desk in
    (message_take take_message drop_message false 4 taken ≡ ((invalid_arg, 0), taken))
    × (message_drop drop_message 4 taken ≡ taken)
    × (message_take take_message drop_message false 4 dropped ≡ ((invalid_arg, 0), dropped))
    × (message_drop drop_message 4 dropped ≡ dropped)
message_take-once_example =
    message_take-once take_message take_message drop_message drop_message true false 4 desk

-- Two envs of a thread, each with its agent; guest code runs for `calls` callbacks of the first.
abbrev life_of : ℕ → ℕ → Life
life_of calls s = record {
  closing = false;
  teardown_guest_calls = 0;
  stop_requested = false;
  guest_calls = calls;
  pending_interrupts = [];
  owner = some 90;
  envs = s ∷ [];
}

abbrev process : ℕ → Process
process calls = record {
  agent_of = λ s. if s == 1 then some 10 else if s == 2 then some 20 else none;
  env_of = λ s. some s;
  holders = λ s. 1;
  deleted = [];
  agents = λ g. if g == 10 then life_of calls 1 else life_of 0 2;
  g_envs = 1 ∷ 2 ∷ [];
  threads = λ t. record { owned_envs = 1 ∷ 2 ∷ []; last_owned_env = none };
}

abbrev release : ℕ → Process → Status × Process
release owner p = (ok, p)

release-Quiet : Quiet 0 release
release-Quiet = record {
  owned = λ o p. refl;
  agent_of = λ o p. refl;
  lives = λ o p. record { envs = λ h. refl; calls = λ h. refl; closing = λ h. refl };
}

process-Owned : Owned 0 (process 0)
process-Owned = record {
  distinct = (refl, (refl, tt));
  agent = λ s. if s == 1 then 10 else 20;
  is_agent = λ s h. ground (arith, h);
  listed = λ s h. ground (arith, h);
  idle = λ s h. ground (arith, h);
}

dispose-ends_example :
    (q : Process) × (dispose release 3 0 (process 0) ≡ some q)
    × (next_owned (owned_envs 0 q) q ≡ none)
dispose-ends_example = dispose-ends release 0 (process 0) release-Quiet process-Owned

next-1 : next_owned (owned_envs 0 (process 1)) (process 1) ≡ some 1
unfolding next_owned
next-1 = refl

dispose-stuck_example : dispose release 1000 0 (process 1) ≡ none
dispose-stuck_example = dispose-stuck release 1000 0 1 10 (process 1) next-1 refl (omega arith)

env_release_refused-dispose_example :
    let refused = env_release_refused 0 (some 1) (process 1) in
    let released = dispose_bridge_state release 0 (some 1) (process 1) in
    let q = refused.1 in
    let closing = record q {
      agents = update q.agents 10 (record (q.agents 10) { closing = true });
    } in
    let r = release_owner release (q.agents 10).owner closing in
    ((refused.0 ≡ true) × (released ≡ (invalid_arg, q)))
    ⊎ ((refused.0 ≡ false) × (released ≡ (r.0, finish_release 0 10 r.1)))
env_release_refused-dispose_example = env_release_refused-dispose release 0 1 10 (process 1) refl

-- A finalizer of the teardown is running, and a stop was requested; then the finalizer ends.
abbrev tearing : Stack
tearing = record {
  scopes = true ∷ [];
  life = record (life_of 1 1) { closing = true; teardown_guest_calls = 1; stop_requested = true };
}

abbrev ended : Stack
ended = record { scopes = []; life = leave_guest true tearing.life }

tearing-Counts : Counts tearing
tearing-Counts = record { calls = refl; teardown = refl; open_none = refl; stopped = refl }

Reach-stopped_example :
    ((enter_guest ended.life).0.0 ≡ false)
    × (counted_scopes ended.scopes ≤ counted_scopes tearing.scopes)
    × ((terminate ended.life).0 ≡ not (counted_scopes ended.scopes == 0))
Reach-stopped_example = Reach-stopped tearing ended (after leave here) tearing-Counts refl

-- A callback that leaves a handle scope open.
abbrev guest_code : List GuestOp
guest_code = opens false 60 ∷ stores (some 3) ∷ closes false 9 ∷ []

abbrev lets_escape : ℕ → Option ℕ
lets_escape v = some v

close_callback-Kept_example :
    let b = guest_ops guest_code (open_callback (some 50) one) in
    let r = close_callback 50 lets_escape (load_value 4096 b) b in
    (r.0 ≡ (elim (load_value 4096 b) as (λ x. Option ℕ) [ none ↦ none | some v ↦ some v ]))
    × Extends (with_root one).scope_frames r.1.scope_frames
    × Kept one r.1
close_callback-Kept_example =
    close_callback-Kept 50 4096 guest_code lets_escape one one-IsBridge refl refl

abbrev site : Site
site = record {
  agent = one;
  life = record (life_of 0 1) { closing = true; stop_requested = true };
  callback_invocations = [];
  next_callback_invocation_id = 1;
  active_callback_ctx = some 8;
  cb_registry =
      λ id. some (record { guest_env = 1; wasm_fn_ptr = 2; wasm_setter_fn_ptr = 0; data_val = 3 });
  next_cb_reg_id = 2;
}

abbrev called : Callbacks.Engine
called = record { argc = 0; reg_id = some 1; info = 6; cb_scope = some 50; escape = lets_escape }

abbrev guest : Guest
guest ctx guest_env fn cbinfo_id s = (4096, s)

site-stopped : runs_guest true called site ≡ false
unfolding enter_guest
site-stopped = refl

generic_wasm_callback-stopped_example : generic_wasm_callback true called guest site ≡ (none, site)
generic_wasm_callback-stopped_example =
    generic_wasm_callback-stopped true called guest site site-stopped

-- A callback that the engine runs, with a callback inside of it, and its effect on the bridge.
abbrev inside : Agent → Agent
inside a = guest_op (stores (some 8)) (open_callback (some 51) a)

abbrev nested_callback : Agent → Agent
nested_callback a = (close_callback 51 lets_escape (load_value 4096 (inside a)) (inside a)).1

abbrev callback_body : Agent → Agent
callback_body a =
    guest_op (stores (some 3))
      (nested_callback (guest_op (opens false 60) (open_callback (some 50) a)))

abbrev runs_callback : Agent → Agent
runs_callback a =
    (close_callback 50 lets_escape (load_value 4096 (callback_body a)) (callback_body a)).1

callback-Runs : (a : Agent) → Runs a (runs_callback a)
callback-Runs a =
    callback 50 4096 lets_escape
      (step (stores (some 3)) refl (
        calls_back 51 4096 lets_escape (step (stores (some 8)) refl (start _ _))
          (step (opens false 60) refl (start _ _))))
      quiet

Runs-Kept_example : Kept one (runs_callback one)
Runs-Kept_example = Runs-Kept one (runs_callback one) one-IsBridge refl (callback-Runs one)

-- An engine that counts its calls and answers with the count. Scripts, getters and setters call
-- back into the guest.
abbrev maker : Maker ℕ
maker = record {
  get_undefined = λ h. ((ok, some h.1), (h.0, h.1 + 1));
  get_null = λ h. ((ok, some h.1), (h.0, h.1 + 1));
  get_boolean = λ x0 h. ((ok, some h.1), (h.0, h.1 + 1));
  get_global = λ h. ((ok, some h.1), (h.0, h.1 + 1));
  create_string_utf8 = λ x0 x1 h. ((ok, some h.1), (h.0, h.1 + 1));
  create_string_latin1 = λ x0 x1 h. ((ok, some h.1), (h.0, h.1 + 1));
  create_int32 = λ x0 h. ((ok, some h.1), (h.0, h.1 + 1));
  create_uint32 = λ x0 h. ((ok, some h.1), (h.0, h.1 + 1));
  create_double = λ x0 h. ((ok, some h.1), (h.0, h.1 + 1));
  create_int64 = λ x0 h. ((ok, some h.1), (h.0, h.1 + 1));
  create_object = λ h. ((ok, some h.1), (h.0, h.1 + 1));
  create_array = λ h. ((ok, some h.1), (h.0, h.1 + 1));
  create_array_with_length = λ x0 h. ((ok, some h.1), (h.0, h.1 + 1));
  coerce_to_bool = λ x0 h. ((ok, some h.1), (h.0, h.1 + 1));
  coerce_to_number = λ x0 h. ((ok, some h.1), (h.0, h.1 + 1));
  coerce_to_string = λ x0 h. ((ok, some h.1), (h.0, h.1 + 1));
  coerce_to_object = λ x0 h. ((ok, some h.1), (h.0, h.1 + 1));
  get_property = λ x0 x1 h. ((ok, some h.1), (runs_callback h.0, h.1 + 1));
  get_named_property = λ x0 x1 h. ((ok, some h.1), (h.0, h.1 + 1));
  get_element = λ x0 x1 h. ((ok, some h.1), (h.0, h.1 + 1));
  get_property_names = λ x0 h. ((ok, some h.1), (h.0, h.1 + 1));
  get_all_property_names = λ x0 x1 x2 x3 h. ((ok, some h.1), (h.0, h.1 + 1));
  get_prototype = λ x0 h. ((ok, some h.1), (h.0, h.1 + 1));
  create_error = λ x0 x1 h. ((ok, some h.1), (h.0, h.1 + 1));
  create_type_error = λ x0 x1 h. ((ok, some h.1), (h.0, h.1 + 1));
  create_range_error = λ x0 x1 h. ((ok, some h.1), (h.0, h.1 + 1));
  get_and_clear_last_exception = λ h. ((ok, some h.1), (h.0, h.1 + 1));
  create_symbol = λ x0 h. ((ok, some h.1), (h.0, h.1 + 1));
  create_bigint_int64 = λ x0 h. ((ok, some h.1), (h.0, h.1 + 1));
  create_bigint_uint64 = λ x0 h. ((ok, some h.1), (h.0, h.1 + 1));
  create_date = λ x0 h. ((ok, some h.1), (h.0, h.1 + 1));
  create_arraybuffer = λ x0 h. ((ok, some h.1), (h.0, h.1 + 1));
  create_typedarray = λ x0 x1 x2 x3 h. ((ok, some h.1), (h.0, h.1 + 1));
  create_dataview = λ x0 x1 x2 h. ((ok, some h.1), (h.0, h.1 + 1));
  create_external = λ x0 h. ((ok, some h.1), (h.0, h.1 + 1));
  run_script = λ x0 h. ((ok, some h.1), (runs_callback h.0, h.1 + 1));
}

abbrev reader : Reader ℕ
reader = record {
  get_value_int32 = λ x0 h. ((ok, some h.1), (h.0, h.1 + 1));
  get_value_uint32 = λ x0 h. ((ok, some h.1), (h.0, h.1 + 1));
  get_value_double = λ x0 h. ((ok, some h.1), (h.0, h.1 + 1));
  get_value_int64 = λ x0 h. ((ok, some h.1), (h.0, h.1 + 1));
  get_value_bool = λ x0 h. ((ok, true), (h.0, h.1 + 1));
  typeof = λ x0 h. ((ok, h.1), (h.0, h.1 + 1));
  is_array = λ x0 h. ((ok, true), (h.0, h.1 + 1));
  is_error = λ x0 h. ((ok, true), (h.0, h.1 + 1));
  is_arraybuffer = λ x0 h. ((ok, true), (h.0, h.1 + 1));
  is_typedarray = λ x0 h. ((ok, true), (h.0, h.1 + 1));
  is_dataview = λ x0 h. ((ok, true), (h.0, h.1 + 1));
  is_date = λ x0 h. ((ok, true), (h.0, h.1 + 1));
  is_promise = λ x0 h. ((ok, true), (h.0, h.1 + 1));
  instanceof = λ x0 x1 h. ((ok, true), (h.0, h.1 + 1));
  set_property = λ x0 x1 x2 h. (ok, (runs_callback h.0, h.1 + 1));
  has_property = λ x0 x1 h. ((ok, true), (h.0, h.1 + 1));
  has_own_property = λ x0 x1 h. ((ok, true), (h.0, h.1 + 1));
  delete_property = λ x0 x1 h. ((ok, true), (h.0, h.1 + 1));
  set_named_property = λ x0 x1 x2 h. (ok, (h.0, h.1 + 1));
  has_named_property = λ x0 x1 h. ((ok, true), (h.0, h.1 + 1));
  set_element = λ x0 x1 x2 h. (ok, (h.0, h.1 + 1));
  has_element = λ x0 x1 h. ((ok, true), (h.0, h.1 + 1));
  delete_element = λ x0 x1 h. ((ok, true), (h.0, h.1 + 1));
  get_array_length = λ x0 h. ((ok, some h.1), (h.0, h.1 + 1));
  object_freeze = λ x0 h. (ok, (h.0, h.1 + 1));
  object_seal = λ x0 h. (ok, (h.0, h.1 + 1));
  strict_equals = λ x0 x1 h. ((ok, true), (h.0, h.1 + 1));
  throw = λ x0 h. (ok, (h.0, h.1 + 1));
  throw_error = λ x0 x1 h. (ok, (h.0, h.1 + 1));
  throw_type_error = λ x0 x1 h. (ok, (h.0, h.1 + 1));
  throw_range_error = λ x0 x1 h. (ok, (h.0, h.1 + 1));
  is_exception_pending = λ h. ((ok, true), (h.0, h.1 + 1));
  get_date_value = λ x0 h. ((ok, some h.1), (h.0, h.1 + 1));
  is_sharedarraybuffer = λ x0 h. ((ok, true), (h.0, h.1 + 1));
  node_api_set_prototype = λ x0 x1 h. (ok, (h.0, h.1 + 1));
  detach_arraybuffer = λ x0 h. (ok, (h.0, h.1 + 1));
  is_detached_arraybuffer = λ x0 h. ((ok, true), (h.0, h.1 + 1));
  type_tag_object = λ x0 x1 x2 h. (ok, (h.0, h.1 + 1));
  check_object_type_tag = λ x0 x1 x2 h. ((ok, true), (h.0, h.1 + 1));
  get_value_external = λ x0 h. ((ok, h.1), (h.0, h.1 + 1));
}

one-served : Makes.is_served (view one) (Makes.run_script 4096) ≡ true
unfolding load_value
one-served = refl

abbrev engine : Refinement.Engine ℕ
engine = record { maker = maker; reader = reader }

abbrev script : Refinement.GuestCall
script = Refinement.make (Makes.run_script 4096)

script-Reenters : Refinement.Reenters engine script
script-Reenters view h = callback-Runs h.0

serve-MadeBy_example :
    Refinement.MadeBy
      (Makes.ask maker (view one) (Makes.run_script 4096) (one, 7))
      (Makes.serve maker true (Makes.run_script 4096) (one, 7))
serve-MadeBy_example =
    Refinement.serve-MadeBy engine (Makes.run_script 4096) (one, 7) script-Reenters one-IsBridge
      refl one-served

abbrev guest_calls : List Refinement.GuestCall
guest_calls =
    Refinement.make Makes.create_object
    ∷ script
    ∷ Refinement.read (Reads.set_property 4096 0 4096)
    ∷ Refinement.read (Reads.is_array 4096)
    ∷ []

guest_calls-Reenters : All (Refinement.Reenters engine) guest_calls
guest_calls-Reenters =
    (λ view h. quiet, (script-Reenters, (λ view h. callback-Runs h.0, (λ view h. quiet, tt))))

perform_all-Keeps_example : Keeps one (Refinement.perform_all engine true guest_calls (one, 7)).0
perform_all-Keeps_example =
    Refinement.perform_all-Keeps engine true guest_calls (one, 7) guest_calls-Reenters one-IsBridge
