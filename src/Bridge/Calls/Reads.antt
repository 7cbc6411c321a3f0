-- ===== src/Bridge/Calls/Reads.antt =====
-- The calls that give no value, as data, and what they come to by the values that ids name.
use napi.Prelude.{ℕ, Bool, true, ◌&&◌, ◌≡◌, Option, List, is_some}
use napi.Bridge.{require_env_state}
use napi.Bridge.Calls.{
  Answer, Call, Host, passes, reads, tests, acts, at, at_text, view, answer_of, test_of, act_of,
}
use napi.Bridge.Calls.Shapes.{
  answer_if, no_value, one_value, two_values, three_values, value_and_name, value_name_and_value,
}
use napi.Bridge.Calls.Engine.{Reader}
use napi.Bridge.Calls.Read
use napi.Bridge.Calls.Act

-- The calls, with the ids of values that they are given.
pub data ReadCall : Type 0 where
  get_value_int32 : ℕ → ReadCall
  get_value_uint32 : ℕ → ReadCall
  get_value_double : ℕ → ReadCall
  get_value_int64 : ℕ → ReadCall
  get_value_bool : ℕ → ReadCall
  typeof : ℕ → ReadCall
  is_array : ℕ → ReadCall
  is_error : ℕ → ReadCall
  is_arraybuffer : ℕ → ReadCall
  is_typedarray : ℕ → ReadCall
  is_dataview : ℕ → ReadCall
  is_date : ℕ → ReadCall
  is_promise : ℕ → ReadCall
  instanceof : ℕ → ℕ → ReadCall
  set_property : ℕ → ℕ → ℕ → ReadCall
  has_property : ℕ → ℕ → ReadCall
  has_own_property : ℕ → ℕ → ReadCall
  delete_property : ℕ → ℕ → ReadCall
  set_named_property : ℕ → Option (List ℕ) → ℕ → ReadCall
  has_named_property : ℕ → Option (List ℕ) → ReadCall
  set_element : ℕ → ℕ → ℕ → ReadCall
  has_element : ℕ → ℕ → ReadCall
  delete_element : ℕ → ℕ → ReadCall
  get_array_length : ℕ → ReadCall
  object_freeze : ℕ → ReadCall
  object_seal : ℕ → ReadCall
  strict_equals : ℕ → ℕ → ReadCall
  throw : ℕ → ReadCall
  throw_error : Option (List ℕ) → Option (List ℕ) → ReadCall
  throw_type_error : Option (List ℕ) → Option (List ℕ) → ReadCall
  throw_range_error : Option (List ℕ) → Option (List ℕ) → ReadCall
  is_exception_pending : ReadCall
  get_date_value : ℕ → ReadCall
  is_sharedarraybuffer : ℕ → ReadCall
  node_api_set_prototype : ℕ → ℕ → ReadCall
  detach_arraybuffer : ℕ → ReadCall
  is_detached_arraybuffer : ℕ → ReadCall
  type_tag_object : ℕ → ℕ → ℕ → ReadCall
  check_object_type_tag : ℕ → ℕ → ℕ → ReadCall
  get_value_external : ℕ → ReadCall

-- A call of the guest, given to its function.
pub serve : {H : Type 0} → Reader H → Bool → ReadCall → Answer H
unfolding Read.get_value_int32 Read.get_value_uint32 Read.get_value_double Read.get_value_int64
    Read.get_value_bool Read.typeof Read.is_array Read.is_error Read.is_arraybuffer
    Read.is_typedarray Read.is_dataview Read.is_date Read.is_promise Read.instanceof
    Act.set_property Act.has_property Act.has_own_property Act.delete_property
    Act.set_named_property Act.has_named_property Act.set_element Act.has_element Act.delete_element
    Act.get_array_length Act.object_freeze Act.object_seal Act.strict_equals Act.throw
    Act.throw_error Act.throw_type_error Act.throw_range_error Act.is_exception_pending
    Act.get_date_value Act.is_sharedarraybuffer Act.node_api_set_prototype Act.detach_arraybuffer
    Act.is_detached_arraybuffer Act.type_tag_object Act.check_object_type_tag Act.get_value_external
serve engine owned (get_value_int32 val_id) = Read.get_value_int32 engine owned val_id
serve engine owned (get_value_uint32 val_id) = Read.get_value_uint32 engine owned val_id
serve engine owned (get_value_double val_id) = Read.get_value_double engine owned val_id
serve engine owned (get_value_int64 val_id) = Read.get_value_int64 engine owned val_id
serve engine owned (get_value_bool val_id) = Read.get_value_bool engine owned val_id
serve engine owned (typeof val_id) = Read.typeof engine owned val_id
serve engine owned (is_array val_id) = Read.is_array engine owned val_id
serve engine owned (is_error val_id) = Read.is_error engine owned val_id
serve engine owned (is_arraybuffer val_id) = Read.is_arraybuffer engine owned val_id
serve engine owned (is_typedarray val_id) = Read.is_typedarray engine owned val_id
serve engine owned (is_dataview val_id) = Read.is_dataview engine owned val_id
serve engine owned (is_date val_id) = Read.is_date engine owned val_id
serve engine owned (is_promise val_id) = Read.is_promise engine owned val_id
serve engine owned (instanceof obj_id ctor_id) = Read.instanceof engine owned obj_id ctor_id
serve engine owned (set_property obj_id key_id val_id) =
    Act.set_property engine owned obj_id key_id val_id
serve engine owned (has_property obj_id key_id) = Act.has_property engine owned obj_id key_id
serve engine owned (has_own_property obj_id key_id) =
    Act.has_own_property engine owned obj_id key_id
serve engine owned (delete_property obj_id key_id) = Act.delete_property engine owned obj_id key_id
serve engine owned (set_named_property obj_id name val_id) =
    Act.set_named_property engine owned obj_id name val_id
serve engine owned (has_named_property obj_id name) =
    Act.has_named_property engine owned obj_id name
serve engine owned (set_element obj_id index val_id) =
    Act.set_element engine owned obj_id index val_id
serve engine owned (has_element obj_id index) = Act.has_element engine owned obj_id index
serve engine owned (delete_element obj_id index) = Act.delete_element engine owned obj_id index
serve engine owned (get_array_length arr_id) = Act.get_array_length engine owned arr_id
serve engine owned (object_freeze obj_id) = Act.object_freeze engine owned obj_id
serve engine owned (object_seal obj_id) = Act.object_seal engine owned obj_id
serve engine owned (strict_equals left_id right_id) =
    Act.strict_equals engine owned left_id right_id
serve engine owned (throw error_id) = Act.throw engine owned error_id
serve engine owned (throw_error code msg) = Act.throw_error engine owned code msg
serve engine owned (throw_type_error code msg) = Act.throw_type_error engine owned code msg
serve engine owned (throw_range_error code msg) = Act.throw_range_error engine owned code msg
serve engine owned is_exception_pending = Act.is_exception_pending engine owned
serve engine owned (get_date_value val_id) = Act.get_date_value engine owned val_id
serve engine owned (is_sharedarraybuffer val_id) = Act.is_sharedarraybuffer engine owned val_id
serve engine owned (node_api_set_prototype object_id prototype_id) =
    Act.node_api_set_prototype engine owned object_id prototype_id
serve engine owned (detach_arraybuffer val_id) = Act.detach_arraybuffer engine owned val_id
serve engine owned (is_detached_arraybuffer val_id) =
    Act.is_detached_arraybuffer engine owned val_id
serve engine owned (type_tag_object obj_id lower upper) =
    Act.type_tag_object engine owned obj_id lower upper
serve engine owned (check_object_type_tag obj_id lower upper) =
    Act.check_object_type_tag engine owned obj_id lower upper
serve engine owned (get_value_external val_id) = Act.get_value_external engine owned val_id

-- Whether the ids that a call needs name values, and its name is given.
abbrev pub is_served : (ℕ → Option ℕ) → ReadCall → Bool
is_served view (get_value_int32 val_id) = is_some (view val_id)
is_served view (get_value_uint32 val_id) = is_some (view val_id)
is_served view (get_value_double val_id) = is_some (view val_id)
is_served view (get_value_int64 val_id) = is_some (view val_id)
is_served view (get_value_bool val_id) = is_some (view val_id)
is_served view (typeof val_id) = is_some (view val_id)
is_served view (is_array val_id) = is_some (view val_id)
is_served view (is_error val_id) = is_some (view val_id)
is_served view (is_arraybuffer val_id) = is_some (view val_id)
is_served view (is_typedarray val_id) = is_some (view val_id)
is_served view (is_dataview val_id) = is_some (view val_id)
is_served view (is_date val_id) = is_some (view val_id)
is_served view (is_promise val_id) = is_some (view val_id)
is_served view (instanceof obj_id ctor_id) = is_some (view obj_id) && is_some (view ctor_id)
is_served view (set_property obj_id key_id val_id) =
    is_some (view obj_id) && is_some (view key_id) && is_some (view val_id)
is_served view (has_property obj_id key_id) = is_some (view obj_id) && is_some (view key_id)
is_served view (has_own_property obj_id key_id) = is_some (view obj_id) && is_some (view key_id)
is_served view (delete_property obj_id key_id) = is_some (view obj_id) && is_some (view key_id)
is_served view (set_named_property obj_id name val_id) =
    is_some (view obj_id) && is_some name && is_some (view val_id)
is_served view (has_named_property obj_id name) = is_some (view obj_id) && is_some name
is_served view (set_element obj_id index val_id) = is_some (view obj_id) && is_some (view val_id)
is_served view (has_element obj_id index) = is_some (view obj_id)
is_served view (delete_element obj_id index) = is_some (view obj_id)
is_served view (get_array_length arr_id) = is_some (view arr_id)
is_served view (object_freeze obj_id) = is_some (view obj_id)
is_served view (object_seal obj_id) = is_some (view obj_id)
is_served view (strict_equals left_id right_id) = is_some (view left_id) && is_some (view right_id)
is_served view (throw error_id) = is_some (view error_id)
is_served view (throw_error code msg) = true
is_served view (throw_type_error code msg) = true
is_served view (throw_range_error code msg) = true
is_served view is_exception_pending = true
is_served view (get_date_value val_id) = is_some (view val_id)
is_served view (is_sharedarraybuffer val_id) = is_some (view val_id)
is_served view (node_api_set_prototype object_id prototype_id) =
    is_some (view object_id) && is_some (view prototype_id)
is_served view (detach_arraybuffer val_id) = is_some (view val_id)
is_served view (is_detached_arraybuffer val_id) = is_some (view val_id)
is_served view (type_tag_object obj_id lower upper) = is_some (view obj_id)
is_served view (check_object_type_tag obj_id lower upper) = is_some (view obj_id)
is_served view (get_value_external val_id) = is_some (view val_id)

-- The engine's function of a call, on the values that the ids name.
abbrev pub ask : {H : Type 0} → Reader H → (ℕ → Option ℕ) → ReadCall → Call H (Option ℕ)
ask engine view (get_value_int32 val_id) = engine.get_value_int32 (at (view val_id))
ask engine view (get_value_uint32 val_id) = engine.get_value_uint32 (at (view val_id))
ask engine view (get_value_double val_id) = engine.get_value_double (at (view val_id))
ask engine view (get_value_int64 val_id) = engine.get_value_int64 (at (view val_id))
ask engine view (get_value_bool val_id) = test_of (engine.get_value_bool (at (view val_id)))
ask engine view (typeof val_id) = answer_of (engine.typeof (at (view val_id)))
ask engine view (is_array val_id) = test_of (engine.is_array (at (view val_id)))
ask engine view (is_error val_id) = test_of (engine.is_error (at (view val_id)))
ask engine view (is_arraybuffer val_id) = test_of (engine.is_arraybuffer (at (view val_id)))
ask engine view (is_typedarray val_id) = test_of (engine.is_typedarray (at (view val_id)))
ask engine view (is_dataview val_id) = test_of (engine.is_dataview (at (view val_id)))
ask engine view (is_date val_id) = test_of (engine.is_date (at (view val_id)))
ask engine view (is_promise val_id) = test_of (engine.is_promise (at (view val_id)))
ask engine view (instanceof obj_id ctor_id) =
    test_of (engine.instanceof (at (view obj_id)) (at (view ctor_id)))
ask engine view (set_property obj_id key_id val_id) =
    act_of (engine.set_property (at (view obj_id)) (at (view key_id)) (at (view val_id)))
ask engine view (has_property obj_id key_id) =
    test_of (engine.has_property (at (view obj_id)) (at (view key_id)))
ask engine view (has_own_property obj_id key_id) =
    test_of (engine.has_own_property (at (view obj_id)) (at (view key_id)))
ask engine view (delete_property obj_id key_id) =
    test_of (engine.delete_property (at (view obj_id)) (at (view key_id)))
ask engine view (set_named_property obj_id name val_id) =
    act_of (engine.set_named_property (at (view obj_id)) (at_text name) (at (view val_id)))
ask engine view (has_named_property obj_id name) =
    test_of (engine.has_named_property (at (view obj_id)) (at_text name))
ask engine view (set_element obj_id index val_id) =
    act_of (engine.set_element (at (view obj_id)) index (at (view val_id)))
ask engine view (has_element obj_id index) = test_of (engine.has_element (at (view obj_id)) index)
ask engine view (delete_element obj_id index) =
    test_of (engine.delete_element (at (view obj_id)) index)
ask engine view (get_array_length arr_id) = engine.get_array_length (at (view arr_id))
ask engine view (object_freeze obj_id) = act_of (engine.object_freeze (at (view obj_id)))
ask engine view (object_seal obj_id) = act_of (engine.object_seal (at (view obj_id)))
ask engine view (strict_equals left_id right_id) =
    test_of (engine.strict_equals (at (view left_id)) (at (view right_id)))
ask engine view (throw error_id) = act_of (engine.throw (at (view error_id)))
ask engine view (throw_error code msg) = act_of (engine.throw_error code msg)
ask engine view (throw_type_error code msg) = act_of (engine.throw_type_error code msg)
ask engine view (throw_range_error code msg) = act_of (engine.throw_range_error code msg)
ask engine view is_exception_pending = test_of engine.is_exception_pending
ask engine view (get_date_value val_id) = engine.get_date_value (at (view val_id))
ask engine view (is_sharedarraybuffer val_id) =
    test_of (engine.is_sharedarraybuffer (at (view val_id)))
ask engine view (node_api_set_prototype object_id prototype_id) =
    act_of (engine.node_api_set_prototype (at (view object_id)) (at (view prototype_id)))
ask engine view (detach_arraybuffer val_id) = act_of (engine.detach_arraybuffer (at (view val_id)))
ask engine view (is_detached_arraybuffer val_id) =
    test_of (engine.is_detached_arraybuffer (at (view val_id)))
ask engine view (type_tag_object obj_id lower upper) =
    act_of (engine.type_tag_object (at (view obj_id)) lower upper)
ask engine view (check_object_type_tag obj_id lower upper) =
    test_of (engine.check_object_type_tag (at (view obj_id)) lower upper)
ask engine view (get_value_external val_id) =
    answer_of (engine.get_value_external (at (view val_id)))

-- Without an env, without a value that the call needs or without its name, a call is `invalid_arg`
-- and changes nothing, the engine's state neither. Otherwise it is the engine's function on the
-- values that the ids name.
pub serve-passes :
    {H : Type 0} (engine : Reader H) (owned : Bool) (call : ReadCall) (h : Host H)
    → serve engine owned call h
      ≡ answer_if
          (require_env_state owned h.0 && is_served (view h.0) call)
          (passes (ask engine (view h.0) call))
          h
unfolding serve reads tests acts
serve-passes engine owned (get_value_int32 val_id) h =
    one_value owned val_id (λ val. passes (engine.get_value_int32 val)) h
serve-passes engine owned (get_value_uint32 val_id) h =
    one_value owned val_id (λ val. passes (engine.get_value_uint32 val)) h
serve-passes engine owned (get_value_double val_id) h =
    one_value owned val_id (λ val. passes (engine.get_value_double val)) h
serve-passes engine owned (get_value_int64 val_id) h =
    one_value owned val_id (λ val. passes (engine.get_value_int64 val)) h
serve-passes engine owned (get_value_bool val_id) h =
    one_value owned val_id (λ val. tests (engine.get_value_bool val)) h
serve-passes engine owned (typeof val_id) h =
    one_value owned val_id (λ val. reads (engine.typeof val)) h
serve-passes engine owned (is_array val_id) h =
    one_value owned val_id (λ val. tests (engine.is_array val)) h
serve-passes engine owned (is_error val_id) h =
    one_value owned val_id (λ val. tests (engine.is_error val)) h
serve-passes engine owned (is_arraybuffer val_id) h =
    one_value owned val_id (λ val. tests (engine.is_arraybuffer val)) h
serve-passes engine owned (is_typedarray val_id) h =
    one_value owned val_id (λ val. tests (engine.is_typedarray val)) h
serve-passes engine owned (is_dataview val_id) h =
    one_value owned val_id (λ val. tests (engine.is_dataview val)) h
serve-passes engine owned (is_date val_id) h =
    one_value owned val_id (λ val. tests (engine.is_date val)) h
serve-passes engine owned (is_promise val_id) h =
    one_value owned val_id (λ val. tests (engine.is_promise val)) h
serve-passes engine owned (instanceof obj_id ctor_id) h =
    two_values owned obj_id ctor_id (λ obj. λ ctor. tests (engine.instanceof obj ctor)) h
serve-passes engine owned (set_property obj_id key_id val_id) h =
    three_values owned obj_id key_id val_id
      (λ obj. λ key. λ val. acts (engine.set_property obj key val)) h
serve-passes engine owned (has_property obj_id key_id) h =
    two_values owned obj_id key_id (λ obj. λ key. tests (engine.has_property obj key)) h
serve-passes engine owned (has_own_property obj_id key_id) h =
    two_values owned obj_id key_id (λ obj. λ key. tests (engine.has_own_property obj key)) h
serve-passes engine owned (delete_property obj_id key_id) h =
    two_values owned obj_id key_id (λ obj. λ key. tests (engine.delete_property obj key)) h
serve-passes engine owned (set_named_property obj_id name val_id) h =
    value_name_and_value owned obj_id name val_id
      (λ obj. λ name1. λ val. acts (engine.set_named_property obj name1 val)) h
serve-passes engine owned (has_named_property obj_id name) h =
    value_and_name owned obj_id name (λ obj. λ name1. tests (engine.has_named_property obj name1)) h
serve-passes engine owned (set_element obj_id index val_id) h =
    two_values owned obj_id val_id (λ obj. λ val. acts (engine.set_element obj index val)) h
serve-passes engine owned (has_element obj_id index) h =
    one_value owned obj_id (λ obj. tests (engine.has_element obj index)) h
serve-passes engine owned (delete_element obj_id index) h =
    one_value owned obj_id (λ obj. tests (engine.delete_element obj index)) h
serve-passes engine owned (get_array_length arr_id) h =
    one_value owned arr_id (λ arr. passes (engine.get_array_length arr)) h
serve-passes engine owned (object_freeze obj_id) h =
    one_value owned obj_id (λ obj. acts (engine.object_freeze obj)) h
serve-passes engine owned (object_seal obj_id) h =
    one_value owned obj_id (λ obj. acts (engine.object_seal obj)) h
serve-passes engine owned (strict_equals left_id right_id) h =
    two_values owned left_id right_id (λ left. λ right. tests (engine.strict_equals left right)) h
serve-passes engine owned (throw error_id) h =
    one_value owned error_id (λ error. acts (engine.throw error)) h
serve-passes engine owned (throw_error code msg) h =
    no_value owned (acts (engine.throw_error code msg)) h
serve-passes engine owned (throw_type_error code msg) h =
    no_value owned (acts (engine.throw_type_error code msg)) h
serve-passes engine owned (throw_range_error code msg) h =
    no_value owned (acts (engine.throw_range_error code msg)) h
serve-passes engine owned is_exception_pending h =
    no_value owned (tests engine.is_exception_pending) h
serve-passes engine owned (get_date_value val_id) h =
    one_value owned val_id (λ val. passes (engine.get_date_value val)) h
serve-passes engine owned (is_sharedarraybuffer val_id) h =
    one_value owned val_id (λ val. tests (engine.is_sharedarraybuffer val)) h
serve-passes engine owned (node_api_set_prototype object_id prototype_id) h =
    two_values owned object_id prototype_id
      (λ object. λ prototype. acts (engine.node_api_set_prototype object prototype)) h
serve-passes engine owned (detach_arraybuffer val_id) h =
    one_value owned val_id (λ val. acts (engine.detach_arraybuffer val)) h
serve-passes engine owned (is_detached_arraybuffer val_id) h =
    one_value owned val_id (λ val. tests (engine.is_detached_arraybuffer val)) h
serve-passes engine owned (type_tag_object obj_id lower upper) h =
    one_value owned obj_id (λ obj. acts (engine.type_tag_object obj lower upper)) h
serve-passes engine owned (check_object_type_tag obj_id lower upper) h =
    one_value owned obj_id (λ obj. tests (engine.check_object_type_tag obj lower upper)) h
serve-passes engine owned (get_value_external val_id) h =
    one_value owned val_id (λ val. reads (engine.get_value_external val)) h
