-- ===== src/Bridge/Calls/Makes.antt =====
-- The calls that make a value, as data, and what they come to by the values that ids name.
use napi.Prelude.{ℕ, Bool, true, not, ◌==◌, ◌&&◌, ◌≡◌, Option, List, is_some}
use napi.Bridge.{require_env_state}
use napi.Bridge.Calls.{Answer, Call, Host, auto_length, makes, at, at_text, view}
use napi.Bridge.Calls.Shapes.{
  answer_if, no_value, one_value, maybe_value, maybe_and_value, two_values, value_and_name,
}
use napi.Bridge.Calls.Engine.{Maker}
use napi.Bridge.Calls.Make
use napi.Bridge.Calls.Derive

-- The calls, with the ids of values that they are given.
pub data MakeCall : Type 0 where
  get_undefined : MakeCall
  get_null : MakeCall
  get_boolean : ℕ → MakeCall
  get_global : MakeCall
  create_string_utf8 : Option (List ℕ) → ℕ → MakeCall
  create_string_latin1 : Option (List ℕ) → ℕ → MakeCall
  create_int32 : ℕ → MakeCall
  create_uint32 : ℕ → MakeCall
  create_double : ℕ → MakeCall
  create_int64 : ℕ → MakeCall
  create_object : MakeCall
  create_array : MakeCall
  create_array_with_length : ℕ → MakeCall
  coerce_to_bool : ℕ → MakeCall
  coerce_to_number : ℕ → MakeCall
  coerce_to_string : ℕ → MakeCall
  coerce_to_object : ℕ → MakeCall
  get_property : ℕ → ℕ → MakeCall
  get_named_property : ℕ → Option (List ℕ) → MakeCall
  get_element : ℕ → ℕ → MakeCall
  get_property_names : ℕ → MakeCall
  get_all_property_names : ℕ → ℕ → ℕ → ℕ → MakeCall
  get_prototype : ℕ → MakeCall
  create_error : ℕ → ℕ → MakeCall
  create_type_error : ℕ → ℕ → MakeCall
  create_range_error : ℕ → ℕ → MakeCall
  get_and_clear_last_exception : MakeCall
  create_symbol : ℕ → MakeCall
  create_bigint_int64 : ℕ → MakeCall
  create_bigint_uint64 : ℕ → MakeCall
  create_date : ℕ → MakeCall
  create_arraybuffer : ℕ → MakeCall
  create_typedarray : ℕ → ℕ → ℕ → ℕ → MakeCall
  create_dataview : ℕ → ℕ → ℕ → MakeCall
  create_external : ℕ → MakeCall
  run_script : ℕ → MakeCall

-- A call of the guest, given to its function.
pub serve : {H : Type 0} → Maker H → Bool → MakeCall → Answer H
unfolding Make.get_undefined Make.get_null Make.get_boolean Make.get_global Make.create_string_utf8
    Make.create_string_latin1 Make.create_int32 Make.create_uint32 Make.create_double
    Make.create_int64 Make.create_object Make.create_array Make.create_array_with_length
    Make.coerce_to_bool Make.coerce_to_number Make.coerce_to_string Make.coerce_to_object
    Derive.get_property Derive.get_named_property Derive.get_element Derive.get_property_names
    Derive.get_all_property_names Derive.get_prototype Derive.create_error Derive.create_type_error
    Derive.create_range_error Derive.get_and_clear_last_exception Derive.create_symbol
    Derive.create_bigint_int64 Derive.create_bigint_uint64 Derive.create_date
    Derive.create_arraybuffer Derive.create_typedarray Derive.create_dataview Derive.create_external
    Derive.run_script
serve engine owned get_undefined = Make.get_undefined engine owned
serve engine owned get_null = Make.get_null engine owned
serve engine owned (get_boolean value) = Make.get_boolean engine owned value
serve engine owned get_global = Make.get_global engine owned
serve engine owned (create_string_utf8 str wasm_length) =
    Make.create_string_utf8 engine owned str wasm_length
serve engine owned (create_string_latin1 str wasm_length) =
    Make.create_string_latin1 engine owned str wasm_length
serve engine owned (create_int32 value) = Make.create_int32 engine owned value
serve engine owned (create_uint32 value) = Make.create_uint32 engine owned value
serve engine owned (create_double value) = Make.create_double engine owned value
serve engine owned (create_int64 value) = Make.create_int64 engine owned value
serve engine owned create_object = Make.create_object engine owned
serve engine owned create_array = Make.create_array engine owned
serve engine owned (create_array_with_length size) = Make.create_array_with_length engine owned size
serve engine owned (coerce_to_bool id) = Make.coerce_to_bool engine owned id
serve engine owned (coerce_to_number id) = Make.coerce_to_number engine owned id
serve engine owned (coerce_to_string id) = Make.coerce_to_string engine owned id
serve engine owned (coerce_to_object id) = Make.coerce_to_object engine owned id
serve engine owned (get_property obj_id key_id) = Derive.get_property engine owned obj_id key_id
serve engine owned (get_named_property obj_id name) =
    Derive.get_named_property engine owned obj_id name
serve engine owned (get_element obj_id index) = Derive.get_element engine owned obj_id index
serve engine owned (get_property_names obj_id) = Derive.get_property_names engine owned obj_id
serve engine owned (get_all_property_names obj_id mode filter conversion) =
    Derive.get_all_property_names engine owned obj_id mode filter conversion
serve engine owned (get_prototype obj_id) = Derive.get_prototype engine owned obj_id
serve engine owned (create_error code_id msg_id) = Derive.create_error engine owned code_id msg_id
serve engine owned (create_type_error code_id msg_id) =
    Derive.create_type_error engine owned code_id msg_id
serve engine owned (create_range_error code_id msg_id) =
    Derive.create_range_error engine owned code_id msg_id
serve engine owned get_and_clear_last_exception = Derive.get_and_clear_last_exception engine owned
serve engine owned (create_symbol description_id) = Derive.create_symbol engine owned description_id
serve engine owned (create_bigint_int64 value) = Derive.create_bigint_int64 engine owned value
serve engine owned (create_bigint_uint64 value) = Derive.create_bigint_uint64 engine owned value
serve engine owned (create_date time) = Derive.create_date engine owned time
serve engine owned (create_arraybuffer byte_length) =
    Derive.create_arraybuffer engine owned byte_length
serve engine owned (create_typedarray kind size arraybuffer_id byte_offset) =
    Derive.create_typedarray engine owned kind size arraybuffer_id byte_offset
serve engine owned (create_dataview byte_length arraybuffer_id byte_offset) =
    Derive.create_dataview engine owned byte_length arraybuffer_id byte_offset
serve engine owned (create_external data_val) = Derive.create_external engine owned data_val
serve engine owned (run_script script_id) = Derive.run_script engine owned script_id

-- Whether the ids that a call needs name values, and its name is given.
abbrev pub is_served : (ℕ → Option ℕ) → MakeCall → Bool
is_served view get_undefined = true
is_served view get_null = true
is_served view (get_boolean value) = true
is_served view get_global = true
is_served view (create_string_utf8 str wasm_length) = true
is_served view (create_string_latin1 str wasm_length) = true
is_served view (create_int32 value) = true
is_served view (create_uint32 value) = true
is_served view (create_double value) = true
is_served view (create_int64 value) = true
is_served view create_object = true
is_served view create_array = true
is_served view (create_array_with_length size) = true
is_served view (coerce_to_bool id) = is_some (view id)
is_served view (coerce_to_number id) = is_some (view id)
is_served view (coerce_to_string id) = is_some (view id)
is_served view (coerce_to_object id) = is_some (view id)
is_served view (get_property obj_id key_id) = is_some (view obj_id) && is_some (view key_id)
is_served view (get_named_property obj_id name) = is_some (view obj_id) && is_some name
is_served view (get_element obj_id index) = is_some (view obj_id)
is_served view (get_property_names obj_id) = is_some (view obj_id)
is_served view (get_all_property_names obj_id mode filter conversion) = is_some (view obj_id)
is_served view (get_prototype obj_id) = is_some (view obj_id)
is_served view (create_error code_id msg_id) = is_some (view msg_id)
is_served view (create_type_error code_id msg_id) = is_some (view msg_id)
is_served view (create_range_error code_id msg_id) = is_some (view msg_id)
is_served view get_and_clear_last_exception = true
is_served view (create_symbol description_id) = true
is_served view (create_bigint_int64 value) = true
is_served view (create_bigint_uint64 value) = true
is_served view (create_date time) = true
is_served view (create_arraybuffer byte_length) = true
is_served view (create_typedarray kind size arraybuffer_id byte_offset) =
    is_some (view arraybuffer_id)
is_served view (create_dataview byte_length arraybuffer_id byte_offset) =
    is_some (view arraybuffer_id)
is_served view (create_external data_val) = true
is_served view (run_script script_id) = is_some (view script_id)

-- The engine's function of a call, on the values that the ids name.
abbrev pub ask : {H : Type 0} → Maker H → (ℕ → Option ℕ) → MakeCall → Call H (Option ℕ)
ask engine view get_undefined = engine.get_undefined
ask engine view get_null = engine.get_null
ask engine view (get_boolean value) = engine.get_boolean (not (value == 0))
ask engine view get_global = engine.get_global
ask engine view (create_string_utf8 str wasm_length) =
    engine.create_string_utf8 str (auto_length wasm_length)
ask engine view (create_string_latin1 str wasm_length) =
    engine.create_string_latin1 str (auto_length wasm_length)
ask engine view (create_int32 value) = engine.create_int32 value
ask engine view (create_uint32 value) = engine.create_uint32 value
ask engine view (create_double value) = engine.create_double value
ask engine view (create_int64 value) = engine.create_int64 value
ask engine view create_object = engine.create_object
ask engine view create_array = engine.create_array
ask engine view (create_array_with_length size) = engine.create_array_with_length size
ask engine view (coerce_to_bool id) = engine.coerce_to_bool (at (view id))
ask engine view (coerce_to_number id) = engine.coerce_to_number (at (view id))
ask engine view (coerce_to_string id) = engine.coerce_to_string (at (view id))
ask engine view (coerce_to_object id) = engine.coerce_to_object (at (view id))
ask engine view (get_property obj_id key_id) =
    engine.get_property (at (view obj_id)) (at (view key_id))
ask engine view (get_named_property obj_id name) =
    engine.get_named_property (at (view obj_id)) (at_text name)
ask engine view (get_element obj_id index) = engine.get_element (at (view obj_id)) index
ask engine view (get_property_names obj_id) = engine.get_property_names (at (view obj_id))
ask engine view (get_all_property_names obj_id mode filter conversion) =
    engine.get_all_property_names (at (view obj_id)) mode filter conversion
ask engine view (get_prototype obj_id) = engine.get_prototype (at (view obj_id))
ask engine view (create_error code_id msg_id) =
    engine.create_error (view code_id) (at (view msg_id))
ask engine view (create_type_error code_id msg_id) =
    engine.create_type_error (view code_id) (at (view msg_id))
ask engine view (create_range_error code_id msg_id) =
    engine.create_range_error (view code_id) (at (view msg_id))
ask engine view get_and_clear_last_exception = engine.get_and_clear_last_exception
ask engine view (create_symbol description_id) = engine.create_symbol (view description_id)
ask engine view (create_bigint_int64 value) = engine.create_bigint_int64 value
ask engine view (create_bigint_uint64 value) = engine.create_bigint_uint64 value
ask engine view (create_date time) = engine.create_date time
ask engine view (create_arraybuffer byte_length) = engine.create_arraybuffer byte_length
ask engine view (create_typedarray kind size arraybuffer_id byte_offset) =
    engine.create_typedarray kind size (at (view arraybuffer_id)) byte_offset
ask engine view (create_dataview byte_length arraybuffer_id byte_offset) =
    engine.create_dataview byte_length (at (view arraybuffer_id)) byte_offset
ask engine view (create_external data_val) = engine.create_external data_val
ask engine view (run_script script_id) = engine.run_script (at (view script_id))

-- Without an env, without a value that the call needs or without its name, a call is `invalid_arg`
-- and changes nothing, the engine's state neither. Otherwise it is the engine's function on the
-- values that the ids name, and its value is stored.
pub serve_lem :
    {H : Type 0} (engine : Maker H) (owned : Bool) (call : MakeCall) (h : Host H)
    → serve engine owned call h
      ≡ answer_if
          (require_env_state owned h.0 && is_served (view h.0) call)
          (makes (ask engine (view h.0) call))
          h
unfolding serve
serve_lem engine owned get_undefined h = no_value owned (makes engine.get_undefined) h
serve_lem engine owned get_null h = no_value owned (makes engine.get_null) h
serve_lem engine owned (get_boolean value) h =
    no_value owned (makes (engine.get_boolean (not (value == 0)))) h
serve_lem engine owned get_global h = no_value owned (makes engine.get_global) h
serve_lem engine owned (create_string_utf8 str wasm_length) h =
    no_value owned (makes (engine.create_string_utf8 str (auto_length wasm_length))) h
serve_lem engine owned (create_string_latin1 str wasm_length) h =
    no_value owned (makes (engine.create_string_latin1 str (auto_length wasm_length))) h
serve_lem engine owned (create_int32 value) h = no_value owned (makes (engine.create_int32 value)) h
serve_lem engine owned (create_uint32 value) h =
    no_value owned (makes (engine.create_uint32 value)) h
serve_lem engine owned (create_double value) h =
    no_value owned (makes (engine.create_double value)) h
serve_lem engine owned (create_int64 value) h = no_value owned (makes (engine.create_int64 value)) h
serve_lem engine owned create_object h = no_value owned (makes engine.create_object) h
serve_lem engine owned create_array h = no_value owned (makes engine.create_array) h
serve_lem engine owned (create_array_with_length size) h =
    no_value owned (makes (engine.create_array_with_length size)) h
serve_lem engine owned (coerce_to_bool id) h =
    one_value owned id (λ val. makes (engine.coerce_to_bool val)) h
serve_lem engine owned (coerce_to_number id) h =
    one_value owned id (λ val. makes (engine.coerce_to_number val)) h
serve_lem engine owned (coerce_to_string id) h =
    one_value owned id (λ val. makes (engine.coerce_to_string val)) h
serve_lem engine owned (coerce_to_object id) h =
    one_value owned id (λ val. makes (engine.coerce_to_object val)) h
serve_lem engine owned (get_property obj_id key_id) h =
    two_values owned obj_id key_id (λ obj. λ key. makes (engine.get_property obj key)) h
serve_lem engine owned (get_named_property obj_id name) h =
    value_and_name owned obj_id name (λ obj. λ name1. makes (engine.get_named_property obj name1)) h
serve_lem engine owned (get_element obj_id index) h =
    one_value owned obj_id (λ obj. makes (engine.get_element obj index)) h
serve_lem engine owned (get_property_names obj_id) h =
    one_value owned obj_id (λ obj. makes (engine.get_property_names obj)) h
serve_lem engine owned (get_all_property_names obj_id mode filter conversion) h =
    one_value owned obj_id (λ obj. makes (engine.get_all_property_names obj mode filter conversion))
      h
serve_lem engine owned (get_prototype obj_id) h =
    one_value owned obj_id (λ obj. makes (engine.get_prototype obj)) h
serve_lem engine owned (create_error code_id msg_id) h =
    maybe_and_value owned code_id msg_id (λ code. λ msg. makes (engine.create_error code msg)) h
serve_lem engine owned (create_type_error code_id msg_id) h =
    maybe_and_value owned code_id msg_id (λ code. λ msg. makes (engine.create_type_error code msg))
      h
serve_lem engine owned (create_range_error code_id msg_id) h =
    maybe_and_value owned code_id msg_id (λ code. λ msg. makes (engine.create_range_error code msg))
      h
serve_lem engine owned get_and_clear_last_exception h =
    no_value owned (makes engine.get_and_clear_last_exception) h
serve_lem engine owned (create_symbol description_id) h =
    maybe_value owned description_id (λ description. makes (engine.create_symbol description)) h
serve_lem engine owned (create_bigint_int64 value) h =
    no_value owned (makes (engine.create_bigint_int64 value)) h
serve_lem engine owned (create_bigint_uint64 value) h =
    no_value owned (makes (engine.create_bigint_uint64 value)) h
serve_lem engine owned (create_date time) h = no_value owned (makes (engine.create_date time)) h
serve_lem engine owned (create_arraybuffer byte_length) h =
    no_value owned (makes (engine.create_arraybuffer byte_length)) h
serve_lem engine owned (create_typedarray kind size arraybuffer_id byte_offset) h =
    one_value owned arraybuffer_id
      (λ arraybuffer. makes (engine.create_typedarray kind size arraybuffer byte_offset)) h
serve_lem engine owned (create_dataview byte_length arraybuffer_id byte_offset) h =
    one_value owned arraybuffer_id
      (λ arraybuffer. makes (engine.create_dataview byte_length arraybuffer byte_offset)) h
serve_lem engine owned (create_external data_val) h =
    no_value owned (makes (engine.create_external data_val)) h
serve_lem engine owned (run_script script_id) h =
    one_value owned script_id (λ script. makes (engine.run_script script)) h
