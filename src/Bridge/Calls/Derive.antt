-- ===== src/Bridge/Calls/Derive.antt =====
-- The calls of the bridge that take a value from an object, or make an error, a symbol, a bigint
-- or a date.
use napi.Prelude.{ℕ, Bool, Option, List}
use napi.Bridge.Calls.{Answer, guarded, loaded, given, maybe_loaded, makes}
use napi.Bridge.Calls.Engine.{Maker}

-- snapi_bridge_get_property
unfoldable pub get_property : {H : Type 0} → Maker H → Bool → ℕ → ℕ → Answer H
unfolding guarded loaded makes
get_property engine owned obj_id key_id =
    guarded owned
      (loaded obj_id (λ obj. loaded key_id (λ key. makes (engine.get_property obj key))))

-- snapi_bridge_get_named_property
unfoldable pub get_named_property : {H : Type 0} → Maker H → Bool → ℕ → Option (List ℕ) → Answer H
unfolding guarded loaded given makes
get_named_property engine owned obj_id name =
    guarded owned
      (loaded obj_id (λ obj. given name (λ text. makes (engine.get_named_property obj text))))

-- snapi_bridge_get_element
unfoldable pub get_element : {H : Type 0} → Maker H → Bool → ℕ → ℕ → Answer H
unfolding guarded loaded makes
get_element engine owned obj_id index =
    guarded owned (loaded obj_id (λ obj. makes (engine.get_element obj index)))

-- snapi_bridge_get_property_names
unfoldable pub get_property_names : {H : Type 0} → Maker H → Bool → ℕ → Answer H
unfolding guarded loaded makes
get_property_names engine owned obj_id =
    guarded owned (loaded obj_id (λ obj. makes (engine.get_property_names obj)))

-- snapi_bridge_get_all_property_names
unfoldable pub get_all_property_names : {H : Type 0} → Maker H → Bool → ℕ → ℕ → ℕ → ℕ → Answer H
unfolding guarded loaded makes
get_all_property_names engine owned obj_id mode filter conversion =
    guarded owned
      (loaded obj_id (λ obj. makes (engine.get_all_property_names obj mode filter conversion)))

-- snapi_bridge_get_prototype
unfoldable pub get_prototype : {H : Type 0} → Maker H → Bool → ℕ → Answer H
unfolding guarded loaded makes
get_prototype engine owned obj_id =
    guarded owned (loaded obj_id (λ obj. makes (engine.get_prototype obj)))

-- snapi_bridge_create_error
unfoldable pub create_error : {H : Type 0} → Maker H → Bool → ℕ → ℕ → Answer H
unfolding guarded loaded maybe_loaded makes
create_error engine owned code_id msg_id =
    guarded owned
      (maybe_loaded code_id (λ code. loaded msg_id (λ msg. makes (engine.create_error code msg))))

-- snapi_bridge_create_type_error
unfoldable pub create_type_error : {H : Type 0} → Maker H → Bool → ℕ → ℕ → Answer H
unfolding guarded loaded maybe_loaded makes
create_type_error engine owned code_id msg_id = guarded owned (
    maybe_loaded code_id (λ code. loaded msg_id (λ msg. makes (engine.create_type_error code msg))))

-- snapi_bridge_create_range_error
unfoldable pub create_range_error : {H : Type 0} → Maker H → Bool → ℕ → ℕ → Answer H
unfolding guarded loaded maybe_loaded makes
create_range_error engine owned code_id msg_id = guarded owned (
    maybe_loaded code_id
      (λ code. loaded msg_id (λ msg. makes (engine.create_range_error code msg))))

-- snapi_bridge_get_and_clear_last_exception
unfoldable pub get_and_clear_last_exception : {H : Type 0} → Maker H → Bool → Answer H
unfolding guarded makes
get_and_clear_last_exception engine owned =
    guarded owned (makes engine.get_and_clear_last_exception)

-- snapi_bridge_create_symbol
unfoldable pub create_symbol : {H : Type 0} → Maker H → Bool → ℕ → Answer H
unfolding guarded maybe_loaded makes
create_symbol engine owned description_id =
    guarded owned
      (maybe_loaded description_id (λ description. makes (engine.create_symbol description)))

-- snapi_bridge_create_bigint_int64
unfoldable pub create_bigint_int64 : {H : Type 0} → Maker H → Bool → ℕ → Answer H
unfolding guarded makes
create_bigint_int64 engine owned value = guarded owned (makes (engine.create_bigint_int64 value))

-- snapi_bridge_create_bigint_uint64
unfoldable pub create_bigint_uint64 : {H : Type 0} → Maker H → Bool → ℕ → Answer H
unfolding guarded makes
create_bigint_uint64 engine owned value = guarded owned (makes (engine.create_bigint_uint64 value))

-- snapi_bridge_create_date
unfoldable pub create_date : {H : Type 0} → Maker H → Bool → ℕ → Answer H
unfolding guarded makes
create_date engine owned time = guarded owned (makes (engine.create_date time))

-- snapi_bridge_create_arraybuffer
unfoldable pub create_arraybuffer : {H : Type 0} → Maker H → Bool → ℕ → Answer H
unfolding guarded makes
create_arraybuffer engine owned byte_length =
    guarded owned (makes (engine.create_arraybuffer byte_length))

-- snapi_bridge_create_typedarray
unfoldable pub create_typedarray : {H : Type 0} → Maker H → Bool → ℕ → ℕ → ℕ → ℕ → Answer H
unfolding guarded loaded makes
create_typedarray engine owned kind size arraybuffer_id byte_offset = guarded owned (
    loaded arraybuffer_id
      (λ arraybuffer. makes (engine.create_typedarray kind size arraybuffer byte_offset)))

-- snapi_bridge_create_dataview
unfoldable pub create_dataview : {H : Type 0} → Maker H → Bool → ℕ → ℕ → ℕ → Answer H
unfolding guarded loaded makes
create_dataview engine owned byte_length arraybuffer_id byte_offset = guarded owned (
    loaded arraybuffer_id
      (λ arraybuffer. makes (engine.create_dataview byte_length arraybuffer byte_offset)))

-- snapi_bridge_create_external
unfoldable pub create_external : {H : Type 0} → Maker H → Bool → ℕ → Answer H
unfolding guarded makes
create_external engine owned data_val = guarded owned (makes (engine.create_external data_val))

-- snapi_bridge_run_script
unfoldable pub run_script : {H : Type 0} → Maker H → Bool → ℕ → Answer H
unfolding guarded loaded makes
run_script engine owned script_id =
    guarded owned (loaded script_id (λ script. makes (engine.run_script script)))
