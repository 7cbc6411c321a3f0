-- ===== src/Bridge/Calls/Engine.antt =====
-- What the bridge asks of the engine: the N-API functions of include/js_native_api.h, parameters of
-- the calls of the bridge. `H` is the engine's own state, which they change and the bridge with it,
-- for JavaScript that they run calls the guest. Numbers are the bits of the source's.
use napi.Prelude.{ℕ, Bool, Option, List}
use napi.Bridge.{Status}
use napi.Bridge.Calls.{Host, Call}

-- The functions that give a value; null is `none`.
pub record Maker (H : Type 0) : Type 0 where
  pub get_undefined : Call H (Option ℕ)
  pub get_null : Call H (Option ℕ)
  pub get_boolean : Bool → Call H (Option ℕ)
  pub get_global : Call H (Option ℕ)
  pub create_string_utf8 : Option (List ℕ) → Option ℕ → Call H (Option ℕ)
  pub create_string_latin1 : Option (List ℕ) → Option ℕ → Call H (Option ℕ)
  pub create_int32 : ℕ → Call H (Option ℕ)
  pub create_uint32 : ℕ → Call H (Option ℕ)
  pub create_double : ℕ → Call H (Option ℕ)
  pub create_int64 : ℕ → Call H (Option ℕ)
  pub create_object : Call H (Option ℕ)
  pub create_array : Call H (Option ℕ)
  pub create_array_with_length : ℕ → Call H (Option ℕ)
  pub coerce_to_bool : ℕ → Call H (Option ℕ)
  pub coerce_to_number : ℕ → Call H (Option ℕ)
  pub coerce_to_string : ℕ → Call H (Option ℕ)
  pub coerce_to_object : ℕ → Call H (Option ℕ)
  pub get_property : ℕ → ℕ → Call H (Option ℕ)
  pub get_named_property : ℕ → List ℕ → Call H (Option ℕ)
  pub get_element : ℕ → ℕ → Call H (Option ℕ)
  pub get_property_names : ℕ → Call H (Option ℕ)
  pub get_all_property_names : ℕ → ℕ → ℕ → ℕ → Call H (Option ℕ)
  pub get_prototype : ℕ → Call H (Option ℕ)
  pub create_error : Option ℕ → ℕ → Call H (Option ℕ)
  pub create_type_error : Option ℕ → ℕ → Call H (Option ℕ)
  pub create_range_error : Option ℕ → ℕ → Call H (Option ℕ)
  pub get_and_clear_last_exception : Call H (Option ℕ)
  pub create_symbol : Option ℕ → Call H (Option ℕ)
  pub create_bigint_int64 : ℕ → Call H (Option ℕ)
  pub create_bigint_uint64 : ℕ → Call H (Option ℕ)
  pub create_date : ℕ → Call H (Option ℕ)
  pub create_arraybuffer : ℕ → Call H (Option ℕ)
  pub create_typedarray : ℕ → ℕ → ℕ → ℕ → Call H (Option ℕ)
  pub create_dataview : ℕ → ℕ → ℕ → Call H (Option ℕ)
  pub create_external : ℕ → Call H (Option ℕ)
  pub run_script : ℕ → Call H (Option ℕ)

-- The functions that give a number, a test or a status only.
pub record Reader (H : Type 0) : Type 0 where
  pub get_value_int32 : ℕ → Call H (Option ℕ)
  pub get_value_uint32 : ℕ → Call H (Option ℕ)
  pub get_value_double : ℕ → Call H (Option ℕ)
  pub get_value_int64 : ℕ → Call H (Option ℕ)
  pub get_value_bool : ℕ → Call H Bool
  pub typeof : ℕ → Call H ℕ
  pub is_array : ℕ → Call H Bool
  pub is_error : ℕ → Call H Bool
  pub is_arraybuffer : ℕ → Call H Bool
  pub is_typedarray : ℕ → Call H Bool
  pub is_dataview : ℕ → Call H Bool
  pub is_date : ℕ → Call H Bool
  pub is_promise : ℕ → Call H Bool
  pub instanceof : ℕ → ℕ → Call H Bool
  pub set_property : ℕ → ℕ → ℕ → (Host H → Status × Host H)
  pub has_property : ℕ → ℕ → Call H Bool
  pub has_own_property : ℕ → ℕ → Call H Bool
  pub delete_property : ℕ → ℕ → Call H Bool
  pub set_named_property : ℕ → List ℕ → ℕ → (Host H → Status × Host H)
  pub has_named_property : ℕ → List ℕ → Call H Bool
  pub set_element : ℕ → ℕ → ℕ → (Host H → Status × Host H)
  pub has_element : ℕ → ℕ → Call H Bool
  pub delete_element : ℕ → ℕ → Call H Bool
  pub get_array_length : ℕ → Call H (Option ℕ)
  pub object_freeze : ℕ → (Host H → Status × Host H)
  pub object_seal : ℕ → (Host H → Status × Host H)
  pub strict_equals : ℕ → ℕ → Call H Bool
  pub throw : ℕ → (Host H → Status × Host H)
  pub throw_error : Option (List ℕ) → Option (List ℕ) → (Host H → Status × Host H)
  pub throw_type_error : Option (List ℕ) → Option (List ℕ) → (Host H → Status × Host H)
  pub throw_range_error : Option (List ℕ) → Option (List ℕ) → (Host H → Status × Host H)
  pub is_exception_pending : Call H Bool
  pub get_date_value : ℕ → Call H (Option ℕ)
  pub is_sharedarraybuffer : ℕ → Call H Bool
  pub node_api_set_prototype : ℕ → ℕ → (Host H → Status × Host H)
  pub detach_arraybuffer : ℕ → (Host H → Status × Host H)
  pub is_detached_arraybuffer : ℕ → Call H Bool
  pub type_tag_object : ℕ → ℕ → ℕ → (Host H → Status × Host H)
  pub check_object_type_tag : ℕ → ℕ → ℕ → Call H Bool
  pub get_value_external : ℕ → Call H ℕ
