-- ===== src/Bridge/Calls/Make.antt =====
-- The calls of the bridge that make a value: one function each, over the engine's.
use napi.Prelude.{ℕ, Bool, not, ◌==◌, Option, List}
use napi.Bridge.Calls.{Answer, guarded, loaded, auto_length, makes}
use napi.Bridge.Calls.Engine.{Maker}

-- snapi_bridge_get_undefined
unfoldable pub get_undefined : {H : Type 0} → Maker H → Bool → Answer H
unfolding guarded makes
get_undefined engine owned = guarded owned (makes engine.get_undefined)

-- snapi_bridge_get_null
unfoldable pub get_null : {H : Type 0} → Maker H → Bool → Answer H
unfolding guarded makes
get_null engine owned = guarded owned (makes engine.get_null)

-- snapi_bridge_get_boolean
unfoldable pub get_boolean : {H : Type 0} → Maker H → Bool → ℕ → Answer H
unfolding guarded makes
get_boolean engine owned value = guarded owned (makes (engine.get_boolean (not (value == 0))))

-- snapi_bridge_get_global
unfoldable pub get_global : {H : Type 0} → Maker H → Bool → Answer H
unfolding guarded makes
get_global engine owned = guarded owned (makes engine.get_global)

-- snapi_bridge_create_string_utf8
unfoldable pub create_string_utf8 : {H : Type 0} → Maker H → Bool → Option (List ℕ) → ℕ → Answer H
unfolding guarded auto_length makes
create_string_utf8 engine owned str wasm_length =
    guarded owned (makes (engine.create_string_utf8 str (auto_length wasm_length)))

-- snapi_bridge_create_string_latin1
unfoldable pub create_string_latin1 : {H : Type 0} → Maker H → Bool → Option (List ℕ) → ℕ → Answer H
unfolding guarded auto_length makes
create_string_latin1 engine owned str wasm_length =
    guarded owned (makes (engine.create_string_latin1 str (auto_length wasm_length)))

-- snapi_bridge_create_int32
unfoldable pub create_int32 : {H : Type 0} → Maker H → Bool → ℕ → Answer H
unfolding guarded makes
create_int32 engine owned value = guarded owned (makes (engine.create_int32 value))

-- snapi_bridge_create_uint32
unfoldable pub create_uint32 : {H : Type 0} → Maker H → Bool → ℕ → Answer H
unfolding guarded makes
create_uint32 engine owned value = guarded owned (makes (engine.create_uint32 value))

-- snapi_bridge_create_double
unfoldable pub create_double : {H : Type 0} → Maker H → Bool → ℕ → Answer H
unfolding guarded makes
create_double engine owned value = guarded owned (makes (engine.create_double value))

-- snapi_bridge_create_int64
unfoldable pub create_int64 : {H : Type 0} → Maker H → Bool → ℕ → Answer H
unfolding guarded makes
create_int64 engine owned value = guarded owned (makes (engine.create_int64 value))

-- snapi_bridge_create_object
unfoldable pub create_object : {H : Type 0} → Maker H → Bool → Answer H
unfolding guarded makes
create_object engine owned = guarded owned (makes engine.create_object)

-- snapi_bridge_create_array
unfoldable pub create_array : {H : Type 0} → Maker H → Bool → Answer H
unfolding guarded makes
create_array engine owned = guarded owned (makes engine.create_array)

-- snapi_bridge_create_array_with_length
unfoldable pub create_array_with_length : {H : Type 0} → Maker H → Bool → ℕ → Answer H
unfolding guarded makes
create_array_with_length engine owned size =
    guarded owned (makes (engine.create_array_with_length size))

-- snapi_bridge_coerce_to_bool
unfoldable pub coerce_to_bool : {H : Type 0} → Maker H → Bool → ℕ → Answer H
unfolding guarded loaded makes
coerce_to_bool engine owned id =
    guarded owned (loaded id (λ val. makes (engine.coerce_to_bool val)))

-- snapi_bridge_coerce_to_number
unfoldable pub coerce_to_number : {H : Type 0} → Maker H → Bool → ℕ → Answer H
unfolding guarded loaded makes
coerce_to_number engine owned id =
    guarded owned (loaded id (λ val. makes (engine.coerce_to_number val)))

-- snapi_bridge_coerce_to_string
unfoldable pub coerce_to_string : {H : Type 0} → Maker H → Bool → ℕ → Answer H
unfolding guarded loaded makes
coerce_to_string engine owned id =
    guarded owned (loaded id (λ val. makes (engine.coerce_to_string val)))

-- snapi_bridge_coerce_to_object
unfoldable pub coerce_to_object : {H : Type 0} → Maker H → Bool → ℕ → Answer H
unfolding guarded loaded makes
coerce_to_object engine owned id =
    guarded owned (loaded id (λ val. makes (engine.coerce_to_object val)))
