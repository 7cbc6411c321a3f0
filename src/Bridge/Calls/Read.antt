-- ===== src/Bridge/Calls/Read.antt =====
-- The calls of the bridge that read or test a value.
use napi.Prelude.{ℕ, Bool}
use napi.Bridge.Calls.{Answer, guarded, loaded, passes, reads, tests}
use napi.Bridge.Calls.Engine.{Reader}

-- snapi_bridge_get_value_int32
unfoldable pub get_value_int32 : {H : Type 0} → Reader H → Bool → ℕ → Answer H
unfolding guarded loaded passes
get_value_int32 engine owned val_id =
    guarded owned (loaded val_id (λ val. passes (engine.get_value_int32 val)))

-- snapi_bridge_get_value_uint32
unfoldable pub get_value_uint32 : {H : Type 0} → Reader H → Bool → ℕ → Answer H
unfolding guarded loaded passes
get_value_uint32 engine owned val_id =
    guarded owned (loaded val_id (λ val. passes (engine.get_value_uint32 val)))

-- snapi_bridge_get_value_double
unfoldable pub get_value_double : {H : Type 0} → Reader H → Bool → ℕ → Answer H
unfolding guarded loaded passes
get_value_double engine owned val_id =
    guarded owned (loaded val_id (λ val. passes (engine.get_value_double val)))

-- snapi_bridge_get_value_int64
unfoldable pub get_value_int64 : {H : Type 0} → Reader H → Bool → ℕ → Answer H
unfolding guarded loaded passes
get_value_int64 engine owned val_id =
    guarded owned (loaded val_id (λ val. passes (engine.get_value_int64 val)))

-- snapi_bridge_get_value_bool
unfoldable pub get_value_bool : {H : Type 0} → Reader H → Bool → ℕ → Answer H
unfolding guarded loaded tests
get_value_bool engine owned val_id =
    guarded owned (loaded val_id (λ val. tests (engine.get_value_bool val)))

-- snapi_bridge_typeof
unfoldable pub typeof : {H : Type 0} → Reader H → Bool → ℕ → Answer H
unfolding guarded loaded reads
typeof engine owned val_id = guarded owned (loaded val_id (λ val. reads (engine.typeof val)))

-- snapi_bridge_is_array
unfoldable pub is_array : {H : Type 0} → Reader H → Bool → ℕ → Answer H
unfolding guarded loaded tests
is_array engine owned val_id = guarded owned (loaded val_id (λ val. tests (engine.is_array val)))

-- snapi_bridge_is_error
unfoldable pub is_error : {H : Type 0} → Reader H → Bool → ℕ → Answer H
unfolding guarded loaded tests
is_error engine owned val_id = guarded owned (loaded val_id (λ val. tests (engine.is_error val)))

-- snapi_bridge_is_arraybuffer
unfoldable pub is_arraybuffer : {H : Type 0} → Reader H → Bool → ℕ → Answer H
unfolding guarded loaded tests
is_arraybuffer engine owned val_id =
    guarded owned (loaded val_id (λ val. tests (engine.is_arraybuffer val)))

-- snapi_bridge_is_typedarray
unfoldable pub is_typedarray : {H : Type 0} → Reader H → Bool → ℕ → Answer H
unfolding guarded loaded tests
is_typedarray engine owned val_id =
    guarded owned (loaded val_id (λ val. tests (engine.is_typedarray val)))

-- snapi_bridge_is_dataview
unfoldable pub is_dataview : {H : Type 0} → Reader H → Bool → ℕ → Answer H
unfolding guarded loaded tests
is_dataview engine owned val_id =
    guarded owned (loaded val_id (λ val. tests (engine.is_dataview val)))

-- snapi_bridge_is_date
unfoldable pub is_date : {H : Type 0} → Reader H → Bool → ℕ → Answer H
unfolding guarded loaded tests
is_date engine owned val_id = guarded owned (loaded val_id (λ val. tests (engine.is_date val)))

-- snapi_bridge_is_promise
unfoldable pub is_promise : {H : Type 0} → Reader H → Bool → ℕ → Answer H
unfolding guarded loaded tests
is_promise engine owned val_id =
    guarded owned (loaded val_id (λ val. tests (engine.is_promise val)))

-- snapi_bridge_instanceof
unfoldable pub instanceof : {H : Type 0} → Reader H → Bool → ℕ → ℕ → Answer H
unfolding guarded loaded tests
instanceof engine owned obj_id ctor_id =
    guarded owned
      (loaded obj_id (λ obj. loaded ctor_id (λ ctor. tests (engine.instanceof obj ctor))))
