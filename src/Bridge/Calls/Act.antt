-- ===== src/Bridge/Calls/Act.antt =====
-- The calls of the bridge on the properties of an object, and on exceptions.
use napi.Prelude.{ℕ, Bool, Option, List}
use napi.Bridge.Calls.{Answer, guarded, loaded, given, passes, reads, tests, acts}
use napi.Bridge.Calls.Engine.{Reader}

-- snapi_bridge_set_property
unfoldable pub set_property : {H : Type 0} → Reader H → Bool → ℕ → ℕ → ℕ → Answer H
unfolding guarded loaded acts
set_property engine owned obj_id key_id val_id = guarded owned (
    loaded obj_id
      (λ obj. loaded key_id (λ key. loaded val_id (λ val. acts (engine.set_property obj key val)))))

-- snapi_bridge_has_property
unfoldable pub has_property : {H : Type 0} → Reader H → Bool → ℕ → ℕ → Answer H
unfolding guarded loaded tests
has_property engine owned obj_id key_id =
    guarded owned
      (loaded obj_id (λ obj. loaded key_id (λ key. tests (engine.has_property obj key))))

-- snapi_bridge_has_own_property
unfoldable pub has_own_property : {H : Type 0} → Reader H → Bool → ℕ → ℕ → Answer H
unfolding guarded loaded tests
has_own_property engine owned obj_id key_id =
    guarded owned
      (loaded obj_id (λ obj. loaded key_id (λ key. tests (engine.has_own_property obj key))))

-- snapi_bridge_delete_property
unfoldable pub delete_property : {H : Type 0} → Reader H → Bool → ℕ → ℕ → Answer H
unfolding guarded loaded tests
delete_property engine owned obj_id key_id =
    guarded owned
      (loaded obj_id (λ obj. loaded key_id (λ key. tests (engine.delete_property obj key))))

-- snapi_bridge_set_named_property
unfoldable pub set_named_property :
    {H : Type 0} → Reader H → Bool → ℕ → Option (List ℕ) → ℕ → Answer H
unfolding guarded loaded given acts
set_named_property engine owned obj_id name val_id = guarded owned (
    loaded obj_id (λ obj.
      given name (λ text. loaded val_id (λ val. acts (engine.set_named_property obj text val)))))

-- snapi_bridge_has_named_property
unfoldable pub has_named_property : {H : Type 0} → Reader H → Bool → ℕ → Option (List ℕ) → Answer H
unfolding guarded loaded given tests
has_named_property engine owned obj_id name =
    guarded owned
      (loaded obj_id (λ obj. given name (λ text. tests (engine.has_named_property obj text))))

-- snapi_bridge_set_element
unfoldable pub set_element : {H : Type 0} → Reader H → Bool → ℕ → ℕ → ℕ → Answer H
unfolding guarded loaded acts
set_element engine owned obj_id index val_id =
    guarded owned
      (loaded obj_id (λ obj. loaded val_id (λ val. acts (engine.set_element obj index val))))

-- snapi_bridge_has_element
unfoldable pub has_element : {H : Type 0} → Reader H → Bool → ℕ → ℕ → Answer H
unfolding guarded loaded tests
has_element engine owned obj_id index =
    guarded owned (loaded obj_id (λ obj. tests (engine.has_element obj index)))

-- snapi_bridge_delete_element
unfoldable pub delete_element : {H : Type 0} → Reader H → Bool → ℕ → ℕ → Answer H
unfolding guarded loaded tests
delete_element engine owned obj_id index =
    guarded owned (loaded obj_id (λ obj. tests (engine.delete_element obj index)))

-- snapi_bridge_get_array_length
unfoldable pub get_array_length : {H : Type 0} → Reader H → Bool → ℕ → Answer H
unfolding guarded loaded passes
get_array_length engine owned arr_id =
    guarded owned (loaded arr_id (λ arr. passes (engine.get_array_length arr)))

-- snapi_bridge_object_freeze
unfoldable pub object_freeze : {H : Type 0} → Reader H → Bool → ℕ → Answer H
unfolding guarded loaded acts
object_freeze engine owned obj_id =
    guarded owned (loaded obj_id (λ obj. acts (engine.object_freeze obj)))

-- snapi_bridge_object_seal
unfoldable pub object_seal : {H : Type 0} → Reader H → Bool → ℕ → Answer H
unfolding guarded loaded acts
object_seal engine owned obj_id =
    guarded owned (loaded obj_id (λ obj. acts (engine.object_seal obj)))

-- snapi_bridge_strict_equals
unfoldable pub strict_equals : {H : Type 0} → Reader H → Bool → ℕ → ℕ → Answer H
unfolding guarded loaded tests
strict_equals engine owned left_id right_id =
    guarded owned
      (loaded left_id (λ left. loaded right_id (λ right. tests (engine.strict_equals left right))))

-- snapi_bridge_throw
unfoldable pub throw : {H : Type 0} → Reader H → Bool → ℕ → Answer H
unfolding guarded loaded acts
throw engine owned error_id = guarded owned (loaded error_id (λ error. acts (engine.throw error)))

-- snapi_bridge_throw_error
unfoldable pub throw_error :
    {H : Type 0} → Reader H → Bool → Option (List ℕ) → Option (List ℕ) → Answer H
unfolding guarded acts
throw_error engine owned code msg = guarded owned (acts (engine.throw_error code msg))

-- snapi_bridge_throw_type_error
unfoldable pub throw_type_error :
    {H : Type 0} → Reader H → Bool → Option (List ℕ) → Option (List ℕ) → Answer H
unfolding guarded acts
throw_type_error engine owned code msg = guarded owned (acts (engine.throw_type_error code msg))

-- snapi_bridge_throw_range_error
unfoldable pub throw_range_error :
    {H : Type 0} → Reader H → Bool → Option (List ℕ) → Option (List ℕ) → Answer H
unfolding guarded acts
throw_range_error engine owned code msg = guarded owned (acts (engine.throw_range_error code msg))

-- snapi_bridge_is_exception_pending
unfoldable pub is_exception_pending : {H : Type 0} → Reader H → Bool → Answer H
unfolding guarded tests
is_exception_pending engine owned = guarded owned (tests engine.is_exception_pending)

-- snapi_bridge_get_date_value
unfoldable pub get_date_value : {H : Type 0} → Reader H → Bool → ℕ → Answer H
unfolding guarded loaded passes
get_date_value engine owned val_id =
    guarded owned (loaded val_id (λ val. passes (engine.get_date_value val)))

-- snapi_bridge_is_sharedarraybuffer
unfoldable pub is_sharedarraybuffer : {H : Type 0} → Reader H → Bool → ℕ → Answer H
unfolding guarded loaded tests
is_sharedarraybuffer engine owned val_id =
    guarded owned (loaded val_id (λ val. tests (engine.is_sharedarraybuffer val)))

-- snapi_bridge_node_api_set_prototype
unfoldable pub node_api_set_prototype : {H : Type 0} → Reader H → Bool → ℕ → ℕ → Answer H
unfolding guarded loaded acts
node_api_set_prototype engine owned object_id prototype_id = guarded owned (
    loaded object_id (λ object.
      loaded prototype_id (λ prototype. acts (engine.node_api_set_prototype object prototype))))

-- snapi_bridge_detach_arraybuffer
unfoldable pub detach_arraybuffer : {H : Type 0} → Reader H → Bool → ℕ → Answer H
unfolding guarded loaded acts
detach_arraybuffer engine owned val_id =
    guarded owned (loaded val_id (λ val. acts (engine.detach_arraybuffer val)))

-- snapi_bridge_is_detached_arraybuffer
unfoldable pub is_detached_arraybuffer : {H : Type 0} → Reader H → Bool → ℕ → Answer H
unfolding guarded loaded tests
is_detached_arraybuffer engine owned val_id =
    guarded owned (loaded val_id (λ val. tests (engine.is_detached_arraybuffer val)))

-- snapi_bridge_type_tag_object
unfoldable pub type_tag_object : {H : Type 0} → Reader H → Bool → ℕ → ℕ → ℕ → Answer H
unfolding guarded loaded acts
type_tag_object engine owned obj_id lower upper =
    guarded owned (loaded obj_id (λ obj. acts (engine.type_tag_object obj lower upper)))

-- snapi_bridge_check_object_type_tag
unfoldable pub check_object_type_tag : {H : Type 0} → Reader H → Bool → ℕ → ℕ → ℕ → Answer H
unfolding guarded loaded tests
check_object_type_tag engine owned obj_id lower upper =
    guarded owned (loaded obj_id (λ obj. tests (engine.check_object_type_tag obj lower upper)))

-- snapi_bridge_get_value_external
unfoldable pub get_value_external : {H : Type 0} → Reader H → Bool → ℕ → Answer H
unfolding guarded loaded reads
get_value_external engine owned val_id =
    guarded owned (loaded val_id (λ val. reads (engine.get_value_external val)))
