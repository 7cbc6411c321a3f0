-- ===== src/Bridge/Handles.antt =====
-- The handles that outlive scopes: references, promises' deferreds, bytecode and messages. The
-- guest sees their ids, and a table maps an id to the engine's handle, a number.
-- The engine's functions change the engine's state only: callbacks that they may run are left out.
pub mod Table
pub mod Messages
use napi.Prelude.{
  ℕ, ◌+◌, ◌%◌, ◌^◌, Bool, true, false, not, ◌==◌, ◌&&◌, Option, none, some, if◌then◌else◌, update,
  is_some,
}
use napi.Bridge.{
  Agent, Status, ok, invalid_arg, generic_failure, is_ok, require_env_state, load_value,
  store_value,
}

-- HandleTable, and the pairs refs and next_ref_id, deferreds and next_deferred_id.
pub record HandleTable : Type 0 where
  pub handles : ℕ → Option ℕ
  pub next_id : ℕ

abbrev pub empty_table : HandleTable
empty_table = record { handles = λ id. none; next_id = 1 }

-- HandleTable::Store
pub store : Option ℕ → HandleTable → ℕ × HandleTable
store none t = (0, t)
store (some handle) t = (
  t.next_id,
  record { handles = update t.handles t.next_id (some handle); next_id = (t.next_id + 1) % 2 ^ 32 },
)

-- HandleTable::Load
pub load : ℕ → HandleTable → Option ℕ
load id t = if id == 0 then none else t.handles id

-- HandleTable::Remove
pub remove_handle : ℕ → HandleTable → HandleTable
remove_handle id t = record t { handles = update t.handles id none }

-- HandleTable::Take
pub take_handle : ℕ → HandleTable → Option ℕ × HandleTable
take_handle id t = if id == 0 then (none, t) else elim (t.handles id) [
  | none ↦ (none, t)
  | some handle ↦ (some handle, record t { handles = update t.handles id none })
]

-- StoreRef, LoadRef and RemoveRef; StoreDeferred, LoadDeferred and RemoveDeferred.
pub store_ref : Option ℕ → HandleTable → ℕ × HandleTable
unfolding store
store_ref = store

pub load_ref : ℕ → HandleTable → Option ℕ
unfolding load
load_ref = load

pub remove_ref : ℕ → HandleTable → HandleTable
unfolding remove_handle
remove_ref = remove_handle

pub store_deferred : Option ℕ → HandleTable → ℕ × HandleTable
unfolding store
store_deferred = store

pub load_deferred : ℕ → HandleTable → Option ℕ
unfolding load
load_deferred = load

pub remove_deferred : ℕ → HandleTable → HandleTable
unfolding remove_handle
remove_deferred = remove_handle

-- The agent, its tables, the process's table of messages, and the engine's own state.
pub record Desk (H : Type 0) : Type 0 where
  pub agent : Agent
  pub refs : HandleTable
  pub deferreds : HandleTable
  pub bytecode : HandleTable
  pub messages : HandleTable
  pub engine : H

-- snapi_bridge_create_reference
pub create_reference :
    {H : Type 0}
    → (ℕ → ℕ → H → (Status × Option ℕ) × H)
    → Bool
    → ℕ
    → ℕ
    → Desk H
    → (Status × ℕ) × Desk H
unfolding require_env_state is_ok store_ref
create_reference create owned value_id initial_refcount d =
    if not (require_env_state owned d.agent)
    then ((invalid_arg, 0), d)
    else elim (load_value value_id d.agent) [
      | none ↦ ((invalid_arg, 0), d)
      | some val ↦
          let ((s, ref), e) = create val initial_refcount d.engine in
          if not (is_ok s)
          then ((s, 0), record d { engine = e })
          else let (id, refs) = store_ref ref d.refs in
            ((ok, id), record d { engine = e; refs = refs })
    ]

-- snapi_bridge_delete_reference
pub delete_reference : {H : Type 0} → (ℕ → H → Status × H) → Bool → ℕ → Desk H → Status × Desk H
unfolding require_env_state is_ok load_ref remove_ref
delete_reference delete owned ref_id d =
    if not (require_env_state owned d.agent)
    then (invalid_arg, d)
    else elim (load_ref ref_id d.refs) [
      | none ↦ (invalid_arg, d)
      | some ref ↦
          let (s, e) = delete ref d.engine in
          (s, record d { engine = e; refs = if is_ok s then remove_ref ref_id d.refs else d.refs })
    ]

-- snapi_bridge_reference_ref and snapi_bridge_reference_unref, by the engine's function.
pub count_reference :
    {H : Type 0}
    → (ℕ → H → (Status × Option ℕ) × H)
    → Bool
    → ℕ
    → Desk H
    → (Status × Option ℕ) × Desk H
unfolding require_env_state load_ref
count_reference count owned ref_id d =
    if not (require_env_state owned d.agent)
    then ((invalid_arg, none), d)
    else elim (load_ref ref_id d.refs) [
      | none ↦ ((invalid_arg, none), d)
      | some ref ↦ let (answer, e) = count ref d.engine in (answer, record d { engine = e })
    ]

-- snapi_bridge_get_reference_value
pub get_reference_value :
    {H : Type 0} → (ℕ → H → (Status × Option ℕ) × H) → Bool → ℕ → Desk H → (Status × ℕ) × Desk H
unfolding require_env_state is_ok load_ref store_value
get_reference_value get owned ref_id d =
    if not (require_env_state owned d.agent)
    then ((invalid_arg, 0), d)
    else elim (load_ref ref_id d.refs) [
      | none ↦ ((invalid_arg, 0), d)
      | some ref ↦
          let ((s, result), e) = get ref d.engine in
          if not (is_ok s)
          then ((s, 0), record d { engine = e })
          else let (id, a) = store_value result d.agent in
            ((ok, id), record d { engine = e; agent = a })
    ]

-- snapi_bridge_create_promise: the ids of the deferred and of the promise.
pub create_promise :
    {H : Type 0}
    → (H → (Status × Option ℕ × Option ℕ) × H)
    → Bool
    → Desk H
    → (Status × ℕ × ℕ) × Desk H
unfolding require_env_state is_ok store_deferred store_value
create_promise create owned d =
    if not (require_env_state owned d.agent)
    then ((invalid_arg, 0, 0), d)
    else let ((s, deferred, promise), e) = create d.engine in
      if not (is_ok s)
      then ((s, 0, 0), record d { engine = e })
      else let (deferred_id, deferreds) = store_deferred deferred d.deferreds in
        let (id, a) = store_value promise d.agent in
        ((ok, deferred_id, id), record d { engine = e; deferreds = deferreds; agent = a })

-- snapi_bridge_resolve_deferred and snapi_bridge_reject_deferred, by the engine's function.
pub settle_deferred :
    {H : Type 0} → (ℕ → ℕ → H → Status × H) → Bool → ℕ → ℕ → Desk H → Status × Desk H
settle_deferred settle owned deferred_id value_id d =
    if not (require_env_state owned d.agent)
    then (invalid_arg, d)
    else elim (load_deferred deferred_id d.deferreds) [
      | none ↦ (invalid_arg, d)
      | some deferred ↦ (elim (load_value value_id d.agent) [
        | none ↦ (invalid_arg, d)
        | some val ↦
            let (s, e) = settle deferred val d.engine in
            (
              s,
              record d {
                engine = e;
                deferreds =
                    if is_ok s then remove_deferred deferred_id d.deferreds else d.deferreds;
              },
            )
      ])
    ]

-- snapi_bridge_unofficial_bytecode_release, which forgets the handle whatever the engine answers.
pub bytecode_release : {H : Type 0} → (ℕ → H → Status × H) → Bool → ℕ → Desk H → Status × Desk H
unfolding require_env_state load remove_handle
bytecode_release release owned bytecode_id d =
    if not (require_env_state owned d.agent)
    then (invalid_arg, d)
    else elim (load bytecode_id d.bytecode) [
      | none ↦ (invalid_arg, d)
      | some bytecode ↦
          let (s, e) = release bytecode d.engine in
          (s, record d { engine = e; bytecode = remove_handle bytecode_id d.bytecode })
    ]
