-- ===== src/Lib.antt =====
-- napi: a Node-API implementation over JavaScript engines. An engine-neutral library (lib/src)
-- gives the intrusive rings, the slot allocator, text conversions, the lifetime tracker and the
-- buffer leases; the QuickJS provider (quickjs/src) builds its state on them: an agent for each
-- runtime, envs with realm frames, cleanup hooks and instance data, handle scopes and references.
-- The bridge (src/napi_bridge_init.cc) lends the API to a WASM guest, which names values, scopes
-- and handles by numbers.
--
-- Which file models what:
--   Prelude    shared names, lists, maps, integers over the native numbers
--   Link       lib/src/napi_intrinsic_link.h: rings of links, as two maps on addresses
--   Text       lib/src/napi_text.cc: decimal texts, UTF-8 prefixes and Latin-1
--   Allocator  lib/src/napi_allocator.h: blocks of slots on three rings. A ring is the list of its
--              members, which Link/Ring shows to be what the links give
--   Lifetime   lib/src/napi_lifetime_tracker.h and .cc: counters, histories, escapes, the periodic gate
--   Agent      quickjs/src/internal/napi_agent.cc: exception, memory, context frames
--   Reference  quickjs/src/internal/napi_ref.cc: strong and weak references
--   Realm      quickjs/src/internal/napi_env.cc: realm frames of callbacks and scopes
--   Scope      quickjs/src/internal/napi_scope.cc, the handle scope calls of
--              quickjs/src/js_native_api_quickjs.cc, and the scopes of the agent
--   Cleanup    quickjs/src/internal/napi_env.cc and napi_env_cleanup_hook.cc: hooks, instance data
--   Interrupts quickjs/src/internal/napi_env.cc: the interrupt record that envs share
--   Lease      lib/src/napi_buffer_lease.cc: leases of byte ranges
--   Util       quickjs/src/internal/napi_util.cc: array indices, bigints, file URLs
--   Serdes     quickjs/src/internal/napi_serdes.cc: the numbers of the wire format
--   Bridge     src/napi_bridge_init.cc. Bridge.antt has the value slots and the scope frames, and
--              Bridge/Scopes the handle scope calls; Bridge/Calls the calls that make, read, test or
--              change values, one function each in Make, Derive, Read and Act; Bridge/Handles the
--              references, deferreds, bytecode and messages; Bridge/Callbacks the callbacks that the
--              engine makes; Bridge/Release the owning threads and the release of an agent, and
--              Bridge/Drain what it does to the values
--
-- How they meet: the env allocates its references, hooks and hints, the agent its scopes, and a
-- scope its values, each with the slot allocator, which Scope takes as the handle that it grants.
-- The agent keeps what the envs of a runtime share; an env calls user code inside a realm frame.
-- The bridge stores what the engine gives in slots that its scope frames own, and every call of the
-- guest goes through these; a callback runs inside a frame of its own.
--
-- Bounds: a size_t, uint32_t or uint64_t keeps its wrap as a remainder, an int64_t its bounds.
-- Loops over rings, over texts with variable steps and over hooks run on fuel; the theorems on them
-- show how much is enough. snapi_bridge_dispose runs on fuel too, with one turn for each env of the
-- thread and one more. The counts of guest code that runs and of the holders of an env, uint32_t in
-- the source, are naturals without a wrap. Calls of the engine and user code are parameters; a
-- guest's code in a callback is any list of scope calls, stores and escapes. The engine's functions
-- that Bridge/Calls asks act on the bridge too, since the JavaScript that they run calls the guest:
-- by any number of such callbacks, one after another or inside each other, each in an escapable
-- scope that opened. When the engine opens none for a callback, no frame is pushed
-- (src/napi_bridge_init.cc, lines 3101 to 3104) and the guest could close a frame of the code
-- around it: such a callback is not among these. The engine's functions that Bridge/Handles asks
-- change the engine's state only. A payload's destructor may destroy peers in the allocator's
-- `destroy`.
--
-- Not modelled: the V8 provider and the Rust crates; the allocator's `close`; destructors that
-- allocate or that destroy a payload whose destructor does so too; the bridge's calls with buffers,
-- wraps and class definitions, its interrupts and finalizers; module_wrap, contextify, the
-- serialization of values and the other wrappers of engine calls; teardown of an env as a whole;
-- printing of the lifetime dumps.
pub mod Prelude
pub mod Link
pub mod Text
pub mod Allocator
pub mod Lifetime
pub mod Agent
pub mod Reference
pub mod Realm
pub mod Scope
pub mod Lease
pub mod Cleanup
pub mod Util
pub mod Interrupts
pub mod Bridge
pub mod Serdes
