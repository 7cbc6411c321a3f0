-- ===== src/Agent.antt =====
-- quickjs/src/internal/napi_agent.cc: the state that the envs of one QuickJS runtime share: the
-- pending exception, the continuation data and its frames, external memory, embedder hooks.
-- What the agent does to reference counts is its log; a call that frees a value may run a
-- finalizer in the source, which these operations leave until they are done.
pub mod References
pub mod Memory
mod Tests
use napi.Prelude.{
  ℕ, zero, suc, ◌+◌, ◌-◌, ◌^◌, Bool, true, false, not, ◌&&◌, Option, none, some, List, [], ◌∷◌,
  ◌++◌, ltb, leb, ◌==◌, if◌then◌else◌,
}
use napi.Prelude.Int.{ℤ, pos, negsuc, ◌+ℤ◌, ◌-ℤ◌, ltb_ℤ}

-- A JSValue: undefined, an object by its address, or any other value by a number.
pub data Value : Type 0 where
  undefined : Value
  object other : ℕ → Value

-- JS_DupValueRT and JS_FreeValueRT, and references that a caller hands over or takes.
pub data Action : Type 0 where
  dup free given taken : Value → Action

pub record Agent : Type 0 where
  pub pending_exception : Value
  pub has_pending_exception : Bool
  pub external_memory : ℤ
  pub embedder_hooks : Option ℕ
  pub continuation_data : Value
  pub frames : List (ℕ × Value)
  pub frame_stack : List Value
  pub log : List Action

-- js_identity
identity : Value → Option ℕ
identity (object p) = some p
identity v = none

abbrev pub is_undefined : Value → Bool
is_undefined undefined = true
is_undefined (object p) = false
is_undefined (other n) = false

-- The log is kept newest first.
note : Action → Agent → Agent
note act a = record a { log = act ∷ a.log }

pub take_pending_exception : Agent → Value × Agent
unfolding note
take_pending_exception a = if not a.has_pending_exception then (undefined, a) else (
  a.pending_exception,
  note (taken a.pending_exception)
      (record a { pending_exception = undefined; has_pending_exception = false }),
)

-- The agent takes the reference to the new exception, and frees the old one last.
pub set_pending_exception : Value → Agent → Agent
unfolding take_pending_exception note
set_pending_exception exception a =
    let (old, a1) = take_pending_exception a in
    let a2 =
      note (given exception)
        (record a1 { pending_exception = exception; has_pending_exception = true }) in
    note (free old) (note (given old) a2)

pub clear_pending_exception : Agent → Agent
unfolding take_pending_exception note
clear_pending_exception a =
    if not a.has_pending_exception
    then a
    else let (old, a1) = take_pending_exception a in note (free old) (note (given old) a1)

abbrev pub int64_max : ℤ
int64_max = pos (2 ^ 63 - 1)

abbrev pub int64_min : ℤ
int64_min = negsuc (2 ^ 63 - 1)

-- The three branches of adjust_external_memory.
pub adjusted : ℤ → ℤ → ℤ
adjusted change memory =
    if ltb_ℤ (pos 0) change && ltb_ℤ (int64_max -ℤ change) memory
    then int64_max
    else if ltb_ℤ change (pos 0) && ltb_ℤ memory (int64_min -ℤ change)
    then int64_min
    else memory +ℤ change

pub adjust_external_memory : ℤ → Agent → ℤ × Agent
unfolding adjusted
adjust_external_memory change a =
    let memory = adjusted change a.external_memory in
    (memory, record a { external_memory = memory })

-- The hooks are attached once.
pub attach_embedder_hooks : ℕ → Agent → Bool × Agent
attach_embedder_hooks hooks a = elim a.embedder_hooks [
  | some _ ↦ (false, a)
  | none ↦ (true, record a { embedder_hooks = some hooks })
]

-- replace_stored_value of the continuation data: the old value is freed, the new one duplicated.
pub set_continuation_data : Value → Agent → Agent
unfolding note
set_continuation_data v a =
    let a1 = note (free a.continuation_data) a in note (dup v) (record a1 { continuation_data = v })

pub find_frame : ℕ → List (ℕ × Value) → Option Value
find_frame p [] = none
find_frame p ((q, v) ∷ rest) = if p == q then some v else find_frame p rest

pub set_frame : ℕ → Value → List (ℕ × Value) → List (ℕ × Value)
set_frame p v [] = (p, v) ∷ []
set_frame p v ((q, w) ∷ rest) = if p == q then (q, v) ∷ rest else (q, w) ∷ set_frame p v rest

pub erase_frame : ℕ → List (ℕ × Value) → List (ℕ × Value)
erase_frame p [] = []
erase_frame p ((q, w) ∷ rest) = if p == q then rest else (q, w) ∷ erase_frame p rest

capture_at : ℕ → Agent → Agent
unfolding find_frame set_frame note
capture_at p a =
    let frame = a.continuation_data in
    let a1 = note (dup frame) a in
    elim (find_frame p a1.frames) [
      | some old ↦ record (note (free old) a1) { frames = set_frame p frame a1.frames }
      | none ↦ record a1 { frames = set_frame p frame a1.frames }
    ]

pub capture_context_frame : Value → Agent → Agent
unfolding capture_at identity
capture_context_frame promise a = elim (identity promise) [
  | none ↦ a
  | some p ↦ if is_undefined a.continuation_data then a else capture_at p a
]

pub frame_of : Value → Agent → Value
unfolding identity find_frame
frame_of promise a = elim (identity promise) [
  | none ↦ undefined
  | some p ↦ (elim (find_frame p a.frames) [ none ↦ undefined | some frame ↦ frame ])
]

pub enter_context_frame : Value → Agent → Agent
unfolding note frame_of set_continuation_data
enter_context_frame promise a =
    let a1 = record (note (dup a.continuation_data) a) {
      frame_stack = a.continuation_data ∷ a.frame_stack;
    } in
    set_continuation_data (frame_of promise a1) a1

-- The reference on the stack becomes the one to the continuation data.
pub leave_context_frame : Agent → Agent
unfolding note
leave_context_frame a = elim a.frame_stack [
  | [] ↦ a
  | previous ∷ rest ↦ record (note (free a.continuation_data) a) {
    continuation_data = previous;
    frame_stack = rest;
  }
]

pub release_context_frame : Value → Agent → Agent
unfolding identity find_frame erase_frame note
release_context_frame promise a = elim (identity promise) [
  | none ↦ a
  | some p ↦ (elim (find_frame p a.frames) [
    | none ↦ a
    | some frame ↦ record (note (free frame) a) { frames = erase_frame p a.frames }
  ])
]

free_frames : List (ℕ × Value) → List Action → List Action
free_frames [] log = log
free_frames ((p, v) ∷ rest) log = free_frames rest (free v ∷ log)

free_stack : List Value → List Action → List Action
free_stack [] log = log
free_stack (v ∷ rest) log = free_stack rest (free v ∷ log)

pub clear_values : Agent → Agent
unfolding clear_pending_exception note free_frames free_stack
clear_values a =
    let a1 = clear_pending_exception a in
    let a2 = record (note (free a1.continuation_data) a1) { continuation_data = undefined } in
    let a3 = record a2 { log = free_frames a2.frames a2.log; frames = [] } in
    record a3 { log = free_stack a3.frame_stack a3.log; frame_stack = [] }

pub data HookType : Type 0 where
  init before after resolve : HookType

-- promise_hook: `call` is what the env's own hook does, if there is an env to call it in, and
-- `in_runtime` whether the agent and the context are there and of one runtime.
pub promise_hook : Bool → Option (Agent → Agent) → HookType → Value → Agent → Agent
unfolding capture_context_frame enter_context_frame leave_context_frame release_context_frame
promise_hook in_runtime call type promise a =
    if not in_runtime
    then a
    else let a1 : Agent = elim type [
      | init ↦ capture_context_frame promise a
      | before ↦ enter_context_frame promise a
      | _ ↦ a
    ] in
      let a2 : Agent = elim call [ none ↦ a1 | some f ↦ f a1 ] in
      elim type [
        | after ↦ leave_context_frame a2
        | resolve ↦ release_context_frame promise a2
        | _ ↦ a2
      ]
