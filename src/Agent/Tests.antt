-- ===== src/Agent/Tests.antt =====
-- Concrete runs of the agent's theorems.
use napi.Prelude.{◌≡◌, true, false, none, some, [], ◌∷◌, arith, subst, Option, ap}
use napi.Prelude.Int.{pos}
use napi.Agent.{
  Value, undefined, object, other, given, dup, Agent, before, after, promise_hook, clear_values,
  is_undefined,
}
use napi.Agent.References.{IsAgent, lost, gained, promise_hook-IsAgent, clear_values-frees}

abbrev new_agent : Agent
new_agent = record {
  pending_exception = undefined;
  has_pending_exception = false;
  external_memory = pos 100;
  embedder_hooks = none;
  continuation_data = undefined;
  frames = [];
  frame_stack = [];
  log = [];
}

abbrev busy_agent : Agent
busy_agent = record new_agent {
  pending_exception = other 4;
  has_pending_exception = true;
  continuation_data = object 9;
  frames = (1, object 9) ∷ [];
  log = given (other 4) ∷ dup (object 9) ∷ dup (object 9) ∷ [];
}

busy-IsAgent : IsAgent busy_agent
busy-IsAgent = record { quiet = λ e. cc; balanced = λ v u. omega arith }

-- An env's hook that enters the continuation of a promise and leaves one.
abbrev env_hook : Agent → Agent
env_hook a = promise_hook true none after (object 3) (promise_hook true none before (object 3) a)

abbrev the_hook : Option (Agent → Agent) → Agent → Agent
the_hook none a = a
the_hook (some g) a = g a

env_hook-IsAgent :
    (f : Agent → Agent) → some env_hook ≡ some f → (b : Agent) → IsAgent b → IsAgent (f b)
env_hook-IsAgent f e b k =
    subst (λ (g : Agent → Agent). IsAgent (g b)) (ap the_hook e)
      (promise_hook-IsAgent true none after (object 3) (promise_hook true none before (object 3) b)
        (λ g q. cc) (promise_hook-IsAgent true none before (object 3) b (λ g q. cc) k))

promise_hook-IsAgent_example :
    IsAgent (promise_hook true (some env_hook) before (object 1) busy_agent)
promise_hook-IsAgent_example =
    promise_hook-IsAgent true (some env_hook) before (object 1) busy_agent env_hook-IsAgent
      busy-IsAgent

clear_values-frees_example :
    let b = clear_values busy_agent in
    (b.has_pending_exception ≡ false)
    × (b.pending_exception ≡ undefined)
    × (b.continuation_data ≡ undefined)
    × (b.frames ≡ [])
    × (b.frame_stack ≡ [])
    × ((v : Value) → is_undefined v ≡ false → lost v b.log ≡ gained v b.log)
clear_values-frees_example = clear_values-frees busy_agent busy-IsAgent
