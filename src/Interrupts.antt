-- ===== src/Interrupts.antt =====
-- quickjs/src/internal/napi_env.cc: the interrupt handler of a runtime and the record that its envs
-- share. A record is known by its address; the heap of records is a map.
pub mod Sharing
mod Tests
use napi.Prelude.{
  ℕ, zero, suc, ◌+◌, Bool, true, false, not, ◌||◌, Option, none, some, List, [], ◌∷◌, ◌++◌, ◌==◌,
  if◌then◌else◌, is_empty, update,
}

-- The handler that a runtime has installed: none, an embedder's, or runtime_interrupt_handler with
-- a record.
pub data Handler : Type 0 where
  no_handler : Handler
  embedder shared : ℕ → Handler

-- napi_runtime_interrupts__; the handler before it stands for previous_handler and its opaque.
pub record Interrupts : Type 0 where
  pub previous : Handler
  pub envs : List ℕ

pub record Runtime : Type 0 where
  pub handler : Handler
  pub records : ℕ → Option Interrupts

interrupt_loop : (ℕ → Bool) → Bool → List ℕ → Bool
interrupt_loop termination_requested previous [] = previous
interrupt_loop termination_requested previous (env ∷ rest) =
    termination_requested env || interrupt_loop termination_requested previous rest

-- `previous` is what a handler that was there before answers, false for none.
pub runtime_interrupt_handler : (ℕ → Bool) → (Handler → Bool) → Interrupts → Bool
unfolding interrupt_loop
runtime_interrupt_handler termination_requested previous i =
    interrupt_loop termination_requested (previous i.previous) i.envs

pub installed_runtime_interrupts : Runtime → Option ℕ
installed_runtime_interrupts rt = elim rt.handler [
  | no_handler ↦ none
  | embedder h ↦ none
  | shared p ↦ some p
]

add_env : ℕ → ℕ → Runtime → Runtime
add_env p env rt = elim (rt.records p) [
  | none ↦ rt
  | some i ↦ record rt {
    records = update rt.records p (some (record i { envs = i.envs ++ env ∷ [] }));
  }
]

-- `new_record` is the address that `new` gives, none when it fails.
pub attach_runtime_interrupts : Option ℕ → ℕ → Runtime → Option ℕ × Runtime
unfolding installed_runtime_interrupts add_env
attach_runtime_interrupts new_record env rt = elim (installed_runtime_interrupts rt) [
  | some p ↦ (some p, add_env p env rt)
  | none ↦ (elim new_record [
    | none ↦ (none, rt)
    | some p ↦ (
      some p,
      add_env p env (record {
        handler = shared p;
        records = update rt.records p (some (record { previous = rt.handler; envs = [] }));
      }),
    )
  ])
]

-- std::remove and erase.
pub remove_env : ℕ → List ℕ → List ℕ
remove_env env [] = []
remove_env env (e ∷ rest) = let left = remove_env env rest in if e == env then left else e ∷ left

same_record : Option ℕ → ℕ → Bool
same_record none p = false
same_record (some q) p = q == p

pub detach_runtime_interrupts : Option ℕ → ℕ → Runtime → Runtime
unfolding remove_env installed_runtime_interrupts same_record
detach_runtime_interrupts none env rt = rt
detach_runtime_interrupts (some p) env rt = elim (rt.records p) [
  | none ↦ rt
  | some i ↦
      let envs = remove_env env i.envs in
      let rt1 = record rt { records = update rt.records p (some (record i { envs = envs })) } in
      if not (is_empty envs)
      then rt1
      else if not (same_record (installed_runtime_interrupts rt1) p)
      then rt1
      else record { handler = i.previous; records = update rt1.records p none }
]
