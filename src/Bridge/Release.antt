-- ===== src/Bridge/Release.antt =====
-- How the bridge releases an agent with its envs: which thread owns an env, the counts of guest
-- code that is running, stop requests during teardown, and the loop of snapi_bridge_dispose.
-- Env states, agents and threads are numbers, null is `none`, and sets are lists. The counts of
-- guest code and of holders are naturals, where the source has a uint32_t that wraps.
pub mod Threads
pub mod Guests
pub mod Dispose
pub mod Detach
pub mod Ending
use napi.Prelude.{
  ℕ, zero, suc, ◌+◌, ◌-◌, Bool, true, false, not, ◌&&◌, ◌||◌, Option, none, some, List, [], ◌∷◌,
  ◌==◌, if◌then◌else◌, update, is_some, has, remove,
}
use napi.Bridge.{Status, ok, invalid_arg, is_ok}

-- t_owned_envs and t_last_owned_env of a thread; the set is null when it is empty.
pub record Thread : Type 0 where
  pub owned_envs : List ℕ
  pub last_owned_env : Option ℕ

-- The part of SnapiAgentState that its release reads and writes.
pub record Life : Type 0 where
  pub closing : Bool
  pub teardown_guest_calls : ℕ
  pub stop_requested : Bool
  pub guest_calls : ℕ
  pub pending_interrupts : List ℕ
  pub owner : Option ℕ
  pub envs : List ℕ

-- The env states by their fields, the agents, g_envs and the threads. `deleted` is the env states
-- that were deleted, the last one first.
pub record Process : Type 0 where
  pub agent_of : ℕ → Option ℕ
  pub env_of : ℕ → Option ℕ
  pub holders : ℕ → ℕ
  pub deleted : List ℕ
  pub agents : ℕ → Life
  pub g_envs : List ℕ
  pub threads : ℕ → Thread

abbrev pub same_env : ℕ → Option ℕ → Bool
same_env s none = false
same_env s (some r) = s == r

-- OwnedByThisThread, which remembers the env of a lookup in the set.
pub owned_by_this_thread : ℕ → Option ℕ → Process → Bool × Process
owned_by_this_thread t none p = (false, p)
owned_by_this_thread t (some s) p =
    let th = p.threads t in
    if same_env s th.last_owned_env
    then (true, p)
    else if not (has s th.owned_envs)
    then (false, p)
    else (true, record p { threads = update p.threads t (record th { last_owned_env = some s }) })

-- LookupEnvState
pub lookup_env_state : ℕ → Option ℕ → Process → Option ℕ × Process
unfolding owned_by_this_thread
lookup_env_state t none p = (none, p)
lookup_env_state t (some s) p =
    let (owned, p1) = owned_by_this_thread t (some s) p in
    if not owned || not (is_some (p1.env_of s)) then (none, p1) else (some s, p1)

-- AdoptOnThisThread
pub adopt_on_this_thread : ℕ → ℕ → Process → Process
adopt_on_this_thread t s p =
    let th = p.threads t in
    if has s th.owned_envs
    then p
    else record p { threads = update p.threads t (record th { owned_envs = s ∷ th.owned_envs }) }

-- ForgetOnThisThread
pub forget_on_this_thread : ℕ → ℕ → Process → Process
forget_on_this_thread t s p =
    let th = p.threads t in
    record p {
      threads = update p.threads t (record {
        owned_envs = remove s th.owned_envs;
        last_owned_env = if same_env s th.last_owned_env then none else th.last_owned_env;
      });
    }

-- snapi_bridge_unofficial_retain_env
pub retain_env : Option ℕ → Process → Process
retain_env none p = p
retain_env (some s) p = record p { holders = update p.holders s (p.holders s + 1) }

-- DropEnvStateHolder
pub drop_env_state_holder : ℕ → Process → Process
drop_env_state_holder s p =
    let p1 = record p { holders = update p.holders s (p.holders s - 1) } in
    if p.holders s == 1 then record p1 { deleted = s ∷ p.deleted } else p1

-- snapi_bridge_unofficial_unretain_env
pub unretain_env : Option ℕ → Process → Process
unfolding drop_env_state_holder
unretain_env none p = p
unretain_env (some s) p = drop_env_state_holder s p

-- NewAgentWithPrincipalEnv, where both allocations succeed: the env state `s` of the agent `g`.
pub new_agent_with_principal_env : ℕ → ℕ → ℕ → ℕ → ℕ → Process → Process
unfolding adopt_on_this_thread
new_agent_with_principal_env t s g env owner p = adopt_on_this_thread t s (record p {
  agent_of = update p.agent_of s (some g);
  env_of = update p.env_of s (some env);
  holders = update p.holders s 1;
  agents = update p.agents g (record {
    closing = false;
    teardown_guest_calls = 0;
    stop_requested = false;
    guest_calls = 0;
    pending_interrupts = [];
    owner = some owner;
    envs = s ∷ [];
  });
  g_envs = if has s p.g_envs then p.g_envs else s ∷ p.g_envs;
})

-- GuestCallScope: whether guest code may start, and whether the scope is counted for the teardown.
unfoldable pub enter_guest : Life → (Bool × Bool) × Life
enter_guest l =
    let l1 = record l { guest_calls = l.guest_calls + 1 } in
    if not l.closing
    then ((true, false), l1)
    else if l.stop_requested
    then ((false, false), l1)
    else ((true, true), record l1 { teardown_guest_calls = l.teardown_guest_calls + 1 })

-- ~GuestCallScope
unfoldable pub leave_guest : Bool → Life → Life
leave_guest counted l =
    let l1 = record l { guest_calls = l.guest_calls - 1 } in
    if counted then record l1 { teardown_guest_calls = l.teardown_guest_calls - 1 } else l1

-- The first part of DisposeBridgeState: whether the release may start, and its mark on the agent.
pub start_release : Life → Bool × Life
start_release l =
    if not (l.guest_calls == 0)
    then (false, l)
    else if l.closing
    then (false, l)
    else (true, record l { closing = true })

-- The envs leave g_envs, and their agent is gone.
pub unregister : List ℕ → Process → Process
unregister [] p = p
unregister (s ∷ rest) p =
    unregister rest (record p { env_of = update p.env_of s none; g_envs = remove s p.g_envs })

pub detach : ℕ → List ℕ → Process → Process
unfolding forget_on_this_thread drop_env_state_holder
detach t [] p = p
detach t (s ∷ rest) p = detach t rest (
    drop_env_state_holder s
      (forget_on_this_thread t s (record p { agent_of = update p.agent_of s none })))

-- The last part of DisposeBridgeState, once the provider's owner is released.
pub finish_release : ℕ → ℕ → Process → Process
unfolding unregister detach
finish_release t g p =
    let l = p.agents g in
    detach t l.envs (record (unregister l.envs p) {
      agents = update p.agents g (record l { owner = none; pending_interrupts = [] });
    })

pub release_owner : (ℕ → Process → Status × Process) → Option ℕ → Process → Status × Process
release_owner engine none p = (ok, p)
release_owner engine (some owner) p = engine owner p

-- DisposeBridgeState, less the tables of the agent, which it clears. `engine` is
-- unofficial_napi_release_env with all the guest code that the teardown runs. An env that a thread
-- owns has an agent.
pub dispose_bridge_state :
    (ℕ → Process → Status × Process) → ℕ → Option ℕ → Process → Status × Process
unfolding owned_by_this_thread start_release release_owner finish_release
dispose_bridge_state engine t none p = (ok, p)
dispose_bridge_state engine t (some s) p =
    let (owned, p1) = owned_by_this_thread t (some s) p in
    if not owned then (invalid_arg, p1) else elim (p1.agent_of s) [
      | none ↦ (invalid_arg, p1)
      | some g ↦
          let (started, l) = start_release (p1.agents g) in
          if not started
          then (invalid_arg, p1)
          else let p2 = record p1 { agents = update p1.agents g l } in
            let (status, p3) = release_owner engine l.owner p2 in (status, finish_release t g p3)
    ]

-- snapi_bridge_unofficial_env_release_refused
pub env_release_refused : ℕ → Option ℕ → Process → Bool × Process
unfolding owned_by_this_thread
env_release_refused t none p = (false, p)
env_release_refused t (some s) p =
    let (owned, p1) = owned_by_this_thread t (some s) p in
    if not owned then (true, p1) else elim (p1.agent_of s) [
      | none ↦ (true, p1)
      | some g ↦ ((p1.agents g).closing || not ((p1.agents g).guest_calls == 0), p1)
    ]

-- snapi_bridge_unofficial_terminate_execution on the agent of a registered env: whether the engine
-- is asked to stop.
pub terminate : Life → Bool × Life
terminate l =
    if l.closing
    then (not (l.teardown_guest_calls == 0), record l { stop_requested = true })
    else (true, l)

-- The env that snapi_bridge_dispose takes next: one of an agent that is not closing.
unfoldable pub next_owned : List ℕ → Process → Option ℕ
next_owned [] p = none
next_owned (s ∷ rest) p =
    let later = next_owned rest p in
    elim (p.agent_of s) [ none ↦ later | some g ↦ if (p.agents g).closing then later else some s ]

-- snapi_bridge_dispose, with fuel: `none` where the loop has not ended.
pub dispose : (ℕ → Process → Status × Process) → ℕ → ℕ → Process → Option Process
unfolding dispose_bridge_state next_owned
dispose engine zero t p = none
dispose engine (suc fuel) t p = elim (next_owned (p.threads t).owned_envs p) [
  | none ↦ some p
  | some s ↦ dispose engine fuel t (dispose_bridge_state engine t (some s) p).1
]
