-- ===== src/Bridge/Release/Ending.antt =====
-- The loop of snapi_bridge_dispose ends when no guest code runs.
use napi.Prelude.{
  ℕ, zero, suc, ◌+◌, ◌<◌, ◌≡◌, ◌≢◌, refl, ap, sym, ◌∙◌, true, false, Option, none, some, List, [],
  ◌==◌, arith, update, has, length, Distinct, Option-cases, subst, inl, inr,
}
use napi.Bridge.{Status}
use napi.Bridge.Release.{
  Thread, Life, Process, owned_by_this_thread, start_release, release_owner, unregister,
  finish_release, dispose_bridge_state, next_owned, dispose,
}
use napi.Bridge.Release.Dispose.{owned_envs, lookup-Same, lookup-owned, next-Takes}
use napi.Bridge.Release.Detach.{
  removes, has-removes, removes-Distinct, length-removes, detach-Detached, unregister-parts,
}

-- What a thread owns before snapi_bridge_dispose: no env twice, and each on its agent's list, of
-- which no guest code is running.
pub record Owned (t : ℕ) (p : Process) : Type 0 where
  pub distinct : Distinct (owned_envs t p)
  pub agent : ℕ → ℕ
  pub is_agent : (s : ℕ) → has s (owned_envs t p) ≡ true → p.agent_of s ≡ some (agent s)
  pub listed : (s : ℕ) → has s (owned_envs t p) ≡ true → has s (p.agents (agent s)).envs ≡ true
  pub idle : (s : ℕ) → has s (owned_envs t p) ≡ true → (p.agents (agent s)).guest_calls ≡ 0

-- The lists of envs, the counts of guest code and the marks of all agents are the same.
pub record SameLives (f g : ℕ → Life) : Type 0 where
  pub envs : (h : ℕ) → (f h).envs ≡ (g h).envs
  pub calls : (h : ℕ) → (f h).guest_calls ≡ (g h).guest_calls
  pub closing : (h : ℕ) → (f h).closing ≡ (g h).closing

-- The release of a provider's owner, with the guest code that it runs, leaves the envs that the
-- thread owns, and the agent of each env, and each agent's envs and mark, as they were, and the
-- guest code that it starts has ended.
pub record Quiet (t : ℕ) (engine : ℕ → Process → Status × Process) : Type 0 where
  pub owned : (o : ℕ) (p : Process) → owned_envs t (engine o p).1 ≡ owned_envs t p
  pub agent_of : (o : ℕ) (p : Process) → (engine o p).1.agent_of ≡ p.agent_of
  pub lives : (o : ℕ) (p : Process) → SameLives (engine o p).1.agents p.agents

-- After one turn of the loop with an env of the agent `g`.
record Released (t g : ℕ) (es : List ℕ) (p q : Process) : Type 0 where
  owned : owned_envs t q ≡ removes es (owned_envs t p)
  agent_of : (x : ℕ) → has x es ≡ false → q.agent_of x ≡ p.agent_of x
  envs : (h : ℕ) → h ≢ g → (q.agents h).envs ≡ (p.agents h).envs
  calls : (h : ℕ) → h ≢ g → (q.agents h).guest_calls ≡ (p.agents h).guest_calls

finish-Released : (t g : ℕ) (p : Process) → Released t g (p.agents g).envs p (finish_release t g p)
unfolding finish_release
finish-Released t g p =
    let l = p.agents g in
    let u = unregister l.envs p in
    let p1 : Process = record u {
      agents = update p.agents g (record l { owner = none; pending_interrupts = [] });
    } in
    let r = unregister-parts t l.envs p in
    let d = detach-Detached t l.envs p1 in
    record {
      owned = d.owned ∙ ap (λ (f : ℕ → Thread). removes l.envs (f t).owned_envs) r.2;
      agent_of = λ x h. d.agent_of x h ∙ ap (λ (f : ℕ → Option ℕ). f x) r.0;
      envs = λ h n. ap (λ (f : ℕ → Life). (f h).envs) d.agents ∙ ground (arith, n);
      calls = λ h n. ap (λ (f : ℕ → Life). (f h).guest_calls) d.agents ∙ ground (arith, n);
    }

owner-parts :
    (engine : ℕ → Process → Status × Process) (t : ℕ) (o : Option ℕ) (p : Process)
    → Quiet t engine
    → let q = (release_owner engine o p).1 in
      (owned_envs t q ≡ owned_envs t p) × (q.agent_of ≡ p.agent_of) × SameLives q.agents p.agents
unfolding release_owner
owner-parts engine t none p k =
    (refl, refl, record { envs = λ h. refl; calls = λ h. refl; closing = λ h. refl })
owner-parts engine t (some o) p k = (k.owned o p, k.agent_of o p, k.lives o p)

-- The state in which the provider's owner is released.
marked : ℕ → Process → Process
marked g p = record p { agents = update p.agents g (record (p.agents g) { closing = true }) }

turn_lem :
    (engine : ℕ → Process → Status × Process) (t s g : ℕ) (p : Process)
    → has s (owned_envs t p) ≡ true
    → p.agent_of s ≡ some g
    → (p.agents g).guest_calls ≡ 0
    → (p.agents g).closing ≡ false
    → let p1 = (owned_by_this_thread t (some s) p).1 in
      (dispose_bridge_state engine t (some s) p).1
      ≡ finish_release t g (release_owner engine (p1.agents g).owner (marked g p1)).1
unfolding dispose_bridge_state start_release marked
turn_lem engine t s g p h a c open_ =
    let k = lookup-Same t s p h in
    let p1 = (owned_by_this_thread t (some s) p).1 in
    let a1 : p1.agent_of s ≡ some g = ap (λ (f : ℕ → Option ℕ). f s) k.agent_of ∙ a in
    let c1 : (p1.agents g).guest_calls == 0 ≡ true =
      ap (λ (f : ℕ → Life). (f g).guest_calls == 0) k.agents ∙ ground (arith, c) in
    let c2 : (p1.agents g).closing ≡ false =
      ap (λ (f : ℕ → Life). (f g).closing) k.agents ∙ open_ in
    rw (lookup-owned t s p h, a1, c1, c2) refl

marked-parts :
    (g : ℕ) (p : Process) (h : ℕ)
    → ((marked g p).agent_of ≡ p.agent_of)
      × ((marked g p).threads ≡ p.threads)
      × (((marked g p).agents h).envs ≡ (p.agents h).envs)
      × (((marked g p).agents h).guest_calls ≡ (p.agents h).guest_calls)
unfolding marked
marked-parts g p h = (refl, refl, ground arith, ground arith)

-- One turn of the loop.
turn-Released :
    (engine : ℕ → Process → Status × Process) (t s g : ℕ) (p : Process)
    → Quiet t engine
    → has s (owned_envs t p) ≡ true
    → p.agent_of s ≡ some g
    → (p.agents g).guest_calls ≡ 0
    → (p.agents g).closing ≡ false
    → Released t g (p.agents g).envs p (dispose_bridge_state engine t (some s) p).1
turn-Released engine t s g p quiet h a c open_ =
    let k = lookup-Same t s p h in
    let p1 = (owned_by_this_thread t (some s) p).1 in
    let p2 = marked g p1 in
    let p3 = (release_owner engine (p1.agents g).owner p2).1 in
    let (ow, ag, lives) = owner-parts engine t (p1.agents g).owner p2 quiet in
    let m = marked-parts g p1 in
    let es : (p3.agents g).envs ≡ (p.agents g).envs =
      lives.envs g ∙ (m g).2 ∙ ap (λ (f : ℕ → Life). (f g).envs) k.agents in
    let r : Released t g (p.agents g).envs p3 (finish_release t g p3) =
      subst (λ (xs : List ℕ). Released t g xs p3 (finish_release t g p3)) es
        (finish-Released t g p3) in
    subst (Released t g (p.agents g).envs p) (sym (turn_lem engine t s g p h a c open_)) (record {
      owned =
          r.owned
          ∙ ap (removes (p.agents g).envs)
              (ow ∙ ap (λ (f : ℕ → Thread). (f t).owned_envs) (m g).1 ∙ k.owned);
      agent_of = λ x n. r.agent_of x n ∙ ap (λ (f : ℕ → Option ℕ). f x) (ag ∙ (m g).0 ∙ k.agent_of);
      envs =
          λ x n. r.envs x n ∙ lives.envs x ∙ (m x).2 ∙ ap (λ (f : ℕ → Life). (f x).envs) k.agents;
      calls = λ x n.
          r.calls x n ∙ lives.calls x ∙ (m x).3 ∙ ap (λ (f : ℕ → Life). (f x).guest_calls) k.agents;
    })

turn-Owned :
    (t s : ℕ) (p q : Process) (k : Owned t p)
    → has s (owned_envs t p) ≡ true
    → Released t (k.agent s) (p.agents (k.agent s)).envs p q
    → Owned t q × (length (owned_envs t q) < length (owned_envs t p))
turn-Owned t s p q k h r =
    let g = k.agent s in
    let es = (p.agents g).envs in
    let xs = owned_envs t p in
    let split : (x : ℕ) → has x (owned_envs t q) ≡ true → (has x xs ≡ true) × (has x es ≡ false) =
      λ x e. ground (arith, has-removes es xs x k.distinct, ap (has x) r.owned, e) in
    let other : (x : ℕ) → has x (owned_envs t q) ≡ true → k.agent x ≢ g = λ x e same. absurd (
      ground (
        arith,
        split x e,
        subst (λ (y : ℕ). has x (p.agents y).envs ≡ true) same (k.listed x (split x e).0),
      )) in
    (
      record {
        distinct = subst Distinct (sym r.owned) (removes-Distinct es xs k.distinct);
        agent = k.agent;
        is_agent = λ x e. r.agent_of x (split x e).1 ∙ k.is_agent x (split x e).0;
        listed = λ x e. ap (has x) (r.envs (k.agent x) (other x e)) ∙ k.listed x (split x e).0;
        idle = λ x e. r.calls (k.agent x) (other x e) ∙ k.idle x (split x e).0;
      },
      subst (λ (ys : List ℕ). length ys < length xs) (sym r.owned)
          (length-removes es xs s (k.listed s h) h),
    )

dispose-fuel :
    (engine : ℕ → Process → Status × Process) (fuel t : ℕ) (p : Process)
    → Quiet t engine
    → Owned t p
    → length (owned_envs t p) < fuel
    → (q : Process) × (dispose engine fuel t p ≡ some q) × (next_owned (owned_envs t q) q ≡ none)
unfolding dispose
dispose-fuel engine zero t p quiet k b = absurd (omega (arith, b))
dispose-fuel engine (suc fuel) t p quiet k b = elim (Option-cases (next_owned (owned_envs t p) p)) [
  | inl n ↦ (p, rw (dispose, n) refl, n)
  | inr (s, n) ↦
      (let takes = next-Takes (owned_envs t p) p s n in
        let h = takes.among in
        let a = k.is_agent s h in
        let open_ : (p.agents (k.agent s)).closing ≡ false =
          subst (λ (g : ℕ). (p.agents g).closing ≡ false) (ground (arith, takes.is_agent, a))
            takes.runs in
        let r = turn-Released engine t s (k.agent s) p quiet h a (k.idle s h) open_ in
        let next = (dispose_bridge_state engine t (some s) p).1 in
        let (k2, less) = turn-Owned t s p next k h r in
        let (q, e, done) = dispose-fuel engine fuel t next quiet k2 (omega (arith, b, less)) in
        (q, rw (dispose, n) e, done))
]

-- When no guest code of the agents of the thread's envs is running, and releasing a provider's
-- owner leaves the other envs of the thread alone: the loop of snapi_bridge_dispose ends, within
-- one turn more than the thread owns envs, and leaves no env of an agent that is not closing.
pub dispose-ends :
    (engine : ℕ → Process → Status × Process) (t : ℕ) (p : Process)
    → Quiet t engine
    → Owned t p
    → (q : Process) × (dispose engine (length (owned_envs t p) + 1) t p ≡ some q)
      × (next_owned (owned_envs t q) q ≡ none)
dispose-ends engine t p quiet k =
    dispose-fuel engine (length (owned_envs t p) + 1) t p quiet k (omega arith)
