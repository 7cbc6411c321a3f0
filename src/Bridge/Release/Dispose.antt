-- ===== src/Bridge/Release/Dispose.antt =====
-- snapi_bridge_dispose: when its loop ends, and when it does not.
use napi.Prelude.{
  ℕ, zero, suc, ◌<◌, ◌≡◌, refl, ap, sym, ◌∙◌, true, false, Option, none, some, List, [], ◌∷◌, ◌==◌,
  arith, has, Bool-cases, Option-cases, subst, inl, inr,
}
use napi.Bridge.{Status}
use napi.Bridge.Release.{
  Life, Process, same_env, owned_by_this_thread, start_release, dispose_bridge_state, next_owned,
  dispose,
}

abbrev pub owned_envs : ℕ → Process → List ℕ
owned_envs t p = (p.threads t).owned_envs

-- A process in which only the lookup of an env of thread `t` is remembered.
pub record Same (t : ℕ) (p q : Process) : Type 0 where
  pub agents : q.agents ≡ p.agents
  pub agent_of : q.agent_of ≡ p.agent_of
  pub owned : owned_envs t q ≡ owned_envs t p

pub lookup-Same :
    (t s : ℕ) (p : Process)
    → has s (owned_envs t p) ≡ true
    → Same t p (owned_by_this_thread t (some s) p).1
unfolding owned_by_this_thread
lookup-Same t s p h = elim (Bool-cases (same_env s (p.threads t).last_owned_env)) [
  | inl e ↦ rw e (record { agents = refl; agent_of = refl; owned = refl })
  | inr e ↦ rw (e, h) (record { agents = refl; agent_of = refl; owned = ground arith })
]

pub lookup-owned :
    (t s : ℕ) (p : Process)
    → has s (owned_envs t p) ≡ true
    → (owned_by_this_thread t (some s) p).0 ≡ true
unfolding owned_by_this_thread
lookup-owned t s p h = ground (arith, h)

-- The env that the loop takes: one of the list, and its agent is not closing.
pub record Takes (xs : List ℕ) (p : Process) (s : ℕ) : Type 0 where
  pub among : has s xs ≡ true
  pub agent : ℕ
  pub is_agent : p.agent_of s ≡ some agent
  pub runs : (p.agents agent).closing ≡ false

Takes-later : (x s : ℕ) (xs : List ℕ) (p : Process) → Takes xs p s → Takes (x ∷ xs) p s
Takes-later x s xs p k = record {
  among = ground (arith, k.among);
  agent = k.agent;
  is_agent = k.is_agent;
  runs = k.runs;
}

pub next-Takes : (xs : List ℕ) (p : Process) (s : ℕ) → next_owned xs p ≡ some s → Takes xs p s
unfolding next_owned
next-Takes [] p s e = absurd (ground (arith, e))
next-Takes (x ∷ xs) p s e = elim (Option-cases (p.agent_of x)) [
  | inl n ↦ Takes-later x s xs p (next-Takes xs p s (ground (arith, e, n)))
  | inr (g, n) ↦ elim (Bool-cases (p.agents g).closing) [
    | inl c ↦ Takes-later x s xs p (next-Takes xs p s (ground (arith, e, n, c)))
    | inr c ↦
        (let same : s ≡ x = ground (arith, e, n, c) in
          record {
            among = ground (arith, same);
            agent = g;
            is_agent = ap p.agent_of same ∙ n;
            runs = c;
          })
  ]
]

refused-step :
    (engine : ℕ → Process → Status × Process) (t s g : ℕ) (p : Process)
    → has s (owned_envs t p) ≡ true
    → p.agent_of s ≡ some g
    → 0 < (p.agents g).guest_calls
    → Same t p (dispose_bridge_state engine t (some s) p).1
unfolding dispose_bridge_state start_release
refused-step engine t s g p h a c =
    let k = lookup-Same t s p h in
    let p1 = (owned_by_this_thread t (some s) p).1 in
    let a1 : p1.agent_of s ≡ some g = ap (λ (f : ℕ → Option ℕ). f s) k.agent_of ∙ a in
    let c1 : (p1.agents g).guest_calls == 0 ≡ false =
      ap (λ (f : ℕ → Life). (f g).guest_calls == 0) k.agents ∙ ground (arith, c) in
    rw (lookup-owned t s p h, a1, c1) k

next-same :
    (xs : List ℕ) (p q : Process)
    → q.agents ≡ p.agents
    → q.agent_of ≡ p.agent_of
    → next_owned xs q ≡ next_owned xs p
unfolding next_owned
next-same [] p q e f = refl
next-same (x ∷ xs) p q e f =
    let ih = next-same xs p q e f in
    let a = ap (λ (u : ℕ → Option ℕ). u x) f in
    elim (Option-cases (p.agent_of x)) [
      | inl n ↦ ground (arith, ih, a, n)
      | inr (g, n) ↦ ground (arith, ih, a, n, ap (λ (u : ℕ → Life). (u g).closing) e)
    ]

next-Same :
    (t : ℕ) (p q : Process)
    → Same t p q
    → next_owned (owned_envs t q) q ≡ next_owned (owned_envs t p) p
next-Same t p q k =
    next-same (owned_envs t q) p q k.agents k.agent_of
    ∙ ap (λ (xs : List ℕ). next_owned xs p) k.owned

-- While guest code of an agent runs on the thread, the release of the agent is refused and its env
-- stays the next one: the loop of snapi_bridge_dispose does not end, whatever fuel it is given.
pub dispose-stuck :
    (engine : ℕ → Process → Status × Process) (fuel t s g : ℕ) (p : Process)
    → next_owned (owned_envs t p) p ≡ some s
    → p.agent_of s ≡ some g
    → 0 < (p.agents g).guest_calls
    → dispose engine fuel t p ≡ none
unfolding dispose
dispose-stuck engine zero t s g p e a c = refl
dispose-stuck engine (suc fuel) t s g p e a c =
    let q = (dispose_bridge_state engine t (some s) p).1 in
    let k = refused-step engine t s g p (next-Takes (owned_envs t p) p s e).among a c in
    rw (dispose, e)
      (dispose-stuck engine fuel t s g q (next-Same t p q k ∙ e)
        (ap (λ (f : ℕ → Option ℕ). f s) k.agent_of ∙ a)
        (subst (λ (f : ℕ → Life). 0 < (f g).guest_calls) (sym k.agents) c))
