-- ===== src/Bridge/Release/Threads.antt =====
-- Which thread owns an env, and when the release of its agent is refused.
use napi.Prelude.{
  ℕ, ◌≡◌, ◌≢◌, ◌⊎◌, refl, ap, sym, ◌∙◌, true, false, Option, none, some, List, ◌∷◌, ◌==◌, arith,
  if◌then◌else◌, update, has, has-remove_self, has-remove_ne, remove-Distinct, remove, Distinct,
  Bool-cases, subst, inl, inr,
}
use napi.Bridge.{Status, invalid_arg}
use napi.Bridge.Release.{
  Thread, Process, same_env, owned_by_this_thread, adopt_on_this_thread, forget_on_this_thread,
  start_release, release_owner, finish_release, dispose_bridge_state, env_release_refused,
}

-- The env that a thread remembers is one that it owns, and it owns no env twice.
pub record IsThread (th : Thread) : Type 0 where
  pub distinct : Distinct th.owned_envs
  pub member : (s : ℕ) → same_env s th.last_owned_env ≡ true → has s th.owned_envs ≡ true

-- A step on thread `t` that gives it the envs `xs`, and leaves the other threads alone.
pub record Owns (t : ℕ) (xs : List ℕ) (p q : Process) : Type 0 where
  pub thread : IsThread (q.threads t)
  pub owned : (q.threads t).owned_envs ≡ xs
  pub others : (u : ℕ) → u ≢ t → q.threads u ≡ p.threads u

lookup-Owns :
    (t s : ℕ) (p : Process)
    → IsThread (p.threads t)
    → ((owned_by_this_thread t (some s) p).0 ≡ has s (p.threads t).owned_envs)
      × Owns t (p.threads t).owned_envs p (owned_by_this_thread t (some s) p).1
unfolding owned_by_this_thread
lookup-Owns t s p k = elim (Bool-cases (same_env s (p.threads t).last_owned_env)) [
  | inl e ↦ rw e (sym (k.member s e), record { thread = k; owned = refl; others = λ u n. refl })
  | inr e ↦ elim (Bool-cases (has s (p.threads t).owned_envs)) [
    | inr h ↦ rw (e, h) (refl, record { thread = k; owned = refl; others = λ u n. refl })
    | inl h ↦
        rw (e, h)
          (
            refl,
            record {
              thread = record {
                distinct = ground (arith, k.distinct);
                member = λ x q. ground (arith, q, h);
              };
              owned = ground arith;
              others = λ u n. ground (arith, n);
            },
          )
  ]
]

adopt-Owns :
    (t s : ℕ) (p : Process)
    → IsThread (p.threads t)
    → let xs = (p.threads t).owned_envs in
      Owns t (if has s xs then xs else s ∷ xs) p (adopt_on_this_thread t s p)
unfolding adopt_on_this_thread
adopt-Owns t s p k = elim (Bool-cases (has s (p.threads t).owned_envs)) [
  | inl h ↦ rw h (record { thread = k; owned = refl; others = λ u n. refl })
  | inr h ↦ rw h (record {
    thread = record {
      distinct = ground (arith, k.distinct, h);
      member = λ x q. ground (arith, q, k.member x);
    };
    owned = ground arith;
    others = λ u n. ground (arith, n);
  })
]

kept-member :
    (s x : ℕ) (th : Thread)
    → IsThread th
    → same_env x (if same_env s th.last_owned_env then none else th.last_owned_env) ≡ true
    → has x (remove s th.owned_envs) ≡ true
kept-member s x th k q = elim (Bool-cases (same_env s th.last_owned_env)) [
  | inl e ↦ absurd (ground (arith, e, q))
  | inr e ↦
      (let h : same_env x th.last_owned_env ≡ true = ground (arith, e, q) in
        let n : x ≢ s = λ same.
          absurd
            (ground (arith, e, subst (λ (y : ℕ). same_env y th.last_owned_env ≡ true) same h)) in
        has-remove_ne s x th.owned_envs n ∙ k.member x h)
]

same_at : (t : ℕ) (f : ℕ → Thread) (u : Thread) → update f t u t ≡ u
same_at t f u = ground arith

forget-Owns :
    (t s : ℕ) (p : Process)
    → IsThread (p.threads t)
    → Owns t (remove s (p.threads t).owned_envs) p (forget_on_this_thread t s p)
unfolding forget_on_this_thread
forget-Owns t s p k = record {
  thread = subst IsThread (sym (same_at t p.threads _)) (record {
    distinct = remove-Distinct s (p.threads t).owned_envs k.distinct;
    member = λ x q. kept-member s x (p.threads t) k q;
  });
  owned = ground arith;
  others = λ u n. ground (arith, n);
}

-- For a thread that remembers only an env that it owns: a lookup answers whether the thread owns
-- the env and keeps what it owns; adopting adds the env, forgetting removes it and the memory of
-- it, and all three leave the other threads alone.
pub owned-adopt-forget :
    (t s : ℕ) (p : Process)
    → IsThread (p.threads t)
    → let xs = (p.threads t).owned_envs in
      ((owned_by_this_thread t (some s) p).0 ≡ has s xs)
      × Owns t xs p (owned_by_this_thread t (some s) p).1
      × Owns t (if has s xs then xs else s ∷ xs) p (adopt_on_this_thread t s p)
      × Owns t (remove s xs) p (forget_on_this_thread t s p)
      × ((owned_by_this_thread t (some s) (forget_on_this_thread t s p)).0 ≡ false)
owned-adopt-forget t s p k =
    let xs = (p.threads t).owned_envs in
    let l = lookup-Owns t s p k in
    let f = forget-Owns t s p k in
    let q = forget_on_this_thread t s p in
    (
      l.0,
      l.1,
      adopt-Owns t s p k,
      f,
      (lookup-Owns t s q f.thread).0 ∙ ap (has s) f.owned ∙ has-remove_self s xs k.distinct,
    )

lookup-agent_of :
    (t s : ℕ) (p : Process) → (owned_by_this_thread t (some s) p).1.agent_of ≡ p.agent_of
unfolding owned_by_this_thread
lookup-agent_of t s p = elim (Bool-cases (same_env s (p.threads t).last_owned_env)) [
  | inl e ↦ rw e refl
  | inr e ↦ elim (Bool-cases (has s (p.threads t).owned_envs)) [
    | inl h ↦ rw (e, h) refl
    | inr h ↦ rw (e, h) refl
  ]
]

-- For an env of which the agent is known: snapi_bridge_unofficial_env_release_refused answers
-- whether the release is refused. Either it is, with `invalid_arg`, and only the lookup is
-- remembered; or the agent is marked as closing, the provider's owner is released and the envs of
-- the agent are forgotten.
pub env_release_refused-dispose :
    (engine : ℕ → Process → Status × Process) (t s g : ℕ) (p : Process)
    → p.agent_of s ≡ some g
    → let refused = env_release_refused t (some s) p in
      let released = dispose_bridge_state engine t (some s) p in
      let q = refused.1 in
      let closing = record q {
        agents = update q.agents g (record (q.agents g) { closing = true });
      } in
      let r = release_owner engine (q.agents g).owner closing in
      ((refused.0 ≡ true) × (released ≡ (invalid_arg, q)))
      ⊎ ((refused.0 ≡ false) × (released ≡ (r.0, finish_release t g r.1)))
unfolding env_release_refused dispose_bridge_state start_release
env_release_refused-dispose engine t s g p a =
    let q = (owned_by_this_thread t (some s) p).1 in
    elim (Bool-cases (owned_by_this_thread t (some s) p).0) [
      | inr o ↦ rw o (inl (refl, refl))
      | inl o ↦
          (let b : q.agent_of s ≡ some g =
              ap (λ (f : ℕ → Option ℕ). f s) (lookup-agent_of t s p) ∙ a in
            elim (Bool-cases ((q.agents g).guest_calls == 0)) [
              | inr c ↦ rw (o, b, c) (inl (ground arith, refl))
              | inl c ↦ elim (Bool-cases (q.agents g).closing) [
                | inl d ↦ rw (o, b, c, d) (inl (refl, refl))
                | inr d ↦ rw (o, b, c, d) (inr (refl, refl))
              ]
            ])
    ]
