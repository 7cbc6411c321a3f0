-- ===== src/Bridge/Release/Detach.antt =====
-- What detaching the envs of an agent leaves of the envs of a thread.
use napi.Prelude.{
  ℕ, ◌≤◌, ◌<◌, ◌≡◌, refl, ap, sym, ◌∙◌, true, false, not, ◌&&◌, Option, none, List, [], ◌∷◌, ◌==◌,
  arith, update, has, has-remove_self, has-remove_ne, remove-Distinct, length-remove, remove-absent,
  remove, length, Distinct, Bool-cases, subst, inl, inr,
}
use napi.Bridge.Release.{
  Thread, Process, forget_on_this_thread, drop_env_state_holder, unregister, detach,
}
use napi.Bridge.Release.Dispose.{owned_envs}

abbrev pub removes : List ℕ → List ℕ → List ℕ
removes [] xs = xs
removes (e ∷ es) xs = removes es (remove e xs)

pub has-removes :
    (es xs : List ℕ) (x : ℕ) → Distinct xs → has x (removes es xs) ≡ (has x xs && not (has x es))
has-removes [] xs x d = ground arith
has-removes (e ∷ es) xs x d = elim (Bool-cases (x == e)) [
  | inl q ↦
      (let same : x ≡ e = ground (arith, q) in
        let off : has x (remove e xs) ≡ false =
          subst (λ (y : ℕ). has y (remove e xs) ≡ false) (sym same) (has-remove_self e xs d) in
        ground (arith, has-removes es (remove e xs) x (remove-Distinct e xs d), q, off))
  | inr q ↦
      (let other = has-remove_ne e x xs (λ same. absurd (ground (arith, q, same))) in
        ground (arith, has-removes es (remove e xs) x (remove-Distinct e xs d), q, other))
]

pub removes-Distinct : (es xs : List ℕ) → Distinct xs → Distinct (removes es xs)
removes-Distinct [] xs d = d
removes-Distinct (e ∷ es) xs d = removes-Distinct es (remove e xs) (remove-Distinct e xs d)

length-remove_le : (e : ℕ) (xs : List ℕ) → length (remove e xs) ≤ length xs
length-remove_le e xs = elim (Bool-cases (has e xs)) [
  | inl h ↦ omega (arith, length-remove e xs h)
  | inr h ↦ rw (remove-absent e xs h) (omega arith)
]

length-removes_le : (es xs : List ℕ) → length (removes es xs) ≤ length xs
length-removes_le [] xs = omega arith
length-removes_le (e ∷ es) xs =
    omega (arith, length-removes_le es (remove e xs), length-remove_le e xs)

pub length-removes :
    (es xs : List ℕ) (s : ℕ)
    → has s es ≡ true
    → has s xs ≡ true
    → length (removes es xs) < length xs
length-removes [] xs s h k = absurd (ground (arith, h))
length-removes (e ∷ es) xs s h k = elim (Bool-cases (has e xs)) [
  | inl q ↦ omega (arith, length-removes_le es (remove e xs), length-remove e xs q)
  | inr q ↦
      (let other : has s es ≡ true = ground (arith, h, k, q) in
        rw (remove-absent e xs q) (length-removes es xs s other k))
]

drop-parts :
    (t s : ℕ) (p : Process)
    → let q = drop_env_state_holder s p in
      (q.agent_of ≡ p.agent_of) × (q.agents ≡ p.agents) × (q.threads ≡ p.threads)
unfolding drop_env_state_holder
drop-parts t s p = elim (Bool-cases (p.holders s == 1)) [
  | inl e ↦ rw e (refl, refl, refl)
  | inr e ↦ rw e (refl, refl, refl)
]

here : (t : ℕ) (f : ℕ → Thread) (u : Thread) → update f t u t ≡ u
here t f u = ground arith

-- What detaching the envs of an agent leaves.
pub record Detached (t : ℕ) (es : List ℕ) (p q : Process) : Type 0 where
  pub owned : owned_envs t q ≡ removes es (owned_envs t p)
  pub agents : q.agents ≡ p.agents
  pub agent_of : (x : ℕ) → has x es ≡ false → q.agent_of x ≡ p.agent_of x

pub detach-Detached : (t : ℕ) (es : List ℕ) (p : Process) → Detached t es p (detach t es p)
unfolding detach forget_on_this_thread
detach-Detached t [] p = record { owned = refl; agents = refl; agent_of = λ x h. refl }
detach-Detached t (s ∷ es) p =
    let p1 = forget_on_this_thread t s (record p { agent_of = update p.agent_of s none }) in
    let p2 = drop_env_state_holder s p1 in
    let d = drop-parts t s p1 in
    let k = detach-Detached t es p2 in
    record {
      owned =
          k.owned
          ∙ ap (λ (f : ℕ → Thread). removes es (f t).owned_envs) d.2
          ∙ ap (λ (u : Thread). removes es u.owned_envs) (here t p.threads _);
      agents = k.agents ∙ d.1;
      agent_of = λ x h.
          k.agent_of x (ground (arith, h)) ∙ ap (λ (f : ℕ → Option ℕ). f x) d.0 ∙ ground (arith, h);
    }

pub unregister-parts :
    (t : ℕ) (es : List ℕ) (p : Process)
    → let q = unregister es p in
      (q.agent_of ≡ p.agent_of) × (q.agents ≡ p.agents) × (q.threads ≡ p.threads)
unfolding unregister
unregister-parts t [] p = (refl, refl, refl)
unregister-parts t (s ∷ es) p =
    unregister-parts t es (record p { env_of = update p.env_of s none; g_envs = remove s p.g_envs })
