-- ===== src/Bridge/Calls/Keeping.antt =====
-- What a store does to the ids that name a value.
use napi.Prelude.{
  ℕ, ◌<◌, ◌≡◌, ◌⊎◌, refl, ap, sym, ◌∙◌, false, Option, none, some, arith, ◌==◌, length, is_some,
  Bool-cases, List-cases, subst, inl, inr,
}
use napi.Bridge.{Agent, with_root, store_value_in_frame, store_value, load_value}
use napi.Bridge.Slots.{IsBridge, root-IsBridge}
use napi.Bridge.Values.{is_refused, Stored, store-cases}
use napi.Bridge.Scopes.Opening.{root-load}

-- The bridge keeps the ids that name a value.
pub record Keeps (a b : Agent) : Type 0 where
  pub bridge : IsBridge b
  pub named : (id : ℕ) → (load_value id a ≡ none) ⊎ (load_value id b ≡ load_value id a)

pub none-Keeps : (a : Agent) → IsBridge a → Keeps a a
none-Keeps a k = record { bridge = k; named = λ id. inr refl }

pub then-Keeps : (a b c : Agent) → Keeps a b → Keeps b c → Keeps a c
then-Keeps a b c j k = record {
  bridge = k.bridge;
  named = λ id. elim (j.named id) [
    | inl n ↦ inl n
    | inr p ↦ elim (k.named id) [ inl n ↦ inl (sym p ∙ n) | inr q ↦ inr (q ∙ p) ]
  ];
}

with_root-Keeps : (a : Agent) → IsBridge a → Keeps a (with_root a)
with_root-Keeps a k = record { bridge = root-IsBridge a k; named = λ id. inr (root-load id a) }

pub root-length : (a : Agent) → 0 < length (with_root a).scope_frames
unfolding with_root
root-length a = elim (List-cases a.scope_frames) [
  | inl e ↦ rw e (omega arith)
  | inr (f, (fs, e)) ↦ ground (arith, e)
]

Stored-Keeps : (n v : ℕ) (a : Agent) (r : ℕ × Agent) → Stored n v a r → Keeps a r.1
Stored-Keeps n v a r s = record {
  bridge = s.keeps;
  named = λ id. elim (Bool-cases (id == r.0)) [
    | inl q ↦ inl (ap (λ (x : ℕ). load_value x a) (ground (arith, q)) ∙ s.fresh)
    | inr q ↦ inr (ground (arith, q, s.loads id))
  ];
}

no_env-store :
    (n v : ℕ) (a : Agent) → is_some a.env ≡ false → store_value_in_frame n (some v) a ≡ (0, a)
unfolding store_value_in_frame
no_env-store n v a e = ground (arith, e)

pub in_frame-Keeps :
    (n : ℕ) (v : Option ℕ) (a : Agent)
    → IsBridge a
    → n < length a.scope_frames
    → Keeps a (store_value_in_frame n v a).1
unfolding store_value_in_frame
in_frame-Keeps n none a k b = none-Keeps a k
in_frame-Keeps n (some v) a k b =
    let same : (q : store_value_in_frame n (some v) a ≡ (0, a))
        → Keeps a (store_value_in_frame n (some v) a).1 =
      λ q. subst (Keeps a) (sym (ap (λ (x : ℕ × Agent). x.1) q)) (none-Keeps a k) in
    elim (Bool-cases (is_some a.env)) [
      | inr e ↦ same (no_env-store n v a e)
      | inl e ↦
          (let s = store-cases n v a k e b in
            elim (Bool-cases (is_refused a)) [
              | inl r ↦ same (s.0 r)
              | inr r ↦ Stored-Keeps n v a (store_value_in_frame n (some v) a) (s.1 r)
            ])
    ]

pub store_value-Keeps : (v : Option ℕ) (a : Agent) → IsBridge a → Keeps a (store_value v a).1
unfolding store_value
store_value-Keeps v a k =
    then-Keeps a (with_root a) (store_value v a).1 (with_root-Keeps a k)
      (in_frame-Keeps 0 v (with_root a) (root-IsBridge a k) (root-length a))
