-- ===== src/Bridge/Generations.antt =====
-- Stale ids: how long the generation of a slot keeps an old id from naming a new value.
use napi.Prelude.{
  ℕ, ◌+◌, ◌%◌, ◌≤◌, ◌<◌, ◌≡◌, refl, ap, sym, ◌∙◌, Bool, true, ◌&&◌, Option, none, some, List, [],
  ◌∷◌, arith, ltb, ◌==◌, if◌then◌else◌, length, is_some, has, Bool-cases, List-cases, subst, inl,
  inr,
}
use napi.Bridge.{
  generations, Slot, Agent, with_root, push_scope_frame, occupy, store_value_in_frame, load_value,
  pop_current_frame,
}
use napi.Bridge.Slots.{owned_all, IsBridge, Owns-frames, root-IsBridge, pop-IsBridge}
use napi.Bridge.Values.{slot_of, load_lem, is_refused, store-cases, pop-slots}

-- What the bridge does with slots and frames; the frame of a store is named by its position.
pub data Op : Type 0 where
  store_at : ℕ → ℕ → Op
  push : Option ℕ → Option ℕ → ℕ → Op
  pop : Bool → Op

abbrev pub run_op : Op → Agent → Agent
run_op (store_at n v) a =
    if ltb n (length a.scope_frames) then (store_value_in_frame n (some v) a).1 else a
run_op (push scope esc_scope id) a = push_scope_frame scope esc_scope id a
run_op (pop b) a = pop_current_frame b a

abbrev pub run : List Op → Agent → Agent
run [] a = a
run (op ∷ ops) a = run ops (run_op op a)

-- How often a step or a run frees a slot.
abbrev pub frees_by : ℕ → Op → Agent → ℕ
frees_by j (store_at n v) a = 0
frees_by j (push scope esc_scope id) a = 0
frees_by j (pop b) a = elim a.scope_frames [ [] ↦ 0 | f ∷ _ ↦ if has j f.owned_slots then 1 else 0 ]

abbrev pub frees : ℕ → List Op → Agent → ℕ
frees j [] a = 0
frees j (op ∷ ops) a = frees_by j op a + frees j ops (run_op op a)

-- What a step does to a slot that was there.
record Steps (j n : ℕ) (a b : Agent) : Type 0 where
  keeps : IsBridge b
  env : b.env ≡ a.env
  grows : a.slot_count ≤ b.slot_count
  generation : (b.value_slots j).generation ≡ ((a.value_slots j).generation + n) % generations
  same : n ≡ 0 → (a.value_slots j).in_use ≡ true → b.value_slots j ≡ a.value_slots j

none-Steps : (j : ℕ) (a : Agent) → IsBridge a → Steps j 0 a a
none-Steps j a k =
    let g = k.generation j in
    record {
      keeps = k;
      env = refl;
      grows = omega arith;
      generation = omega (arith, g);
      same = λ z u. refl;
    }

store-Steps :
    (n v j : ℕ) (a : Agent)
    → IsBridge a
    → is_some a.env ≡ true
    → n < length a.scope_frames
    → j < a.slot_count
    → Steps j 0 a (store_value_in_frame n (some v) a).1
unfolding store_value_in_frame occupy
store-Steps n v j a k e m b =
    let s = store-cases n v a k e m in
    let g = k.generation j in
    elim (Bool-cases (is_refused a)) [
      | inl r ↦
          subst (λ (x : Agent). Steps j 0 a x) (sym (ap (λ (x : ℕ × Agent). x.1) (s.0 r)))
            (none-Steps j a k)
      | inr r ↦ record {
        keeps = (s.1 r).keeps;
        env = ground arith;
        grows = ground arith;
        generation = ground (arith, g, b);
        same = λ z u. ground (arith, u, b, k.used j, k.disjoint j, e, r);
      }
    ]

add_mod :
    (g m n h r : ℕ)
    → h ≡ (g + m) % generations
    → r ≡ (h + n) % generations
    → r ≡ (g + (m + n)) % generations
add_mod g m n h r e f = omega (arith, e, f)

root-parts :
    (a : Agent)
    → ((with_root a).env ≡ a.env)
      × ((with_root a).slot_count ≡ a.slot_count)
      × ((with_root a).value_slots ≡ a.value_slots)
unfolding with_root
root-parts a = elim (List-cases a.scope_frames) [
  | inl e ↦ rw e (refl, refl, refl)
  | inr (f, (fs, e)) ↦ rw e (refl, refl, refl)
]

pop-empty : (b : Bool) (a : Agent) → a.scope_frames ≡ [] → pop_current_frame b a ≡ a
unfolding pop_current_frame
pop-empty b a e = ground (arith, e)

push-Steps :
    (s e : Option ℕ) (id j : ℕ) (a : Agent) → IsBridge a → Steps j 0 a (push_scope_frame s e id a)
unfolding push_scope_frame
push-Steps s e id j a k =
    let a1 = with_root a in
    let k1 = root-IsBridge a k in
    let w = root-parts a in
    let g = k.generation j in
    record {
      keeps = Owns-frames (owned_all a1.scope_frames) _ a1.closed a1.next_scope_id a1 k1;
      env = w.0;
      grows = omega (arith, w.1);
      generation = ap (λ (m : ℕ → Slot). (m j).generation) w.2 ∙ omega (arith, g);
      same = λ z u. ap (λ (m : ℕ → Slot). m j) w.2;
    }

pop-Steps :
    (b : Bool) (j : ℕ) (a : Agent)
    → IsBridge a
    → Steps j (frees_by j (pop b) a) a (pop_current_frame b a)
pop-Steps b j a k = elim (List-cases a.scope_frames) [
  | inl e ↦
      (let same : pop_current_frame b a ≡ a = pop-empty b a e in
        let n : frees_by j (pop b) a ≡ 0 = ground (arith, e) in
        rw n (subst (Steps j 0 a) (sym same) (none-Steps j a k)))
  | inr (f, (fs, e)) ↦
      (let p = pop-slots b f fs a j e k in
        let n : frees_by j (pop b) a ≡ (if has j f.owned_slots then 1 else 0) = ground (arith, e) in
        let g = k.generation j in
        record {
          keeps = pop-IsBridge b a k;
          env = p.2;
          grows = omega (arith, p.1);
          generation = ground (arith, p.0, n, g);
          same = λ z u. ground (arith, p.0, n, z);
        })
]

run_op-Steps :
    (op : Op) (j : ℕ) (a : Agent)
    → IsBridge a
    → is_some a.env ≡ true
    → j < a.slot_count
    → Steps j (frees_by j op a) a (run_op op a)
run_op-Steps (store_at n v) j a k e b = elim (Bool-cases (ltb n (length a.scope_frames))) [
  | inl m ↦ rw m (store-Steps n v j a k e (ground (arith, m)) b)
  | inr m ↦ rw m (none-Steps j a k)
]
run_op-Steps (push s esc id) j a k e b = push-Steps s esc id j a k
run_op-Steps (pop b1) j a k e b = pop-Steps b1 j a k

run-Steps :
    (ops : List Op) (j : ℕ) (a : Agent)
    → IsBridge a
    → is_some a.env ≡ true
    → j < a.slot_count
    → Steps j (frees j ops a) a (run ops a)
run-Steps [] j a k e b = none-Steps j a k
run-Steps (op ∷ ops) j a k e b =
    let s = run_op-Steps op j a k e b in
    let b1 = run_op op a in
    let t = run-Steps ops j b1 s.keeps (ground (arith, e, s.env)) (omega (arith, b, s.grows)) in
    let g = k.generation j in
    record {
      keeps = t.keeps;
      env = t.env ∙ s.env;
      grows = omega (arith, s.grows, t.grows);
      generation =
          add_mod (a.value_slots j).generation (frees_by j op a) (frees j ops b1)
            (b1.value_slots j).generation _ s.generation t.generation;
      same = λ z u.
          let h = s.same (omega (arith, z)) u in
          t.same (omega (arith, z)) (ap (λ (x : Slot). x.in_use) h ∙ u) ∙ h;
    }

-- An id that names a value, after any run of stores, frames opened and frames closed: it names the
-- same value as long as its slot has not been freed. Once it has, the id names nothing, however
-- often the slot was given out again, except where the number of frees is a multiple of 4096 and
-- the slot is in use: then the old id names whatever the slot holds.
pub load-run :
    (ops : List Op) (id v : ℕ) (a : Agent)
    → IsBridge a
    → load_value id a ≡ some v
    → let n = frees (slot_of id) ops a in
      let slot = (run ops a).value_slots (slot_of id) in
      load_value id (run ops a) ≡ (
        if n == 0 then some v else if n % generations == 0 && slot.in_use then slot.value else none)
load-run ops id v a k l =
    let before = load_lem a id in
    let e : is_some a.env ≡ true = ground (arith, before, l) in
    let b : slot_of id < a.slot_count = ground (arith, before, l) in
    let u : (a.value_slots (slot_of id)).in_use ≡ true = ground (arith, before, l) in
    let s = run-Steps ops (slot_of id) a k e b in
    let after = load_lem (run ops a) id in
    let env = s.env in
    let grows = s.grows in
    let g = k.generation (slot_of id) in
    elim (Bool-cases (frees (slot_of id) ops a == 0)) [
      | inl z ↦ ground (arith, before, l, after, env, grows, z, s.same (ground (arith, z)) u, b)
      | inr z ↦ ground (arith, before, l, after, env, grows, s.generation, g, z, b)
    ]
