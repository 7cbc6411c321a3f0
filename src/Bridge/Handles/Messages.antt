-- ===== src/Bridge/Handles/Messages.antt =====
-- Messages, which cross envs: each id is used up by the first take or drop, whatever comes of it;
-- and the deferreds of promises, which settle once.
use napi.Prelude.{
  ℕ, ◌≡◌, refl, ap, sym, Bool, true, not, ◌==◌, Option, none, some, arith, if◌then◌else◌, subst,
  Bool-cases, Option-cases, inl, inr,
}
use napi.Bridge.{
  Status, ok, invalid_arg, generic_failure, is_ok, require_env_state, load_value, store_value,
}
use napi.Bridge.Handles.{
  HandleTable, store, take_handle, load_deferred, remove_deferred, Desk, settle_deferred,
}

-- snapi_bridge_unofficial_message_create; `drop` is the engine's.
pub message_create :
    {H : Type 0}
    → (ℕ → H → (Status × Option ℕ) × H)
    → (Option ℕ → H → H)
    → Bool
    → ℕ
    → Desk H
    → (Status × ℕ) × Desk H
unfolding require_env_state is_ok store
message_create create drop owned value_id d =
    if not (require_env_state owned d.agent)
    then ((invalid_arg, 0), d)
    else elim (load_value value_id d.agent) [
      | none ↦ ((invalid_arg, 0), d)
      | some value ↦
          let ((s, message), e) = create value d.engine in
          if not (is_ok s)
          then ((s, 0), record d { engine = e })
          else let (message_id, messages) = store message d.messages in
            if message_id == 0
            then ((generic_failure, 0), record d { engine = drop message e; messages = messages })
            else ((ok, message_id), record d { engine = e; messages = messages })
    ]

-- snapi_bridge_unofficial_message_take
pub message_take :
    {H : Type 0}
    → (ℕ → H → (Status × Option ℕ) × H)
    → (ℕ → H → H)
    → Bool
    → ℕ
    → Desk H
    → (Status × ℕ) × Desk H
unfolding require_env_state is_ok store_value
message_take take drop owned message_id d =
    let (handle, messages) = take_handle message_id d.messages in
    let d1 = record d { messages = messages } in
    elim handle [
      | none ↦ ((invalid_arg, 0), d1)
      | some message ↦
          if not (require_env_state owned d.agent)
          then ((invalid_arg, 0), record d1 { engine = drop message d.engine })
          else let ((s, value), e) = take message d.engine in
            if not (is_ok s)
            then ((s, 0), record d1 { engine = e })
            else let (value_id, a) = store_value value d.agent in
              (
                if value_id == 0 then (generic_failure, 0) else (ok, value_id),
                record d1 { engine = e; agent = a },
              )
    ]

-- snapi_bridge_unofficial_message_drop
pub message_drop : {H : Type 0} → (ℕ → H → H) → ℕ → Desk H → Desk H
message_drop drop message_id d =
    let (handle, messages) = take_handle message_id d.messages in
    let d1 = record d { messages = messages } in
    elim handle [ none ↦ d1 | some message ↦ record d1 { engine = drop message d.engine } ]

take-messages :
    {H : Type 0} (take : ℕ → H → (Status × Option ℕ) × H) (drop : ℕ → H → H) (owned : Bool) (id : ℕ)
    (d : Desk H)
    → (message_take take drop owned id d).1.messages ≡ (take_handle id d.messages).1
unfolding message_take
take-messages take drop owned id d = elim (Option-cases (take_handle id d.messages).0) [
  | inl n ↦ rw (message_take, n) refl
  | inr (m, n) ↦ elim (Bool-cases (require_env_state owned d.agent)) [
    | inr e ↦ rw (message_take, n, e) refl
    | inl e ↦ elim (Bool-cases (is_ok (take m d.engine).0.0)) [
      | inl q ↦ rw (message_take, n, e, q) refl
      | inr q ↦ rw (message_take, n, e, q) refl
    ]
  ]
]

drop-messages :
    {H : Type 0} (drop : ℕ → H → H) (id : ℕ) (d : Desk H)
    → (message_drop drop id d).messages ≡ (take_handle id d.messages).1
unfolding message_drop
drop-messages drop id d = elim (Option-cases (take_handle id d.messages).0) [
  | inl n ↦ rw (message_drop, n) refl
  | inr (m, n) ↦ rw (message_drop, n) refl
]

gone : (id : ℕ) (t : HandleTable) → let r = (take_handle id t).1 in take_handle id r ≡ (none, r)
unfolding take_handle
gone id t = elim (Option-cases (t.handles id)) [
  | inl n ↦ ground (arith, n)
  | inr (h, n) ↦ ground (arith, n)
]

-- Where the id was used up.
used_up :
    {H : Type 0} (take : ℕ → H → (Status × Option ℕ) × H) (drop : ℕ → H → H) (owned : Bool) (id : ℕ)
    (t : HandleTable) (d : Desk H)
    → d.messages ≡ (take_handle id t).1
    → (message_take take drop owned id d ≡ ((invalid_arg, 0), d)) × (message_drop drop id d ≡ d)
unfolding message_take message_drop
used_up take drop owned id t d e =
    let g : take_handle id d.messages ≡ (none, d.messages) =
      subst (λ (u : HandleTable). take_handle id u ≡ (none, u)) (sym e) (gone id t) in
    let m : (take_handle id d.messages).1 ≡ d.messages =
      ap (λ (r : Option ℕ × HandleTable). r.1) g in
    let same = ap (λ (u : HandleTable). record d { messages = u }) m in
    rw (message_take, message_drop, g) (ap (λ (x : Desk _). ((invalid_arg, 0), x)) same, same)

-- A message's id is used up by one take or drop, whatever the env of the caller and the engine's
-- answer: a take of it afterwards, from any env, is `invalid_arg` and a drop of it does nothing, and
-- the engine is not asked again.
pub message_take-once :
    {H : Type 0} (take take2 : ℕ → H → (Status × Option ℕ) × H) (drop drop2 : ℕ → H → H)
    (owned owned2 : Bool) (id : ℕ) (d : Desk H)
    → let taken = (message_take take drop owned id d).1 in
      let dropped = message_drop drop id d in
      (message_take take2 drop2 owned2 id taken ≡ ((invalid_arg, 0), taken))
      × (message_drop drop2 id taken ≡ taken)
      × (message_take take2 drop2 owned2 id dropped ≡ ((invalid_arg, 0), dropped))
      × (message_drop drop2 id dropped ≡ dropped)
message_take-once take take2 drop drop2 owned owned2 id d =
    let a =
      used_up take2 drop2 owned2 id d.messages (message_take take drop owned id d).1
        (take-messages take drop owned id d) in
    let b =
      used_up take2 drop2 owned2 id d.messages (message_drop drop id d) (drop-messages drop id d) in
    (a.0, a.1, b.0, b.1)

removed : (id : ℕ) (t : HandleTable) → load_deferred id (remove_deferred id t) ≡ none
unfolding load_deferred remove_deferred
removed id t = ground arith

-- A settled deferred is forgotten.
settle-gone :
    {H : Type 0} (settle : ℕ → ℕ → H → Status × H) (owned : Bool) (id value_id : ℕ) (d : Desk H)
    → is_ok (settle_deferred settle owned id value_id d).0 ≡ true
    → load_deferred id (settle_deferred settle owned id value_id d).1.deferreds ≡ none
unfolding settle_deferred is_ok
settle-gone settle owned id value_id d = elim (Bool-cases (require_env_state owned d.agent)) [
  | inr e ↦ rw (settle_deferred, e) (λ h. absurd (ground (arith, h)))
  | inl e ↦ elim (Option-cases (load_deferred id d.deferreds)) [
    | inl n ↦ rw (settle_deferred, e, n) (λ h. absurd (ground (arith, h)))
    | inr (x, n) ↦ elim (Option-cases (load_value value_id d.agent)) [
      | inl m ↦ rw (settle_deferred, e, n, m) (λ h. absurd (ground (arith, h)))
      | inr (v, m) ↦ rw (settle_deferred, e, n, m) (λ h. rw h (removed id d.deferreds))
    ]
  ]
]

unknown-settle :
    {H : Type 0} (settle : ℕ → ℕ → H → Status × H) (owned : Bool) (id value_id : ℕ) (d : Desk H)
    → load_deferred id d.deferreds ≡ none
    → settle_deferred settle owned id value_id d ≡ (invalid_arg, d)
unfolding settle_deferred
unknown-settle settle owned id value_id d n = elim (Bool-cases (require_env_state owned d.agent)) [
  | inr e ↦ rw (settle_deferred, e) refl
  | inl e ↦ rw (settle_deferred, e, n) refl
]

-- A deferred that was settled with `ok` cannot be settled again: resolving or rejecting it is
-- `invalid_arg`, changes nothing and does not reach the engine.
pub settle_deferred-once :
    {H : Type 0} (settle settle2 : ℕ → ℕ → H → Status × H) (owned owned2 : Bool)
    (id value_id value_id2 : ℕ) (d : Desk H)
    → is_ok (settle_deferred settle owned id value_id d).0 ≡ true
    → let done = (settle_deferred settle owned id value_id d).1 in
      settle_deferred settle2 owned2 id value_id2 done ≡ (invalid_arg, done)
settle_deferred-once settle settle2 owned owned2 id value_id value_id2 d h =
    unknown-settle settle2 owned2 id value_id2 (settle_deferred settle owned id value_id d).1
      (settle-gone settle owned id value_id d h)
