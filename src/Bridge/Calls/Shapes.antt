-- ===== src/Bridge/Calls/Shapes.antt =====
-- The checks that the calls begin with, by the values that the ids name.
use napi.Prelude.{
  ℕ, Bool, true, false, ◌&&◌, ◌≡◌, refl, Option, none, some, List, is_some, if◌then◌else◌,
  Bool-cases, inl, inr,
}
use napi.Bridge.{invalid_arg, require_env_state, load_value}
use napi.Bridge.Calls.{Answer, Host, guarded, loaded, maybe_loaded, given, at, at_text, view}

-- An answer where a call is served.
abbrev pub answer_if : {H : Type 0} → Bool → Answer H → Answer H
answer_if b answer h = if b then answer h else ((invalid_arg, none), h)

of_option :
    {H : Type 0} (o : Option ℕ) (body : ℕ → Answer H) (h : Host H)
    → (elim o [ none ↦ ((invalid_arg, none), h) | some v ↦ body v h ])
      ≡ answer_if (is_some o) (body (at o)) h
of_option none body h = refl
of_option (some v) body h = refl

loaded_lem :
    {H : Type 0} (id : ℕ) (body : ℕ → Answer H) (h : Host H)
    → loaded id body h ≡ answer_if (is_some (load_value id h.0)) (body (at (load_value id h.0))) h
unfolding loaded
loaded_lem id body h = of_option (load_value id h.0) body h

given_lem :
    {H : Type 0} (name : Option (List ℕ)) (body : List ℕ → Answer H) (h : Host H)
    → given name body h ≡ answer_if (is_some name) (body (at_text name)) h
unfolding given
given_lem none body h = refl
given_lem (some text) body h = refl

both :
    {H : Type 0} (b c : Bool) (answer : Answer H) (h : Host H)
    → answer_if b (answer_if c answer) h ≡ answer_if (b && c) answer h
both true c answer h = refl
both false c answer h = refl

also :
    {H : Type 0} (b c d : Bool) (answer : Answer H) (h : Host H)
    → answer_if (b && c) (answer_if d answer) h ≡ answer_if (b && (c && d)) answer h
also true true d answer h = refl
also true false d answer h = refl
also false c d answer h = refl

third :
    {H : Type 0} (b c d e : Bool) (answer : Answer H) (h : Host H)
    → answer_if (b && c) (answer_if d (answer_if e answer)) h
      ≡ answer_if (b && (c && d && e)) answer h
third true true true e answer h = refl
third true true false e answer h = refl
third true false d e answer h = refl
third false c d e answer h = refl

pub no_value :
    {H : Type 0} (owned : Bool) (body : Answer H) (h : Host H)
    → guarded owned body h ≡ answer_if (require_env_state owned h.0 && true) body h
unfolding guarded
no_value owned body h = elim (Bool-cases (require_env_state owned h.0)) [
  | inl e ↦ rw e refl
  | inr e ↦ rw e refl
]

pub one_value :
    {H : Type 0} (owned : Bool) (i : ℕ) (body : ℕ → Answer H) (h : Host H)
    → guarded owned (loaded i body) h
      ≡ answer_if (require_env_state owned h.0 && is_some (view h.0 i)) (body (at (view h.0 i))) h
unfolding guarded
one_value owned i body h =
    rw (loaded_lem i body h)
      (both (require_env_state owned h.0) (is_some (view h.0 i)) (body (at (view h.0 i))) h)

pub maybe_value :
    {H : Type 0} (owned : Bool) (i : ℕ) (body : Option ℕ → Answer H) (h : Host H)
    → guarded owned (maybe_loaded i body) h
      ≡ answer_if (require_env_state owned h.0 && true) (body (view h.0 i)) h
unfolding maybe_loaded
maybe_value owned i body h = no_value owned (maybe_loaded i body) h

pub maybe_and_value :
    {H : Type 0} (owned : Bool) (i j : ℕ) (body : Option ℕ → ℕ → Answer H) (h : Host H)
    → guarded owned (maybe_loaded i (λ x. loaded j (λ y. body x y))) h
      ≡ answer_if
          (require_env_state owned h.0 && is_some (view h.0 j))
          (body (view h.0 i) (at (view h.0 j)))
          h
unfolding maybe_loaded guarded
maybe_and_value owned i j body h = one_value owned j (λ y. body (view h.0 i) y) h

pub two_values :
    {H : Type 0} (owned : Bool) (i j : ℕ) (body : ℕ → ℕ → Answer H) (h : Host H)
    → guarded owned (loaded i (λ x. loaded j (λ y. body x y))) h
      ≡ answer_if
          (require_env_state owned h.0 && (is_some (view h.0 i) && is_some (view h.0 j)))
          (body (at (view h.0 i)) (at (view h.0 j)))
          h
two_values owned i j body h =
    rw
      (one_value owned i (λ x. loaded j (λ y. body x y)) h, loaded_lem j (body (at (view h.0 i))) h)
      (also (require_env_state owned h.0) (is_some (view h.0 i)) (is_some (view h.0 j))
        (body (at (view h.0 i)) (at (view h.0 j))) h)

pub three_values :
    {H : Type 0} (owned : Bool) (i j k : ℕ) (body : ℕ → ℕ → ℕ → Answer H) (h : Host H)
    → guarded owned (loaded i (λ x. loaded j (λ y. loaded k (λ z. body x y z)))) h
      ≡ answer_if
          (require_env_state owned h.0
            && (is_some (view h.0 i) && is_some (view h.0 j) && is_some (view h.0 k)))
          (body (at (view h.0 i)) (at (view h.0 j)) (at (view h.0 k)))
          h
three_values owned i j k body h =
    let x = at (view h.0 i) in
    let y = at (view h.0 j) in
    rw
      (
        one_value owned i (λ x. loaded j (λ y. loaded k (λ z. body x y z))) h,
        loaded_lem j (λ y. loaded k (λ z. body x y z)) h,
        loaded_lem k (body x y) h,
      )
      (third (require_env_state owned h.0) (is_some (view h.0 i)) (is_some (view h.0 j))
        (is_some (view h.0 k)) (body x y (at (view h.0 k))) h)

pub value_and_name :
    {H : Type 0} (owned : Bool) (i : ℕ) (name : Option (List ℕ)) (body : ℕ → List ℕ → Answer H)
    (h : Host H)
    → guarded owned (loaded i (λ x. given name (λ text. body x text))) h
      ≡ answer_if
          (require_env_state owned h.0 && (is_some (view h.0 i) && is_some name))
          (body (at (view h.0 i)) (at_text name))
          h
value_and_name owned i name body h =
    rw
      (
        one_value owned i (λ x. given name (λ text. body x text)) h,
        given_lem name (body (at (view h.0 i))) h,
      )
      (also (require_env_state owned h.0) (is_some (view h.0 i)) (is_some name)
        (body (at (view h.0 i)) (at_text name)) h)

pub value_name_and_value :
    {H : Type 0} (owned : Bool) (i : ℕ) (name : Option (List ℕ)) (k : ℕ)
    (body : ℕ → List ℕ → ℕ → Answer H) (h : Host H)
    → guarded owned (loaded i (λ x. given name (λ text. loaded k (λ z. body x text z)))) h
      ≡ answer_if
          (require_env_state owned h.0
            && (is_some (view h.0 i) && is_some name && is_some (view h.0 k)))
          (body (at (view h.0 i)) (at_text name) (at (view h.0 k)))
          h
value_name_and_value owned i name k body h =
    let x = at (view h.0 i) in
    let text = at_text name in
    rw
      (
        one_value owned i (λ x. given name (λ text. loaded k (λ z. body x text z))) h,
        given_lem name (λ text. loaded k (λ z. body x text z)) h,
        loaded_lem k (body x text) h,
      )
      (third (require_env_state owned h.0) (is_some (view h.0 i)) (is_some name)
        (is_some (view h.0 k)) (body x text (at (view h.0 k))) h)
