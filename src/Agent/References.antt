-- ===== src/Agent/References.antt =====
-- Every reference that the agent gets is held in one place, freed, or handed on.
use napi.Prelude.{
  ℕ, ◌+◌, ◌≡◌, refl, Bool, true, false, Option, none, some, List, [], ◌∷◌, arith, ◌==◌,
  if◌then◌else◌, Option-cases, inl, inr,
}
use napi.Agent.{
  Value, undefined, object, other, Action, dup, free, given, taken, Agent, is_undefined,
  take_pending_exception, set_pending_exception, clear_pending_exception, set_continuation_data,
  find_frame, set_frame, erase_frame, capture_context_frame, enter_context_frame,
  leave_context_frame, release_context_frame, free_frames, free_stack, clear_values, HookType, init,
  before, after, resolve, promise_hook,
}

abbrev same_value : Value → Value → Bool
same_value (object p) (object q) = p == q
same_value (other m) (other n) = m == n
same_value undefined undefined = true
same_value _ _ = false

pub hits : Value → Value → ℕ
hits v w = if same_value v w then 1 else 0

hits-undefined : (v : Value) → is_undefined v ≡ false → hits v undefined ≡ 0
unfolding hits
hits-undefined undefined h = cc
hits-undefined (object p) h = refl
hits-undefined (other n) h = refl

abbrev pub in_frames : Value → List (ℕ × Value) → ℕ
in_frames v [] = 0
in_frames v ((p, w) ∷ rest) = hits v w + in_frames v rest

abbrev pub in_stack : Value → List Value → ℕ
in_stack v [] = 0
in_stack v (w ∷ rest) = hits v w + in_stack v rest

-- The places that hold a reference to `v`.
abbrev pub held : Agent → Value → ℕ
held a v =
    hits v a.pending_exception
    + hits v a.continuation_data
    + in_frames v a.frames
    + in_stack v a.frame_stack

abbrev pub gained : Value → List Action → ℕ
gained v [] = 0
gained v (dup w ∷ log) = hits v w + gained v log
gained v (given w ∷ log) = hits v w + gained v log
gained v (free w ∷ log) = gained v log
gained v (taken w ∷ log) = gained v log

abbrev pub lost : Value → List Action → ℕ
lost v [] = 0
lost v (dup w ∷ log) = lost v log
lost v (given w ∷ log) = lost v log
lost v (free w ∷ log) = hits v w + lost v log
lost v (taken w ∷ log) = hits v w + lost v log

pub record IsAgent (a : Agent) : Type 0 where
  pub quiet : a.has_pending_exception ≡ false → a.pending_exception ≡ undefined
  pub balanced : (v : Value) → is_undefined v ≡ false → held a v + lost v a.log ≡ gained v a.log

pub take-IsAgent : (a : Agent) → IsAgent a → IsAgent (take_pending_exception a).1
unfolding take_pending_exception
take-IsAgent a k = record {
  quiet = ground (arith, k.quiet);
  balanced = λ v u. ground (arith, k.balanced v u, hits-undefined v u);
}

pub clear-IsAgent : (a : Agent) → IsAgent a → IsAgent (clear_pending_exception a)
unfolding clear_pending_exception
clear-IsAgent a k = record {
  quiet = ground (arith, k.quiet);
  balanced = λ v u. ground (arith, k.balanced v u, hits-undefined v u);
}

pub set-IsAgent : (e : Value) (a : Agent) → IsAgent a → IsAgent (set_pending_exception e a)
unfolding set_pending_exception
set-IsAgent e a k = record {
  quiet = λ h. ground (arith, h);
  balanced = λ v u. ground (arith, k.balanced v u, k.quiet, hits-undefined v u);
}

set-continuation-IsAgent : (w : Value) (a : Agent) → IsAgent a → IsAgent (set_continuation_data w a)
unfolding set_continuation_data
set-continuation-IsAgent w a k = record {
  quiet = k.quiet;
  balanced = λ v u. omega (arith, k.balanced v u);
}

in_frames-set :
    (v : Value) (p : ℕ) (w : Value) (fs : List (ℕ × Value))
    → find_frame p fs ≡ none
    → in_frames v (set_frame p w fs) ≡ hits v w + in_frames v fs
unfolding find_frame set_frame
in_frames-set v p w [] h = refl
in_frames-set v p w ((q, x) ∷ fs) h = ground (arith, in_frames-set v p w fs)

in_frames-replace :
    (v : Value) (p : ℕ) (w old : Value) (fs : List (ℕ × Value))
    → find_frame p fs ≡ some old
    → in_frames v (set_frame p w fs) + hits v old ≡ hits v w + in_frames v fs
unfolding find_frame set_frame
in_frames-replace v p w old [] h = cc
in_frames-replace v p w old ((q, x) ∷ fs) h = ground (arith, in_frames-replace v p w old fs)

in_frames-erase :
    (v : Value) (p : ℕ) (old : Value) (fs : List (ℕ × Value))
    → find_frame p fs ≡ some old
    → in_frames v (erase_frame p fs) + hits v old ≡ in_frames v fs
unfolding find_frame erase_frame
in_frames-erase v p old [] h = cc
in_frames-erase v p old ((q, x) ∷ fs) h = ground (arith, in_frames-erase v p old fs)

capture-IsAgent : (p : Value) (a : Agent) → IsAgent a → IsAgent (capture_context_frame p a)
unfolding capture_context_frame
capture-IsAgent undefined a k = k
capture-IsAgent (other n) a k = k
capture-IsAgent (object p) a k = elim (Option-cases (find_frame p a.frames)) [
  | inl e ↦ record {
    quiet = ground (arith, k.quiet);
    balanced =
        λ v u. ground (arith, k.balanced v u, in_frames-set v p a.continuation_data a.frames e);
  }
  | inr (old, e) ↦ record {
    quiet = ground (arith, k.quiet);
    balanced = λ v u.
        ground (arith, k.balanced v u, in_frames-replace v p a.continuation_data old a.frames e);
  }
]

enter-IsAgent : (p : Value) (a : Agent) → IsAgent a → IsAgent (enter_context_frame p a)
unfolding enter_context_frame
enter-IsAgent p a k =
    set-continuation-IsAgent _ _
      (record { quiet = k.quiet; balanced = λ v u. omega (arith, k.balanced v u) })

leave-IsAgent : (a : Agent) → IsAgent a → IsAgent (leave_context_frame a)
unfolding leave_context_frame
leave-IsAgent a k = record {
  quiet = ground (arith, k.quiet);
  balanced = λ v u. ground (arith, k.balanced v u);
}

release-IsAgent : (p : Value) (a : Agent) → IsAgent a → IsAgent (release_context_frame p a)
unfolding release_context_frame
release-IsAgent undefined a k = k
release-IsAgent (other n) a k = k
release-IsAgent (object p) a k = elim (Option-cases (find_frame p a.frames)) [
  | inl e ↦ record {
    quiet = ground (arith, k.quiet);
    balanced = λ v u. ground (arith, k.balanced v u);
  }
  | inr (old, e) ↦ record {
    quiet = ground (arith, k.quiet);
    balanced = λ v u. ground (arith, k.balanced v u, in_frames-erase v p old a.frames e);
  }
]

-- Whatever the env's own hook does, if it keeps the agent's references balanced and keeps an
-- unset exception undefined, so does the whole promise hook, for each of its four types.
pub promise_hook-IsAgent :
    (in_runtime : Bool) (call : Option (Agent → Agent)) (type : HookType) (promise : Value)
    (a : Agent)
    → ((f : Agent → Agent) → call ≡ some f → (b : Agent) → IsAgent b → IsAgent (f b))
    → IsAgent a
    → IsAgent (promise_hook in_runtime call type promise a)
unfolding promise_hook
promise_hook-IsAgent false call type p a h k = k
promise_hook-IsAgent true none init p a h k = capture-IsAgent p a k
promise_hook-IsAgent true none before p a h k = enter-IsAgent p a k
promise_hook-IsAgent true none after p a h k = leave-IsAgent a k
promise_hook-IsAgent true none resolve p a h k = release-IsAgent p a k
promise_hook-IsAgent true (some f) init p a h k = h f refl _ (capture-IsAgent p a k)
promise_hook-IsAgent true (some f) before p a h k = h f refl _ (enter-IsAgent p a k)
promise_hook-IsAgent true (some f) after p a h k = leave-IsAgent (f a) (h f refl a k)
promise_hook-IsAgent true (some f) resolve p a h k = release-IsAgent p (f a) (h f refl a k)

free_frames-counts :
    (v : Value) (fs : List (ℕ × Value)) (log : List Action)
    → (lost v (free_frames fs log) ≡ in_frames v fs + lost v log)
      × (gained v (free_frames fs log) ≡ gained v log)
unfolding free_frames
free_frames-counts v [] log = (omega arith, refl)
free_frames-counts v ((p, w) ∷ fs) log =
    let (l, g) = free_frames-counts v fs (free w ∷ log) in (omega (arith, l), g)

free_stack-counts :
    (v : Value) (ws : List Value) (log : List Action)
    → (lost v (free_stack ws log) ≡ in_stack v ws + lost v log)
      × (gained v (free_stack ws log) ≡ gained v log)
unfolding free_stack
free_stack-counts v [] log = (omega arith, refl)
free_stack-counts v (w ∷ ws) log =
    let (l, g) = free_stack-counts v ws (free w ∷ log) in (omega (arith, l), g)

clear-unset : (a : Agent) → (clear_pending_exception a).has_pending_exception ≡ false
unfolding clear_pending_exception
clear-unset a = ground arith

undefined-not_held : (v x : Value) → is_undefined v ≡ false → x ≡ undefined → hits v x ≡ 0
undefined-not_held v x u e = rw e (hits-undefined v u)

-- After clear_values of an agent whose references are balanced nothing is left in it, and the
-- agent has given up every reference that it got, of each value but undefined.
pub clear_values-frees :
    (a : Agent)
    → IsAgent a
    → let b = clear_values a in
      (b.has_pending_exception ≡ false)
      × (b.pending_exception ≡ undefined)
      × (b.continuation_data ≡ undefined)
      × (b.frames ≡ [])
      × (b.frame_stack ≡ [])
      × ((v : Value) → is_undefined v ≡ false → lost v b.log ≡ gained v b.log)
unfolding clear_values
clear_values-frees a k =
    let c = clear_pending_exception a in
    let j = clear-IsAgent a k in
    let log = free c.continuation_data ∷ c.log in
    (
      clear-unset a,
      j.quiet (clear-unset a),
      refl,
      refl,
      refl,
      λ v u.
          let f = free_frames-counts v c.frames log in
          let s = free_stack-counts v c.frame_stack (free_frames c.frames log) in
          omega (
            arith,
            f.0,
            f.1,
            s.0,
            s.1,
            j.balanced v u,
            undefined-not_held v c.pending_exception u (j.quiet (clear-unset a)),
          ),
    )
