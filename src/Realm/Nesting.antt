-- ===== src/Realm/Nesting.antt =====
-- Realm frames nest with the native callbacks that open them.
use napi.Prelude.{
  ℕ, ◌+◌, ◌%◌, ◌^◌, ◌<◌, ◌≡◌, refl, ap, sym, ◌∙◌, false, Option, none, some, List, [], ◌∷◌, ◌++◌,
  arith, ◌==◌, if◌then◌else◌, length, length-append, append_assoc, Bool-cases, ◌⊎◌, inl, inr,
}
use napi.Realm.{
  Frame, Realms, current_context, current_realm_anchor, push_realm_frame, free_anchor, pop_loop,
  pop_realm_frames, enter_realm, leave_realm, in_realm_frame,
}

-- What native code does with realms: scopes it enters and leaves, in any order and with any
-- token, and native callbacks that it is in, each with a body of its own.
pub data Acts : Type 0 where
  done : Acts
  enter : ℕ → Option ℕ → Acts → Acts
  leave : ℕ → Acts → Acts
  call : Option ℕ → Option ℕ → Acts → Acts → Acts

abbrev pub run : Acts → Realms → Realms
run done r = r
run (enter ctx anchor rest) r = run rest (enter_realm ctx anchor r).1
run (leave token rest) r = run rest (leave_realm token r).1
run (call ctx anchor body rest) r = run rest (in_realm_frame ctx anchor (run body) r)

abbrev pub enters : Acts → ℕ
enters done = 0
enters (enter ctx anchor rest) = 1 + enters rest
enters (leave token rest) = enters rest
enters (call ctx anchor body rest) = enters body + enters rest

abbrev pub is_anchor : ℕ → Option ℕ → ℕ
is_anchor v none = 0
is_anchor v (some w) = if v == w then 1 else 0

-- How often the scopes of a run take an anchor.
abbrev pub anchored : ℕ → Acts → ℕ
anchored v done = 0
anchored v (enter ctx anchor rest) = is_anchor v anchor + anchored v rest
anchored v (leave token rest) = anchored v rest
anchored v (call ctx anchor body rest) = anchored v body + anchored v rest

abbrev pub freed_times : ℕ → List ℕ → ℕ
freed_times v [] = 0
freed_times v (w ∷ rest) = (if v == w then 1 else 0) + freed_times v rest

-- How many scopes own an anchor.
abbrev pub held : ℕ → List Frame → ℕ
held v [] = 0
held v (f ∷ rest) = (if f.scope == 0 then 0 else is_anchor v f.anchor) + held v rest

held-append : (v : ℕ) (xs ys : List Frame) → held v (xs ++ ys) ≡ held v xs + held v ys
held-append v [] ys = omega arith
held-append v (f ∷ xs) ys = omega (arith, held-append v xs ys)

-- Popping to the depth of `base` leaves `base`, and frees what the scopes above it own.
pop_loop-append :
    (v : ℕ) (extra base : List Frame) (freed : List ℕ)
    → ((pop_loop (length base) (extra ++ base) freed).0 ≡ base)
      × (freed_times v (pop_loop (length base) (extra ++ base) freed).1
          ≡ held v extra + freed_times v freed)
unfolding pop_loop free_anchor
pop_loop-append v [] [] freed = (refl, omega arith)
pop_loop-append v [] (b ∷ base) freed = (ground arith, ground arith)
pop_loop-append v (f ∷ extra) base freed =
    let ih = pop_loop-append v extra base (free_anchor f freed) in
    let len = length-append extra base in (ground (arith, ih.0, len), ground (arith, ih.1, len))

-- After a run inside the callback of frame `f`: the frames are scopes above that callback's, the
-- tokens went up by one for each scope, and each anchor taken is freed or held.
pub record Ran (v : ℕ) (acts : Acts) (base : List Frame) (r r2 : Realms) : Type 0 where
  pub extra : List Frame
  pub frames : r2.realm_frames ≡ extra ++ base
  pub tokens : r2.last_realm_scope ≡ r.last_realm_scope + enters acts
  pub home : r2.context ≡ r.context
  pub balance :
      freed_times v r2.freed + held v r2.realm_frames
      ≡ freed_times v r.freed + held v r.realm_frames + anchored v acts

after-step :
    (v : ℕ) (a b : Acts) (base : List Frame) (r r1 r2 : Realms)
    → r1.last_realm_scope + enters b ≡ r.last_realm_scope + enters a
    → r1.context ≡ r.context
    → freed_times v r1.freed + held v r1.realm_frames + anchored v b
      ≡ freed_times v r.freed + held v r.realm_frames + anchored v a
    → Ran v b base r1 r2
    → Ran v a base r r2
after-step v a b base r r1 r2 t c e k = record {
  extra = k.extra;
  frames = k.frames;
  tokens = omega (arith, k.tokens);
  home = k.home ∙ c;
  balance = omega (arith, k.balance);
}

enter-held :
    (v ctx : ℕ) (anchor : Option ℕ) (r : Realms)
    → r.last_realm_scope + 1 < 2 ^ 64
    → let r1 = (enter_realm ctx anchor r).1 in
      (r1.last_realm_scope ≡ r.last_realm_scope + 1)
      × (r1.context ≡ r.context)
      × (freed_times v r1.freed + held v r1.realm_frames
          ≡ freed_times v r.freed + held v r.realm_frames + is_anchor v anchor)
unfolding enter_realm
enter-held v ctx anchor r h = (ground arith, refl, ground arith)

-- Leaving a token inside a callback pops a scope above the callback's frame, or nothing.
leave-stays :
    (token : ℕ) (f : Frame) (base : List Frame) (r : Realms)
    → f.scope ≡ 0
    → r.realm_frames ≡ f ∷ base
    → leave_realm token r ≡ (false, r)
unfolding leave_realm
leave-stays token f base r z e = rw e (ground arith)

leave-pops :
    (v token : ℕ) (g : Frame) (rest : List Frame) (r : Realms)
    → r.realm_frames ≡ g ∷ rest
    → let r1 = (leave_realm token r).1 in
      ((r1.realm_frames ≡ rest) ⊎ (r1.realm_frames ≡ g ∷ rest))
      × (r1.last_realm_scope ≡ r.last_realm_scope)
      × (r1.context ≡ r.context)
      × (freed_times v r1.freed + held v r1.realm_frames
          ≡ freed_times v r.freed + held v r.realm_frames)
unfolding leave_realm pop_realm_frames
leave-pops v token g rest r e =
    let p = pop_loop-append v (g ∷ []) rest r.freed in
    elim (Bool-cases (token == 0)) [
      | inl z ↦ rw (z, e) (inr refl, refl, refl, refl)
      | inr z ↦ (elim (Bool-cases (g.scope == token)) [
        | inl t ↦ ground (arith, e, p)
        | inr t ↦ ground (arith, e)
      ])
    ]

abbrev frame_for : Option ℕ → Option ℕ → Realms → Frame
frame_for ctx anchor r = record {
  scope = 0;
  ctx = elim ctx [ none ↦ r.context | some c ↦ c ];
  anchor = anchor;
}

-- The callback's frame is popped with the scopes that its body left open.
call-held :
    (v : ℕ) (ctx anchor : Option ℕ) (body : Acts) (r : Realms)
    → Ran v body
        (frame_for ctx anchor r ∷ r.realm_frames)
        (push_realm_frame ctx anchor r).1
        (run body (push_realm_frame ctx anchor r).1)
    → let r1 = in_realm_frame ctx anchor (run body) r in
      (r1.realm_frames ≡ r.realm_frames)
      × (r1.last_realm_scope ≡ r.last_realm_scope + enters body)
      × (r1.context ≡ r.context)
      × (freed_times v r1.freed ≡ freed_times v r.freed + anchored v body)
unfolding in_realm_frame push_realm_frame pop_realm_frames
call-held v ctx anchor body r k =
    let g = frame_for ctx anchor r in
    let r2 = run body (push_realm_frame ctx anchor r).1 in
    let all = append_assoc k.extra (g ∷ []) r.realm_frames in
    let p = pop_loop-append v (k.extra ++ (g ∷ [])) r.realm_frames r2.freed in
    let eq : r2.realm_frames ≡ (k.extra ++ (g ∷ [])) ++ r.realm_frames = k.frames ∙ sym all in
    let h1 = held-append v k.extra (g ∷ []) in
    let h2 = held-append v (k.extra ++ (g ∷ [])) r.realm_frames in
    let h3 : held v r2.realm_frames ≡ held v ((k.extra ++ (g ∷ [])) ++ r.realm_frames) =
      ap (held v) eq in
    rw eq (p.0, k.tokens, k.home, omega (arith, p.1, h1, h2, h3, k.balance))

abbrev scope_for : ℕ → Option ℕ → Realms → Frame
scope_for ctx anchor r = record {
  scope = (r.last_realm_scope + 1) % 2 ^ 64;
  ctx = ctx;
  anchor = anchor;
}

enter-frames :
    (ctx : ℕ) (anchor : Option ℕ) (r : Realms)
    → (enter_realm ctx anchor r).1.realm_frames ≡ scope_for ctx anchor r ∷ r.realm_frames
unfolding enter_realm
enter-frames ctx anchor r = refl

push-parts :
    (ctx anchor : Option ℕ) (r : Realms)
    → let r1 = (push_realm_frame ctx anchor r).1 in
      (r1.realm_frames ≡ frame_for ctx anchor r ∷ r.realm_frames)
      × (r1.last_realm_scope ≡ r.last_realm_scope)
unfolding push_realm_frame
push-parts ctx anchor r = (refl, refl)

run-Ran :
    (v : ℕ) (acts : Acts) (f : Frame) (base extra : List Frame) (r : Realms)
    → f.scope ≡ 0
    → r.realm_frames ≡ extra ++ f ∷ base
    → r.last_realm_scope + enters acts < 2 ^ 64
    → Ran v acts (f ∷ base) r (run acts r)
run-Ran v done f base extra r z e b = record {
  extra = extra;
  frames = e;
  tokens = omega arith;
  home = refl;
  balance = omega arith;
}
run-Ran v (enter ctx anchor rest) f base extra r z e b =
    let r1 = (enter_realm ctx anchor r).1 in
    let (t, c, h) = enter-held v ctx anchor r (omega (arith, b)) in
    after-step v (enter ctx anchor rest) rest (f ∷ base) r r1 (run rest r1) (omega (arith, t)) c
      (omega (arith, h))
      (run-Ran v rest f base (scope_for ctx anchor r ∷ extra) r1 z
        (enter-frames ctx anchor r ∙ ap (λ (x : List Frame). scope_for ctx anchor r ∷ x) e)
        (omega (arith, t, b)))
run-Ran v (leave token rest) f base [] r z e b =
    let k = run-Ran v rest f base [] r z e b in
    rw (leave-stays token f base r z e) (record {
      extra = k.extra;
      frames = k.frames;
      tokens = k.tokens;
      home = k.home;
      balance = k.balance;
    })
run-Ran v (leave token rest) f base (g ∷ extra) r z e b =
    let r1 = (leave_realm token r).1 in
    let (s, t, c, h) = leave-pops v token g (extra ++ f ∷ base) r e in
    let go = λ (extra : List Frame) (q : r1.realm_frames ≡ extra ++ f ∷ base).
      after-step v (leave token rest) rest (f ∷ base) r r1 (run rest r1) (omega (arith, t)) c
        (omega (arith, h)) (run-Ran v rest f base extra r1 z q (omega (arith, t, b))) in
    elim s [ inl q ↦ go extra q | inr q ↦ go (g ∷ extra) q ]
run-Ran v (call ctx anchor body rest) f base extra r z e b =
    let r1 = in_realm_frame ctx anchor (run body) r in
    let p = push-parts ctx anchor r in
    let inner =
      run-Ran v body (frame_for ctx anchor r) r.realm_frames [] (push_realm_frame ctx anchor r).1
        refl p.0 (omega (arith, p.1, b)) in
    let (fr, t, c, h) = call-held v ctx anchor body r inner in
    let same : held v r1.realm_frames ≡ held v r.realm_frames = ap (held v) fr in
    after-step v (call ctx anchor body rest) rest (f ∷ base) r r1 (run rest r1) (omega (arith, t)) c
      (omega (arith, h, same)) (run-Ran v rest f base extra r1 z (fr ∙ e) (omega (arith, t, b)))

-- Whatever a native callback does with realms, short of 2^64 scopes in all: when it returns, the
-- env's frames and its innermost context and anchor are those from before the call, and each
-- anchor that the scopes inside took has been freed once for each scope, while no other was.
pub call-restores :
    (v : ℕ) (ctx anchor : Option ℕ) (body : Acts) (r : Realms)
    → r.last_realm_scope + enters body < 2 ^ 64
    → let r1 = in_realm_frame ctx anchor (run body) r in
      (r1.realm_frames ≡ r.realm_frames)
      × (current_context r1 ≡ current_context r)
      × (current_realm_anchor r1 ≡ current_realm_anchor r)
      × (freed_times v r1.freed ≡ freed_times v r.freed + anchored v body)
unfolding current_context current_realm_anchor
call-restores v ctx anchor body r b =
    let p = push-parts ctx anchor r in
    let inner =
      run-Ran v body (frame_for ctx anchor r) r.realm_frames [] (push_realm_frame ctx anchor r).1
        refl p.0 (omega (arith, p.1, b)) in
    let (fr, t, c, h) = call-held v ctx anchor body r inner in
    (fr, ground (arith, fr, c), ground (arith, fr), h)
