-- ===== src/Bridge/Release/Guests.antt =====
-- Guest code that the bridge runs for an agent, the agent's release and stop requests, as steps.
use napi.Prelude.{
  ℕ, ◌+◌, ◌≤◌, ◌≡◌, Bool, true, false, not, ◌&&◌, List, [], ◌∷◌, ◌==◌, arith, if◌then◌else◌, length,
}
use napi.Bridge.Release.{Life, enter_guest, leave_guest, start_release, terminate}

-- The scopes of guest code on the thread's stack, the innermost first, each with its `counted_`.
pub record Stack : Type 0 where
  pub scopes : List Bool
  pub life : Life

-- What the owner's thread does, and a stop request from any thread.
pub data Step : Stack → Stack → Type 0 where
  enter :
      {s : Stack}
      → Step s
          (record { scopes = (enter_guest s.life).0.1 ∷ s.scopes; life = (enter_guest s.life).1 })
  leave :
      {counted : Bool} {scopes : List Bool} {l : Life}
      → Step
          (record { scopes = counted ∷ scopes; life = l })
          (record { scopes = scopes; life = leave_guest counted l })
  release :
      {s : Stack}
      → (start_release s.life).0 ≡ true
      → Step s (record s { life = (start_release s.life).1 })
  stop : {s : Stack} → Step s (record s { life = (terminate s.life).1 })

pub data Reach : Stack → Stack → Type 0 where
  here : {s : Stack} → Reach s s
  after : {r s t : Stack} → Step r s → Reach s t → Reach r t

abbrev pub counted_scopes : List Bool → ℕ
counted_scopes [] = 0
counted_scopes (c ∷ cs) = (if c then 1 else 0) + counted_scopes cs

-- The counts are those of the scopes that are open, a scope is counted only while the agent is
-- closing, and a stop is noted only then.
pub record Counts (s : Stack) : Type 0 where
  pub calls : s.life.guest_calls ≡ length s.scopes
  pub teardown : s.life.teardown_guest_calls ≡ counted_scopes s.scopes
  pub open_none : (not s.life.closing && not (counted_scopes s.scopes == 0)) ≡ false
  pub stopped : (s.life.stop_requested && not s.life.closing) ≡ false

step-Counts : (s t : Stack) → Step s t → Counts s → Counts t
unfolding enter_guest leave_guest start_release terminate
step-Counts s t enter k = record {
  calls = ground (arith, k.calls);
  teardown = ground (arith, k.teardown);
  open_none = ground (arith, k.open_none);
  stopped = ground (arith, k.stopped);
}
step-Counts s t (leave {counted} {scopes} {l}) k = record {
  calls = ground (arith, k.calls);
  teardown = ground (arith, k.teardown);
  open_none = ground (arith, k.open_none);
  stopped = ground (arith, k.stopped);
}
step-Counts s t (release e) k = record {
  calls = ground (arith, k.calls, e);
  teardown = ground (arith, k.teardown, e);
  open_none = ground (arith, k.open_none, e);
  stopped = ground (arith, k.stopped, e);
}
step-Counts s t stop k = record {
  calls = ground (arith, k.calls);
  teardown = ground (arith, k.teardown);
  open_none = ground (arith, k.open_none);
  stopped = ground (arith, k.stopped);
}

-- In every state reached: the two counts are the numbers of the scopes that are open and of those
-- that are counted, no scope is counted before the release starts, and no stop is noted before.
pub Reach-Counts : (s t : Stack) → Reach s t → Counts s → Counts t
Reach-Counts s t here k = k
Reach-Counts s t (after {s = u} step rest) k = Reach-Counts u t rest (step-Counts s u step k)

abbrev pub is_stopped : Stack → Bool
is_stopped s = s.life.closing && s.life.stop_requested

step-stopped :
    (s t : Stack)
    → Step s t
    → Counts s
    → is_stopped s ≡ true
    → (is_stopped t ≡ true) × (t.life.teardown_guest_calls ≤ s.life.teardown_guest_calls)
unfolding enter_guest leave_guest start_release terminate
step-stopped s t enter k e = ground (arith, e)
step-stopped s t (leave {counted} {scopes} {l}) k e = ground (arith, e)
step-stopped s t (release g) k e = ground (arith, e)
step-stopped s t stop k e = ground (arith, e)

-- Once a stop was requested during the release, in every state reached from there: no guest code
-- may start, no more guest code is counted than when the stop was noted, and a further request
-- asks the engine to stop exactly when guest code of the teardown is still running.
pub Reach-stopped :
    (s t : Stack)
    → Reach s t
    → Counts s
    → is_stopped s ≡ true
    → ((enter_guest t.life).0.0 ≡ false)
      × (counted_scopes t.scopes ≤ counted_scopes s.scopes)
      × ((terminate t.life).0 ≡ not (counted_scopes t.scopes == 0))
unfolding enter_guest terminate
Reach-stopped s t here k e = (ground (arith, e), omega arith, ground (arith, e, k.teardown))
Reach-stopped s t (after {s = u} step rest) k e =
    let j = step-Counts s u step k in
    let (h, le) = step-stopped s u step k e in
    let (refused, fewer, asks) = Reach-stopped u t rest j h in
    (refused, omega (arith, fewer, le, k.teardown, j.teardown), asks)

-- In a state reached from one where the counts are right, the release of the agent starts exactly when no
-- guest code is running and it has not started before.
pub Reach-start_release :
    (s t : Stack)
    → Reach s t
    → Counts s
    → (start_release t.life).0 ≡ (length t.scopes == 0 && not t.life.closing)
unfolding start_release
Reach-start_release s t r k = let c = (Reach-Counts s t r k).calls in ground (arith, c)
