-- ===== src/Lifetime/Live.antt =====
-- The live table of a type, and the counters that go with it.
use napi.Prelude.{
  ℕ, ◌+◌, ◌≤◌, ◌<◌, ◌^◌, ◌≡◌, ◌≢◌, refl, false, none, some, List, [], ◌∷◌, arith, ◌==◌,
  if◌then◌else◌, length, has, Distinct, Option-cases, inl, inr,
}
use mathlib.Core.Option
use napi.Lifetime.{
  Tracked, record_create, record_release, find_live, erase_live, forget_existing,
  record_tracked_create, record_tracked_release,
}

module _ {S : Type 0} where
  abbrev pub handles : List (ℕ × S) → List ℕ
  handles [] = []
  handles ((h, s) ∷ rest) = h ∷ handles rest

  -- The active counter is the number of live handles, which are distinct, and the peak bounds it.
  pub record IsTracked {X : Type 0} (t : Tracked S X) : Type 0 where
    pub active : t.stats.active ≡ length t.live
    pub distinct : Distinct (handles t.live)
    pub peak : t.stats.active ≤ t.stats.peak

  find-absent : (h : ℕ) (l : List (ℕ × S)) → find_live h l ≡ none → has h (handles l) ≡ false
  unfolding find_live
  find-absent h [] e = refl
  find-absent h ((k, s) ∷ l) e = ground (arith, find-absent h l)

  has-erase :
      (h j : ℕ) (l : List (ℕ × S))
      → has j (handles l) ≡ false
      → has j (handles (erase_live h l)) ≡ false
  unfolding erase_live
  has-erase h j [] e = refl
  has-erase h j ((k, s) ∷ l) e = ground (arith, has-erase h j l)

  erase-Distinct :
      (h : ℕ) (l : List (ℕ × S)) → Distinct (handles l) → Distinct (handles (erase_live h l))
  unfolding erase_live
  erase-Distinct h [] d = tt
  erase-Distinct h ((k, s) ∷ l) d = ground (arith, erase-Distinct h l d.1, has-erase h k l)

  absent-find : (h : ℕ) (l : List (ℕ × S)) → has h (handles l) ≡ false → find_live h l ≡ none
  unfolding find_live
  absent-find h [] e = refl
  absent-find h ((k, s) ∷ l) e = ground (arith, absent-find h l)

  pub find-erase :
      (h j : ℕ) (l : List (ℕ × S))
      → Distinct (handles l)
      → find_live j (erase_live h l) ≡ (if j == h then none else find_live j l)
  unfolding find_live erase_live
  find-erase h j [] d = ground arith
  find-erase h j ((k, s) ∷ l) d = ground (arith, find-erase h j l d.1, absent-find k l d.0)

  length-erase :
      (h : ℕ) (l : List (ℕ × S)) (s : S)
      → find_live h l ≡ some s
      → length (erase_live h l) + 1 ≡ length l
  unfolding find_live erase_live
  length-erase h [] s e = cc
  length-erase h ((k, v) ∷ l) s e = ground (arith, length-erase h l s)

  module _ {X : Type 0} where
    forget-IsTracked :
        (h : ℕ) (t : Tracked S X)
        → IsTracked t
        → IsTracked (forget_existing h t)
          × (has h (handles (forget_existing h t).live) ≡ false)
          × (length (forget_existing h t).live ≤ length t.live)
          × ((j : ℕ) → j ≢ h → find_live j (forget_existing h t).live ≡ find_live j t.live)
    unfolding forget_existing
    forget-IsTracked h t k = elim (Option-cases (find_live h t.live)) [
      | inl e ↦ rw (e, forget_existing) (k, find-absent h t.live e, omega arith, λ j ne. refl)
      | inr (s, e) ↦
          let n = length-erase h t.live s e in
          let a = k.active in
          let p = k.peak in
          rw (e, forget_existing)
            (
              record {
                active = ground arith;
                distinct = erase-Distinct h t.live k.distinct;
                peak = ground arith;
              },
              find-absent h (erase_live h t.live)
                  (ground (arith, find-erase h h t.live k.distinct)),
              omega arith,
              λ j ne. ground (arith, find-erase h j t.live k.distinct),
            )
    ]

    -- With room in the counters, a creation keeps the counters in step with the live table, also
    -- for a handle that is live already; it then holds the new snapshot, and every other handle
    -- is as it was.
    pub create-IsTracked :
        (h : ℕ) (s : S) (f : S → X → X) (t : Tracked S X)
        → IsTracked t
        → length t.live + 1 < 2 ^ 64
        → IsTracked (record_tracked_create h s f t)
          × ((j : ℕ)
              → find_live j (record_tracked_create h s f t).live
                ≡ (if j == h then some s else find_live j t.live))
    unfolding record_tracked_create record_create find_live
    create-IsTracked h s f t k room =
        let (q, out, n, others) = forget-IsTracked h t k in
        let a = q.active in
        let p = q.peak in
        (
          record { active = ground arith; distinct = (out, q.distinct); peak = ground arith },
          λ j. ground (arith, others j),
        )

    -- A release of a live handle gives the environment of its snapshot and takes the handle
    -- away; of any other handle it gives null and changes nothing. Both keep the counters in step.
    pub release-IsTracked :
        {E : Type 0} (h : ℕ) (env_of : S → E) (f : S → X → X) (t : Tracked S X)
        → IsTracked t
        → IsTracked (record_tracked_release h env_of f t).1
          × ((record_tracked_release h env_of f t).0 ≡ Option.map env_of (find_live h t.live))
          × ((j : ℕ)
              → find_live j (record_tracked_release h env_of f t).1.live
                ≡ (if j == h then none else find_live j t.live))
    unfolding record_tracked_release record_release
    release-IsTracked h env_of f t k = elim (Option-cases (find_live h t.live)) [
      | inl e ↦ rw (e, record_tracked_release) (k, refl, λ j. ground (arith, e))
      | inr (s, e) ↦
          let n = length-erase h t.live s e in
          let a = k.active in
          let p = k.peak in
          rw (e, record_tracked_release)
            (
              record {
                active = ground arith;
                distinct = erase-Distinct h t.live k.distinct;
                peak = ground arith;
              },
              refl,
              λ j. find-erase h j t.live k.distinct,
            )
    ]
