-- ===== src/Bridge/Handles/Table.antt =====
-- A handle in a table: what its id names through any run of the table's operations.
use napi.Prelude.{
  ℕ, ◌+◌, ◌^◌, ◌≤◌, ◌<◌, ◌≡◌, refl, Bool, false, ◌==◌, ◌&&◌, ◌||◌, none, some, List, [], ◌∷◌, arith,
  if◌then◌else◌, is_some, Option-cases, inl, inr,
}
use napi.Bridge.Handles.{HandleTable, store, load, remove_handle, take_handle}

pub data TableOp : Type 0 where
  put : ℕ → TableOp
  take erase : ℕ → TableOp

abbrev pub apply_op : TableOp → HandleTable → HandleTable
apply_op (put handle) t = (store (some handle) t).1
apply_op (take id) t = (take_handle id t).1
apply_op (erase id) t = remove_handle id t

abbrev pub apply_ops : List TableOp → HandleTable → HandleTable
apply_ops [] t = t
apply_ops (op ∷ ops) t = apply_ops ops (apply_op op t)

-- How many handles a run stores, whether it takes or erases an id, and how often a take of the id
-- gives a handle.
abbrev pub puts : List TableOp → ℕ
puts [] = 0
puts (put handle ∷ ops) = puts ops + 1
puts (take id ∷ ops) = puts ops
puts (erase id ∷ ops) = puts ops

abbrev pub retires : ℕ → List TableOp → Bool
retires id [] = false
retires id (put handle ∷ ops) = retires id ops
retires id (take other ∷ ops) = id == other || retires id ops
retires id (erase other ∷ ops) = id == other || retires id ops

abbrev pub takes : ℕ → List TableOp → HandleTable → ℕ
takes id [] t = 0
takes id (put handle ∷ ops) t = takes id ops (apply_op (put handle) t)
takes id (take other ∷ ops) t =
    (if id == other && is_some (take_handle other t).0 then 1 else 0)
    + takes id ops (apply_op (take other) t)
takes id (erase other ∷ ops) t = takes id ops (apply_op (erase other) t)

abbrev pub bit : Bool → ℕ
bit b = if b then 1 else 0

take-parts :
    (id other : ℕ) (t : HandleTable)
    → 0 < id
    → let r = take_handle other t in
      (r.1.next_id ≡ t.next_id)
      × (r.1.handles id ≡ (if id == other then none else t.handles id))
      × ((id == other && is_some r.0) ≡ (id == other && is_some (t.handles id)))
unfolding take_handle
take-parts id other t p = elim (Option-cases (t.handles other)) [
  | inl n ↦ ground (arith, n, p)
  | inr (h, n) ↦ ground (arith, n, p)
]

run-lem :
    (id : ℕ) (ops : List TableOp) (t : HandleTable)
    → 0 < id
    → id < t.next_id
    → t.next_id + puts ops < 2 ^ 32
    → ((apply_ops ops t).handles id ≡ (if retires id ops then none else t.handles id))
      × (takes id ops t ≤ bit (is_some (t.handles id)))
unfolding store remove_handle
run-lem id [] t p b w = (refl, ground arith)
run-lem id (put handle ∷ ops) t p b w =
    let t1 = apply_op (put handle) t in
    let n : t1.next_id ≡ t.next_id + 1 = omega (arith, w) in
    let e : t1.handles id ≡ t.handles id = ground (arith, b) in
    let ih = run-lem id ops t1 p (omega (arith, b, n)) (omega (arith, w, n)) in
    ground (arith, ih, e)
run-lem id (take other ∷ ops) t p b w =
    let t1 = apply_op (take other) t in
    let s = take-parts id other t p in
    let ih = run-lem id ops t1 p (omega (arith, b, s.0)) (omega (arith, w, s.0)) in
    ground (arith, ih, s)
run-lem id (erase other ∷ ops) t p b w =
    let t1 = apply_op (erase other) t in
    let e : t1.handles id ≡ (if id == other then none else t.handles id) = ground arith in
    let ih = run-lem id ops t1 p b w in ground (arith, ih, e)

-- A handle that is stored, in a table whose ids do not wrap around in what follows: its id is not
-- 0, and through any run of stores, takes and removals it names the handle until it is taken or
-- removed, and nothing afterwards; and at most one take of it gives the handle.
pub store-run :
    (handle : ℕ) (ops : List TableOp) (t : HandleTable)
    → 0 < t.next_id
    → t.next_id + 1 + puts ops < 2 ^ 32
    → let stored = store (some handle) t in
      let after = apply_ops ops stored.1 in
      (0 < stored.0)
      × (load stored.0 after ≡ (if retires stored.0 ops then none else some handle))
      × (takes stored.0 ops stored.1 ≤ 1)
unfolding store load
store-run handle ops t p w =
    let t1 = (store (some handle) t).1 in
    let n : t1.next_id ≡ t.next_id + 1 = omega (arith, w) in
    let e : t1.handles t.next_id ≡ some handle = ground arith in
    let ih = run-lem t.next_id ops t1 p (omega (arith, n)) (omega (arith, w, n)) in
    (p, ground (arith, ih, e, p), ground (arith, ih, e))
