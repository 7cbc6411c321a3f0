-- ===== src/Link/Frame.antt =====
-- Chains of links, and what a write elsewhere leaves of them.
use napi.Prelude.{ℕ, ◌≡◌, true, List, [], ◌∷◌, ◌++◌, arith, has}
use napi.Link.{Links}

-- From `a` the links lead through `xs` to `b`, and back.
abbrev pub Chain : Links → ℕ → List ℕ → ℕ → Type 0
Chain h a [] b = (h.next_link a ≡ b) × (h.prev_link b ≡ a)
Chain h a (x ∷ xs) b = ((h.next_link a ≡ x) × (h.prev_link x ≡ a)) × Chain h x xs b

pub Chain-append :
    (h : Links) (a l b : ℕ) (xs ys : List ℕ)
    → Chain h a (xs ++ l ∷ ys) b
    → Chain h a xs l × Chain h l ys b
Chain-append h a l b [] ys c = (c.0, c.1)
Chain-append h a l b (x ∷ xs) ys c = let r = Chain-append h x l b xs ys c.1 in ((c.0, r.0), r.1)

-- A chain survives what keeps `next_link` at its links but the last, and `prev_link` at all but
-- the first.
pub Chain-frame :
    (h g : Links) (a b : ℕ) (xs : List ℕ)
    → ((x : ℕ) → has x (a ∷ xs) ≡ true → g.next_link x ≡ h.next_link x)
    → ((x : ℕ) → has x (xs ++ b ∷ []) ≡ true → g.prev_link x ≡ h.prev_link x)
    → Chain h a xs b
    → Chain g a xs b
Chain-frame h g a b [] n p c = ground (arith, n a, p b)
Chain-frame h g a b (x ∷ xs) n p c = (
  ground (arith, n a, p x),
  Chain-frame h g x b xs (λ y m. n y (ground arith)) (λ y m. p y (ground arith)) c.1,
)

-- The link before the end of a chain, and the one after its start.
pub prev-Chain :
    (h : Links) (a l : ℕ) (xs : List ℕ) → Chain h a xs l → has (h.prev_link l) (a ∷ xs) ≡ true
prev-Chain h a l [] c = ground arith
prev-Chain h a l (x ∷ xs) c = ground (arith, prev-Chain h x l xs c.1)

pub next-Chain :
    (h : Links) (l b : ℕ) (ys : List ℕ) → Chain h l ys b → has (h.next_link l) (ys ++ b ∷ []) ≡ true
next-Chain h l b [] c = ground arith
next-Chain h l b (y ∷ ys) c = ground arith
