-- ===== src/Link/Ring.antt =====
-- The ring of a sentinel as a list, and what each operation of the link does to it.
use napi.Prelude.{
  ℕ, zero, suc, ◌+◌, ◌<◌, ◌≡◌, ◌≢◌, true, false, Option, none, some, List, [], ◌∷◌, ◌++◌, ap, ◌∙◌,
  not, is_empty, arith, has, has-append, Distinct, length,
}
use napi.Link.{Links, init, linked, link, unlink, first, contains_loop, contains, count_loop, count}
use napi.Link.Frame.{Chain, Chain-append, Chain-frame, prev-Chain, next-Chain}

-- The links after the sentinel `s`, in order, back to `s`; none occurs twice.
pub record Ring (h : Links) (s : ℕ) (xs : List ℕ) : Type 0 where
  pub chain : Chain h s xs s
  pub distinct : Distinct (s ∷ xs)

-- Two rings that share no link, sentinels included.
abbrev pub Apart : List ℕ → List ℕ → Type 0
Apart xs ys = (x : ℕ) → has x xs ≡ true → has x ys ≡ false

pub init-Ring : (h : Links) (s : ℕ) → Ring (init h s) s []
unfolding init
init-Ring h s = record { chain = ground arith; distinct = ground arith }

link-Chain :
    (h : Links) (s o : ℕ) (xs : List ℕ)
    → Chain h s xs s
    → Distinct (s ∷ xs)
    → has o (s ∷ xs) ≡ false
    → Chain (link h s o) s (o ∷ xs) s
unfolding link
link-Chain h s o [] c d out = ground arith
link-Chain h s o (x ∷ xs) c d out = (
  ground arith,
  (
    ground arith,
    Chain-frame h (link h s o) x s xs (λ y m. ground arith)
        (λ y m. ground (arith, has-append y xs (s ∷ []))) c.1,
  ),
)

-- `link` puts the new link first in the ring of the sentinel.
pub link-Ring :
    (h : Links) (s o : ℕ) (xs : List ℕ)
    → Ring h s xs
    → has o (s ∷ xs) ≡ false
    → Ring (link h s o) s (o ∷ xs)
link-Ring h s o xs r out = record {
  chain = link-Chain h s o xs r.chain r.distinct out;
  distinct = let d = r.distinct in ground arith;
}

pub link-frame :
    (h : Links) (s o t : ℕ) (xs ys : List ℕ)
    → Ring h s xs
    → has o (t ∷ ys) ≡ false
    → Apart (s ∷ xs) (t ∷ ys)
    → Ring h t ys
    → Ring (link h s o) t ys
unfolding link
link-frame h s o t xs ys r out apart d = record {
  chain =
      Chain-frame h (link h s o) t t ys (λ y m. ground (arith, apart s))
        (λ y m. ground (
          arith,
          has-append y ys (t ∷ []),
          apart (h.next_link s),
          next-Chain h s s xs r.chain,
          has-append (h.next_link s) xs (s ∷ []),
        ))
        d.chain;
  distinct = d.distinct;
}

unlink-Chain :
    (h : Links) (a l b : ℕ) (xs ys : List ℕ)
    → Chain h a (xs ++ l ∷ ys) b
    → Distinct (xs ++ l ∷ ys)
    → has a (xs ++ l ∷ ys) ≡ false
    → has b (xs ++ l ∷ ys) ≡ false
    → Chain (unlink h l) a (xs ++ ys) b
unfolding unlink
unlink-Chain h a l b [] [] c d oa ob = ground arith
unlink-Chain h a l b [] (y ∷ ys) c d oa ob = (
  ground arith,
  Chain-frame h (unlink h l) y b ys (λ z m. ground arith)
      (λ z m. ground (arith, has-append z ys (b ∷ []))) c.1.1,
)
unlink-Chain h a l b (x ∷ xs) ys c d oa ob =
    let parts = Chain-append h x l b xs ys c.1 in
    let p = prev-Chain h x l xs parts.0 in
    let n = next-Chain h l b ys parts.1 in
    (
      ground (
        arith,
        has-append (h.prev_link l) xs (l ∷ ys),
        has-append (h.next_link l) ys (b ∷ []),
        has-append x xs (l ∷ ys),
        has-append a xs (l ∷ ys),
      ),
      unlink-Chain h x l b xs ys c.1 d.1 d.0 (ground arith),
    )

Distinct-drop :
    (a l : ℕ) (xs ys : List ℕ)
    → Distinct (xs ++ l ∷ ys)
    → has a (xs ++ l ∷ ys) ≡ false
    → Distinct (xs ++ ys) × (has a (xs ++ ys) ≡ false)
Distinct-drop a l [] ys d out = ground arith
Distinct-drop a l (x ∷ xs) ys d out =
    let r = Distinct-drop x l xs ys d.1 d.0 in
    let q = Distinct-drop a l xs ys d.1 (ground arith) in ((r.1, r.0), ground arith)

-- `unlink` takes the link out of the ring that it stands in, without being told which.
pub unlink-Ring :
    (h : Links) (s l : ℕ) (xs ys : List ℕ)
    → Ring h s (xs ++ l ∷ ys)
    → Ring (unlink h l) s (xs ++ ys) × (linked (unlink h l) l ≡ false)
unfolding unlink linked
unlink-Ring h s l xs ys r = (
  record {
    chain = unlink-Chain h s l s xs ys r.chain r.distinct.1 r.distinct.0 r.distinct.0;
    distinct = let q = Distinct-drop s l xs ys r.distinct.1 r.distinct.0 in (q.1, q.0);
  },
  ground arith,
)

pub unlink-frame :
    (h : Links) (s l t : ℕ) (xs ys zs : List ℕ)
    → Ring h s (xs ++ l ∷ ys)
    → Apart (s ∷ xs ++ l ∷ ys) (t ∷ zs)
    → Ring h t zs
    → Ring (unlink h l) t zs
unfolding unlink
unlink-frame h s l t xs ys zs r apart d =
    let parts = Chain-append h s l s xs ys r.chain in
    let p = prev-Chain h s l xs parts.0 in
    let n = next-Chain h l s ys parts.1 in
    record {
      chain =
          Chain-frame h (unlink h l) t t zs
            (λ y m. ground (
              arith,
              apart (h.prev_link l),
              apart l,
              has-append (h.prev_link l) xs (l ∷ ys),
              has-append l xs (l ∷ ys),
            ))
            (λ y m. ground (
              arith,
              has-append y zs (t ∷ []),
              apart (h.next_link l),
              apart l,
              has-append (h.next_link l) xs (l ∷ ys),
              has-append l xs (l ∷ ys),
              has-append (h.next_link l) ys (s ∷ []),
            ))
            d.chain;
      distinct = d.distinct;
    }

-- A link that stands in the middle of a ring stands nowhere else in it.
Distinct-at :
    (s l : ℕ) (xs ys : List ℕ) → Distinct (s ∷ xs ++ l ∷ ys) → (has l ys ≡ false) × (s ≢ l)
Distinct-at s l [] ys d = (d.1.0, λ e. ground arith)
Distinct-at s l (x ∷ xs) ys d = Distinct-at s l xs ys (ground arith, d.1.1)

count_loop-Chain :
    (rounds : ℕ) (h : Links) (s a : ℕ) (xs : List ℕ) (n : ℕ)
    → Chain h a xs s
    → has s xs ≡ false
    → length xs < rounds
    → count_loop rounds h s (h.next_link a) n ≡ some (n + length xs)
unfolding count_loop
count_loop-Chain zero h s a xs n c out f = absurd (omega arith)
count_loop-Chain (suc k) h s a [] n c out f = ground arith
count_loop-Chain (suc k) h s a (x ∷ xs) n c out f =
    ground (arith, count_loop-Chain k h s x xs (n + 1) c.1)

contains_loop-Chain :
    (rounds : ℕ) (h : Links) (s o a : ℕ) (xs : List ℕ)
    → Chain h a xs s
    → has s xs ≡ false
    → length xs < rounds
    → contains_loop rounds h s o (h.next_link a) ≡ some (has o xs)
unfolding contains_loop
contains_loop-Chain zero h s o a xs c out f = absurd (omega arith)
contains_loop-Chain (suc k) h s o a [] c out f = ground arith
contains_loop-Chain (suc k) h s o a (x ∷ xs) c out f =
    ground (arith, contains_loop-Chain k h s o x xs c.1)

abbrev pub head? : List ℕ → Option ℕ
head? [] = none
head? (x ∷ xs) = some x

first-Ring : (h : Links) (s : ℕ) (xs : List ℕ) → Ring h s xs → first h s ≡ head? xs
unfolding first
first-Ring h s [] r = let c = r.chain in ground arith
first-Ring h s (x ∷ xs) r = let c = r.chain in let d = r.distinct in ground arith

linked-Ring : (h : Links) (s : ℕ) (xs : List ℕ) → Ring h s xs → linked h s ≡ not (is_empty xs)
unfolding linked
linked-Ring h s [] r = let c = r.chain in ground arith
linked-Ring h s (x ∷ xs) r = let c = r.chain in let d = r.distinct in ground arith

-- What the reading operations of a sentinel return on its ring, with more rounds than links:
-- `first` the first link, `linked` whether there is one, `count` their number, and `contains`
-- whether a link is among them.
pub reads-Ring :
    (rounds : ℕ) (h : Links) (s o : ℕ) (xs : List ℕ)
    → Ring h s xs
    → length xs < rounds
    → (first h s ≡ head? xs)
      × (linked h s ≡ not (is_empty xs))
      × (count rounds h s ≡ some (length xs))
      × (contains rounds h s o ≡ some (has o xs))
unfolding count contains
reads-Ring rounds h s o xs r f = (
  first-Ring h s xs r,
  linked-Ring h s xs r,
  count_loop-Chain rounds h s s xs 0 r.chain r.distinct.0 f ∙ ap some (omega arith),
  contains_loop-Chain rounds h s o s xs r.chain r.distinct.0 f,
)

-- A link in a ring is linked, as the assertions of the owners of a ring want it.
pub member-linked :
    (h : Links) (s l : ℕ) (xs ys : List ℕ) → Ring h s (xs ++ l ∷ ys) → linked h l ≡ true
unfolding linked
member-linked h s l xs ys r =
    let parts = Chain-append h s l s xs ys r.chain in
    let n = next-Chain h l s ys parts.1 in
    let q = Distinct-at s l xs ys r.distinct in
    ground (arith, has-append (h.next_link l) ys (s ∷ []))

-- `link` of a link outside puts it first in the ring of the sentinel, and leaves every ring that
-- shares no link with that one and does not hold the new link as it was.
pub link_rings :
    (h : Links) (s o t : ℕ) (xs ys : List ℕ)
    → Ring h s xs
    → Ring h t ys
    → Apart (s ∷ xs) (t ∷ ys)
    → has o (s ∷ xs) ≡ false
    → has o (t ∷ ys) ≡ false
    → Ring (link h s o) s (o ∷ xs) × Ring (link h s o) t ys
link_rings h s o t xs ys r q apart out out' =
    (link-Ring h s o xs r out, link-frame h s o t xs ys r out' apart q)

-- `unlink` of a link takes it out of the ring that it stands in, at whatever place, leaves it
-- unlinked, and leaves every ring that shares no link with that one as it was.
pub unlink_rings :
    (h : Links) (s l t : ℕ) (xs ys zs : List ℕ)
    → Ring h s (xs ++ l ∷ ys)
    → Ring h t zs
    → Apart (s ∷ xs ++ l ∷ ys) (t ∷ zs)
    → Ring (unlink h l) s (xs ++ ys) × (linked (unlink h l) l ≡ false) × Ring (unlink h l) t zs
unlink_rings h s l t xs ys zs r q apart =
    let p = unlink-Ring h s l xs ys r in (p.0, p.1, unlink-frame h s l t xs ys zs r apart q)
