-- ===== src/Link/Tests.antt =====
-- Runs of the link operations, and the theorems at those links.
use napi.Prelude.{◌≡◌, refl, false, some, [], ◌∷◌, arith}
use napi.Link.{Links, init, linked, link, unlink, first}
use napi.Link.Ring.{Ring, link_rings}

-- Two sentinels, 0 with the links 2 and 1, and 10 with the link 11.
abbrev fresh : Links
fresh = record { next_link = λ x. x; prev_link = λ x. x }

abbrev two_rings : Links
two_rings = link (link (link fresh 0 1) 0 2) 10 11

two-Ring : Ring two_rings 0 (2 ∷ 1 ∷ [])
unfolding link
two-Ring = record { chain = ground arith; distinct = ground arith }

other-Ring : Ring two_rings 10 (11 ∷ [])
unfolding link
other-Ring = record { chain = ground arith; distinct = ground arith }

first-unlink : first (unlink two_rings 2) 0 ≡ some 1
unfolding link unlink first
first-unlink = refl

init_again : linked (init two_rings 2) 2 ≡ false
unfolding link init linked
init_again = refl

link_rings_example :
    Ring (link two_rings 0 3) 0 (3 ∷ 2 ∷ 1 ∷ []) × Ring (link two_rings 0 3) 10 (11 ∷ [])
link_rings_example =
    link_rings two_rings 0 3 10 (2 ∷ 1 ∷ []) (11 ∷ []) two-Ring other-Ring (λ x m. ground arith)
      refl refl
