-- ===== src/Prelude/Maps.antt =====
-- Total maps from numbers (addresses, handles), and their update at one key.
use Prim.Native.Nat.{ℕ}
use mathlib.Core.Path.{◌≡◌, refl}
use mathlib.Core.Bool.{false}
use mathlib.Core.List.{List, [], ◌∷◌}
use native.Mathlib.Omega.{arith}
use package.napi.Prelude.Tests.{◌==◌, if◌then◌else◌}
use package.napi.Prelude.Lists.{has, sum_over}

abbrev pub update {ℓ} : {A : Type ℓ} → (ℕ → A) → ℕ → A → ℕ → A
update m k v j = if j == k then v else m j

pub sum_over-update {ℓ} :
    {A : Type ℓ} (f : A → ℕ) (m : ℕ → A) (k : ℕ) (v : A) (xs : List ℕ)
    → has k xs ≡ false
    → sum_over (λ j. f (update m k v j)) xs ≡ sum_over (λ j. f (m j)) xs
sum_over-update f m k v [] h = refl
sum_over-update f m k v (x ∷ xs) h = ground (arith, sum_over-update f m k v xs)
