-- ===== src/Lifetime/Tests.antt =====
-- A concrete run of the escapes of dumped values.
use napi.Prelude.{ℕ, ◌≡◌, refl, List, [], ◌∷◌, arith}
use napi.Lifetime.Escapes.{escape-injective}

abbrev line : List ℕ
line = 10 ∷ 0 ∷ []

escape-injective_example : line ≡ line
escape-injective_example =
    escape-injective line line (omega arith, (omega arith, tt)) (omega arith, (omega arith, tt))
      refl
