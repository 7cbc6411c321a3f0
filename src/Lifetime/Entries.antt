-- ===== src/Lifetime/Entries.antt =====
-- The tables of dumped values as multisets.
use napi.Prelude.{
  ℕ, ◌+◌, ◌^◌, ◌<◌, ◌≡◌, ap, Bool, true, List, [], ◌∷◌, arith, if◌then◌else◌, Bool-cases, inl, inr,
  All,
}
use napi.Lifetime.{Entry, add_entry, remove_entry}

module _ {K : Type 0} (same : K → K → Bool) where
  -- How often a value is in the table.
  abbrev pub count_of : K → List (Entry K) → ℕ
  count_of k [] = 0
  count_of k (e ∷ rest) = if same e.key k then e.count else count_of k rest

  -- Every count is positive, and can be raised by one.
  abbrev pub IsTable : List (Entry K) → Type 0
  IsTable es = All (λ e. (0 < e.count) × (e.count + 1 < 2 ^ 64)) es

  -- For an equality test that is reflexive: adding a value and removing it gives the table back.
  pub remove-add :
      (k : K) (es : List (Entry K))
      → ((x : K) → same x x ≡ true)
      → IsTable es
      → remove_entry same k (add_entry same k es) ≡ es
  unfolding remove_entry add_entry
  remove-add k [] r t = ground (arith, r k)
  remove-add k (e ∷ es) r t = elim (Bool-cases (same e.key k)) [
    | inl h ↦ rw (h, h) (ground arith)
    | inr h ↦ rw (h, h) (ap (λ (x : List (Entry K)). e ∷ x) (remove-add k es r t.1))
  ]
