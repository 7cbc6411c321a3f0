-- ===== src/Allocator/Blocks.antt =====
-- What holds of a block, and that its operations keep it.
use napi.Prelude.{
  ℕ, zero, suc, ◌+◌, ◌<◌, ◌≡◌, ◌≢◌, refl, ap, true, false, ◌||◌, Option, none, List, [], ◌∷◌, arith,
  ltb, has, remove, Distinct, length, has-remove_ne, has-remove_self, remove-Distinct,
  length-remove,
}
use napi.Allocator.{Block, reset_loop, reset_free_list, link_used, construct}

-- Every slot of the array is free or in use, never both; the ones in use hold a payload.
pub record IsBlock {T : Type 0} (n : ℕ) (b : Block T) : Type 0 where
  pub cover : (i : ℕ) → (has i b.free_slots || has i b.used_slots) ≡ ltb i n
  pub apart : (i : ℕ) → has i b.free_slots ≡ true → has i b.used_slots ≡ false
  pub distinct_free : Distinct b.free_slots
  pub distinct_used : Distinct b.used_slots
  pub size : length b.free_slots + length b.used_slots ≡ n
  pub built : (i : ℕ) → has i b.used_slots ≡ true → b.payload i ≢ none

record Filled (k : ℕ) (free : List ℕ) (out : List ℕ) : Type 0 where
  members : (i : ℕ) → has i out ≡ (ltb i k || has i free)
  distinct : Distinct out
  size : length out ≡ k + length free

reset_loop-Filled :
    (k : ℕ) (free : List ℕ)
    → Distinct free
    → ((i : ℕ) → i < k → has i free ≡ false)
    → Filled k free (reset_loop k free)
unfolding reset_loop
reset_loop-Filled zero free d out = record {
  members = λ i. ground arith;
  distinct = d;
  size = omega arith;
}
reset_loop-Filled (suc k) free d out =
    let r =
      reset_loop-Filled k (k ∷ free) (out k (omega arith), d) (λ i h. ground (arith, out i)) in
    record {
      members = λ i. ground (arith, r.members i);
      distinct = r.distinct;
      size = omega (arith, r.size);
    }

module _ {T : Type 0} where
  pub reset-IsBlock : (n : ℕ) (b : Block T) → IsBlock n (reset_free_list n b)
  unfolding reset_free_list
  reset-IsBlock n b =
      let r = reset_loop-Filled n [] tt (λ i h. refl) in
      record {
        cover = λ i. ground (arith, r.members i);
        apart = λ i h. refl;
        distinct_free = r.distinct;
        distinct_used = tt;
        size = omega (arith, r.size);
        built = λ i h. ground arith;
      }

  -- A slot moves from the front of the free ring to the front of the used one, and is built.
  pub take-IsBlock :
      (n slot : ℕ) (rest : List ℕ) (v : T) (b : Block T)
      → IsBlock n b
      → b.free_slots ≡ slot ∷ rest
      → IsBlock n (construct slot v (link_used slot (record b { free_slots = rest })))
  unfolding construct link_used
  take-IsBlock n slot rest v b k e = record {
    cover = λ i. ground (arith, k.cover i);
    apart = λ i h. ground (arith, k.apart i, (rw e at k.distinct_free));
    distinct_free = (rw e at k.distinct_free).1;
    distinct_used = (k.apart slot (ground arith), k.distinct_used);
    size = omega (arith, k.size, ap length e);
    built = λ i h. ground (arith, k.built i);
  }

  -- A slot in use goes to the front of the free ring, whatever becomes of its payload.
  pub give-IsBlock :
      (n slot : ℕ) (p : ℕ → Option T) (b : Block T)
      → IsBlock n b
      → has slot b.used_slots ≡ true
      → ((i : ℕ) → i ≢ slot → p i ≡ b.payload i)
      → IsBlock n (record b {
        free_slots = slot ∷ b.free_slots;
        used_slots = remove slot b.used_slots;
        payload = p;
      })
  give-IsBlock n slot p b k u same = record {
    cover = λ i. ground (arith, k.cover i, has-remove_ne slot i b.used_slots, k.cover slot);
    apart = λ i h. ground (
      arith,
      k.apart i,
      has-remove_ne slot i b.used_slots,
      has-remove_self slot b.used_slots k.distinct_used,
    );
    distinct_free = (ground (arith, k.apart slot), k.distinct_free);
    distinct_used = remove-Distinct slot b.used_slots k.distinct_used;
    size = omega (arith, k.size, length-remove slot b.used_slots u);
    built = λ i h. ground (
      arith,
      k.built i,
      same i,
      has-remove_ne slot i b.used_slots,
      has-remove_self slot b.used_slots k.distinct_used,
    );
  }
