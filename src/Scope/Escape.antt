-- ===== src/Scope/Escape.antt =====
-- A value escapes from its scope once, into the parent, and outlives the scope there.
use napi.Prelude.{ℕ, ◌≡◌, ◌≢◌, ◌⊎◌, refl, true, false, Option, none, some, arith, update}
use napi.Scope.{
  ok, escape_called_twice, Handle, Scope, Scopes, value_at, wrap_value, escape_value, mark_escaped,
  escape_handle, close_handle_scope, delete_value, close_scope,
}
use napi.Scope.Stack.{close-top}

abbrev pub handle : ℕ → ℕ → Handle
handle owner slot = record { owner = owner; slot = slot }

-- The scopes after the value `v` escaped from `h` into the slot `k` of its parent `p`.
abbrev escaped_to : ℕ → Scope → ℕ → Scope → ℕ → ℕ → Scopes → Scopes
escaped_to h x p y k v s = record s {
  live =
      update (update s.live h (some (record x { escaped = true }))) p
        (some (record y { values = update y.values k (some v) }));
}

escape-ok :
    (grant : (ℕ → Option ℕ) → Option ℕ) (h p slot k v : ℕ) (x y : Scope) (s : Scopes)
    → s.live h ≡ some x
    → s.live p ≡ some y
    → h ≢ p
    → x.parent ≡ some p
    → x.escaped ≡ false
    → y.closed ≡ false
    → x.values slot ≡ some v
    → grant y.values ≡ some k
    → escape_handle grant true (some h) (some (handle h slot)) true s
      ≡ ((ok, some (handle p k)), escaped_to h x p y k v s)
unfolding escape_handle escape_value mark_escaped wrap_value value_at
escape-ok grant h p slot k v x y s a b n c e f g q = ground (arith, a, b, n, c, e, f, g, q)

escaped-again :
    (h p k v : ℕ) (x y : Scope) (s : Scopes)
    → h ≢ p
    → (escaped_to h x p y k v s).live h ≡ some (record x { escaped = true })
escaped-again h p k v x y s n = ground (arith, n)

again :
    (grant : (ℕ → Option ℕ) → Option ℕ) (h : ℕ) (w : Handle) (x : Scope) (s : Scopes)
    → s.live h ≡ some x
    → x.escaped ≡ true
    → escape_handle grant true (some h) (some w) true s ≡ ((escape_called_twice, none), s)
unfolding escape_handle
again grant h w x s a e = ground (arith, a, e)

-- Where the current scope `h` has not escaped a value, its parent `p` is another scope that is
-- live and open, and the parent's allocator grants a slot: a live value of `h` escapes to a handle
-- of `p` with the same JavaScript value, which `h` closing leaves live; a second escape from `h` is
-- refused with escape_called_twice and changes nothing.
pub escape-outlives :
    (grant : (ℕ → Option ℕ) → Option ℕ) (h p slot k v : ℕ) (x y : Scope) (s : Scopes)
    → s.current ≡ some h
    → s.live h ≡ some x
    → s.live p ≡ some y
    → h ≢ p
    → x.parent ≡ some p
    → x.escaped ≡ false
    → y.closed ≡ false
    → x.values slot ≡ some v
    → grant y.values ≡ some k
    → let r = escape_handle grant true (some h) (some (handle h slot)) true s in
      (r.0 ≡ (ok, some (handle p k)))
      × ((close_handle_scope true (some h) r.1).0 ≡ ok)
      × (value_at (handle p k) (close_handle_scope true (some h) r.1).1 ≡ some v)
      × ((w : Handle)
          → escape_handle grant true (some h) (some w) true r.1
            ≡ ((escape_called_twice, none), r.1))
unfolding value_at
escape-outlives grant h p slot k v x y s u a b n c e f g q =
    let s1 = escaped_to h x p y k v s in
    let done = escaped-again h p k v x y s n in
    rw (escape-ok grant h p slot k v x y s a b n c e f g q) (
      rw (close-top h (record x { escaped = true }) s1 u done) (
        refl,
        refl,
        ground (arith, n),
        λ w. again grant h w (record x { escaped = true }) s1 done refl,
      ))

-- A value of an open scope, once deleted, has no value left, while every other handle keeps its
-- own; and once the scope is closed none of its handles has a value, while the handles of every
-- other scope keep theirs, and the scope takes no further value.
pub delete-close :
    (grant : (ℕ → Option ℕ) → Option ℕ) (h slot v : ℕ) (x : Scope) (s : Scopes)
    → s.live h ≡ some x
    → x.closed ≡ false
    → (value_at (handle h slot) (delete_value h (handle h slot) s) ≡ none)
      × ((g k : ℕ)
          → (g ≢ h) ⊎ (k ≢ slot)
          → value_at (handle g k) (delete_value h (handle h slot) s) ≡ value_at (handle g k) s)
      × ((k : ℕ) → value_at (handle h k) (close_scope h s) ≡ none)
      × ((g k : ℕ) → g ≢ h → value_at (handle g k) (close_scope h s) ≡ value_at (handle g k) s)
      × (wrap_value grant h v (close_scope h s) ≡ (none, close_scope h s))
unfolding value_at delete_value close_scope wrap_value
delete-close grant h slot v x s a c = (
  ground (arith, a),
  λ g k n. ground (arith, a, n),
  λ k. ground (arith, a, c),
  λ g k n. ground (arith, a, c, n),
  ground (arith, a, c),
)
