-- ===== src/Scope.antt =====
-- quickjs/src/internal/napi_scope.cc and the handle scope calls of js_native_api_quickjs.cc.
-- A handle of a value is its owner, which the source finds from its address, and its slot. The
-- allocators are parameters: `grant_scope` and `grant_value` are the free handle that `allocate`
-- gives, or none when it fails.
pub mod Stack
pub mod Escape
mod Tests
use napi.Prelude.{
  ℕ, zero, suc, ◌+◌, Bool, true, false, not, ◌&&◌, ◌||◌, Option, none, some, List, [], ◌∷◌, ◌==◌,
  if◌then◌else◌, update,
}

pub data Status : Type 0 where
  ok invalid_arg generic_failure escape_called_twice : Status

pub record Handle : Type 0 where
  pub owner : ℕ
  pub slot : ℕ

-- napi_scope__
pub record Scope : Type 0 where
  pub level : ℕ
  pub parent : Option ℕ
  pub values : ℕ → Option ℕ
  pub closed : Bool
  pub escaped : Bool

-- The agent's scopes and the one that is current.
pub record Scopes : Type 0 where
  pub live : ℕ → Option Scope
  pub current : Option ℕ

abbrev pub no_values : ℕ → Option ℕ
no_values slot = none

-- scope_from_handle
pub scope_at : Option ℕ → Scopes → Option Scope
scope_at none s = none
scope_at (some h) s = s.live h

level_below : Option Scope → ℕ
level_below none = 0
level_below (some parent) = parent.level + 1

-- The constructor.
pub new_scope : Option ℕ → Scopes → Scope
unfolding scope_at level_below
new_scope parent s = record {
  level = level_below (scope_at parent s);
  parent = parent;
  values = no_values;
  closed = false;
  escaped = false;
}

module _ (grant_scope : (ℕ → Option Scope) → Option ℕ) where
  create_scope : Option ℕ → Scopes → Option ℕ × Scopes
  unfolding new_scope
  create_scope parent s = elim (grant_scope s.live) [
    | none ↦ (none, s)
    | some h ↦ (some h, record s { live = update s.live h (some (new_scope parent s)) })
  ]

  -- napi_open_handle_scope and napi_open_escapable_handle_scope.
  pub open_handle_scope : Bool → Bool → Scopes → (Status × Option ℕ) × Scopes
  unfolding create_scope
  open_handle_scope env_ok result_ok s =
      if not env_ok || not result_ok
      then ((invalid_arg, none), s)
      else let (scope, s1) = create_scope s.current s in
        elim scope [
          | none ↦ ((generic_failure, none), s1)
          | some h ↦ ((ok, some h), record s1 { current = some h })
        ]

-- The allocator's destructor of the scope closes it, which frees its values.
destroy_scope : ℕ → Scopes → Scopes
destroy_scope h s = record s { live = update s.live h none }

is_current_scope : ℕ → Scopes → Bool
is_current_scope h s = elim s.current [ none ↦ false | some c ↦ c == h ]

-- napi_close_handle_scope and napi_close_escapable_handle_scope.
pub close_handle_scope : Bool → Option ℕ → Scopes → Status × Scopes
unfolding scope_at is_current_scope destroy_scope
close_handle_scope env_ok none s = (invalid_arg, s)
close_handle_scope env_ok (some h) s =
    if not env_ok
    then (invalid_arg, s)
    else if not (is_current_scope h s)
    then (invalid_arg, s)
    else elim (scope_at (some h) s) [
      | none ↦ (invalid_arg, s)
      | some inner ↦ (ok, destroy_scope h (record s { current = inner.parent }))
    ]

-- get_inner of the value that a handle names.
pub value_at : Handle → Scopes → Option ℕ
value_at v s = elim (s.live v.owner) [ none ↦ none | some scope ↦ scope.values v.slot ]

module _ (grant_value : (ℕ → Option ℕ) → Option ℕ) where
  -- wrap_value of the scope `h`.
  pub wrap_value : ℕ → ℕ → Scopes → Option Handle × Scopes
  wrap_value h value s = elim (s.live h) [
    | none ↦ (none, s)
    | some scope ↦ if scope.closed then (none, s) else elim (grant_value scope.values) [
      | none ↦ (none, s)
      | some slot ↦ (
        some (record { owner = h; slot = slot }),
        record s {
          live =
              update s.live h
                (some (record scope { values = update scope.values slot (some value) }));
        },
      )
    ]
  ]

  -- escape_value of the scope `h`.
  escape_value : ℕ → Handle → Scopes → Option Handle × Scopes
  unfolding wrap_value value_at
  escape_value h v s = elim (s.live h) [
    | none ↦ (none, s)
    | some scope ↦ (elim scope.parent [
      | none ↦ (none, s)
      | some parent ↦
          if not (v.owner == h)
          then (none, s)
          else elim (value_at v s) [ none ↦ (none, s) | some inner ↦ wrap_value parent inner s ]
    ])
  ]

  mark_escaped : ℕ → Scope → Scopes → Scopes
  mark_escaped h scope s = record s {
    live = update s.live h (some (record scope { escaped = true }));
  }

  pub escape_handle :
      Bool → Option ℕ → Option Handle → Bool → Scopes → (Status × Option Handle) × Scopes
  unfolding escape_value mark_escaped
  escape_handle env_ok (some h) (some v) result_ok s =
      if not env_ok || not result_ok then ((invalid_arg, none), s) else elim (s.live h) [
        | none ↦ ((invalid_arg, none), s)
        | some inner ↦
            if inner.escaped
            then ((escape_called_twice, none), s)
            else let (result, s1) = escape_value h v (mark_escaped h inner s) in
              elim result [ none ↦ ((generic_failure, none), s1) | some w ↦ ((ok, some w), s1) ]
      ]
  escape_handle env_ok none v result_ok s = ((invalid_arg, none), s)
  escape_handle env_ok (some h) none result_ok s = ((invalid_arg, none), s)

-- The calls on escapable scopes, which are scopes under another type.
pub open_escapable_handle_scope :
    ((ℕ → Option Scope) → Option ℕ) → Bool → Bool → Scopes → (Status × Option ℕ) × Scopes
open_escapable_handle_scope = open_handle_scope

pub close_escapable_handle_scope : Bool → Option ℕ → Scopes → Status × Scopes
close_escapable_handle_scope = close_handle_scope

-- delete_value of the scope `h`.
pub delete_value : ℕ → Handle → Scopes → Scopes
delete_value h v s = if not (v.owner == h) then s else elim (s.live h) [
  | none ↦ s
  | some scope ↦ record s {
    live = update s.live h (some (record scope { values = update scope.values v.slot none }));
  }
]

-- close of the scope `h`.
pub close_scope : ℕ → Scopes → Scopes
close_scope h s = elim (s.live h) [
  | none ↦ s
  | some scope ↦ if scope.closed then s else record s {
    live = update s.live h (some (record scope { values = no_values; closed = true }));
  }
]
