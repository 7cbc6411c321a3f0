-- ===== src/Lifetime.antt =====
-- lib/src/napi_lifetime_tracker.h and napi_lifetime_tracker.cc: the counters of the lifetime
-- tracker, its histories, its table of strings, and the escaping of what it dumps.
-- A size_t keeps its wrap at 2^64. An unordered_map is a list of pairs with distinct keys.
pub mod Live
pub mod Trends
pub mod Escapes
pub mod Entries
mod Tests
use napi.Prelude.{
  ℕ, zero, suc, ◌+◌, ◌-◌, ◌*◌, ◌/◌, ◌%◌, ◌^◌, Bool, true, false, not, ◌&&◌, Option, none, some,
  List, [], ◌∷◌, ◌++◌, ltb, leb, ◌==◌, if◌then◌else◌, length, is_empty, get_or, set, take, bit_and,
}
use napi.Prelude.Int.{ℤ, pos, negsuc, ◌+ℤ◌, ◌-ℤ◌, ◌*ℤ◌, ltb_ℤ}

-- A size_t after `++` and `+=`.
abbrev pub add_size : ℕ → ℕ → ℕ
add_size a b = (a + b) % 2 ^ 64

-- type_stats
pub record Stats : Type 0 where
  pub created : ℕ
  pub released : ℕ
  pub active : ℕ
  pub peak : ℕ

abbrev pub max_size : ℕ → ℕ → ℕ
max_size a b = if ltb a b then b else a

pub record_create : Stats → Stats
record_create s =
    let active = add_size s.active 1 in
    record s { created = add_size s.created 1; active = active; peak = max_size s.peak active }

pub record_release : Stats → Stats
record_release s = record s {
  released = add_size s.released 1;
  active = if ltb 0 s.active then s.active - 1 else s.active;
}

pub add_type_stats : Stats → Stats → Stats
add_type_stats total s = record {
  created = add_size total.created s.created;
  released = add_size total.released s.released;
  active = add_size total.active s.active;
  peak = add_size total.peak s.peak;
}

-- tracked_type_stats, over the snapshots of a type; `extra` is what a provider adds to it.
pub record Tracked (S X : Type 0) : Type 0 where
  pub stats : Stats
  pub live : List (ℕ × S)
  pub extra : X

module _ {S : Type 0} where
  pub find_live : ℕ → List (ℕ × S) → Option S
  find_live handle [] = none
  find_live handle ((h, s) ∷ rest) = if handle == h then some s else find_live handle rest

  pub erase_live : ℕ → List (ℕ × S) → List (ℕ × S)
  erase_live handle [] = []
  erase_live handle ((h, s) ∷ rest) = if handle == h then rest else (h, s) ∷ erase_live handle rest

  -- The handle of an object that died unseen is taken over by the new one.
  forget_existing : {X : Type 0} → ℕ → Tracked S X → Tracked S X
  unfolding find_live erase_live
  forget_existing handle t = elim (find_live handle t.live) [
    | none ↦ t
    | some _ ↦ record {
      stats = record t.stats {
        active = if ltb 0 t.stats.active then t.stats.active - 1 else t.stats.active;
      };
      live = erase_live handle t.live;
      extra = t.extra;
    }
  ]

  -- `add_snapshot` and `remove_snapshot` work on what the provider adds.
  pub record_tracked_create : {X : Type 0} → ℕ → S → (S → X → X) → Tracked S X → Tracked S X
  unfolding forget_existing record_create
  record_tracked_create handle snapshot add_snapshot t =
      let t1 = forget_existing handle t in
      let t2 = record t1 { stats = record_create t1.stats } in
      let t3 = record t2 { extra = add_snapshot snapshot t2.extra } in
      record t3 { live = (handle, snapshot) ∷ t3.live }

  -- `env_of` is the snapshot's field `env`; a handle that is not live gives null.
  pub record_tracked_release :
      {E X : Type 0} → ℕ → (S → E) → (S → X → X) → Tracked S X → Option E × Tracked S X
  unfolding find_live erase_live record_release
  record_tracked_release handle env_of remove_snapshot t = elim (find_live handle t.live) [
    | none ↦ (none, t)
    | some snapshot ↦
        let t1 = record t { extra = remove_snapshot snapshot t.extra } in
        let t2 = record t1 { live = erase_live handle t1.live } in
        (some (env_of snapshot), record t2 { stats = record_release t2.stats })
  ]

-- The last three values of a counter: counter_history's array, size and next of one key.
pub record History : Type 0 where
  pub values : List ℕ
  pub size : ℕ
  pub next : ℕ

abbrev pub new_history : History
new_history = record { values = 0 ∷ 0 ∷ 0 ∷ []; size = 0; next = 0 }

pub record Trend : Type 0 where
  pub available : Bool
  pub current : ℕ
  pub speed : ℤ
  pub acceleration : ℤ

-- `static_cast<long long>` of a size_t.
pub to_long : ℕ → ℤ
to_long n = if ltb n (2 ^ 63) then pos n else negsuc (2 ^ 64 - n - 1)

pub observe_counter : History → ℕ → Trend × History
unfolding to_long
observe_counter h value =
    let history = set h.values h.next value in
    let next = (h.next + 1) % length history in
    let size = if ltb h.size (length history) then h.size + 1 else h.size in
    let x_i_minus_2 = get_or history next 0 in
    let x_i_minus_1 = get_or history ((next + 1) % length history) 0 in
    let x_i = get_or history ((next + 2) % length history) 0 in
    (
      if size == length history
          then record {
            available = true;
            current = x_i_minus_1;
            speed = to_long x_i -ℤ to_long x_i_minus_2;
            acceleration = to_long x_i -ℤ pos 2 *ℤ to_long x_i_minus_1 +ℤ to_long x_i_minus_2;
          }
          else record { available = false; current = 0; speed = pos 0; acceleration = pos 0 },
      record { values = history; size = size; next = next },
    )

-- add_string_symbol_entry and remove_string_symbol_entry, add_object_type_entry and
-- remove_object_type_entry: the entries are told apart by `same`.
pub record Entry (K : Type 0) : Type 0 where
  pub key : K
  pub count : ℕ

module _ {K : Type 0} (same : K → K → Bool) where
  pub add_entry : K → List (Entry K) → List (Entry K)
  add_entry key [] = record { key = key; count = 1 } ∷ []
  add_entry key (e ∷ rest) =
      if same e.key key
      then record e { count = add_size e.count 1 } ∷ rest
      else e ∷ add_entry key rest

  pub remove_entry : K → List (Entry K) → List (Entry K)
  remove_entry key [] = []
  remove_entry key (e ∷ rest) =
      if same e.key key
      then (if ltb 1 e.count then record e { count = e.count - 1 } ∷ rest else rest)
      else e ∷ remove_entry key rest

-- The digits of append_hex_escape.
hex_digit : ℕ → ℕ
hex_digit d = if ltb d 10 then b'0' + d else b'a' + (d - 10)

append_hex_escape : ℕ → List ℕ
unfolding hex_digit
append_hex_escape c =
    0x5c ∷ b'x' ∷ hex_digit (bit_and (c / 2 ^ 4) 0x0f) ∷ hex_digit (bit_and c 0x0f) ∷ []

-- The `switch` of escaped_value_fragment.
escape_byte : ℕ → List ℕ
unfolding append_hex_escape
escape_byte c =
    if c == 0x5c
    then 0x5c ∷ 0x5c ∷ []
    else if c == 0x22
    then 0x5c ∷ 0x22 ∷ []
    else if c == 0x0a
    then 0x5c ∷ b'n' ∷ []
    else if c == 0x0d
    then 0x5c ∷ b'r' ∷ []
    else if c == 0x09
    then 0x5c ∷ b't' ∷ []
    else if leb 0x20 c && leb c 0x7e
    then c ∷ []
    else append_hex_escape c

pub escape_loop : List ℕ → List ℕ
unfolding escape_byte
escape_loop [] = []
escape_loop (c ∷ cs) = escape_byte c ++ escape_loop cs

abbrev pub dump_max_bytes : ℕ
dump_max_bytes = 240

pub escaped_value_fragment : List ℕ → List ℕ
unfolding escape_loop
escaped_value_fragment value =
    let limit = if ltb (length value) dump_max_bytes then length value else dump_max_bytes in
    escape_loop (take limit value)
    ++ (if ltb limit (length value) then b'.' ∷ b'.' ∷ b'.' ∷ [] else [])

-- env_flag_enabled and env_flag_enabled_or, on what std::getenv gives.
pub env_flag_enabled : Option (List ℕ) → Bool
env_flag_enabled none = false
env_flag_enabled (some value) = not (is_empty value) && not (get_or value 0 0 == b'0')

pub env_flag_enabled_or : Option (List ℕ) → Bool → Bool
unfolding env_flag_enabled
env_flag_enabled_or none fallback = fallback
env_flag_enabled_or (some value) fallback =
    if is_empty value then fallback else env_flag_enabled (some value)

-- periodic_gate__ of lib/src/napi_periodic_gate.cc; a time is an int64_t.
pub record Gate : Type 0 where
  pub interval_ms : ℤ
  pub last_ms : ℤ

pub should_fire : ℤ → Gate → Bool × Gate
should_fire now_ms g =
    if not (ltb_ℤ (pos 0) g.interval_ms)
    then (false, g)
    else if not (ltb_ℤ g.last_ms (pos 0)) && not (ltb_ℤ (pos 0) g.last_ms)
    then (false, record g { last_ms = now_ms })
    else if ltb_ℤ (now_ms -ℤ g.last_ms) g.interval_ms
    then (false, g)
    else (true, record g { last_ms = now_ms })

pub reset : Gate → Gate
reset g = record g { last_ms = pos 0 }
