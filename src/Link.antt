-- ===== src/Link.antt =====
-- lib/src/napi_intrinsic_link.h: circular doubly linked lists whose nodes are the links
-- themselves. A link is its address; the two pointers of every link are the maps of `Links`.
pub mod Ring
pub mod Frame
mod Tests
use napi.Prelude.{
  ℕ, zero, suc, ◌+◌, Bool, true, false, not, Option, none, some, ◌==◌, if◌then◌else◌, update,
}

-- `next_link_` and `prev_link_` of every link.
pub record Links : Type 0 where
  pub next_link : ℕ → ℕ
  pub prev_link : ℕ → ℕ

-- The default member initialisers: both pointers lead to the link itself.
pub init : Links → ℕ → Links
init h l = record h { next_link = update h.next_link l l; prev_link = update h.prev_link l l }

pub linked : Links → ℕ → Bool
linked h this = not (h.next_link this == this)

set_next : Links → ℕ → ℕ → Links
set_next h l v = record h { next_link = update h.next_link l v }

set_prev : Links → ℕ → ℕ → Links
set_prev h l v = record h { prev_link = update h.prev_link l v }

-- The four writes in order, each reading the links as the writes before it left them.
pub link : Links → ℕ → ℕ → Links
unfolding set_next set_prev
link h this other =
    let h1 = set_next h other (h.next_link this) in
    let h2 = set_prev h1 other this in
    let h3 = set_prev h2 (h2.next_link this) other in set_next h3 this other

pub unlink : Links → ℕ → Links
unfolding set_next set_prev
unlink h this =
    let h1 = set_next h (h.prev_link this) (h.next_link this) in
    let h2 = set_prev h1 (h1.next_link this) (h1.prev_link this) in
    let h3 = set_next h2 this this in set_prev h3 this this

pub first : Links → ℕ → Option ℕ
first h this = if h.next_link this == this then none else some (h.next_link this)

-- The loops of `contains` and `count`, from `link`; `none` when the rounds run out.
contains_loop : ℕ → Links → ℕ → ℕ → ℕ → Option Bool
contains_loop zero h this other link = none
contains_loop (suc k) h this other link =
    let rest = contains_loop k h this other (h.next_link link) in
    if link == this then some false else (if link == other then some true else rest)

pub contains : ℕ → Links → ℕ → ℕ → Option Bool
unfolding contains_loop
contains rounds h this other = contains_loop rounds h this other (h.next_link this)

count_loop : ℕ → Links → ℕ → ℕ → ℕ → Option ℕ
count_loop zero h this link count = none
count_loop (suc k) h this link count =
    let rest = count_loop k h this (h.next_link link) (count + 1) in
    if link == this then some count else rest

pub count : ℕ → Links → ℕ → Option ℕ
unfolding count_loop
count rounds h this = count_loop rounds h this (h.next_link this) 0
