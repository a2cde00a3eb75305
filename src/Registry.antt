-- ===== src/Registry.antt =====
-- server/poll_registry.hpp and server/poll_registry.cpp: the table of file descriptors to wait
-- for, and the callbacks in a vector of the same order. The calls of poll(2) are in Poll.
pub mod Poll
pub mod Tokens
pub mod Removal
pub mod Measure
pub mod Callbacks
use irc_chat.Base.{
  ℕ, zero, suc, ◌+◌, ◌%◌, ◌^◌, Bool, true, false, List, [], ◌∷◌, ◌++◌, Option, none, some, ◌==◌,
  if◌then◌else◌,
}

-- The range of `size_t`, which tokens and connection ids are counted in.
abbrev pub size_mod : ℕ
size_mod = 2 ^ 64

-- `POLLIN` and `POLLOUT` of poll.h.
abbrev pub pollin : ℕ
pollin = 1

abbrev pub pollout : ℕ
pollout = 4

-- `struct pollfd`.
pub record Pollfd : Type 0 where
  pub fd : ℕ
  pub events : ℕ
  pub revents : ℕ

-- The closures that the program registers: `poll_accept` of the server, and `poll_recv` and
-- `poll_send` of the connection with that id.
pub data Callback : Type 0 where
  poll_accept : Callback
  poll_recv poll_send : ℕ → Callback

pub record PollRegistry : Type 0 where
  pub next_tok : ℕ
  pub fds : List Pollfd
  pub callbacks_and_toks : List (Callback × ℕ)

-- A value-initialised registry.
abbrev pub empty_registry : PollRegistry
empty_registry = record { next_tok = 0; fds = []; callbacks_and_toks = [] }

-- Returns the token and the new registry. The designated initialiser leaves `revents` at 0.
unfoldable pub register_event : ℕ → ℕ → Callback → PollRegistry → ℕ × PollRegistry
register_event fd events cb r = (
  r.next_tok,
  record {
    next_tok = (r.next_tok + 1) % size_mod;
    fds = r.fds ++ record { fd = fd; events = events; revents = 0 } ∷ [];
    callbacks_and_toks = r.callbacks_and_toks ++ (cb, r.next_tok) ∷ [];
  },
)

-- The index of the first entry with the token.
unfoldable pub index_of : ℕ → List (Callback × ℕ) → Option ℕ
index_of tok [] = none
index_of tok ((cb, t) ∷ r) =
    if t == tok then some 0 else (elim (index_of tok r) [ none ↦ none | some i ↦ some (suc i) ])

-- `v.erase(v.begin() + i)`.
unfoldable pub erase_at {ℓ} : {A : Type ℓ} → ℕ → List A → List A
erase_at i [] = []
erase_at zero (x ∷ xs) = xs
erase_at (suc i) (x ∷ xs) = x ∷ erase_at i xs

unfoldable pub unregister_event : ℕ → PollRegistry → PollRegistry × Bool
unregister_event tok r = elim (index_of tok r.callbacks_and_toks) [
  | none ↦ (r, false)
  | some i ↦ (
    record r { fds = erase_at i r.fds; callbacks_and_toks = erase_at i r.callbacks_and_toks },
    true,
  )
]
