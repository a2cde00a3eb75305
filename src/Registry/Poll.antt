-- ===== src/Registry/Poll.antt =====
-- `poll_registry::poll` of server/poll_registry.cpp, and what the loop of `poll_and_dispatch` reads in a
-- round. The loop itself is in Server/Loop/Poll, as the callbacks belong to the server.
use Prim.Native.Nat.{bit_and}
use irc_chat.Base.{
  ℕ, suc, ◌+◌, Bool, List, [], ◌∷◌, ◌++◌, Option, none, some, ◌==◌, not, if◌then◌else◌,
}
use irc_chat.Registry.{Pollfd, Callback, PollRegistry}

-- What `::poll` answers: that a signal came in, another error, or the number of descriptors with
-- events, and what it writes to `revents` at each index.
pub data PollAnswer : Type 0 where
  interrupted poll_failed : PollAnswer
  polled : ℕ → (ℕ → ℕ) → PollAnswer

-- The write of `::poll` to the vector, from this index on.
unfoldable pub set_revents : (ℕ → ℕ) → ℕ → List Pollfd → List Pollfd
set_revents revents i [] = []
set_revents revents i (f ∷ fs) = record f { revents = revents i } ∷ set_revents revents (suc i) fs

abbrev pub write_revents : (ℕ → ℕ) → PollRegistry → PollRegistry
write_revents revents r = record r { fds = set_revents revents 0 r.fds }

-- The loop of `poll`: the tokens at the indices with events. A vector of callbacks that is too short
-- would be read out of its bounds.
unfoldable pub tokens_with_events : List Pollfd → List (Callback × ℕ) → List ℕ
tokens_with_events (f ∷ fs) ((cb, t) ∷ l) =
    let rest = tokens_with_events fs l in if f.revents == 0 then rest else t ∷ rest
tokens_with_events _ _ = []

-- `poll(events)`: the return value, where `none` is a negative number, with the tokens put behind those
-- that the caller has.
unfoldable pub poll : PollAnswer → List ℕ → PollRegistry → Option ℕ × List ℕ × PollRegistry
unfolding tokens_with_events
poll (polled n revents) events r =
    let r' = write_revents revents r in
    (some n, events ++ tokens_with_events r'.fds r'.callbacks_and_toks, r')
poll _ events r = (none, events, r)

-- `pollfd.revents & pollfd.events`, the test of `poll_and_dispatch`.
unfoldable pub is_ready : Pollfd → Bool
is_ready f = not (bit_and f.revents f.events == 0)

-- How many descriptors of a vector pass the test.
unfoldable pub ready : List Pollfd → ℕ
unfolding is_ready
ready [] = 0
ready (f ∷ fs) = (if is_ready f then 1 else 0) + ready fs
