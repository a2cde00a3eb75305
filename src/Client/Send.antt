-- ===== src/Client/Send.antt =====
-- The loops of `send_message` in client/main.cpp that hand a line to the socket.
pub mod Whole
use irc_chat.Base.{
  ℕ, zero, suc, Bool, true, false, List, [], ◌∷◌, ◌++◌, Str, length, take, drop, leb, ◌==◌,
  if◌then◌else◌, Exception, runtime_error, out_of_range,
}

-- `MAX_SIZE` of client/config.hpp.
unfoldable pub max_size : ℕ
max_size = 4096

-- What `cli.send` returns: a count, or an error.
pub data SendAnswer : Type 0 where
  sent : ℕ → SendAnswer
  send_failed : SendAnswer

-- The answer to the n-th call, on what is handed over.
abbrev pub Socket : Type 0
Socket = ℕ → Str → SendAnswer

-- `stopped` is the end by `shutdown`.
pub data Ending : Type 0 where
  done stopped : Ending
  faulted : Exception → Ending

-- The bytes that the socket took, the number of the next call, and how the loop ended.
pub record SendRun : Type 0 where
  pub wire : Str
  pub calls : ℕ
  pub ending : Ending

abbrev pub taking : Str → SendRun → SendRun
taking bytes r = record r { wire = bytes ++ r.wire }

-- The answer to a call: the bytes taken, and the rest of the loop on what is left of `to_send`, where
-- `substr` throws if the socket took more than that.
unfoldable pub after_send : Str → Str → ℕ → SendAnswer → (Str → SendRun) → SendRun
after_send s to_send i send_failed next = record {
  wire = [];
  calls = suc i;
  ending = faulted runtime_error;
}
after_send s to_send i (sent n) next =
    if n == 0
    then record { wire = []; calls = suc i; ending = stopped }
    else if leb n (length to_send)
    then taking (take n s) (next (drop n to_send))
    else record { wire = take n s; calls = suc i; ending = faulted out_of_range }

-- The inner loop. Each round hands over all of `s` again. A round that goes on shortens `to_send`, so
-- that one round more than its length is enough.
unfoldable pub send_slice : Socket → ℕ → ℕ → Str → Str → SendRun
unfolding after_send
send_slice k fuel i s [] = record { wire = []; calls = i; ending = done }
send_slice k zero i s (c ∷ to_send) = record { wire = []; calls = i; ending = stopped }
send_slice k (suc fuel) i s (c ∷ to_send) =
    after_send s (c ∷ to_send) i (k i s) (λ left. send_slice k fuel (suc i) s left)

-- What each test `if (!RUN) break` behind a slice reads in `RUN`, which the other thread and the handler
-- of the interrupt may clear meanwhile. A test is named by the number of calls of `send` before it.
abbrev pub Flag : Type 0
Flag = ℕ → Bool

-- `if (!RUN) break`, and the next slice.
unfoldable pub go_on : Bool → SendRun → (ℕ → SendRun) → SendRun
go_on false r next = r
go_on true r next = taking r.wire (next r.calls)

-- On to the next slice, unless the loop has ended. Behind `shutdown` the flag is false.
unfoldable pub and_then : Flag → SendRun → (ℕ → SendRun) → SendRun
unfolding go_on
and_then run r next = elim r.ending [
  | done ↦ go_on (run r.calls) r next
  | stopped ↦ r
  | faulted e ↦ r
]

-- The outer loop over slices of `max_size` bytes.
unfoldable pub send_slices : Flag → Socket → ℕ → ℕ → Str → SendRun
unfolding send_slice and_then
send_slices run k fuel i [] = record { wire = []; calls = i; ending = done }
send_slices run k zero i (c ∷ slice) = record { wire = []; calls = i; ending = stopped }
send_slices run k (suc fuel) i (c ∷ slice) =
    let s = take max_size (c ∷ slice) in
    and_then run (send_slice k (length s) i s s)
      (λ i'. send_slices run k fuel i' (drop (length s) (c ∷ slice)))

unfoldable pub send_line : Flag → Socket → Str → SendRun
unfolding send_slices
send_line run k line = send_slices run k (length line) 0 line
