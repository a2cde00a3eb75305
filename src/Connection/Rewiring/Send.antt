-- ===== src/Connection/Rewiring/Send.antt =====
-- `connection::poll_send` of server/connection.cpp: the callbacks are served as before, and it throws for
-- an error of the system only.
use irc_chat.Base.{nat_eq}
use irc_chat.Base.{
  ℕ, zero, suc, take, drop, runtime_error, ◌≡◌, refl, true, [], ◌∷◌, Option, none, some, Str, List,
  ok, throw, Result,
}
use irc_chat.Connection.Send.{
  SendResult, would_block, failed, sent, SendRun, taking, send_slice, send_loop, Kernel, SendEnd,
  drained, blocked, closed, faulted, underflow, take_bytes, stop_sending, end_sending, send_from,
  poll_send,
}
use irc_chat.Connection.Wiring.{HasFront, IsRewired}
use irc_chat.Connection.{Connection, unregister_opt}
use irc_chat.Registry.Tokens.{IsRegistry}
use irc_chat.Registry.{PollRegistry, unregister_event}
use irc_chat.Connection.Rewiring.{
  buffers-IsRewired, trans-IsRewired, clear_send-IsRewired, disconnect-IsRewired,
}

-- What is left of the slice and the queue at an end that stays, where `underflow` does not come.
abbrev EndsWell : SendEnd → Type 0
EndsWell (blocked buf queue) = HasFront buf queue
EndsWell (closed buf queue) = HasFront buf queue
EndsWell underflow = ⊥
EndsWell drained = Unit
EndsWell faulted = Unit

HasFront-cons : (buf q : Str) (qs : List Str) → HasFront buf (q ∷ qs)
HasFront-cons [] q qs = tt
HasFront-cons (c ∷ buf) q qs = tt

send_slice-EndsWell :
    (a : SendResult) (buf q : Str) (qs : List Str) (next : SendRun)
    → EndsWell next.1
    → EndsWell (send_slice a buf (q ∷ qs) next).1
unfolding send_slice
send_slice-EndsWell would_block buf q qs next h = HasFront-cons buf q qs
send_slice-EndsWell failed buf q qs next h = tt
send_slice-EndsWell (sent zero) buf q qs next h = HasFront-cons buf q qs
send_slice-EndsWell (sent (suc m)) buf q qs next h = left (drop (suc m) buf)
  where
    left :
        (rest : Str)
        → EndsWell
            (elim rest as (λ _. SendRun) [
              | [] ↦ taking (take (suc m) buf) next
              | c ∷ more ↦ (take (suc m) buf, blocked (c ∷ more) (q ∷ qs))
            ]).1
    left [] = h
    left (c ∷ more) = tt

send_loop-EndsWell : (k : Kernel) (i : ℕ) (queue : List Str) → EndsWell (send_loop k i queue).1
unfolding send_loop
send_loop-EndsWell k i [] = tt
send_loop-EndsWell k i (q ∷ qs) =
    send_slice-EndsWell (k i q) q q qs (send_loop k (suc i) qs) (send_loop-EndsWell k (suc i) qs)

send_from-EndsWell :
    (k : Kernel) (buf : Str) (queue : List Str)
    → HasFront buf queue
    → EndsWell (send_from k buf queue).1
unfolding send_from
send_from-EndsWell k [] queue h = send_loop-EndsWell k 0 queue
send_from-EndsWell k (c ∷ buf) [] h = absurd h
send_from-EndsWell k (c ∷ buf) (q ∷ qs) h =
    send_slice-EndsWell (k 0 (c ∷ buf)) (c ∷ buf) q qs (send_loop k 1 qs)
      (send_loop-EndsWell k 1 qs)

-- What a call leaves if it returns, where it may throw only for an error of the system.
abbrev pub LeavesOrFails :
    (Connection → PollRegistry → Type 0) → Result (Connection × PollRegistry) → Type 0
LeavesOrFails Q (ok (c, r)) = Q c r
LeavesOrFails Q (throw runtime_error) = Unit
LeavesOrFails Q (throw _) = ⊥

pub poll_send-IsRewired :
    (k : Kernel) (c : Connection) (r : PollRegistry)
    → IsRegistry r
    → c.connected ≡ true
    → (tok : ℕ) → c.send_tok ≡ some tok
    → HasFront c.send_buf c.send_queue
    → LeavesOrFails (IsRewired c r) (poll_send k c r)
unfolding poll_send unregister_event unregister_opt
poll_send-IsRewired k c r inv up tok has front =
    by_end (take_bytes (send_from k c.send_buf c.send_queue).0 c)
      (buffers-IsRewired c _ r inv refl refl refl refl (λ h. h)) up has
      (send_from k c.send_buf c.send_queue).1 (send_from-EndsWell k c.send_buf c.send_queue front)
  where
    stopped :
        (d : Connection) (o : Option ℕ)
        → d.send_tok ≡ some tok
        → d.send_tok ≡ o
        → IsRewired c r d r
        → LeavesOrFails (IsRewired c r) (stop_sending d r o)
    stopped d none has e f = absurd (cc)
    stopped d (some t) has e f = trans-IsRewired f (clear_send-IsRewired d r (some t) inv e)

    buffered :
        (d : Connection) (buf : Str) (queue : List Str)
        → HasFront buf queue
        → IsRewired c r d r
        → IsRewired c r (record d { send_buf = buf; send_queue = queue }) r
    buffered d buf queue fr f = trans-IsRewired f (
        buffers-IsRewired d (record d { send_buf = buf; send_queue = queue }) r inv refl refl refl
          refl (λ h. fr))

    by_end :
        (d : Connection)
        → IsRewired c r d r
        → d.connected ≡ true
        → d.send_tok ≡ some tok
        → (e : SendEnd) → EndsWell e
        → LeavesOrFails (IsRewired c r) (end_sending d r e)
    by_end d f u has drained w = stopped _ d.send_tok has refl (buffered d [] [] tt f)
    by_end d f u has (blocked buf queue) w = buffered d buf queue w f
    by_end d f u has (closed buf queue) w =
        trans-IsRewired (buffered d buf queue w f)
          (disconnect-IsRewired (record d { send_buf = buf; send_queue = queue }) r inv u)
    by_end d f u has faulted w = tt
    by_end d f u has underflow w = w
