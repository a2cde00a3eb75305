-- ===== src/Connection/Delivery.antt =====
-- Lemmas on `connection::poll_send` of server/connection.cpp: the bytes that the kernel has taken
-- and those still pending.
use mathlib.Core.List.{append-nil, append_assoc}
use mathlib.Core.Path.{subst}
use irc_chat.Base.{
  ℕ, zero, suc, ◌≤◌, ◌<◌, ◌≡◌, ◌≢◌, refl, sym, ap, ◌∙◌, List, [], ◌∷◌, ◌++◌, none, some, Str,
  length, take, drop, concat, take-append-drop, arith, ok,
}
use irc_chat.Registry.{PollRegistry, unregister_event}
use irc_chat.Connection.{Connection, disconnect}
use irc_chat.Connection.Send.{
  SendResult, sent, would_block, failed, Kernel, SendEnd, drained, blocked, closed, faulted,
  underflow, SendRun, send_slice, send_loop, send_from, take_bytes, stop_sending, end_sending,
  poll_send,
}

-- What is still to be sent: the rest of the text that is being sent, and the texts behind it.
abbrev pub unsent : Str → List Str → Str
unsent [] queue = concat queue
unsent (c ∷ buf) [] = c ∷ buf
unsent (c ∷ buf) (q ∷ qs) = (c ∷ buf) ++ concat qs

abbrev pub pending : Connection → Str
pending c = unsent c.send_buf c.send_queue

-- `_send_buf` is empty, or an end of the text at the front of the queue.
abbrev pub PointsInto : Str → List Str → Type 0
PointsInto [] queue = Unit {0}
PointsInto (c ∷ buf) [] = ⊥
PointsInto (c ∷ buf) (q ∷ qs) = (before : Str) × (q ≡ before ++ c ∷ buf)

abbrev pub AllNonempty : List Str → Type 0
AllNonempty [] = Unit {0}
AllNonempty (q ∷ qs) = (0 < length q) × AllNonempty qs

pub record IsSending (c : Connection) : Type 0 where
  pub points : PointsInto c.send_buf c.send_queue
  pub nonempty : AllNonempty c.send_queue

-- The kernel never takes more than it is given, and does not fail.
pub record IsKernel (k : Kernel) : Type 0 where
  pub within : (i : ℕ) (s : Str) (n : ℕ) → k i s ≡ sent n → n ≤ length s
  pub works : (i : ℕ) (s : Str) → k i s ≢ failed

-- `total` was to be sent.
abbrev RunOk : Str → SendRun → Type 0
RunOk total (s, drained) = s ≡ total
RunOk total (s, blocked buf queue) =
    (s ++ unsent buf queue ≡ total) × PointsInto buf queue × AllNonempty queue
RunOk total (s, closed buf queue) =
    (s ++ unsent buf queue ≡ total) × PointsInto buf queue × AllNonempty queue
RunOk total (s, faulted) = ⊥
RunOk total (s, underflow) = ⊥

RunOk-taking :
    (bytes total : Str) (s : Str) (e : SendEnd)
    → RunOk total (s, e)
    → RunOk (bytes ++ total) (bytes ++ s, e)
RunOk-taking bytes total s drained h = ap (◌++◌ bytes) h
RunOk-taking bytes total s (blocked buf queue) h =
    (append_assoc bytes s (unsent buf queue) ∙ ap (◌++◌ bytes) h.0, h.1, h.2)
RunOk-taking bytes total s (closed buf queue) h =
    (append_assoc bytes s (unsent buf queue) ∙ ap (◌++◌ bytes) h.0, h.1, h.2)
RunOk-taking bytes total s faulted h = h
RunOk-taking bytes total s underflow h = h

-- One round on the end `c ∷ buf` of the front `q`.
send_slice-RunOk :
    (a : SendResult) (c : ℕ) (buf q before : Str) (qs : List Str) (next : SendRun)
    → a ≢ failed
    → ((n : ℕ) → a ≡ sent n → n ≤ length (c ∷ buf))
    → q ≡ before ++ c ∷ buf
    → AllNonempty (q ∷ qs)
    → RunOk (concat qs) next
    → RunOk ((c ∷ buf) ++ concat qs) (send_slice a (c ∷ buf) (q ∷ qs) next)
unfolding send_slice
send_slice-RunOk would_block c buf q before qs next works within e ne h = (refl, (before, e), ne)
send_slice-RunOk failed c buf q before qs next works within e ne h = absurd (works refl)
send_slice-RunOk (sent zero) c buf q before qs next works within e ne h = (refl, (before, e), ne)
send_slice-RunOk (sent (suc m)) c buf q before qs (s, end) works within e ne h =
    go (drop m buf) refl
  where
    split : (c ∷ take m buf) ++ drop m buf ≡ c ∷ buf
    split = ap (◌∷◌ c) (take-append-drop m buf)

    go :
        (rest : Str)
        → drop m buf ≡ rest
        → RunOk ((c ∷ buf) ++ concat qs) (send_slice (sent (suc m)) (c ∷ buf) (q ∷ qs) (s, end))
    go [] d =
        let full : c ∷ take m buf ≡ c ∷ buf = sym (append-nil (c ∷ take m buf)) ∙ rw d at split in
        rw (d, send_slice)
          (subst (λ t. RunOk t ((c ∷ take m buf) ++ s, end)) (ap (λ t. t ++ concat qs) full)
            (RunOk-taking (c ∷ take m buf) (concat qs) s end h))
    go (x ∷ rest) d =
        let whole : (c ∷ take m buf) ++ x ∷ rest ≡ c ∷ buf = rw d at split in
        rw (d, send_slice)
          (
            sym (append_assoc (c ∷ take m buf) (x ∷ rest) (concat qs))
                ∙ ap (λ t. t ++ concat qs) whole,
            (
              before ++ (c ∷ take m buf),
              e
                  ∙ ap (◌++◌ before) (sym whole)
                  ∙ sym (append_assoc before (c ∷ take m buf) (x ∷ rest)),
            ),
            ne,
          )

disconnect_keeps :
    (c : Connection) (r : PollRegistry)
    → ((disconnect c r).0.stream.taken ≡ c.stream.taken)
      × ((disconnect c r).0.send_buf ≡ c.send_buf)
      × ((disconnect c r).0.send_queue ≡ c.send_queue)
unfolding disconnect
disconnect_keeps c r = (ground arith, ground arith, ground arith)

module _ (k : Kernel) (law : IsKernel k) where
  send_loop-RunOk : (i : ℕ) (qs : List Str) → AllNonempty qs → RunOk (concat qs) (send_loop k i qs)
  unfolding send_loop
  send_loop-RunOk i [] ne = refl
  send_loop-RunOk i ([] ∷ qs) ne = absurd (omega arith)
  send_loop-RunOk i ((c ∷ q) ∷ qs) ne =
      send_slice-RunOk (k i (c ∷ q)) c q (c ∷ q) [] qs _ (law.works i (c ∷ q))
        (law.within i (c ∷ q)) refl ne (send_loop-RunOk (suc i) qs ne.1)

  send_from-RunOk :
      (buf : Str) (queue : List Str)
      → PointsInto buf queue
      → AllNonempty queue
      → RunOk (unsent buf queue) (send_from k buf queue)
  unfolding send_from
  send_from-RunOk [] queue h ne = send_loop-RunOk 0 queue ne
  send_from-RunOk (c ∷ buf) [] h ne = absurd h
  send_from-RunOk (c ∷ buf) (q ∷ qs) h ne =
      send_slice-RunOk (k 0 (c ∷ buf)) c buf q h.0 qs _ (law.works 0 (c ∷ buf))
        (law.within 0 (c ∷ buf)) h.1 ne (send_loop-RunOk 1 qs ne.1)

  -- Where the kernel never takes more bytes than it is given and does not fail, the connection has
  -- a send token, `_send_buf` is an end of the front of the queue or empty, and no queued text is
  -- empty: `poll_send` returns, the bytes taken followed by the bytes still pending are what they
  -- were, in order, and the shape of the buffer and the queue is kept.
  pub poll_send-pending :
      (c : Connection) (r : PollRegistry) (tok : ℕ)
      → c.send_tok ≡ some tok
      → IsSending c
      → (c' : Connection) × (r' : PollRegistry) × (poll_send k c r ≡ ok (c', r'))
        × (c'.stream.taken ++ pending c' ≡ c.stream.taken ++ pending c)
        × IsSending c'
  unfolding poll_send
  poll_send-pending c r tok has h =
      go (send_from k c.send_buf c.send_queue).0 (send_from k c.send_buf c.send_queue).1
        (send_from-RunOk c.send_buf c.send_queue h.points h.nonempty)
    where
      go :
          (s : Str) (e : SendEnd)
          → RunOk (unsent c.send_buf c.send_queue) (s, e)
          → (c' : Connection) × (r' : PollRegistry) × (end_sending (take_bytes s c) r e
              ≡ ok (c', r'))
            × (c'.stream.taken ++ pending c' ≡ c.stream.taken ++ pending c)
            × IsSending c'
      go s drained q = (
        record (take_bytes s c) { send_buf = []; send_queue = []; send_tok = none },
        (unregister_event tok r).0,
        rw (has, stop_sending) refl,
        append-nil (c.stream.taken ++ s) ∙ ap (◌++◌ c.stream.taken) q,
        record { points = tt; nonempty = tt },
      )
      go s (blocked buf queue) q = (
        _,
        _,
        refl,
        append_assoc c.stream.taken s (unsent buf queue) ∙ ap (◌++◌ c.stream.taken) q.0,
        record { points = q.1; nonempty = q.2 },
      )
      go s (closed buf queue) q =
          let last : Connection = record (take_bytes s c) { send_buf = buf; send_queue = queue } in
          let (same_taken, same_buf, same_queue) = disconnect_keeps last r in
          (
            (disconnect last r).0,
            (disconnect last r).1,
            refl,
            rw (same_taken, same_buf, same_queue)
                (append_assoc c.stream.taken s (unsent buf queue) ∙ ap (◌++◌ c.stream.taken) q.0),
            record { points = rw (same_buf, same_queue) q.1; nonempty = rw same_queue q.2 },
          )
      go s faulted q = absurd q
      go s underflow q = absurd q
