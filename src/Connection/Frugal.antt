-- ===== src/Connection/Frugal.antt =====
-- What a call of server/connection.cpp may add to the registry: a connection asks for its send event
-- only while it has no token for one, so that the end of idleness pays for the entry and the token.
use irc_chat.Base.{
  ℕ, ◌+◌, ◌≤◌, ◌≡◌, refl, sym, Option, none, some, arith, Str, inl, inr, Option-cases, Bool-cases,
  length, ◌++◌, Result, ok, throw,
}
use irc_chat.Connection.Send.{
  Kernel, SendEnd, drained, blocked, closed, faulted, underflow, take_bytes, stop_sending,
  end_sending, send_from, poll_send,
}
use irc_chat.Connection.{
  Connection, send_text, disconnect, start_sending, unregister_opt, chunks, msg_size_limit,
}
use irc_chat.Registry.Measure.{IsQuieter, register_event-measure, unregister_event-measure}
use irc_chat.Registry.{PollRegistry, Callback, pollout}

-- 1 for a connection with no token for sending.
abbrev pub idle_of : Connection → ℕ
idle_of c = elim c.send_tok [ none ↦ 1 | some _ ↦ 0 ]

-- From the connection `c` and the registry `r` to these, with so many entries and tokens more at most
-- than what the end of idleness accounts for.
pub record IsFrugal (extra : ℕ) (c : Connection) (r : PollRegistry) (c' : Connection)
    (r' : PollRegistry) : Type 0 where
  pub entries : length r'.fds + idle_of c' ≤ extra + (length r.fds + idle_of c)
  pub tokens : r'.next_tok + idle_of c' ≤ extra + (r.next_tok + idle_of c)
  pub quieter : IsQuieter r' r

pub IsFrugal-same :
    (c c' : Connection) (r : PollRegistry) → c'.send_tok ≡ c.send_tok → IsFrugal 0 c r c' r
IsFrugal-same c c' r e = record {
  entries = ground arith;
  tokens = ground arith;
  quieter = λ i. omega arith;
}

-- The connections before the first and after the last call count by their tokens alone.
pub IsFrugal-retoken :
    {extra : ℕ} {c c' : Connection} {r r' : PollRegistry} (d d' : Connection)
    → d.send_tok ≡ c.send_tok
    → d'.send_tok ≡ c'.send_tok
    → IsFrugal extra c r c' r'
    → IsFrugal extra d r d' r'
IsFrugal-retoken d d' e e' h = record {
  entries = rw (e, e') h.entries;
  tokens = rw (e, e') h.tokens;
  quieter = h.quieter;
}

start_sending-IsFrugal :
    (c : Connection) (r : PollRegistry) → IsFrugal 0 c r (start_sending c r).0 (start_sending c r).1
unfolding start_sending
start_sending-IsFrugal c r = elim (Option-cases c.send_tok) [
  | inr (t, e) ↦ rw (e, start_sending) (IsFrugal-same (record c { send_tok = some t }) c r e)
  | inl e ↦
      let (len, tok, q) = register_event-measure c.stream.fd pollout (Callback.poll_send c.id) r in
      rw (e, start_sending) (record { entries = omega arith; tokens = omega arith; quieter = q })
]

pub send_text-IsFrugal :
    (s : Str) (c : Connection) (r : PollRegistry)
    → IsFrugal 0 c r (send_text s c r).0 (send_text s c r).1
unfolding send_text
send_text-IsFrugal s c r =
    IsFrugal-retoken c _ refl refl
      (start_sending-IsFrugal (record c { send_queue = c.send_queue ++ chunks msg_size_limit s }) r)

unregister_opt-measure :
    (o : Option ℕ) (r : PollRegistry)
    → (length (unregister_opt o r).fds ≤ length r.fds)
      × ((unregister_opt o r).next_tok ≡ r.next_tok)
      × IsQuieter (unregister_opt o r) r
unfolding unregister_opt
unregister_opt-measure none r = (omega arith, refl, λ i. omega arith)
unregister_opt-measure (some t) r = unregister_event-measure t r

pub disconnect-IsFrugal :
    (c : Connection) (r : PollRegistry) → IsFrugal 0 c r (disconnect c r).0 (disconnect c r).1
unfolding disconnect
disconnect-IsFrugal c r = elim (Bool-cases c.connected) [
  | inr down ↦ rw (down, disconnect) (IsFrugal-same _ _ r refl)
  | inl up ↦
      let (len₁, tok₁, q₁) = unregister_opt-measure c.recv_tok r in
      let (len₂, tok₂, q₂) = unregister_opt-measure c.send_tok (unregister_opt c.recv_tok r) in
      rw (up, disconnect)
        (record {
          entries = omega arith;
          tokens = omega arith;
          quieter = λ i. omega (arith, q₁ i, q₂ i);
        })
]

-- What a call that may throw leaves, if it returns.
abbrev pub Leaves :
    (Connection → PollRegistry → Type 0) → Result (Connection × PollRegistry) → Type 0
Leaves Q (throw e) = Unit {0}
Leaves Q (ok (c, r)) = Q c r

-- `poll_send` may give up its token, and no more.
pub poll_send-IsFrugal :
    (k : Kernel) (c : Connection) (r : PollRegistry) → Leaves (IsFrugal 1 c r) (poll_send k c r)
unfolding poll_send
poll_send-IsFrugal k c r =
    by_end (take_bytes (send_from k c.send_buf c.send_queue).0 c) refl
      (send_from k c.send_buf c.send_queue).1
  where
    more : {c' : Connection} {r' : PollRegistry} → IsFrugal 0 c r c' r' → IsFrugal 1 c r c' r'
    more h = record {
      entries = omega (arith, h.entries);
      tokens = omega (arith, h.tokens);
      quieter = h.quieter;
    }

    stopped :
        (d : Connection) (o : Option ℕ)
        → d.send_tok ≡ c.send_tok
        → Leaves (IsFrugal 1 c r) (stop_sending d r o)
    stopped d none e = tt
    stopped d (some t) e =
        let (len, tok, q) = unregister_event-measure t r in
        record { entries = omega arith; tokens = omega arith; quieter = q }

    by_end :
        (d : Connection)
        → d.send_tok ≡ c.send_tok
        → (e : SendEnd) → Leaves (IsFrugal 1 c r) (end_sending d r e)
    by_end d t drained = stopped _ d.send_tok t
    by_end d t (blocked buf queue) = more (IsFrugal-same c _ r t)
    by_end d t (closed buf queue) = more (
        IsFrugal-retoken c _ (sym t) refl
          (disconnect-IsFrugal (record d { send_buf = buf; send_queue = queue }) r))
    by_end d t faulted = tt
    by_end d t underflow = tt
