-- ===== src/Connection/Rewiring.antt =====
-- The operations of server/connection.cpp on the callbacks of their connection: each leaves a registry in
-- which every callback is served.
pub mod Connect
pub mod Send
use mathlib.Core.Path.{subst}
use irc_chat.Base.{nat_eq}
use irc_chat.Base.{
  ℕ, zero, suc, take, drop, runtime_error, ◌+◌, ◌≤◌, ◌<◌, ◌≡◌, ◌≢◌, refl, sym, ◌∙◌, ap, true, false,
  [], ◌∷◌, ◌++◌, Option, none, some, arith, Str, lookup, update, Map, inl, inr, Option-cases,
  Bool-cases, length, if◌then◌else◌, ◌==◌, ==_iff, AllIn, lookup-update, update-update, List, ok,
  throw, Result,
}
use irc_chat.Connection.Send.{
  SendResult, would_block, failed, sent, SendRun, taking, send_slice, send_loop, Kernel, SendEnd,
  drained, blocked, closed, faulted, underflow, take_bytes, stop_sending, end_sending, send_from,
  poll_send,
}
use irc_chat.Connection.Wiring.{
  IsServed, IsKept, IsServed-update, HasFront, IsRewired, lookup-written,
}
use irc_chat.Connection.{
  Connection, start_sending, send_text, disconnect, unregister_opt, chunks, msg_size_limit,
}
use irc_chat.Registry.Callbacks.{AllIn-map, AllIn-concat, AllIn-unregister}
use irc_chat.Registry.Tokens.{IsRegistry, register_event-IsRegistry, unregister_event-remove_tok}
use irc_chat.Registry.{size_mod, PollRegistry, Callback, pollout, register_event, unregister_event}

-- A write of the buffers.
pub same-IsRewired :
    (c c' : Connection) (r : PollRegistry)
    → IsRegistry r
    → c'.id ≡ c.id
    → (HasFront c.send_buf c.send_queue → HasFront c'.send_buf c'.send_queue)
    → ((t : ℕ) → IsKept c c' t)
    → IsRewired c r c' r
same-IsRewired c c' r inv own front kept = record {
  same_id = own;
  front = front;
  well_formed = inv;
  still_served = λ cs there h.
      AllIn-map (IsServed cs) (IsServed (update c.id (λ _. c') cs)) r.callbacks_and_toks
        (λ cb t q. IsServed-update cs c.id c c' there cb t (kept t) q) h;
}

-- The event is unregistered, and what is left of the connection's tokens is other ones.
pub unregister-IsRewired :
    (tok : ℕ) (c c' : Connection) (r : PollRegistry)
    → IsRegistry r
    → c'.id ≡ c.id
    → (HasFront c.send_buf c.send_queue → HasFront c'.send_buf c'.send_queue)
    → ((t : ℕ) → t ≢ tok → IsKept c c' t)
    → IsRewired c r c' (unregister_event tok r).0
unregister-IsRewired tok c c' r inv own front kept = record {
  same_id = own;
  front = front;
  well_formed = (unregister_event-remove_tok tok r inv).2;
  still_served = λ cs there h.
      AllIn-unregister (IsServed cs) (IsServed (update c.id (λ _. c') cs)) tok
        (λ cb t ne q. IsServed-update cs c.id c c' there cb t (kept t ne) q) r inv h;
}

by_result :
    (c : Connection) (r : PollRegistry) {p q : Connection × PollRegistry}
    → p ≡ q
    → IsRewired c r q.0 q.1
    → IsRewired c r p.0 p.1
by_result c r e h = subst (λ p. IsRewired c r p.0 p.1) (sym e) h

-- The send event of a connection that has none.
module _ (c : Connection) (r : PollRegistry) (inv : IsRegistry r) (up : c.connected ≡ true)
    (idle : c.send_tok ≡ none) (room : r.next_tok + 1 < size_mod) where
  registered : Connection
  registered = record c { send_tok = some r.next_tok }

  registered-IsRewired :
      IsRewired c r registered (register_event c.stream.fd pollout (Callback.poll_send c.id) r).1
  unfolding registered register_event
  registered-IsRewired = record {
    same_id = refl;
    front = λ h. h;
    well_formed =
        unfold register_event in
        register_event-IsRegistry c.stream.fd pollout (Callback.poll_send c.id) r inv room;
    still_served = λ cs there h.
        AllIn-concat (IsServed (update c.id (λ _. registered) cs)) r.callbacks_and_toks
          (Callback.poll_send c.id) r.next_tok
          (AllIn-map (IsServed cs) (IsServed (update c.id (λ _. registered) cs))
            r.callbacks_and_toks
            (λ cb t q. IsServed-update cs c.id c registered there cb t (kept t) q) h)
          (
            registered,
            ground (arith, lookup-written cs c.id c registered there c.id, ==_iff c.id c.id),
            up,
            refl,
          );
  }
    where
      kept : (t : ℕ) → IsKept c registered t
      kept t = record { recv = λ p q. (p, q); send = λ p q. cc }

start_sending-IsRewired :
    (c : Connection) (r : PollRegistry)
    → IsRegistry r
    → c.connected ≡ true
    → (c.send_tok ≡ none → r.next_tok + 1 < size_mod)
    → IsRewired c r (start_sending c r).0 (start_sending c r).1
unfolding start_sending registered register_event
start_sending-IsRewired c r inv up room = elim (Option-cases c.send_tok) [
  | inr (t, e) ↦ by_result c r {q = (c, r)} (ground (arith, e)) (
      same-IsRewired c c r inv refl (λ h. h)
        (λ t. record { recv = λ p q. (p, q); send = λ p q. (p, q) }))
  | inl e ↦
      by_result c r
        {q = (
          registered c r inv up e (room e),
          (register_event c.stream.fd pollout (Callback.poll_send c.id) r).1,
        )}
        (ground (arith, e)) (registered-IsRewired c r inv up e (room e))
]

trans-IsRewired :
    {c c₁ c₂ : Connection} {r r₁ r₂ : PollRegistry}
    → IsRewired c r c₁ r₁
    → IsRewired c₁ r₁ c₂ r₂
    → IsRewired c r c₂ r₂
trans-IsRewired {c} {c₁} {c₂} {r} {r₁} {r₂} f g = record {
  same_id = g.same_id ∙ f.same_id;
  front = λ h. g.front (f.front h);
  well_formed = g.well_formed;
  still_served = λ cs there h.
      subst (λ m. AllIn (IsServed m) r₂.callbacks_and_toks)
        (ap (λ j. update j (λ _. c₂) (update c.id (λ _. c₁) cs)) f.same_id
          ∙ update-update c.id (λ _. c₂) (λ _. c₁) cs)
        (g.still_served (update c.id (λ _. c₁) cs)
          (ap (λ j. lookup j (update c.id (λ _. c₁) cs)) f.same_id
            ∙ ground (arith, lookup-written cs c.id c c₁ there c.id, ==_iff c.id c.id))
          (f.still_served cs there h));
}

-- A write of the buffers, of a connection whose other fields are those of `c`.
buffers-IsRewired :
    (c c' : Connection) (r : PollRegistry)
    → IsRegistry r
    → c'.id ≡ c.id
    → c'.connected ≡ c.connected
    → c'.recv_tok ≡ c.recv_tok
    → c'.send_tok ≡ c.send_tok
    → (HasFront c.send_buf c.send_queue → HasFront c'.send_buf c'.send_queue)
    → IsRewired c r c' r
buffers-IsRewired c c' r inv own up recv send front =
    same-IsRewired c c' r inv own front
      λ t. record { recv = λ p q. (up ∙ p, recv ∙ q); send = λ p q. (up ∙ p, send ∙ q) }

HasFront-append :
    (buf : Str) (queue more : List Str) → HasFront buf queue → HasFront buf (queue ++ more)
HasFront-append [] queue more h = tt
HasFront-append (c ∷ buf) (q ∷ qs) more h = tt
HasFront-append (c ∷ buf) [] more h = absurd h

pub send_text-IsRewired :
    (s : Str) (c : Connection) (r : PollRegistry)
    → IsRegistry r
    → c.connected ≡ true
    → (c.send_tok ≡ none → r.next_tok + 1 < size_mod)
    → IsRewired c r (send_text s c r).0 (send_text s c r).1
unfolding send_text
send_text-IsRewired s c r inv up room =
    let queued = record c { send_queue = c.send_queue ++ chunks msg_size_limit s } in
    trans-IsRewired
      (buffers-IsRewired c queued r inv refl refl refl refl
        (HasFront-append c.send_buf c.send_queue (chunks msg_size_limit s)))
      (start_sending-IsRewired queued r inv up room)

clear_recv-IsRewired :
    (c : Connection) (r : PollRegistry) (o : Option ℕ)
    → IsRegistry r
    → c.recv_tok ≡ o
    → IsRewired c r (record c { recv_tok = none }) (unregister_opt o r)
unfolding unregister_opt
clear_recv-IsRewired c r none inv e =
    same-IsRewired c (record c { recv_tok = none }) r inv refl (λ h. h)
      λ t. record { recv = λ p q. cc; send = λ p q. (p, q) }
clear_recv-IsRewired c r (some tok) inv e =
    unregister-IsRewired tok c (record c { recv_tok = none }) r inv refl (λ h. h)
      λ t ne. record { recv = λ p q. absurd (ne (ground arith)); send = λ p q. (p, q) }

clear_send-IsRewired :
    (c : Connection) (r : PollRegistry) (o : Option ℕ)
    → IsRegistry r
    → c.send_tok ≡ o
    → IsRewired c r (record c { send_tok = none }) (unregister_opt o r)
unfolding unregister_opt
clear_send-IsRewired c r none inv e =
    same-IsRewired c (record c { send_tok = none }) r inv refl (λ h. h)
      λ t. record { recv = λ p q. (p, q); send = λ p q. cc }
clear_send-IsRewired c r (some tok) inv e =
    unregister-IsRewired tok c (record c { send_tok = none }) r inv refl (λ h. h)
      λ t ne. record { recv = λ p q. (p, q); send = λ p q. absurd (ne (ground arith)) }

-- Behind `disconnect` no callback of the connection is left.
pub disconnect-IsRewired :
    (c : Connection) (r : PollRegistry)
    → IsRegistry r
    → c.connected ≡ true
    → IsRewired c r (disconnect c r).0 (disconnect c r).1
unfolding disconnect
disconnect-IsRewired c r inv up =
    let f = clear_recv-IsRewired c r c.recv_tok inv refl in
    let deaf = record c { recv_tok = none } in
    let g = clear_send-IsRewired deaf (unregister_opt c.recv_tok r) c.send_tok f.well_formed refl in
    let mute = record deaf { send_tok = none } in
    by_result c r
      {q = (
        record c { connected = false },
        unregister_opt c.send_tok (unregister_opt c.recv_tok r),
      )}
      (ground (arith, up))
      (trans-IsRewired f (
        trans-IsRewired g (
          same-IsRewired mute (record c { connected = false }) _ g.well_formed refl (λ h. h)
            λ t. record { recv = λ p q. cc; send = λ p q. cc })))

pub send_text-connected :
    (s : Str) (c : Connection) (r : PollRegistry) → (send_text s c r).0.connected ≡ c.connected
unfolding send_text
send_text-connected s c r = ground arith
