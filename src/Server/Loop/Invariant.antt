-- ===== src/Server/Loop/Invariant.antt =====
-- The invariant of the server under the callbacks of the main loop of server/main.cpp.
use mathlib.Core.Path.{subst}
use irc_chat.Base.{nat_eq, text_eq}
use irc_chat.Base.{
  ℕ, ◌+◌, ◌%◌, ◌<◌, ◌≡◌, ◌≢◌, refl, sym, ap, ◌∙◌, ◌==◌, ==_iff, true, Option, none, some, Str,
  arith, length, inl, inr, lookup, contains, update, contains-lookup, contains-insert,
  contains-update, null_deref, if◌then◌else◌, Option-cases, Bool-cases, Result, ok, throw,
}
use irc_chat.Connection.Recv.{store_chunk, find_end, copy_message, drop_message}
use irc_chat.Connection.Send.{Kernel, poll_send}
use irc_chat.Connection.{Connection, disconnect}
use irc_chat.Db.Clients.{registered-DbInv}
use irc_chat.Db.{register_connection}
use irc_chat.Registry.{size_mod, PollRegistry}
use irc_chat.Server.Dispatch.{handle_message}
use irc_chat.Server.Invariant.{WorldInv, IsSafe, SameClients-WorldInv, on_connection_ok}
use irc_chat.Server.Clients.{handle_message-SameClients}
use irc_chat.Server.Loop.{
  poll_accept, RecvResult, received, would_block, recv_failed, read_message, poll_recv,
  poll_send_at,
}
use irc_chat.Server.Safety.Common.{IsSafe-by, bind-throw}
use irc_chat.Server.Safety.Messages.{handle_message-IsSafe}
use irc_chat.Server.World.{World, ◌>>◌, bind-ok, on_connection, on_none, on_some, if_true, if_false}

next_id : (n : ℕ) → n + 1 < size_mod → (n + 1) % size_mod ≡ n + 1
next_id n lt = omega arith

-- A new client, where fewer than `2 ^ 64 - 1` have come before.
pub poll_accept-WorldInv :
    (w : World) (fd ipv4 : ℕ)
    → WorldInv w
    → w.curr_id_count + 1 < size_mod
    → WorldInv (poll_accept fd ipv4 w)
unfolding poll_accept register_connection
poll_accept-WorldInv w fd ipv4 h lt = record {
  db_inv =
      unfold register_connection in
      registered-DbInv w.db h.db_inv w.curr_id_count ipv4
        (sym (h.live w.curr_id_count) ∙ h.fresh w.curr_id_count (omega arith));
  live = λ i.
      contains-insert w.curr_id_count i _ w.connections
      ∙ ap (λ b. if w.curr_id_count == i then true else b) (h.live i)
      ∙ sym (contains-insert w.curr_id_count i _ w.db.connections);
  fresh = λ i le.
      contains-insert w.curr_id_count i _ w.connections
      ∙ ground (arith, next_id w.curr_id_count lt, h.fresh i, ==_iff w.curr_id_count i);
}

-- One read of one connection. Bytes that hold no newline, and an end of the stream, touch no table.
module _ (w : World) (h : WorldInv w) (id : ℕ) (known : contains id w.db.connections ≡ true) where
  on_connection-IsSafe :
      (f : Connection → PollRegistry → Connection × PollRegistry) → IsSafe (on_connection id f w)
  on_connection-IsSafe f =
      let (w', run, d, s) = on_connection_ok id f w (h.live id ∙ known) in
      IsSafe-by _ run (SameClients-WorldInv h d s)

  handled :
      (s : Str) (msg_end : ℕ)
      → IsSafe ((handle_message id s >> on_connection id (λ c r. (drop_message msg_end c, r))) w)
  handled s msg_end = after (handle_message id s w) refl (handle_message-IsSafe w h id known s)
    where
      after :
          (r : Result (Unit {0} × World))
          → handle_message id s w ≡ r
          → IsSafe r
          → IsSafe
              ((handle_message id s >> on_connection id (λ c r. (drop_message msg_end c, r))) w)
      after (ok (x, w')) e safe =
          let s' = handle_message-SameClients id s w w' e in
          let (w₂, run, d, t) =
            on_connection_ok id (λ c r. (drop_message msg_end c, r)) w'
              (s'.same_live id ∙ h.live id ∙ known) in
          IsSafe-by _ (bind-ok (handle_message id s) _ e ∙ run) (SameClients-WorldInv safe d t)
      after (throw x) e safe = IsSafe-by _ (bind-throw (handle_message id s) _ e) safe

  read_message-IsSafe : (n : ℕ) → IsSafe (read_message id n w)
  unfolding read_message
  read_message-IsSafe n = elim (Option-cases (lookup id w.connections)) [
    | inl absent ↦
        absurd (ground (arith, contains-lookup id w.connections, absent, h.live id ∙ known))
    | inr (c, e) ↦
        rw (e, read_message)
          elim (Option-cases (find_end n c)) [
            | inl more ↦ IsSafe-by _ (on_none _ _ more) h
            | inr (msg_end, found) ↦
                IsSafe-by _ (on_some _ _ msg_end found) (handled (copy_message msg_end c) msg_end)
          ]
  ]

  stored :
      (chunk : Str)
      → (w' : World) × (on_connection id (λ c r. (store_chunk chunk c, r)) w ≡ ok (tt, w'))
        × WorldInv w'
        × (w'.db ≡ w.db)
  stored chunk =
      let (w', run, d, s) =
        on_connection_ok id (λ c r. (store_chunk chunk c, r)) w (h.live id ∙ known) in
      (w', run, SameClients-WorldInv h d s, d)

module _ (w : World) (h : WorldInv w) (id : ℕ) (known : contains id w.db.connections ≡ true) where
  -- Given the invariant and a registered client, whatever `recv` returns but an error: `poll_recv`
  -- returns with the invariant kept, or throws `out_of_range` or `bad_variant_access`, and nothing
  -- else.
  pub poll_recv-IsSafe : (r : RecvResult) → r ≢ recv_failed → IsSafe (poll_recv id r w)
  unfolding poll_recv
  poll_recv-IsSafe would_block q = h
  poll_recv-IsSafe recv_failed q = absurd (q refl)
  poll_recv-IsSafe (received chunk) q = elim (Bool-cases (length chunk == 0)) [
    | inl closed ↦ IsSafe-by _ (if_true _ _ closed) (on_connection-IsSafe w h id known disconnect)
    | inr some_bytes ↦
        let (w', run, h', d) = stored w h id known chunk in
        IsSafe-by _
          (if_false _ _ some_bytes
            ∙ bind-ok (on_connection id (λ c r. (store_chunk chunk c, r))) _ run)
          (read_message-IsSafe w' h' id (ap (λ x. contains id x.connections) d ∙ known)
            (length chunk))
  ]

-- Given the invariant, bytes that go out touch no table and no other client.
pub poll_send_at-WorldInv :
    (w w' : World) (id : ℕ) (k : Kernel)
    → WorldInv w
    → poll_send_at id k w ≡ ok (tt, w')
    → WorldInv w'
unfolding poll_send_at
poll_send_at-WorldInv w w' id k h e = subst Kept e (at (lookup id w.connections))
  where
    Kept : Result (Unit {0} × World) → Type 0
    Kept (throw x) = Unit {0}
    Kept (ok (_, w₂)) = WorldInv w₂

    after :
        (r : Result (Connection × PollRegistry))
        → Kept (elim r as (λ _. Result (Unit {0} × World)) [
          | throw x ↦ throw x
          | ok (c', r) ↦
              ok (tt, record w { connections = update id (λ _. c') w.connections; registry = r })
        ])
    after (throw x) = tt
    after (ok (c', r)) = SameClients-WorldInv h refl (record {
      same_live = λ i. contains-update id i (λ _. c') w.connections;
      same_count = refl;
    })

    at :
        (o : Option Connection)
        → Kept (elim o as (λ _. Result (Unit {0} × World)) [
          | none ↦ throw null_deref
          | some c ↦ elim (poll_send k c w.registry) as (λ _. Result (Unit {0} × World)) [
            | throw x ↦ throw x
            | ok (c', r) ↦
                ok (tt, record w { connections = update id (λ _. c') w.connections; registry = r })
          ]
        ])
    at none = tt
    at (some c) = after (poll_send k c w.registry)
