-- ===== src/Server/Keeping/Reading.antt =====
-- `connection::poll_recv` of server/connection.cpp under a property of the state, as Commands has it for
-- the messages.
use irc_chat.Base.{nat_eq}
use irc_chat.Base.{ℕ, ◌≡◌, some, Str, length, lookup, inl, inr, Option-cases, ◌==◌}
use irc_chat.Connection.Recv.{store_chunk, drop_message, find_end, copy_message}
use irc_chat.Connection.{Connection, disconnect}
use irc_chat.Server.Keeping.Commands.{handle_message-Ensures}
use irc_chat.Server.Dispatch.{handle_message}
use irc_chat.Server.Keeping.{
  Ensures, called, IsStable, CanReply, then-Ensures, bind-Ensures, if-Ensures, on_option-Ensures,
  on_connection-Ensures,
}
use irc_chat.Server.Loop.{RecvResult, received, would_block, recv_failed, read_message, poll_recv}
use irc_chat.Server.World.{World, on_connection, pure, ◌>>◌}

-- `P` is for a client that is connected, `Q` for one that may have ended.
module _ (P Q : World → Type 0) (s : IsStable P) (id : ℕ) (r : CanReply id P)
    (weaker : (w : World) → P w → Q w)
    (ends : (w : World) (c : Connection)
      → lookup id w.connections ≡ some c
      → P w
      → Q (called disconnect id c w))
    (stores : (w : World) (c : Connection) (chunk : Str)
      → lookup id w.connections ≡ some c
      → P w
      → P (called (λ c r. (store_chunk chunk c, r)) id c w))
    (drops : (w : World) (c : Connection) (msg_end : ℕ)
      → lookup id w.connections ≡ some c
      → Q w
      → Q (called (λ c r. (drop_message msg_end c, r)) id c w)) where
  handled :
      (c : Connection) (msg_end : ℕ)
      → Ensures P Q (
          handle_message id (copy_message msg_end c)
          >> on_connection id (λ c r. (drop_message msg_end c, r)))
  handled c msg_end =
      then-Ensures P Q Q _ _
        (handle_message-Ensures P Q s id r weaker ends (copy_message msg_end c))
        (λ x. on_connection-Ensures Q Q id _ (λ w c' e q. drops w c' msg_end e q))

  read_message-Ensures : (n : ℕ) → Ensures P Q (read_message id n)
  unfolding read_message Ensures
  read_message-Ensures n w h = elim (Option-cases (lookup id w.connections)) [
    | inl gone ↦ rw (gone, read_message) tt
    | inr (c, e) ↦
        rw (e, read_message)
          (on_option-Ensures P Q (find_end n c) (pure tt)
            (λ msg_end.
              handle_message id (copy_message msg_end c)
              >> on_connection id (λ c r. (drop_message msg_end c, r)))
            (λ w₁ q. weaker w₁ q) (handled c) w h)
  ]

  pub poll_recv-Ensures : (res : RecvResult) → Ensures P Q (poll_recv id res)
  unfolding poll_recv Ensures
  poll_recv-Ensures would_block w h = weaker w h
  poll_recv-Ensures recv_failed w h = tt
  poll_recv-Ensures (received chunk) w h =
      if-Ensures P Q (length chunk == 0) _ _ (on_connection-Ensures P Q id disconnect ends)
        (bind-Ensures P Q _ _
          (on_connection-Ensures P P id (λ c r. (store_chunk chunk c, r))
            (λ w₁ c e q. stores w₁ c chunk e q))
          (λ x. read_message-Ensures (length chunk)))
        w h
