-- ===== src/Server/Safety/Lines.antt =====
-- A read that completes a line, `connection::poll_recv` of server/connection.cpp, with the handler of
-- server/main.cpp behind it.
use irc_chat.Base.{nat_eq}
use irc_chat.Base.{
  ℕ, zero, suc, ◌+◌, ◌-◌, ◌≡◌, refl, sym, ap, ◌∙◌, [], ◌∷◌, ◌++◌, false, ◌==◌, some, Str, arith,
  length, take, drop, length-append, drop-length-append, length-take, Avoids, find_byte_at, lookup,
  lookup-update, ==_iff, bad_variant_access, throw,
}
use irc_chat.Connection.Buffer.{waiting, IsRoomy, waiting-store_chunk}
use irc_chat.Connection.Recv.{store_chunk, find_end, copy_message, drop_message}
use irc_chat.Connection.{Connection, disconnect}
use irc_chat.Db.{ConnInfo}
use irc_chat.Message.Print.{to_string}
use irc_chat.Message.RoundTrip.{IsPrintable, parse-to_string}
use irc_chat.Message.{Message, numeric_reply}
use irc_chat.Server.Dispatch.{handle_message}
use irc_chat.Server.Keeping.{called}
use irc_chat.Server.Loop.{received, read_message, poll_recv}
use irc_chat.Server.Safety.Common.{bind-throw}
use irc_chat.Server.Safety.Messages.{numeric-throws}
use irc_chat.Server.World.{World, ◌>>◌, bind-ok, if_false, on_connection, on_some}

drop-nil : (i k : ℕ) → [] ≡ drop i (take {A = ℕ} k [])
drop-nil zero zero = refl
drop-nil zero (suc k) = refl
drop-nil (suc i) zero = refl
drop-nil (suc i) (suc k) = refl

take-drop : (n i : ℕ) (v : Str) → take n (drop i v) ≡ drop i (take (i + n) v)
take-drop n zero v = ap (λ k. take k v) (omega arith)
take-drop zero (suc i) [] = drop-nil (suc i) (suc i + 0)
take-drop (suc n) (suc i) [] = drop-nil (suc i) (suc i + suc n)
take-drop n (suc i) (c ∷ v) =
    let e : suc i + n ≡ suc (i + n) = omega arith in
    take-drop n i v ∙ sym (ap (λ k. drop (suc i) (take k (c ∷ v))) e)

-- The bytes of a connection once a chunk that ends a line is stored behind those that wait.
module _ (c : Connection) (h : IsRoomy c) (s : Str) (one_line : Avoids b'\n' s) where
  abbrev chunk : Str
  chunk = s ++ b'\n' ∷ []

  abbrev stored : Connection
  stored = store_chunk chunk c

  stored_idx : stored.recv_idx ≡ c.recv_idx + length chunk
  unfolding store_chunk
  stored_idx = refl

  stored_bytes : take (c.recv_idx + length chunk) stored.recv_buf ≡ waiting c ++ chunk
  stored_bytes =
      ap (λ k. take k stored.recv_buf) (sym stored_idx) ∙ (waiting-store_chunk c chunk h).0

  last_bytes : take (length chunk) (drop (stored.recv_idx - length chunk) stored.recv_buf) ≡ chunk
  last_bytes =
      let e : stored.recv_idx - length chunk ≡ c.recv_idx = omega (arith, stored_idx) in
      let len : length (waiting c) ≡ c.recv_idx =
        omega (arith, length-take c.recv_idx c.recv_buf, h) in
      ap (λ i. take (length chunk) (drop i stored.recv_buf)) e
      ∙ take-drop (length chunk) c.recv_idx stored.recv_buf
      ∙ ap (drop c.recv_idx) stored_bytes
      ∙ ap (λ i. drop i (waiting c ++ chunk)) (sym len)
      ∙ drop-length-append (waiting c) chunk

  finds_end : find_end (length chunk) stored ≡ some (c.recv_idx + length s)
  unfolding find_end
  finds_end =
      rw (last_bytes, find_end)
        (rw (find_byte_at b'\n' s [] one_line) (ap some (omega (arith, stored_idx))))

  copies_line : copy_message (c.recv_idx + length s) stored ≡ waiting c ++ chunk
  unfolding copy_message
  copies_line =
      let e : suc (c.recv_idx + length s) ≡ c.recv_idx + length chunk =
        omega (arith, length-append s (b'\n' ∷ [])) in
      ap (λ k. take k stored.recv_buf) e ∙ stored_bytes

-- The state with the bytes of the read in the buffer.
module _ (w : World) (id : ℕ) (c : Connection) (there : lookup id w.connections ≡ some c)
    (h : IsRoomy c) (s : Str) (one_line : Avoids b'\n' s) where
  abbrev pub stored_world : World
  stored_world = called (λ d r. (store_chunk (s ++ b'\n' ∷ []) d, r)) id c w

  stored_there : lookup id stored_world.connections ≡ some (stored c h s one_line)
  stored_there =
      ground
        (arith, lookup-update id id (λ _. stored c h s one_line) w.connections, there, ==_iff id id)

  reads_line :
      read_message id (length (s ++ b'\n' ∷ [])) stored_world
      ≡ (handle_message id (waiting c ++ (s ++ b'\n' ∷ []))
            >> on_connection id (λ d r. (drop_message (c.recv_idx + length s) d, r)))
          stored_world
  unfolding read_message
  reads_line =
      rw (stored_there, read_message)
        (on_some _ _ (c.recv_idx + length s) (finds_end c h s one_line)
          ∙ ap
              (λ text.
                (handle_message id text
                    >> on_connection id (λ d r. (drop_message (c.recv_idx + length s) d, r)))
                  stored_world)
              (copies_line c h s one_line))

  -- Where bytes wait in a buffer with room, and a read brings the rest of a line and nothing behind
  -- it: `poll_recv` stores the bytes, calls `handle_message` once, with exactly the bytes that waited
  -- followed by those of the read, and then drops that line from the buffer.
  pub poll_recv-line :
      poll_recv id (received (s ++ b'\n' ∷ [])) w
      ≡ (handle_message id (waiting c ++ (s ++ b'\n' ∷ []))
            >> on_connection id (λ d r. (drop_message (c.recv_idx + length s) d, r)))
          stored_world
  unfolding poll_recv on_connection
  poll_recv-line =
      let some_bytes : (length (s ++ b'\n' ∷ []) == 0) ≡ false =
        ground (arith, length-append s (b'\n' ∷ [])) in
      if_false (on_connection id disconnect)
        (on_connection id (λ d r. (store_chunk (s ++ b'\n' ∷ []) d, r))
          >> read_message id (length (s ++ b'\n' ∷ [])))
        some_bytes
      ∙ bind-ok (on_connection id (λ d r. (store_chunk (s ++ b'\n' ∷ []) d, r))) _ {a = tt}
          {w' = stored_world} (rw (there, on_connection))
      ∙ reads_line

  -- Whatever line of bytes the last read ends, the bytes that waited included: where that line is a
  -- numeric reply as `to_string` prints it, `poll_recv` throws `bad_variant_access`. The sender is any
  -- client of the tables, registered or not, whose buffer has room, and the line may come in any
  -- number of pieces.
  pub poll_recv-to_string :
      (info : ConnInfo) (m : Message) (n : ℕ)
      → lookup id w.db.connections ≡ some info
      → IsPrintable m
      → m.command_or_reply ≡ numeric_reply n
      → waiting c ++ (s ++ b'\n' ∷ []) ≡ to_string m
      → poll_recv id (received (s ++ b'\n' ∷ [])) w ≡ throw bad_variant_access
  poll_recv-to_string info m n known printable numeric line = poll_recv-line ∙ thrown
    where
      text :
          handle_message id (waiting c ++ (s ++ b'\n' ∷ [])) stored_world ≡ throw bad_variant_access
      text =
          ap (λ t. handle_message id t stored_world) line
          ∙ numeric-throws stored_world id info known (to_string m) m (parse-to_string m printable)
              n numeric

      thrown :
          (handle_message id (waiting c ++ (s ++ b'\n' ∷ []))
              >> on_connection id (λ d r. (drop_message (c.recv_idx + length s) d, r)))
            stored_world
          ≡ throw bad_variant_access
      thrown = bind-throw (handle_message id (waiting c ++ (s ++ b'\n' ∷ []))) _ text
