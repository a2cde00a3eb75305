-- ===== src/Tests/Tcp.antt =====
-- Tests and a witness on the descriptors of tcp.
use irc_chat.Base.{nat_eq}
use irc_chat.Base.{◌≡◌, refl, true, [], ◌∷◌, arith, runtime_error, throw}
use irc_chat.Tcp.Lifetime.{
  Uses, none_yet, accepts, moves, destroys, IsNew, IsHeld, closes, opens, Uses-IsHeld,
}
use irc_chat.Tcp.Listener.{TcpListener, accept_stream, assert_init, move_listener}
use irc_chat.Tcp.Stream.{TcpStream, of_fd, move_stream, close, destroy, assign, connect_to}
use irc_chat.Tcp.{pos, negsuc, opened}

abbrev listening : TcpListener
listening = record { port = 6667; fd = pos 3; init = true }

abbrev five : TcpStream
five = of_fd (pos 5)

-- A client comes on the descriptor 5, its stream is moved, and the old stream is destroyed.
one_client : Uses ((move_stream five).0 ∷ []) (destroy (move_stream five).1 (opened (pos 5) ∷ []))
unfolding accept_stream assert_init IsNew move_stream opens closes
one_client =
    destroys (five ∷ []) [] (of_fd (negsuc 0))
      (moves [] [] five (accepts (pos 5) listening five none_yet (λ n e. refl) refl))

Uses-IsHeld_example :
    IsHeld 5 ((move_stream five).0 ∷ []) (destroy (move_stream five).1 (opened (pos 5) ∷ []))
Uses-IsHeld_example = Uses-IsHeld 5 (omega arith) one_client

-- `close` keeps the descriptor: the destructor closes it once more.
closed_twice : closes 5 (destroy five (close five (opened (pos 5) ∷ []))) ≡ 2
unfolding closes destroy close
closed_twice = refl

-- So does the destructor of what was assigned from.
assigned_twice :
    closes 5 (destroy (assign five (of_fd (pos 6)) []).0.1 (assign five (of_fd (pos 6)) []).1) ≡ 2
unfolding closes destroy close assign
assigned_twice = refl

-- A `connect` that fails leaves its descriptor open.
failed_connect : connect_to (pos 5) (negsuc 0) [] ≡ (throw runtime_error, opened (pos 5) ∷ [])
unfolding connect_to
failed_connect = refl

-- A listener that is moved loses its descriptor.
moved_listener : (move_listener listening).0.fd ≡ pos 1
unfolding move_listener
moved_listener = refl
