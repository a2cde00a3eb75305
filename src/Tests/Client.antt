-- ===== src/Tests/Client.antt =====
-- client/main.cpp at concrete keys, lines and bytes.
use irc_chat.Base.{ℕ, zero, suc, ◌≡◌, ◌++◌, refl, [], ◌∷◌, codes, arith, length, ok, out_of_range}
use irc_chat.Client.Commands.{kick, request, IsReadAs, command-IsReadAs}
use irc_chat.Client.Input.Typing.{read_keys-typed}
use irc_chat.Client.Input.{ready, read_keys}
use irc_chat.Client.Receive.Lines.{receive-privmsg}
use irc_chat.Client.Receive.{receive}
use irc_chat.Client.Send.Whole.{send_line-all, send_line-partial}
use irc_chat.Client.Send.{Socket, sent, done, faulted, max_size, send_line}
use irc_chat.Client.Talk.{plain-IsReadAs, user-IsReadAs}
use irc_chat.Client.Translate.{line_of, translate}
use irc_chat.Client.Input.{read_line}
use irc_chat.Base.{true, false, str_eq, starts_with}
use irc_chat.Client.Send.{send_slice, after_send}
use irc_chat.Client.Threads.Rounds.{is_over}
use irc_chat.Client.Threads.Shutdown.{Stop-is_over, ctrl_d}
use irc_chat.Client.Threads.{
  Client, new_client, waiting, left, sends, receives, ready_event, shutdown_event, recv_failed,
  turns, turn, send_round, sender_turn, receiver_turn, key_pressed, sender_then, quit_typed,
  shutdown, send_input, sent_line, recv_round, received_bytes,
}
use irc_chat.Message.Print.{to_string}
use irc_chat.Message.{Command}
use irc_chat.Server.World.{privmsg_from}

-- `KEY_BACKSPACE` of ncurses.
abbrev backspace : ℕ
backspace = 263

-- "hi", "x" and its erasure, "!", enter.
read_keys-typed_example :
    read_keys backspace
      (codes "hi" ++ (codes "x" ++ ((backspace ∷ []) ++ (codes "!" ++ b'\n' ∷ []))))
      []
    ≡ (codes "hi!", ready)
read_keys-typed_example =
    read_keys-typed backspace (omega arith) (codes "hi") (codes "x") (codes "!") []
      (refl, (refl, tt)) (refl, tt) (refl, tt)

command-IsReadAs_example :
    IsReadAs (codes "/kick bob") (request Command.kick (codes "---" ∷ codes "bob" ∷ []))
command-IsReadAs_example = command-IsReadAs kick (codes "bob") (omega arith)

plain-IsReadAs_example :
    IsReadAs (codes "hello all") (request Command.privmsg (codes "---" ∷ codes "hello all" ∷ []))
plain-IsReadAs_example = plain-IsReadAs (codes "hello all") (omega arith)

user-IsReadAs_example : IsReadAs (codes "/user ann Ann Lee") (
    request Command.user
      (codes "ann" ∷ codes "<hostname>" ∷ codes "<servername>" ∷ codes "Ann Lee" ∷ []))
user-IsReadAs_example = user-IsReadAs (codes "ann") (codes "Ann Lee") (omega arith) (omega arith)

abbrev taker : Socket
taker i s = sent (length s)

send_line-all_example :
    ((send_line (λ i. true) taker (codes "QUIT\n")).wire ≡ codes "QUIT\n")
    × ((send_line (λ i. true) taker (codes "QUIT\n")).ending ≡ done)
send_line-all_example = send_line-all (λ i. true) taker (codes "QUIT\n") (λ i. refl) (λ i s. refl)

-- Two bytes first, then all.
abbrev starter : Socket
starter zero s = sent 2
starter (suc i) s = sent (length s)

send_line-partial_example :
    ((send_line (λ i. false) starter (codes "QUIT\n")).wire ≡ codes "QUQUIT\n")
    × ((send_line (λ i. false) starter (codes "QUIT\n")).ending ≡ faulted out_of_range)
unfolding max_size
send_line-partial_example =
    send_line-partial (λ i. false) starter b'Q' 2 (codes "UIT\n") (omega arith) (omega arith)
      (omega arith) refl refl

receive-privmsg_example :
    receive
      (to_string (privmsg_from (codes "ann") (codes "#a" ∷ codes "hi all" ∷ [])) ++ codes ":bob")
      []
    ≡ ok (codes "[ann]: hi all\n", codes ":bob")
receive-privmsg_example =
    receive-privmsg (codes "ann") (codes "#a") (codes "hi all") (codes ":bob")
      (record { one_line = omega arith; no_nul = omega arith }) (omega arith) (omega arith)
      (omega arith) (record { one_line = omega arith; no_nul = omega arith })

-- Ctrl + D, while the receiver waits. Each thread wakes up, and sees that it has to stop.
abbrev waiting_client : Client
waiting_client = record new_client { sender = waiting []; receiver = waiting [] }

Stop-is_over_example :
    is_over (
      turns backspace
        (sends ready_event 4 taker false
          ∷ receives shutdown_event recv_failed false
          ∷ sends shutdown_event 0 taker false
          ∷ receives shutdown_event recv_failed false
          ∷ sends shutdown_event 0 taker false
          ∷ [])
        waiting_client)
    ≡ true
Stop-is_over_example =
    Stop-is_over backspace (sends ready_event 4 taker false)
      (receives shutdown_event recv_failed false
        ∷ sends shutdown_event 0 taker false
        ∷ receives shutdown_event recv_failed false
        ∷ sends shutdown_event 0 taker false
        ∷ [])
      waiting_client (λ e. cc) (λ e. cc) (ctrl_d [] refl) (omega arith) (omega arith)

-- `/quit` is sent, and both threads leave.
abbrev quitting : Client
quitting =
    turns backspace
      (sends ready_event b'\n' taker false
        ∷ sends shutdown_event 0 taker false
        ∷ receives shutdown_event recv_failed false
        ∷ receives shutdown_event recv_failed false
        ∷ [])
      (record new_client { sender = waiting (codes "/quit"); receiver = waiting [] })

quits : (quitting.wire ≡ codes "QUIT\n") × (quitting.sender ≡ left) × (quitting.receiver ≡ left)
unfolding turns turn sender_turn receiver_turn send_round key_pressed read_line sender_then
    quit_typed shutdown send_input sent_line recv_round received_bytes line_of translate str_eq
    starts_with send_slice after_send max_size send_line
quits = (refl, refl, refl)
