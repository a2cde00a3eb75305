-- ===== src/Tests/Server.antt =====
-- server/main.cpp at concrete messages.
use irc_chat.Base.{nat_eq, text_eq}
use irc_chat.Base.{
  ◌≡◌, refl, false, [], ◌∷◌, none, some, Str, codes, arith, lookup, update, contains, find_byte,
  str_eq, ok, throw, out_of_range, bad_variant_access,
}
use irc_chat.Channel.Operators.{operators, operators-promote}
use irc_chat.Channel.{Member, promote}
use irc_chat.Db.Membership.{in_channel}
use irc_chat.Db.{ConnInfo, is_some_of, find_nick, get_conn_info}
use irc_chat.Message.Parse.{
  parse, at_front, parse_command, parse_params, split_field, split_at, sub_view, view_from,
  with_params, command_of, parse_params_loop,
}
use irc_chat.Message.{numeric_reply, Message}
use irc_chat.Server.Clients.{handle_message-SameClients}
use irc_chat.Server.Dispatch.{handle_message, is_expected, dispatch, with_parsed, handle_command}
use irc_chat.Server.Handlers.{
  handle_nick, take_nick, handle_join, handle_privmsg, handle_mode, handle_kick, handle_quit,
  is_chan_name,
}
use irc_chat.Server.Invariant.{WorldInv, SameClients, IsSafe}
use irc_chat.Server.Leaving.{quit_chan-leaves}
use irc_chat.Server.Safety.Lines.{stored_world, poll_recv-line, poll_recv-to_string}
use irc_chat.Channel.Operators.{operators}
use irc_chat.Channel.{Channel}
use irc_chat.Connection.{Connection, zeros, buf_size}
use irc_chat.Connection.Buffer.{IsRoomy, length-zeros}
use irc_chat.Connection.Recv.{drop_message}
use irc_chat.Message.Print.{to_string, print_prefix, print_params, command_or_reply_name}
use irc_chat.Base.{
  ℕ, Str, decimal, AllIn, str_eq, ◌&&◌, ◌==◌, if◌then◌else◌, length-append, ◌++◌, ◌+◌, false, arith,
}
use irc_chat.Server.Loop.Invariant.{poll_recv-IsSafe}
use irc_chat.Server.Loop.Reachable.{start_world, accepts, here, next, Reach-WorldInv}
use irc_chat.Server.Loop.Sweep.{sweep-WorldInv}
use irc_chat.Server.Loop.{received, poll_accept, poll_recv, sweep}
use irc_chat.Server.Safety.Join.{handle_join-enters}
use irc_chat.Server.Safety.Messages.{handle_message-IsSafe}
use irc_chat.Server.Safety.Outside.{
  handle_privmsg-throws, handle_mode-throws, handle_kick-throws, handle_quit-throws,
}
use irc_chat.Server.World.{World, on_option, quit_chan, ◌>>◌, on_connection}
use irc_chat.Tests.World.{
  idle, client, chan_a, two_clients, two_clients-WorldInv, one_ended, one_ended-WorldInv,
}

abbrev bob : ConnInfo
bob = client 1 (codes "bob") none

Reach-WorldInv_example : WorldInv (poll_accept 6 2 (poll_accept 5 1 start_world))
unfolding poll_accept
Reach-WorldInv_example = Reach-WorldInv (
    next (next here (accepts start_world 5 1 (omega arith)))
      (accepts (poll_accept 5 1 start_world) 6 2 (omega arith)))

handle_message-IsSafe_example : IsSafe (handle_message 1 (codes "JOIN #a\n") two_clients)
unfolding contains
handle_message-IsSafe_example =
    handle_message-IsSafe two_clients two_clients-WorldInv 1 refl (codes "JOIN #a\n")

handle_join-enters_example :
    (w' : World) × (handle_join 1 bob (codes "#a" ∷ []) two_clients ≡ ok (tt, w'))
    × WorldInv w'
    × ((n : Str) → in_channel w'.db n 1 ≡ is_some_of n (some (codes "#a")))
unfolding lookup is_chan_name find_byte
handle_join-enters_example =
    handle_join-enters two_clients two_clients-WorldInv 1 bob refl (codes "#a") [] refl refl refl

sweep-WorldInv_example : (w' : World) × (sweep one_ended ≡ ok (tt, w')) × WorldInv w'
sweep-WorldInv_example = sweep-WorldInv one_ended one_ended-WorldInv

quit_chan-leaves_example :
    (w' : World) × (quit_chan 0 (codes "#a") two_clients
      ≡ ok (in_channel two_clients.db (codes "#a") 0, w'))
    × ((n : Str) (i : ℕ)
        → in_channel w'.db n i
          ≡ (if str_eq (codes "#a") n && 0 == i then false else in_channel two_clients.db n i))
    × AllIn (λ (n : Str) (ch : Channel). operators ch.members ≡ 1) w'.db.channels
    × (w'.db.connections ≡ two_clients.db.connections)
    × SameClients two_clients w'
quit_chan-leaves_example = quit_chan-leaves two_clients two_clients-WorldInv 0 (codes "#a")

poll_recv-IsSafe_example : IsSafe (poll_recv 1 (received (codes "PING\n")) two_clients)
unfolding contains
poll_recv-IsSafe_example =
    poll_recv-IsSafe two_clients two_clients-WorldInv 1 refl (received (codes "PING\n")) (λ q. cc)

handle_privmsg-throws_example :
    handle_privmsg 1 bob (codes "#a" ∷ codes "hi" ∷ []) two_clients ≡ throw out_of_range
unfolding lookup str_eq in_channel contains
handle_privmsg-throws_example =
    handle_privmsg-throws two_clients 1 bob (codes "#a") chan_a refl refl refl (codes "hi") []

handle_mode-throws_example :
    handle_mode 1 bob (codes "#a" ∷ codes "-v" ∷ codes "ann" ∷ []) two_clients ≡ throw out_of_range
unfolding lookup str_eq in_channel contains
handle_mode-throws_example =
    handle_mode-throws two_clients 1 bob (codes "#a") chan_a refl refl refl (codes "-v")
      (codes "ann") []

handle_kick-throws_example :
    handle_kick 1 bob (codes "#a" ∷ codes "ann" ∷ []) two_clients ≡ throw out_of_range
unfolding lookup str_eq in_channel contains
handle_kick-throws_example =
    handle_kick-throws two_clients 1 bob (codes "#a") chan_a refl refl refl (codes "ann") []

handle_quit-throws_example : handle_quit 1 bob (codes "bye" ∷ []) two_clients ≡ throw out_of_range
handle_quit-throws_example = handle_quit-throws two_clients 1 bob (codes "bob") (codes "bye") refl

-- `bob` with the first half of a line in his buffer.
abbrev half_read : Connection
half_read = record (idle 1) { recv_buf = codes "331 " ++ zeros buf_size; recv_idx = 4 }

half_read-IsRoomy : IsRoomy half_read
half_read-IsRoomy =
    omega (arith, length-append (codes "331 ") (zeros buf_size), length-zeros buf_size)

abbrev half_way : World
half_way = record two_clients { connections = (1, half_read) ∷ [] }

half_read-there : lookup 1 half_way.connections ≡ some half_read
unfolding lookup
half_read-there = refl

poll_recv-line_example :
    poll_recv 1 (received (codes ":x" ++ b'\n' ∷ [])) half_way
    ≡ (handle_message 1 (codes "331 " ++ (codes ":x" ++ b'\n' ∷ []))
          >> on_connection 1 (λ d r. (drop_message (4 + 2) d, r)))
        (stored_world half_way 1 half_read half_read-there half_read-IsRoomy
          (codes ":x")
          (omega arith))
poll_recv-line_example =
    poll_recv-line half_way 1 half_read half_read-there half_read-IsRoomy (codes ":x") (omega arith)

abbrev numeric : Message
numeric = record { prefix = none; command_or_reply = numeric_reply 331; params = codes "x" ∷ [] }

poll_recv-to_string_example :
    poll_recv 1 (received (codes ":x" ++ b'\n' ∷ [])) half_way ≡ throw bad_variant_access
unfolding lookup to_string print_prefix print_params command_or_reply_name decimal
poll_recv-to_string_example =
    poll_recv-to_string half_way 1 half_read half_read-there half_read-IsRoomy (codes ":x")
      (omega arith) bob numeric 331 refl
      (record { prefix_ok = tt; command_ok = (omega arith, omega arith); params_ok = tt }) refl refl

abbrev renamed : World
renamed = record two_clients {
  db = record two_clients.db {
    connections =
        (0, client 0 (codes "ann") (some (codes "#a"))) ∷ (1, client 1 (codes "eve") none) ∷ [];
  };
}

handle_message-SameClients_example : SameClients two_clients renamed
unfolding lookup update parse at_front parse_command parse_params parse_params_loop split_field
    split_at sub_view view_from with_params command_of find_byte str_eq is_expected handle_message
    dispatch with_parsed handle_command handle_nick take_nick find_nick get_conn_info on_option
handle_message-SameClients_example =
    handle_message-SameClients 1 (codes "NICK eve \n") two_clients renamed refl

abbrev plain : Member
plain = record { conn = 1; is_muted = false; is_operator = false }

operators-promote_example : operators (promote ((1, plain) ∷ [])).0 ≡ 1
operators-promote_example = operators-promote [] 1 plain (omega arith)
