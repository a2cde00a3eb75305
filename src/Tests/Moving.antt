-- ===== src/Tests/Moving.antt =====
-- A witness on the rooms: `bob` joins a new channel.
use irc_chat.Base.{nat_eq, text_eq}
use irc_chat.Base.{
  ◌≡◌, refl, codes, Str, some, contains, Result, ok, throw, lookup, str_eq, find_byte, update,
  insert,
}
use irc_chat.Db.{get_conn_info, join_chan, enter_chan, get_channel}
use irc_chat.Message.Parse.{
  parse, at_front, parse_command, command_of, split_field, split_at, sub_view, view_from,
  with_params, parse_params, parse_params_loop,
}
use irc_chat.Server.Dispatch.{dispatch, is_expected, handle_command, handle_message}
use irc_chat.Server.Handlers.{handle_join, is_chan_name, enter, quit_joined}
use irc_chat.Channel.{new_channel, get_member}
use irc_chat.Server.World.{send_to_members, on_connection, World}
use irc_chat.Server.Moving.{Move, Shows, room_of}
use irc_chat.Server.Moving.Messages.{handle_message-refines}
use irc_chat.Tests.World.{two_clients, two_clients-WorldInv}

abbrev join_line : Str
join_line = codes "JOIN #b \n"

abbrev world_of : Result (Unit {0} × World) → World
world_of (ok (_, w)) = w
world_of (throw e) = two_clients

abbrev in_b : World
in_b = world_of (handle_message 1 join_line two_clients)

joined : handle_message 1 join_line two_clients ≡ ok (tt, in_b)
unfolding handle_message contains get_conn_info lookup parse at_front parse_command command_of
    str_eq split_field split_at sub_view view_from with_params find_byte dispatch is_expected
    handle_command handle_join parse_params parse_params_loop is_chan_name enter quit_joined
    join_chan enter_chan new_channel update insert get_member send_to_members on_connection room_of
    get_channel
joined = refl

bob_is_in_b : room_of in_b.db 1 ≡ some (codes "#b")
unfolding handle_message contains get_conn_info lookup parse at_front parse_command command_of
    str_eq split_field split_at sub_view view_from with_params find_byte dispatch is_expected
    handle_command handle_join parse_params parse_params_loop is_chan_name enter quit_joined
    join_chan enter_chan new_channel update insert get_member send_to_members on_connection room_of
    get_channel
bob_is_in_b = refl

handle_message-refines_example :
    Move 1 two_clients.db (room_of two_clients.db) (room_of in_b.db)
    × Shows (room_of in_b.db) in_b.db
unfolding contains
handle_message-refines_example =
    handle_message-refines 1 join_line two_clients in_b two_clients-WorldInv refl joined
