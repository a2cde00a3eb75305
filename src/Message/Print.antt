-- ===== src/Message/Print.antt =====
-- `operator<<` for commands and `message::to_string` of common/message.cpp.
use irc_chat.Base.{List, [], ◌∷◌, ◌++◌, Option, none, some, Str, codes, decimal}
use irc_chat.Message.{
  Command, nick, user, quit, join, mode, kick, privmsg, whois, ping, pong, CommandOrReply, command,
  numeric_reply, Message,
}

unfoldable pub command_name : Command → Str
command_name nick = codes "NICK"
command_name user = codes "USER"
command_name privmsg = codes "PRIVMSG"
command_name join = codes "JOIN"
command_name whois = codes "WHOIS"
command_name mode = codes "MODE"
command_name ping = codes "PING"
command_name pong = codes "PONG"
command_name quit = codes "QUIT"
command_name kick = codes "KICK"

-- The visitor of the variant; a `numeric_reply` prints as its number.
unfoldable pub command_or_reply_name : CommandOrReply → Str
command_or_reply_name (command c) = command_name c
command_or_reply_name (numeric_reply n) = decimal n

-- Every parameter but the last with a space behind it, the last with a colon in front.
unfoldable pub print_params : List Str → Str
print_params [] = []
print_params (p ∷ []) = b':' ∷ p
print_params (p ∷ q ∷ ps) = p ++ (b' ' ∷ print_params (q ∷ ps))

unfoldable pub print_prefix : Option Str → Str
print_prefix none = []
print_prefix (some p) = b':' ∷ (p ++ (b' ' ∷ []))

unfoldable pub to_string : Message → Str
unfolding print_prefix
to_string m =
    print_prefix m.prefix
    ++ (command_or_reply_name m.command_or_reply
        ++ (b' ' ∷ (print_params m.params ++ (b'\n' ∷ []))))
