-- ===== src/Server/Dispatch.antt =====
-- `server::handle_message` of server/main.cpp.
use irc_chat.Base.{
  ℕ, Bool, true, false, List, Str, parse_error, bad_variant_access, Result, ok, throw,
}
use irc_chat.Db.{ConnInfo, ConnState}
use irc_chat.Message.Parse.{parse}
use irc_chat.Message.{Command, command, numeric_reply, Message}
use irc_chat.Server.Handlers.{
  handle_nick, handle_user, handle_ping, handle_join, handle_whois, handle_privmsg, handle_mode,
  handle_kick, handle_quit,
}
use irc_chat.Server.World.{M, pure, ◌>>=◌, conn_info}

-- The two guards in front of the `switch`: first NICK, then USER, then anything.
unfoldable pub is_expected : ConnState → Command → Bool
is_expected ConnState.init Command.nick = true
is_expected ConnState.init _ = false
is_expected ConnState.registered_nick Command.user = true
is_expected ConnState.registered_nick _ = false
is_expected ConnState.registered_user _ = true

unfoldable pub handle_command : ℕ → ConnInfo → Command → List Str → M (Unit {0})
handle_command id info Command.pong params = pure tt
handle_command id info Command.nick params = handle_nick id info params
handle_command id info Command.user params = handle_user id info params
handle_command id info Command.ping params = handle_ping id
handle_command id info Command.join params = handle_join id info params
handle_command id info Command.mode params = handle_mode id info params
handle_command id info Command.whois params = handle_whois id info params
handle_command id info Command.privmsg params = handle_privmsg id info params
handle_command id info Command.quit params = handle_quit id info params
handle_command id info Command.kick params = handle_kick id info params

-- `std::get<0>(message.command)` throws on a numeric reply. An unexpected command is ignored.
unfoldable pub dispatch : ℕ → ConnInfo → Message → M (Unit {0})
dispatch id info m = elim m.command_or_reply [
  | numeric_reply n ↦ λ w. throw bad_variant_access
  | command cmd ↦ elim (is_expected info.state cmd) [
    | true ↦ handle_command id info cmd m.params
    | false ↦ pure tt
  ]
]

-- The `try` around the parser: only a `parse_error` is caught, and then nothing is done.
unfoldable pub with_parsed : ℕ → ConnInfo → Result Message → M (Unit {0})
with_parsed id info (throw (parse_error msg)) = pure tt
with_parsed id info (throw e) = λ w. throw e
with_parsed id info (ok m) = dispatch id info m

unfoldable pub handle_message : ℕ → Str → M (Unit {0})
unfolding with_parsed
handle_message id s = do info ← conn_info id; with_parsed id info (parse s)
