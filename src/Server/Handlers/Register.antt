-- ===== src/Server/Handlers/Register.antt =====
-- NICK, USER and PING of `server::handle_message`, server/main.cpp.
use irc_chat.Base.{nat_eq, text_eq}
use irc_chat.Base.{
  Bool, true, false, ℕ, true, false, List, [], none, some, Str, length, if◌then◌else◌, ltb,
}
use irc_chat.Db.{ConnInfo, ConnState, get_conn_info_by_nick, write_info}
use irc_chat.Message.Replies.{
  erroneus_nickname, nickname_in_use, need_more_params, already_registered,
}
use irc_chat.Message.{Command, command}
use irc_chat.Server.World.{on_option, M, ◌>>=◌, get_db, modify_db, param_at, reply}

-- The writes of NICK to `conn_info`.
abbrev pub set_nick : Str → ConnInfo → ConnInfo
set_nick nick i = record i {
  nick = some nick;
  state = elim i.state [ ConnState.init ↦ ConnState.registered_nick | s ↦ s ];
}

-- NICK, from the `_db.get_conn_info_by_nick(nick)` on.
unfoldable pub take_nick : ℕ → ConnInfo → Str → M (Unit {0})
take_nick id info nick = do
  db ← get_db
  on_option (get_conn_info_by_nick nick db) (modify_db (write_info id (set_nick nick)))
      (λ _. reply id nickname_in_use)

unfoldable pub handle_nick : ℕ → ConnInfo → List Str → M (Unit {0})
unfolding take_nick
handle_nick id info params =
    if ltb (length params) 1 then reply id (need_more_params Command.nick) else do
      nick ← param_at params 0
      if ltb 50 (length nick) then reply id erroneus_nickname else take_nick id info nick

-- The writes of USER to `conn_info`.
abbrev pub set_user : Str → Str → ConnInfo → ConnInfo
set_user username realname i = record i {
  username = some username;
  realname = some realname;
  state = ConnState.registered_user;
}

abbrev pub is_registered : ConnState → Bool
is_registered ConnState.registered_user = true
is_registered _ = false

unfoldable pub register_user : ℕ → List Str → M (Unit {0})
register_user id params = do
  username ← param_at params 0
  realname ← param_at params 3
  modify_db (write_info id (set_user username realname))

unfoldable pub handle_user : ℕ → ConnInfo → List Str → M (Unit {0})
unfolding register_user
handle_user id info params =
    if ltb (length params) 4
    then reply id (need_more_params Command.user)
    else if is_registered info.state
    then reply id already_registered
    else register_user id params

unfoldable pub handle_ping : ℕ → M (Unit {0})
handle_ping id =
    reply id (record { prefix = none; command_or_reply = command Command.pong; params = [] })
