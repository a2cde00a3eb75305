-- ===== src/Server/Handlers/Members.antt =====
-- JOIN and QUIT of `server::handle_message`, server/main.cpp.
use irc_chat.Base.{nat_eq, text_eq}
use irc_chat.Base.{
  ℕ, Bool, true, false, ◌&&◌, ◌||◌, not, List, [], ◌∷◌, ◌++◌, Option, none, some, Str, codes,
  length, find_byte, if◌then◌else◌, ltb, ◌==◌,
}
use irc_chat.Channel.{get_member}
use irc_chat.Connection.{disconnect}
use irc_chat.Db.{clear_joined, ConnInfo, join_chan, write_info}
use irc_chat.Message.Replies.{no_such_channel, need_more_params}
use irc_chat.Message.{Command}
use irc_chat.Server.World.{
  M, pure, ◌>>=◌, ◌>>◌, lift, get_db, put_db, modify_db, channel_at, param_at, deref, value,
  on_connection, reply, send_to_members, privmsg_from, quit_chan,
}

-- A channel name that JOIN accepts: 1 to 200 bytes, `#` or `&` in front, no comma.
unfoldable pub is_chan_name : Str → Bool
is_chan_name [] = false
is_chan_name (c ∷ s) =
    not (ltb 200 (length (c ∷ s)))
    && (c == b'#' || c == b'&')
    && (elim (find_byte b',' (c ∷ s)) [ none ↦ true | some _ ↦ false ])

-- `if (conn_info.joined_channel) _db.quit_chan(id, *conn_info.joined_channel)`.
unfoldable pub quit_joined : ℕ → Option Str → M (Unit {0})
quit_joined id none = pure tt
quit_joined id (some name) = do removed ← quit_chan id name; pure tt

unfoldable pub enter : ℕ → ConnInfo → Str → M (Unit {0})
enter id info chan_name = do
  quit_joined id info.joined_channel
  db ← get_db
  db' ← lift (join_chan id chan_name db)
  put_db db'
  chan ← channel_at chan_name
  member ← lift (get_member id chan)
  nick ← value info.nick
  send_to_members chan.members (
      privmsg_from (codes "system") (
        chan_name
        ∷ (nick
            ++ (codes " joined "
                ++ (chan_name ++ (if member.is_operator then codes " as moderator" else []))))
        ∷ []))

unfoldable pub handle_join : ℕ → ConnInfo → List Str → M (Unit {0})
unfolding quit_joined enter
handle_join id info params =
    if ltb (length params) 1 then reply id (need_more_params Command.join) else do
      chan_name ← param_at params 0
      if is_chan_name chan_name then enter id info chan_name else reply id no_such_channel

unfoldable pub leave_joined : ℕ → Str → Str → Option Str → M (Unit {0})
leave_joined id nick quit_msg none = pure tt
leave_joined id nick quit_msg (some joined) = do
  chan ← channel_at joined
  send_to_members chan.members (privmsg_from nick (quit_msg ∷ []))
  removed ← quit_chan id joined
  modify_db (write_info id clear_joined)

-- `params.at(1)` if there is a parameter at all, else the default.
unfoldable pub quit_message : Str → List Str → M Str
quit_message nick [] = pure (nick ++ codes " quit")
quit_message nick (p ∷ ps) = param_at (p ∷ ps) 1

unfoldable pub handle_quit : ℕ → ConnInfo → List Str → M (Unit {0})
unfolding leave_joined quit_message
handle_quit id info params = do
  nick ← deref info.nick
  quit_msg ← quit_message nick params
  leave_joined id nick quit_msg info.joined_channel
  on_connection id disconnect
