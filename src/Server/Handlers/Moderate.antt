-- ===== src/Server/Handlers/Moderate.antt =====
-- MODE and KICK of `server::handle_message`, server/main.cpp.
use irc_chat.Base.{nat_eq, text_eq}
use irc_chat.Base.{
  ℕ, Bool, true, List, Str, codes, length, has_substring, update, if◌then◌else◌, ltb, Result, ok,
}
use irc_chat.Channel.{Channel, get_member, mute, unmute}
use irc_chat.Db.{Db, clear_joined, ConnInfo, get_conn_info_by_nick, write_info}
use irc_chat.Message.Replies.{
  no_such_nick, no_such_channel, not_on_channel, need_more_params, chann_op_priv_needed,
}
use irc_chat.Message.{Command}
use irc_chat.Server.World.{
  on_option, M, pure, ◌>>=◌, ◌>>◌, lift, get_db, modify_db, param_at, reply, quit_chan,
}
use irc_chat.Server.Handlers.Talk.{with_channel}

-- `+v` unmutes, else `-v` mutes, else nothing is done.
unfoldable pub set_mute : Str → ℕ → Channel → Result (Channel × Bool)
set_mute modifiers target chan =
    if has_substring (codes "+v") modifiers
    then unmute target chan
    else if has_substring (codes "-v") modifiers
    then mute target chan
    else ok (chan, true)

-- `chan` is a pointer into the table: the change shows there.
abbrev pub write_channel : Str → Channel → Db → Db
write_channel name chan db = record db { channels = update name (λ _. chan) db.channels }

unfoldable pub change_mode : ℕ → List Str → Str → Channel → M (Unit {0})
unfolding set_mute
change_mode id params chan_name chan = do
  modifiers ← param_at params 1
  nick ← param_at params 2
  db ← get_db
  on_option (get_conn_info_by_nick nick db) (reply id no_such_nick) λ target. do
    res ← lift (set_mute modifiers target.1.id chan)
    modify_db (write_channel chan_name res.0)
    if res.1 then pure tt else reply id not_on_channel

-- The check for an operator of MODE and KICK.
unfoldable pub as_operator : ℕ → (Str → Channel → M (Unit {0})) → Str → Channel → M (Unit {0})
as_operator id act chan_name chan = do
  member ← lift (get_member id chan)
  if member.is_operator then act chan_name chan else reply id chann_op_priv_needed

unfoldable pub handle_mode : ℕ → ConnInfo → List Str → M (Unit {0})
unfolding with_channel as_operator change_mode
handle_mode id info params =
    if ltb (length params) 3
    then reply id (need_more_params Command.mode)
    else with_channel id info params no_such_channel (as_operator id (change_mode id params))

unfoldable pub kick_out : ℕ → List Str → Str → Channel → M (Unit {0})
kick_out id params chan_name chan = do
  kicked_nick ← param_at params 1
  db ← get_db
  on_option (get_conn_info_by_nick kicked_nick db) (reply id no_such_nick) λ kicked. do
    removed ← quit_chan kicked.1.id chan_name
    if removed then modify_db (write_info kicked.0 clear_joined) else reply id not_on_channel

unfoldable pub handle_kick : ℕ → ConnInfo → List Str → M (Unit {0})
unfolding with_channel as_operator kick_out
handle_kick id info params =
    if ltb (length params) 2
    then reply id (need_more_params Command.kick)
    else with_channel id info params not_on_channel (as_operator id (kick_out id params))
