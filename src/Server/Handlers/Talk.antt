-- ===== src/Server/Handlers/Talk.antt =====
-- `get_chan_name`, PRIVMSG and WHOIS of server/main.cpp. `info` is what `conn_info` shows when the message
-- comes in.
use irc_chat.Base.{nat_eq, text_eq}
use irc_chat.Base.{
  ℕ, ◌/◌, ◌%◌, ◌^◌, List, [], ◌∷◌, ◌++◌, Option, none, some, Str, codes, length, last?, decimal,
  str_eq, if◌then◌else◌, ltb,
}
use irc_chat.Channel.{Channel, get_member}
use irc_chat.Db.{ConnInfo, get_channel, get_conn_info_by_nick}
use irc_chat.Message.Replies.{
  rpl_whoisuser, no_such_nick, no_such_channel, cannot_send_to_chan, not_on_channel,
  need_more_params, chann_op_priv_needed,
}
use irc_chat.Message.{Command, numeric_reply, Message}
use irc_chat.Server.World.{
  on_option, M, ◌>>=◌, lift, get_db, channel_at, param_at, deref, value, reply, send_to_members,
  privmsg_from,
}

-- `get_chan_name`: the name `---` stands for the channel that the client is in.
unfoldable pub get_chan_name : Str → Option Str → Option Str
get_chan_name param joined = if str_eq param (codes "---") then joined else some param

-- The channel that the first parameter names, with the replies where there is none: `absent` if no
-- channel has the name.
unfoldable pub with_channel :
    ℕ → ConnInfo → List Str → Message → (Str → Channel → M (Unit {0})) → M (Unit {0})
with_channel id info params absent act = do
  param ← param_at params 0
  on_option (get_chan_name param info.joined_channel) (reply id not_on_channel) λ chan_name. do
    db ← get_db
    on_option (get_channel chan_name db) (reply id absent) (act chan_name)

unfoldable pub say : ConnInfo → List Str → Str → Channel → M (Unit {0})
say info params chan_name chan = do
  nick ← value info.nick
  text ← deref (last? params)
  send_to_members chan.members (privmsg_from nick (chan_name ∷ text ∷ []))

unfoldable pub speak : ℕ → ConnInfo → List Str → Str → Channel → M (Unit {0})
unfolding say
speak id info params chan_name chan = do
  member ← lift (get_member id chan)
  if member.is_muted then reply id cannot_send_to_chan else say info params chan_name chan

unfoldable pub handle_privmsg : ℕ → ConnInfo → List Str → M (Unit {0})
unfolding with_channel speak
handle_privmsg id info params =
    if ltb (length params) 2
    then reply id (need_more_params Command.privmsg)
    else with_channel id info params no_such_channel (speak id info params)

-- The dotted notation of WHOIS.
unfoldable pub dotted : ℕ → Str
dotted ipv4 =
    decimal (ipv4 / 2 ^ 24 % 256)
    ++ (b'.'
        ∷ (decimal (ipv4 / 2 ^ 16 % 256)
            ++ (b'.' ∷ (decimal (ipv4 / 2 ^ 8 % 256) ++ (b'.' ∷ decimal (ipv4 % 256))))))

-- `value_or("uknown")`.
abbrev pub or_unknown : Option Str → Str
or_unknown none = codes "uknown"
or_unknown (some s) = s

unfoldable pub whois_reply : ConnInfo → Message
whois_reply target = record {
  prefix = none;
  command_or_reply = numeric_reply rpl_whoisuser;
  params =
      or_unknown target.username ∷ dotted target.ipv4 ∷ codes "*" ∷ or_unknown target.realname ∷ [];
}

unfoldable pub answer_whois : ℕ → List Str → M (Unit {0})
unfolding whois_reply
answer_whois id params = do
  nick ← param_at params 0
  db ← get_db
  on_option (get_conn_info_by_nick nick db) (reply id no_such_nick)
      (λ target. reply id (whois_reply target.1))

unfoldable pub whois_on : ℕ → Str → List Str → M (Unit {0})
unfolding answer_whois
whois_on id joined params = do
  chan ← channel_at joined
  member ← lift (get_member id chan)
  if member.is_operator then answer_whois id params else reply id chann_op_priv_needed

unfoldable pub handle_whois : ℕ → ConnInfo → List Str → M (Unit {0})
unfolding whois_on
handle_whois id info params =
    if ltb (length params) 1
    then reply id (need_more_params Command.whois)
    else on_option info.joined_channel (reply id not_on_channel)
        (λ joined. whois_on id joined params)
