-- ===== src/Message/Replies.antt =====
-- The numeric replies of common/message.hpp, and the functions that build the error messages.
use irc_chat.Base.{ℕ, List, [], ◌∷◌, some, Str, codes}
use irc_chat.Message.{Command, numeric_reply, Message}
use irc_chat.Message.Print.{command_name}

-- `enum numeric_reply`.
abbrev pub rpl_whoisuser : ℕ
rpl_whoisuser = 311

abbrev pub err_nosuchnick : ℕ
err_nosuchnick = 401

abbrev pub err_nosuchchannel : ℕ
err_nosuchchannel = 403

abbrev pub err_cannotsendtochan : ℕ
err_cannotsendtochan = 404

abbrev pub err_erroneusnickname : ℕ
err_erroneusnickname = 432

abbrev pub err_nicknameinuse : ℕ
err_nicknameinuse = 433

abbrev pub err_notonchannel : ℕ
err_notonchannel = 442

abbrev pub err_needmoreparams : ℕ
err_needmoreparams = 461

abbrev pub err_alreadyregistered : ℕ
err_alreadyregistered = 462

abbrev pub err_chanoprivsneeded : ℕ
err_chanoprivsneeded = 482

-- `message("server", reply, params)`.
abbrev pub from_server : ℕ → List Str → Message
from_server n params = record {
  prefix = some (codes "server");
  command_or_reply = numeric_reply n;
  params = params;
}

unfoldable pub no_such_nick : Message
no_such_nick = from_server err_nosuchnick (codes "No such nick/channel" ∷ [])

unfoldable pub no_such_channel : Message
no_such_channel = from_server err_nosuchchannel (codes "No such channel" ∷ [])

unfoldable pub cannot_send_to_chan : Message
cannot_send_to_chan = from_server err_cannotsendtochan (codes "Cannot send to channel" ∷ [])

unfoldable pub erroneus_nickname : Message
erroneus_nickname = from_server err_erroneusnickname (codes "Erroneus nickname" ∷ [])

unfoldable pub nickname_in_use : Message
nickname_in_use = from_server err_nicknameinuse (codes "Nickname is already in use" ∷ [])

unfoldable pub not_on_channel : Message
not_on_channel = from_server err_notonchannel (codes "You're not on that channel" ∷ [])

unfoldable pub need_more_params : Command → Message
need_more_params cmd =
    from_server err_needmoreparams (command_name cmd ∷ codes "Not enough parameters" ∷ [])

unfoldable pub chann_op_priv_needed : Message
chann_op_priv_needed = from_server err_chanoprivsneeded (codes "You're not channel operator" ∷ [])

unfoldable pub already_registered : Message
already_registered = from_server err_alreadyregistered (codes "You may not reregister" ∷ [])
