-- ===== src/Server/Keeping/Commands.antt =====
-- `server::handle_message` of server/main.cpp under a property that writes of the tables and sent texts
-- leave, and that the end of a connection turns into another.
use irc_chat.Base.{nat_eq, text_eq}
use irc_chat.Base.{
  ℕ, ◌≡◌, Bool, true, false, List, [], ◌∷◌, Option, none, some, Str, lookup, bad_variant_access,
  parse_error, Result, ok, throw,
}
use irc_chat.Channel.{Channel}
use irc_chat.Connection.{Connection, disconnect}
use irc_chat.Db.{ConnInfo}
use irc_chat.Message.Parse.{parse}
use irc_chat.Message.{Command, CommandOrReply, command, numeric_reply, Message}
use irc_chat.Server.Dispatch.{is_expected, handle_command, dispatch, with_parsed, handle_message}
use irc_chat.Server.Handlers.{
  take_nick, handle_nick, register_user, handle_user, handle_ping, quit_joined, enter, handle_join,
  leave_joined, quit_message, handle_quit, with_channel, say, speak, handle_privmsg, answer_whois,
  whois_on, handle_whois, change_mode, as_operator, handle_mode, kick_out, handle_kick,
}
use irc_chat.Server.Keeping.{
  Ensures, called, IsStable, CanReply, bind-Ensures, on_connection-Ensures, weaker-Ensures,
  pure-Ensures, lift-Ensures, conn_info-Ensures, calls, quit_chan-Ensures,
}
use irc_chat.Server.World.{World, M, pure, deref}

-- A message, once it is parsed, where its command takes `P` to `Q`.
module _ (P Q : World → Type 0) (id : ℕ) (info : ConnInfo) (weaker : (w : World) → P w → Q w)
    (handles : (cmd : Command) (params : List Str)
      → Ensures P Q (handle_command id info cmd params)) where
  dispatch-Ensures : (m : Message) → Ensures P Q (dispatch id info m)
  unfolding dispatch Ensures
  dispatch-Ensures m = go m.command_or_reply
    where
      guarded :
          (cmd : Command) (b : Bool)
          → Ensures P Q (elim b as (λ _. M (Unit {0})) [
            | true ↦ handle_command id info cmd m.params
            | false ↦ pure tt
          ])
      guarded cmd true = handles cmd m.params
      guarded cmd false = λ w h. weaker w h

      go :
          (c : CommandOrReply)
          → Ensures P Q (elim c as (λ _. M (Unit {0})) [
            | numeric_reply n ↦ λ w. throw bad_variant_access
            | command cmd ↦ elim (is_expected info.state cmd) as (λ _. M (Unit {0})) [
              | true ↦ handle_command id info cmd m.params
              | false ↦ pure tt
            ]
          ])
      go (numeric_reply n) = λ w h. tt
      go (command cmd) = guarded cmd (is_expected info.state cmd)

  pub with_parsed-Ensures : (res : Result Message) → Ensures P Q (with_parsed id info res)
  unfolding with_parsed Ensures
  with_parsed-Ensures (ok m) = dispatch-Ensures m
  with_parsed-Ensures (throw (parse_error msg)) = λ w h. weaker w h
  with_parsed-Ensures (throw _) = λ w h. tt

module _ (P : World → Type 0) (s : IsStable P) (id : ℕ) (r : CanReply id P) where
  with_channel-Ensures :
      (info : ConnInfo) (params : List Str) (absent : Message) (act : Str → Channel → M (Unit {0}))
      → ((name : Str) (ch : Channel) → Ensures P P (act name ch))
      → Ensures P P (with_channel id info params absent act)
  unfolding with_channel
  with_channel-Ensures info params absent act q = search calls depth 9

  as_operator-Ensures :
      (act : Str → Channel → M (Unit {0})) (name : Str) (ch : Channel)
      → Ensures P P (act name ch)
      → Ensures P P (as_operator id act name ch)
  unfolding as_operator
  as_operator-Ensures act name ch q = search calls depth 9

  quit_joined-Ensures : (o : Option Str) → Ensures P P (quit_joined id o)
  unfolding quit_joined
  quit_joined-Ensures none = pure-Ensures P tt
  quit_joined-Ensures (some name) = search (calls, quit_chan-Ensures) depth 9

  leave_joined-Ensures :
      (nick msg : Str) (o : Option Str) → Ensures P P (leave_joined id nick msg o)
  unfolding leave_joined
  leave_joined-Ensures nick msg none = pure-Ensures P tt
  leave_joined-Ensures nick msg (some name) = search (calls, quit_chan-Ensures) depth 9

  quit_message-Ensures : (nick : Str) (ps : List Str) → Ensures P P (quit_message nick ps)
  unfolding quit_message
  quit_message-Ensures nick [] = pure-Ensures P _
  quit_message-Ensures nick (p ∷ ps) = lift-Ensures P _

-- A command but QUIT keeps `P`. QUIT is the one that ends a connection, at its end.
module _ (P Q : World → Type 0) (s : IsStable P) (id : ℕ) (r : CanReply id P)
    (weaker : (w : World) → P w → Q w)
    (ends : (w : World) (c : Connection)
      → lookup id w.connections ≡ some c
      → P w
      → Q (called disconnect id c w)) where
  quit-Ensures :
      (info : ConnInfo) (params : List Str)
      → Ensures P Q (handle_command id info Command.quit params)
  unfolding handle_command handle_quit
  quit-Ensures info params = bind-Ensures P Q (deref info.nick) _ (lift-Ensures P _) λ nick.
      bind-Ensures P Q _ _ (quit_message-Ensures P s id r nick params) λ msg.
        bind-Ensures P Q _ _ (leave_joined-Ensures P s id r nick msg info.joined_channel)
          λ _. on_connection-Ensures P Q id disconnect ends

  command-Ensures :
      (info : ConnInfo) (cmd : Command) (params : List Str)
      → Ensures P Q (handle_command id info cmd params)
  unfolding handle_command take_nick handle_nick register_user handle_user handle_ping enter
      handle_join say speak handle_privmsg answer_whois whois_on handle_whois change_mode
      handle_mode kick_out handle_kick
  command-Ensures info Command.pong params = weaker-Ensures P Q _ weaker (pure-Ensures P tt)
  command-Ensures info Command.nick params = weaker-Ensures P Q _ weaker (search calls depth 9)
  command-Ensures info Command.user params = weaker-Ensures P Q _ weaker (search calls depth 9)
  command-Ensures info Command.ping params = weaker-Ensures P Q _ weaker (search calls depth 9)
  command-Ensures info Command.join params =
      weaker-Ensures P Q _ weaker (search (calls, quit_joined-Ensures) depth 12)
  command-Ensures info Command.mode params =
      weaker-Ensures P Q _ weaker
        (search (calls, with_channel-Ensures, as_operator-Ensures) depth 12)
  command-Ensures info Command.whois params = weaker-Ensures P Q _ weaker (search calls depth 12)
  command-Ensures info Command.privmsg params =
      weaker-Ensures P Q _ weaker (search (calls, with_channel-Ensures) depth 12)
  command-Ensures info Command.quit params = quit-Ensures info params
  command-Ensures info Command.kick params =
      weaker-Ensures P Q _ weaker
        (search (calls, with_channel-Ensures, as_operator-Ensures, quit_chan-Ensures) depth 12)

  pub handle_message-Ensures : (text : Str) → Ensures P Q (handle_message id text)
  unfolding handle_message
  handle_message-Ensures text =
      bind-Ensures P Q _ _ (conn_info-Ensures P id)
        (λ info. with_parsed-Ensures P Q id info weaker (command-Ensures info) (parse text))
