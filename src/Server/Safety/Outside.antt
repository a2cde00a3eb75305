-- ===== src/Server/Safety/Outside.antt =====
-- The messages on which server/main.cpp runs into an exception: `channel::get_member` of
-- server/channel.cpp for a client that is not a member, and QUIT with one parameter.
use irc_chat.Base.{nat_eq, text_eq}
use irc_chat.Base.{
  ℕ, ◌≡◌, ◌∙◌, inl, inr, false, some, Str, List, [], ◌∷◌, arith, codes, str_eq, lookup,
  contains-lookup, Option-cases, throw, out_of_range,
}
use irc_chat.Channel.{Channel, get_member}
use irc_chat.Db.Membership.{in_channel}
use irc_chat.Db.{ConnInfo, get_channel}
use irc_chat.Message.{Message}
use irc_chat.Server.Handlers.{
  get_chan_name, with_channel, speak, handle_privmsg, as_operator, handle_mode, handle_kick,
  handle_quit, quit_message,
}
use irc_chat.Server.Safety.Common.{ltb_two, ltb_three, bind-throw}
use irc_chat.Server.World.{World, M, lift, bind-ok, on_some, if_false, deref, deref_ok}

module _ (w : World) (id : ℕ) (info : ConnInfo) (name : Str) (ch : Channel)
    (plain : str_eq name (codes "---") ≡ false) (there : lookup name w.db.channels ≡ some ch)
    (outside : in_channel w.db name id ≡ false) where
  not_member : lift (get_member id ch) w ≡ throw out_of_range
  unfolding get_member
  not_member = elim (Option-cases (lookup id ch.members)) [
    | inl absent ↦ rw (absent, get_member)
    | inr (m, e) ↦
        absurd
          (unfold in_channel in ground (arith, contains-lookup id ch.members, e, there, outside))
  ]

  -- The way to the channel that the first parameter names.
  at_channel :
      (ps : List Str) (absent : Message) (act : Str → Channel → M (Unit {0}))
      → with_channel id info (name ∷ ps) absent act w ≡ act name ch w
  unfolding with_channel get_chan_name get_channel
  at_channel ps absent act = on_some _ _ name (ground (arith, plain)) ∙ on_some _ _ ch there

  -- PRIVMSG with two parameters or more to a channel that exists, is not written `---` and does not
  -- have the client as a member throws `out_of_range`.
  pub handle_privmsg-throws :
      (text : Str) (ps : List Str)
      → handle_privmsg id info (name ∷ text ∷ ps) w ≡ throw out_of_range
  unfolding handle_privmsg speak
  handle_privmsg-throws text ps =
      if_false _ _ (ltb_two ps)
      ∙ at_channel (text ∷ ps) _ _
      ∙ bind-throw (lift (get_member id ch)) _ not_member

  -- MODE with three parameters or more on a channel that exists, is not written `---` and does not
  -- have the client as a member throws `out_of_range`.
  pub handle_mode-throws :
      (modifiers nick : Str) (ps : List Str)
      → handle_mode id info (name ∷ modifiers ∷ nick ∷ ps) w ≡ throw out_of_range
  unfolding handle_mode as_operator
  handle_mode-throws modifiers nick ps =
      if_false _ _ (ltb_three ps)
      ∙ at_channel (modifiers ∷ nick ∷ ps) _ _
      ∙ bind-throw (lift (get_member id ch)) _ not_member

  -- KICK with two parameters or more on a channel that exists, is not written `---` and does not
  -- have the client as a member throws `out_of_range`.
  pub handle_kick-throws :
      (nick : Str) (ps : List Str) → handle_kick id info (name ∷ nick ∷ ps) w ≡ throw out_of_range
  unfolding handle_kick as_operator
  handle_kick-throws nick ps =
      if_false _ _ (ltb_two ps)
      ∙ at_channel (nick ∷ ps) _ _
      ∙ bind-throw (lift (get_member id ch)) _ not_member

-- QUIT with exactly one parameter, from a client that has a nick, throws `out_of_range`.
pub handle_quit-throws :
    (w : World) (id : ℕ) (info : ConnInfo) (nick p : Str)
    → info.nick ≡ some nick
    → handle_quit id info (p ∷ []) w ≡ throw out_of_range
unfolding handle_quit quit_message
handle_quit-throws w id info nick p e = bind-ok (deref info.nick) _ (deref_ok info.nick nick w e)
