-- ===== src/Server/Safety/Talk.antt =====
-- The invariant under PRIVMSG and WHOIS of server/main.cpp.
use irc_chat.Base.{nat_eq, text_eq}
use irc_chat.Base.{
  ℕ, ◌≡◌, refl, ◌∙◌, ◌⊎◌, ap, inl, inr, true, Option, none, some, Str, List, [], ◌∷◌, arith, lookup,
  contains, AllIn-lookup, last?, Option-cases, Bool-cases, ok, throw, out_of_range, or_throw,
  Result,
}
use irc_chat.Channel.{Channel, Member, get_member}
use irc_chat.Db.Invariant.{ChannelInv, is_set, is_some_of_self}
use irc_chat.Db.Membership.{in_channel, has_joined}
use irc_chat.Db.{ConnInfo, get_channel, get_conn_info_by_nick}
use irc_chat.Message.Replies.{
  no_such_nick, no_such_channel, cannot_send_to_chan, not_on_channel, need_more_params,
  chann_op_priv_needed,
}
use irc_chat.Message.{Command, Message}
use irc_chat.Server.Handlers.{
  get_chan_name, with_channel, say, speak, handle_privmsg, whois_reply, answer_whois, whois_on,
  handle_whois,
}
use irc_chat.Server.Invariant.{
  WorldInv, IsSafe, reply-IsSafe, send_to_members_ok, channel_AreLive, in_channel-live, SameClients,
  SameClients-WorldInv,
}
use irc_chat.Server.Safety.Common.{ltb_one, ltb_two, IsSafe-by, bind-throw, known-contains}
use irc_chat.Server.World.{
  World, M, lift, bind-ok, on_none, on_some, if_true, if_false, value, deref, value_ok, deref_ok,
  privmsg_from, send_to_members, channel_at, channel_at_ok,
}

pub is_set-some : (o : Option Str) → is_set o ≡ true → (s : Str) × (o ≡ some s)
is_set-some none q = cc
is_set-some (some s) q = (s, refl)

last_some : (p : Str) (ps : List Str) → (s : Str) × (last? (p ∷ ps) ≡ some s)
last_some p [] = (p, refl)
last_some p (q ∷ ps) = last_some q ps

-- `get_member` in a state: a member, or `out_of_range`.
pub get_member_cases :
    (id : ℕ) (ch : Channel) (w : World)
    → (◌≡◌ {A = Result (Member × World)} (lift (get_member id ch) w) (throw out_of_range))
      ⊎ ((m : Member) × (◌≡◌ {A = Result (Member × World)} (lift (get_member id ch) w) (ok (m, w)))
          × (lookup id ch.members ≡ some m))
unfolding get_member
get_member_cases id ch w = elim (Option-cases (lookup id ch.members)) [
  | inl e ↦ inl (ap (λ o. lift (or_throw out_of_range o) w) e)
  | inr (m, e) ↦ inr (m, ap (λ o. lift (or_throw out_of_range o) w) e, e)
]

module _ (w : World) (h : WorldInv w) (id : ℕ) (info : ConnInfo)
    (there : lookup id w.db.connections ≡ some info) where
  known : contains id w.db.connections ≡ true
  known = known-contains id w.db info there

  -- A message to the members of a channel of the table.
  pub send_ok :
      (name : Str) (ch : Channel) (msg : Message)
      → lookup name w.db.channels ≡ some ch
      → (w' : World) × (send_to_members ch.members msg w ≡ ok (tt, w'))
        × (w'.db ≡ w.db)
        × SameClients w w'
  send_ok name ch msg e = send_to_members_ok ch.members msg w (
      channel_AreLive w w.db name ch e
        (AllIn-lookup ChannelInv name ch w.db.channels h.db_inv.channels e)
        (in_channel-live w h name))

  pub send-IsSafe :
      (name : Str) (ch : Channel) (msg : Message)
      → lookup name w.db.channels ≡ some ch
      → IsSafe (send_to_members ch.members msg w)
  send-IsSafe name ch msg e =
      let (w', sent, d, s) = send_ok name ch msg e in IsSafe-by _ sent (SameClients-WorldInv h d s)

  -- The check that the channel exists, in front of what is done with it.
  pub with_channel-IsSafe :
      (p : Str) (ps : List Str) (absent : Message) (act : Str → Channel → M (Unit {0}))
      → ((name : Str) (ch : Channel) → lookup name w.db.channels ≡ some ch → IsSafe (act name ch w))
      → IsSafe (with_channel id info (p ∷ ps) absent act w)
  unfolding with_channel get_channel
  with_channel-IsSafe p ps absent act safe =
      elim (Option-cases (get_chan_name p info.joined_channel)) [
        | inl none_of ↦ IsSafe-by _ (on_none _ _ none_of) (reply-IsSafe id not_on_channel w h known)
        | inr (name, e) ↦ elim (Option-cases (lookup name w.db.channels)) [
          | inl missing ↦
              IsSafe-by _ (on_some _ _ name e ∙ on_none _ _ missing)
                (reply-IsSafe id absent w h known)
          | inr (ch, found) ↦
              IsSafe-by _ (on_some _ _ name e ∙ on_some _ _ ch found) (safe name ch found)
        ]
      ]

  say-IsSafe :
      (p : Str) (ps : List Str) (name : Str) (ch : Channel)
      → is_set info.nick ≡ true
      → lookup name w.db.channels ≡ some ch
      → IsSafe (say info (p ∷ ps) name ch w)
  unfolding say
  say-IsSafe p ps name ch n e =
      let (nick, has_nick) = is_set-some info.nick n in
      let (text, has_text) = last_some p ps in
      IsSafe-by _
        (bind-ok (value info.nick) _ (value_ok info.nick nick w has_nick)
          ∙ bind-ok (deref (last? (p ∷ ps))) _ (deref_ok (last? (p ∷ ps)) text w has_text))
        (send-IsSafe name ch (privmsg_from nick (name ∷ text ∷ [])) e)

  speak-IsSafe :
      (p : Str) (ps : List Str) (name : Str) (ch : Channel)
      → is_set info.nick ≡ true
      → lookup name w.db.channels ≡ some ch
      → IsSafe (speak id info (p ∷ ps) name ch w)
  unfolding speak
  speak-IsSafe p ps name ch n e = elim (get_member_cases id ch w) [
    | inl missing ↦ IsSafe-by _ (bind-throw (lift (get_member id ch)) _ missing) tt
    | inr (m, got, _) ↦ elim (Bool-cases m.is_muted) [
      | inl muted ↦
          IsSafe-by _ (bind-ok (lift (get_member id ch)) _ got ∙ if_true _ _ muted)
            (reply-IsSafe id cannot_send_to_chan w h known)
      | inr free ↦
          IsSafe-by _ (bind-ok (lift (get_member id ch)) _ got ∙ if_false _ _ free)
            (say-IsSafe p ps name ch n e)
    ]
  ]

  pub handle_privmsg-IsSafe :
      (params : List Str) → is_set info.nick ≡ true → IsSafe (handle_privmsg id info params w)
  unfolding handle_privmsg
  handle_privmsg-IsSafe [] n = reply-IsSafe id (need_more_params Command.privmsg) w h known
  handle_privmsg-IsSafe (p ∷ []) n = reply-IsSafe id (need_more_params Command.privmsg) w h known
  handle_privmsg-IsSafe (p ∷ q ∷ ps) n = IsSafe-by _ (if_false _ _ (ltb_two ps)) (
      with_channel-IsSafe p (q ∷ ps) no_such_channel (speak id info (p ∷ q ∷ ps))
        (λ name ch e. speak-IsSafe p (q ∷ ps) name ch n e))

  answer_whois-IsSafe : (p : Str) (ps : List Str) → IsSafe (answer_whois id (p ∷ ps) w)
  unfolding answer_whois
  answer_whois-IsSafe p ps = elim (Option-cases (get_conn_info_by_nick p w.db)) [
    | inl absent ↦ IsSafe-by _ (on_none _ _ absent) (reply-IsSafe id no_such_nick w h known)
    | inr (x, e) ↦ IsSafe-by _ (on_some _ _ x e) (reply-IsSafe id (whois_reply x.1) w h known)
  ]

  -- The channel that the client has joined exists.
  pub joined_found :
      (name : Str)
      → info.joined_channel ≡ some name
      → (ch : Channel) × (lookup name w.db.channels ≡ some ch)
  joined_found name j = elim (Option-cases (lookup name w.db.channels)) [
    | inr found ↦ found
    | inl missing ↦ absurd (unfold in_channel in ground (arith, listed, missing))
  ]
    where
      listed : in_channel w.db name id ≡ true
      listed =
          h.db_inv.agree name id
          ∙ unfold has_joined in ground (arith, there, j, is_some_of_self name)

  pub handle_whois-IsSafe : (params : List Str) → IsSafe (handle_whois id info params w)
  unfolding handle_whois
  handle_whois-IsSafe [] = reply-IsSafe id (need_more_params Command.whois) w h known
  handle_whois-IsSafe (p ∷ ps) = elim (Option-cases info.joined_channel) [
    | inl nowhere ↦
        IsSafe-by _ (if_false _ _ (ltb_one ps) ∙ on_none _ _ nowhere)
          (reply-IsSafe id not_on_channel w h known)
    | inr (name, j) ↦ IsSafe-by _ (if_false _ _ (ltb_one ps) ∙ on_some _ _ name j) (on name j)
  ]
    where
      asked :
          (name : Str) (ch : Channel)
          → lookup name w.db.channels ≡ some ch
          → IsSafe (whois_on id name (p ∷ ps) w)
      asked name ch e = elim (get_member_cases id ch w) [
        | inl missing ↦
            IsSafe-by _
              (bind-ok (channel_at name) _ (channel_at_ok name w ch e)
                ∙ bind-throw (lift (get_member id ch)) _ missing)
              tt
        | inr (m, got, _) ↦
            let front =
              bind-ok (channel_at name) _ (channel_at_ok name w ch e)
              ∙ bind-ok (lift (get_member id ch)) _ got in
            elim (Bool-cases m.is_operator) [
              | inl op ↦ IsSafe-by _ (front ∙ if_true _ _ op) (answer_whois-IsSafe p ps)
              | inr plain ↦
                  IsSafe-by _ (front ∙ if_false _ _ plain)
                    (reply-IsSafe id chann_op_priv_needed w h known)
            ]
      ]

      on : (name : Str) → info.joined_channel ≡ some name → IsSafe (whois_on id name (p ∷ ps) w)
      on name j = let (ch, e) = joined_found name j in asked name ch e
