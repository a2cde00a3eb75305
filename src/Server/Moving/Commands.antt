-- ===== src/Server/Moving/Commands.antt =====
-- The commands of `server::handle_message` in server/main.cpp as steps of the rooms.
use irc_chat.Base.{nat_eq, text_eq}
use irc_chat.Base.{
  ℕ, ◌≡◌, refl, sym, ap, ◌∙◌, Bool, true, List, [], ◌∷◌, Option, none, some, Str, arith, codes,
  ◌++◌, if◌then◌else◌, ok,
}
use irc_chat.Channel.{Channel, Member, get_member}
use irc_chat.Db.Preserve.{leave_connections}
use irc_chat.Db.{Db, ConnInfo, write_info, leave_chan, clear_joined, join_chan}
use irc_chat.Message.{Message}
use irc_chat.Connection.{disconnect}
use irc_chat.Server.Handlers.{
  is_chan_name, take_nick, handle_nick, register_user, handle_user, quit_joined, enter, handle_join,
  leave_joined, quit_message, handle_quit, with_channel, say, speak, handle_privmsg, answer_whois,
  whois_on, handle_whois, change_mode, as_operator, handle_mode, write_channel,
}
use irc_chat.Server.Keeping.{
  Ensures, then-Ensures, bind-Ensures, if-Ensures, on_connection-Ensures, weaker-Ensures,
  pure-Ensures, lift-Ensures, channel_at-Ensures,
}
use irc_chat.Server.Moving.Calls.{
  Of, reply-Of, send_to_members-Of, reads, if-knows, lift-knows, get_db-knows, put_db-writes,
  modify_db-writes, quit_chan-then,
}
use irc_chat.Server.Moving.{
  room_of, Move, stays, joins, leaves, room_of-connections, room_of-same, room_of-clear,
  room_of-join,
}
use irc_chat.Server.World.{
  World, M, ◌>>=◌, lift, deref, privmsg_from, value, send_to_members, put_db, modify_db, quit_chan,
  channel_at,
}

module _ (db : Db) (id : ℕ) where
  abbrev pub At : Db → Type 0
  At d = d ≡ db

  -- Nobody has moved.
  abbrev pub Same : Db → Type 0
  Same d = (i : ℕ) → room_of d i ≡ room_of db i

  abbrev pub Moved : Db → Type 0
  Moved d = Move id db (room_of db) (room_of d)

  pub At-Same : (d : Db) → At d → Same d
  At-Same d e i = ap (λ x. room_of x i) e

  left-Same : (j : ℕ) (name : Str) (d : Db) → Same d → Same (leave_chan j name d).0
  left-Same j name d s i =
      room_of-connections (leave_chan j name d).0 d i (leave_connections d j name) ∙ s i

  pub begin : (Q : World → Type 0) (m : M (Unit {0})) → Ensures (Of Same) Q m → Ensures (Of At) Q m
  unfolding Ensures
  begin Q m q w h = q w (At-Same w.db h)

  -- A call under which nobody moves.
  pub stay : (m : M (Unit {0})) → Ensures (Of Same) (Of Same) m → Ensures (Of Same) (Of Moved) m
  stay m q = weaker-Ensures (Of Same) (Of Moved) m (λ v s. stays s) q

  write_info-Same :
      (f : ConnInfo → ConnInfo)
      → ((info : ConnInfo) → (f info).joined_channel ≡ info.joined_channel)
      → Ensures (Of Same) (Of Same) (modify_db (write_info id f))
  write_info-Same f same =
      modify_db-writes (Of Same) (Of Same) _ (λ w s i. room_of-same w.db id f i same ∙ s i)

  pub nick-Same :
      (info : ConnInfo) (params : List Str)
      → Ensures (Of Same) (Of Same) (handle_nick id info params)
  unfolding handle_nick take_nick
  nick-Same info params = search (reads, write_info-Same) depth 12

  pub user-Same :
      (info : ConnInfo) (params : List Str)
      → Ensures (Of Same) (Of Same) (handle_user id info params)
  unfolding handle_user register_user
  user-Same info params = search (reads, write_info-Same) depth 12

  with_channel-Same :
      (info : ConnInfo) (params : List Str) (absent : Message) (act : Str → Channel → M (Unit {0}))
      → ((name : Str) (ch : Channel) → Ensures (Of Same) (Of Same) (act name ch))
      → Ensures (Of Same) (Of Same) (with_channel id info params absent act)
  unfolding with_channel
  with_channel-Same info params absent act q = search reads depth 12

  write_channel-Same :
      (name : Str) (ch : Channel) → Ensures (Of Same) (Of Same) (modify_db (write_channel name ch))
  unfolding room_of
  write_channel-Same name ch = modify_db-writes (Of Same) (Of Same) _ (λ w s i. s i)

  pub mode-Same :
      (info : ConnInfo) (params : List Str)
      → Ensures (Of Same) (Of Same) (handle_mode id info params)
  unfolding handle_mode as_operator change_mode
  mode-Same info params = search (reads, with_channel-Same, write_channel-Same) depth 14

  pub whois-Same :
      (info : ConnInfo) (params : List Str)
      → Ensures (Of Same) (Of Same) (handle_whois id info params)
  unfolding handle_whois whois_on answer_whois
  whois-Same info params = search reads depth 12

  pub privmsg-Same :
      (info : ConnInfo) (params : List Str)
      → Ensures (Of Same) (Of Same) (handle_privmsg id info params)
  unfolding handle_privmsg speak say
  privmsg-Same info params = search (reads, with_channel-Same) depth 12

  quit_chan-Same :
      (j : ℕ) (name : Str) {A : Type 0} (f : Bool → M A) (Q : World → Type 0)
      → ((b : Bool) → Ensures (Of Same) Q (f b))
      → Ensures (Of Same) Q (quit_chan j name >>= f)
  quit_chan-Same j name f Q q = quit_chan-then Same Same Q j name f (left-Same j name) (λ d s. q _)

  quit_joined-Same : (o : Option Str) → Ensures (Of Same) (Of Same) (quit_joined id o)
  unfolding quit_joined
  quit_joined-Same none = pure-Ensures (Of Same) tt
  quit_joined-Same (some name) = quit_chan-Same id name _ (Of Same) (λ b. pure-Ensures (Of Same) tt)

  join-Moved :
      (name : Str) (d d' : Db)
      → is_chan_name name ≡ true
      → Same d
      → join_chan id name d ≡ ok d'
      → Moved d'
  join-Moved name d d' good s e =
      joins name good (λ i. room_of-join d d' id name i e ∙ ground (arith, s i))

  greet-Moved :
      (info : ConnInfo) (name : Str) (msg : Channel → Member → Str → Message)
      → Ensures (Of Moved) (Of Moved) (
          channel_at name >>= λ chan. lift (get_member id chan) >>= λ member.
          value info.nick >>= λ nick. send_to_members chan.members (msg chan member nick))
  greet-Moved info name msg = search reads depth 12

  enter-Moved :
      (info : ConnInfo) (name : Str)
      → is_chan_name name ≡ true
      → Ensures (Of Same) (Of Moved) (enter id info name)
  unfolding enter
  enter-Moved info name good =
      bind-Ensures (Of Same) (Of Moved) _ _ (quit_joined-Same info.joined_channel) λ _.
        get_db-knows (Of Same) (Of Moved) _ λ d.
          lift-knows (λ w. Same w.db × (w.db ≡ d)) (Of Moved) (join_chan id name d) _
            λ d' e.
              then-Ensures (λ w. Same w.db × (w.db ≡ d)) (Of Moved) (Of Moved) (put_db d') _
                (put_db-writes (λ w. Same w.db × (w.db ≡ d)) (Of Moved) d'
                  (λ w h.
                    join-Moved name d d' good (λ i. ap (λ x. room_of x i) (sym h.1) ∙ h.0 i) e))
                (λ _. greet-Moved info name (λ chan member nick. privmsg_from (codes "system") (
                  name
                  ∷ (nick
                      ++ (codes " joined "
                          ++ (name ++ (if member.is_operator then codes " as moderator" else []))))
                  ∷ [])))

  pub join-Moves :
      (info : ConnInfo) (params : List Str)
      → Ensures (Of Same) (Of Moved) (handle_join id info params)
  unfolding handle_join
  join-Moves info params = if-Ensures (Of Same) (Of Moved) _ _ _ (stay _ (reply-Of Same id _)) (
      bind-Ensures (Of Same) (Of Moved) _ _ (lift-Ensures (Of Same) _) λ name.
        if-knows (Of Same) (Of Moved) _ _ _ (enter-Moved info name) (stay _ (reply-Of Same id _)))

  quit_message-Same :
      (nick : Str) (ps : List Str) → Ensures (Of Same) (Of Same) (quit_message nick ps)
  unfolding quit_message
  quit_message-Same nick [] = pure-Ensures (Of Same) _
  quit_message-Same nick (p ∷ ps) = lift-Ensures (Of Same) _

  leave_joined-Moves :
      (nick msg : Str) (o : Option Str) → Ensures (Of Same) (Of Moved) (leave_joined id nick msg o)
  unfolding leave_joined
  leave_joined-Moves nick msg none = stay _ (pure-Ensures (Of Same) tt)
  leave_joined-Moves nick msg (some name) =
      bind-Ensures (Of Same) (Of Moved) _ _ (channel_at-Ensures (Of Same) name) λ ch.
        bind-Ensures (Of Same) (Of Moved) _ _ (send_to_members-Of Same ch.members _) λ _.
          quit_chan-Same id name _ (Of Moved) λ b. modify_db-writes (Of Same) (Of Moved) _ (λ w s.
            leaves (λ i. room_of-clear w.db id clear_joined i (λ x. refl) ∙ ground (arith, s i)))

  pub quit-Moves :
      (info : ConnInfo) (params : List Str)
      → Ensures (Of Same) (Of Moved) (handle_quit id info params)
  unfolding handle_quit
  quit-Moves info params =
      bind-Ensures (Of Same) (Of Moved) (deref info.nick) _ (lift-Ensures (Of Same) _) λ nick.
        bind-Ensures (Of Same) (Of Moved) _ _ (quit_message-Same nick params) λ msg.
          then-Ensures (Of Same) (Of Moved) (Of Moved) _ _
            (leave_joined-Moves nick msg info.joined_channel)
            (λ _. on_connection-Ensures (Of Moved) (Of Moved) id disconnect (λ w c e h. h))
