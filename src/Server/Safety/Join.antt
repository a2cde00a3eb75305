-- ===== src/Server/Safety/Join.antt =====
-- The invariant under JOIN of server/main.cpp, and where the client is afterwards.
use mathlib.Core.Path.{subst}
use irc_chat.Base.{nat_eq, text_eq}
use irc_chat.Base.{
  ℕ, ◌≡◌, refl, sym, ap, ◌∙◌, inl, inr, true, some, Str, List, [], ◌∷◌, arith, ==_iff, lookup,
  contains, update, contains-update, update-update, lookup-update, Bool-cases, ok,
}
use irc_chat.Channel.{Channel, Member, get_member}
use irc_chat.Db.Invariant.{DbInv, is_set}
use irc_chat.Db.Membership.{in_channel, has_joined}
use irc_chat.Db.Steps.{joined-DbInv}
use irc_chat.Db.Entering.{enter_connections}
use irc_chat.Base.{Result, throw, contains-lookup, Option-cases, ◌≢◌, out_of_range}
use irc_chat.Message.{Message}
use irc_chat.Db.{is_some_of}
use irc_chat.Db.{
  Db, ConnInfo, registered_user, get_conn_info, enter_chan, join_chan, write_info, clear_joined,
  set_joined,
}
use irc_chat.Message.Replies.{no_such_channel, need_more_params}
use irc_chat.Message.{Command}
use irc_chat.Server.Handlers.{is_chan_name, quit_joined, enter, handle_join}
use irc_chat.Server.Invariant.{WorldInv, SameClients, IsSafe, reply-IsSafe, SameClients-WorldInv}
use irc_chat.Server.Safety.Common.{ltb_one, IsSafe-by, known-contains, tables-WorldInv}
use irc_chat.Server.Safety.Talk.{is_set-some, get_member_cases, send_ok, joined_found}
use irc_chat.Server.World.{
  World, ◌>>=◌, lift, bind-ok, if_true, if_false, value, value_ok, send_to_members, channel_at,
  channel_at_ok,
}
use irc_chat.Server.Safety.Members.{quit_joined_ok, member_of_joined}

enter-write :
    (db : Db) (id : ℕ) (name : Str) (f : ConnInfo → ConnInfo)
    → enter_chan id name (write_info id f db) ≡ write_info id f (enter_chan id name db)
unfolding enter_chan
enter-write db id name f = ground arith

-- A stale name is overwritten by the new one.
set_joined-clear :
    (db : Db) (id : ℕ) (name : Str)
    → write_info id (set_joined name) (enter_chan id name (write_info id clear_joined db))
      ≡ write_info id (set_joined name) (enter_chan id name db)
set_joined-clear db id name =
    ap (write_info id (set_joined name)) (enter-write db id name clear_joined)
    ∙ ap (λ c. record (enter_chan id name db) { connections = c })
        (update-update id (set_joined name) clear_joined (enter_chan id name db).connections)

join_chan_ok :
    (db : Db) (id : ℕ) (name : Str) (info : ConnInfo)
    → lookup id db.connections ≡ some info
    → join_chan id name db ≡ ok (write_info id (set_joined name) (enter_chan id name db))
unfolding join_chan get_conn_info
join_chan_ok db id name info there =
    ground (arith, ap (lookup id) (enter_connections db id name), there)

-- `get_member` finds who is in the channel.
member_not_missing :
    (id : ℕ) (ch : Channel) (w : World)
    → ◌≡◌ {A = Result (Member × World)} (lift (get_member id ch) w) (throw out_of_range)
    → contains id ch.members ≢ true
unfolding get_member
member_not_missing id ch w e q = elim (Option-cases (lookup id ch.members)) [
  | inl absent ↦ ground (arith, contains-lookup id ch.members, absent)
  | inr (m, there) ↦ absurd (ground (arith, there, e))
]

-- JOIN behind `quit_joined`, in a world whose tables are sound once the stale name is forgotten.
module _ (w : World) (id : ℕ) (info : ConnInfo) (there : lookup id w.db.connections ≡ some info)
    (h : WorldInv (record w { db = write_info id clear_joined w.db }))
    (user : info.state ≡ registered_user) (name : Str) where
  abbrev after_join : World
  after_join = record w { db = write_info id (set_joined name) (enter_chan id name w.db) }

  cleared : lookup id (update id clear_joined w.db.connections) ≡ some (clear_joined info)
  cleared = ground (arith, lookup-update id id clear_joined w.db.connections, there, ==_iff id id)

  after_join-WorldInv : WorldInv after_join
  after_join-WorldInv =
      tables-WorldInv (record w { db = write_info id clear_joined w.db })
        (write_info id (set_joined name) (enter_chan id name w.db)) h
        (subst DbInv (set_joined-clear w.db id name) (
          joined-DbInv (write_info id clear_joined w.db) h.db_inv id (clear_joined info) cleared
            name refl user))
        (λ i.
          contains-update id i (set_joined name) (enter_chan id name w.db).connections
          ∙ ap (contains i) (enter_connections w.db id name)
          ∙ sym (contains-update id i clear_joined w.db.connections))

  after_join-lookup : lookup id after_join.db.connections ≡ some (set_joined name info)
  after_join-lookup =
      lookup-update id id (set_joined name) (enter_chan id name w.db).connections
      ∙ ground (arith, ap (lookup id) (enter_connections w.db id name), there, ==_iff id id)

  in_new : in_channel after_join.db name id ≡ true
  in_new =
      member_of_joined after_join after_join-WorldInv id (set_joined name info) after_join-lookup
        name refl

  -- The message to the members of the new channel, of which the client is one.
  greet_ok :
      (nick : Str)
      → info.nick ≡ some nick
      → (msg : Member → Str → Message)
      → (w' : World) × ((channel_at name >>= λ ch. lift (get_member id ch) >>= λ m.
              value info.nick >>= λ n. send_to_members ch.members (msg m n))
            after_join
          ≡ ok (tt, w'))
        × (w'.db ≡ after_join.db)
        × SameClients after_join w'
  greet_ok nick has_nick msg =
      let (ch, e) =
        joined_found after_join after_join-WorldInv id (set_joined name info) after_join-lookup name
          refl in
      elim (get_member_cases id ch after_join) [
        | inl missing ↦ absurd (
            member_not_missing id ch after_join missing
              (unfold in_channel in rw (e, in_channel) at in_new))
        | inr (m, got, _) ↦
            let (w', sent, d, s) =
              send_ok after_join after_join-WorldInv id (set_joined name info) after_join-lookup
                name ch (msg m nick) e in
            (
              w',
              bind-ok (channel_at name) _ (channel_at_ok name after_join ch e)
                  ∙ bind-ok (lift (get_member id ch)) _ got
                  ∙ bind-ok (value info.nick) _ (value_ok info.nick nick after_join has_nick)
                  ∙ sent,
              d,
              s,
            )
      ]

module _ (w : World) (h : WorldInv w) (id : ℕ) (info : ConnInfo)
    (there : lookup id w.db.connections ≡ some info) where
  known : contains id w.db.connections ≡ true
  known = known-contains id w.db info there

  -- Where the server goes on, with the client in this channel and in no other.
  abbrev IsEntered : Str → Result (Unit {0} × World) → Type 0
  IsEntered name r =
      (w' : World) × (r ≡ ok (tt, w'))
      × WorldInv w'
      × ((n : Str) → in_channel w'.db n id ≡ is_some_of n (some name))

  enter_ok :
      (name : Str)
      → info.state ≡ registered_user
      → is_set info.nick ≡ true
      → IsEntered name (enter id info name w)
  unfolding enter
  enter_ok name user n =
      let (w₁, left, same, h₁) = quit_joined_ok w h id info there info.joined_channel refl in
      let there₁ : lookup id w₁.db.connections ≡ some info = ap (lookup id) same ∙ there in
      let (nick, has_nick) = is_set-some info.nick n in
      let (w₂, run, d, s) = greet_ok w₁ id info there₁ h₁ user name nick has_nick _ in
      let h₂ = SameClients-WorldInv (after_join-WorldInv w₁ id info there₁ h₁ user name) d s in
      let there₂ : lookup id w₂.db.connections ≡ some (set_joined name info) =
        ap (λ x. lookup id x.connections) d ∙ after_join-lookup w₁ id info there₁ h₁ user name in
      (
        w₂,
        bind-ok (quit_joined id info.joined_channel) _ left
            ∙ bind-ok (lift (join_chan id name w₁.db)) _
                (ap (λ r. lift r w₁) (join_chan_ok w₁.db id name info there₁))
            ∙ run,
        h₂,
        λ x. h₂.db_inv.agree x id ∙ unfold has_joined in rw (there₂, has_joined),
      )

  -- Given the invariant, a client of the tables who is registered and has a nick, and a channel
  -- name that is allowed: JOIN returns, the invariant is kept, and the client is in that channel
  -- and in no other.
  pub handle_join-enters :
      (name : Str) (ps : List Str)
      → info.state ≡ registered_user
      → is_set info.nick ≡ true
      → is_chan_name name ≡ true
      → (w' : World) × (handle_join id info (name ∷ ps) w ≡ ok (tt, w'))
        × WorldInv w'
        × ((n : Str) → in_channel w'.db n id ≡ is_some_of n (some name))
  unfolding handle_join
  handle_join-enters name ps user n good =
      let (w', run, h', only) = enter_ok name user n in
      (w', if_false _ _ (ltb_one ps) ∙ if_true _ _ good ∙ run, h', only)

  pub handle_join-IsSafe :
      (params : List Str)
      → info.state ≡ registered_user
      → is_set info.nick ≡ true
      → IsSafe (handle_join id info params w)
  unfolding handle_join
  handle_join-IsSafe [] user n = reply-IsSafe id (need_more_params Command.join) w h known
  handle_join-IsSafe (name ∷ ps) user n = elim (Bool-cases (is_chan_name name)) [
    | inl good ↦ let (w', run, h', _) = handle_join-enters name ps user n good in IsSafe-by _ run h'
    | inr bad ↦
        IsSafe-by _ (if_false _ _ (ltb_one ps) ∙ if_false _ _ bad)
          (reply-IsSafe id no_such_channel w h known)
  ]
