-- ===== src/Server/Leaving.antt =====
-- Lemmas on `db::quit_chan` of server/db.cpp with the message to the members.
use mathlib.Core.Path.{subst}
use irc_chat.Base.{nat_eq, text_eq}
use irc_chat.Base.{
  ℕ, ◌≡◌, refl, sym, ◌∙◌, inl, inr, true, [], ◌∷◌, ◌++◌, Option, none, some, Str, codes, arith,
  str_eq_iff, Map, lookup, contains, lookup-update, AllIn, AllIn-lookup, str_eq, ◌==◌, ◌&&◌, false,
  if◌then◌else◌, ap, Option-cases, ok,
}
use irc_chat.Channel.{Member, Channel, remove_member, promote, maybe_promote_operator}
use irc_chat.Db.Invariant.{ChannelInv, InfoInv, StateInv, DbInv, is_set, is_some_of-eq}
use irc_chat.Channel.Operators.{operators}
use irc_chat.Db.Membership.{in_channel, has_joined, in_channel-leave}
use irc_chat.Db.Preserve.{leave-ChannelInv, leave_connections, leave_removed}
use irc_chat.Db.{
  ConnInfo, ConnState, init, registered_nick, registered_user, Db, get_channel, leave_chan,
  settle_chan,
}
use irc_chat.Message.{Message}
use irc_chat.Server.Invariant.{
  WorldInv, SameClients, send_to_members_ok, channel_AreLive, in_channel-live,
}
use irc_chat.Server.World.{
  World, bind-ok, conn_info_ok, deref_ok, channel_at_ok, conn_info, channel_at, deref, announce,
  quit_chan, privmsg_from, send_to_members,
}

-- Whoever is in a channel has a nick.
pub joined_nick :
    (db : Db) (name : Str) (i : ℕ)
    → DbInv db
    → has_joined db name i ≡ true
    → (info : ConnInfo) × (nick : Str) × (lookup i db.connections ≡ some info)
      × (info.nick ≡ some nick)
unfolding has_joined
joined_nick db name i h e = elim (Option-cases (lookup i db.connections)) [
  | inl absent ↦ absurd (ground (arith, absent, e))
  | inr (info, there) ↦
      let (nick, set) =
        named info info.state (is_some_of-eq name info.joined_channel (rw (there, has_joined) at e))
          (AllIn-lookup InfoInv i info db.connections h.infos there).by_state in
      (info, nick, there, set)
]
  where
    is_set-some : (o : Option Str) → is_set o ≡ true → (s : Str) × (o ≡ some s)
    is_set-some none q = cc
    is_set-some (some s) q = (s, refl)

    named :
        (info : ConnInfo) (s : ConnState)
        → info.joined_channel ≡ some name
        → StateInv s info
        → (nick : Str) × (info.nick ≡ some nick)
    named info init j q = absurd (ground (arith, j, q.0))
    named info registered_nick j q = is_set-some info.nick q.1
    named info registered_user j q = is_set-some info.nick q.0

promote_promoted :
    (ms : Map ℕ Member) (p : ℕ) → (promote ms).1 ≡ some p → contains p (promote ms).0 ≡ true
unfolding promote contains
promote_promoted [] p e = cc
promote_promoted ((k, m) ∷ ms) p e = ground arith

-- Who is promoted is in the channel, and the channel is still there.
leave_promoted :
    (db : Db) (id : ℕ) (name : Str) (p : ℕ)
    → (leave_chan id name db).2 ≡ some p
    → (ch : Channel) × (lookup name (leave_chan id name db).0.channels ≡ some ch)
      × (contains p ch.members ≡ true)
unfolding leave_chan settle_chan get_channel
leave_promoted db id name p e = elim (Option-cases (lookup name db.channels)) [
  | inl absent ↦ absurd (ground (arith, absent, e))
  | inr (ch, there) ↦ (
    (maybe_promote_operator (remove_member id ch).0).0,
    ground (
      arith,
      there,
      lookup-update name name (λ _. (maybe_promote_operator (remove_member id ch).0).0) db.channels,
      str_eq_iff name name,
    ),
    unfold maybe_promote_operator in
        promote_promoted (remove_member id ch).0.members p (ground (arith, there, e)),
  )
]

abbrev promotion : Str → Str → Message
promotion name nick =
    privmsg_from (codes "system") (name ∷ (nick ++ codes " promoted to operator") ∷ [])

announce-runs :
    (name nick : Str) (p : ℕ) (info : ConnInfo) (ch : Channel) (w w' : World)
    → lookup p w.db.connections ≡ some info
    → info.nick ≡ some nick
    → lookup name w.db.channels ≡ some ch
    → send_to_members ch.members (promotion name nick) w ≡ ok (tt, w')
    → announce name (some p) w ≡ ok (tt, w')
unfolding announce
announce-runs name nick p info ch w w' known has_nick there sent =
    bind-ok (conn_info p) _ (conn_info_ok p w info known)
    ∙ bind-ok (deref info.nick) _ (deref_ok info.nick nick w has_nick)
    ∙ bind-ok (channel_at name) _ (channel_at_ok name w ch there)
    ∙ sent

quit_chan-runs :
    (id : ℕ) (name : Str) (w w' : World)
    → announce name (leave_chan id name w.db).2 (record w { db = (leave_chan id name w.db).0 })
      ≡ ok (tt, w')
    → quit_chan id name w ≡ ok ((leave_chan id name w.db).1, w')
unfolding quit_chan
quit_chan-runs id name w w' run = bind-ok (announce name (leave_chan id name w.db).2) _ run

module _ (w : World) (h : WorldInv w) (id : ℕ) (name : Str) where
  left_world : World
  left_world = record w { db = (leave_chan id name w.db).0 }

  still_live :
      (n : Str) (k : ℕ)
      → in_channel (leave_chan id name w.db).0 n k ≡ true
      → contains k w.connections ≡ true
  still_live n k c = in_channel-live w h n k (ground (arith, in_channel-leave w.db id name n k, c))

  announce_ok :
      (o : Option ℕ)
      → (leave_chan id name w.db).2 ≡ o
      → (w' : World) × (announce name o left_world ≡ ok (tt, w'))
        × (w'.db ≡ (leave_chan id name w.db).0)
        × SameClients w w'
  unfolding announce left_world
  announce_ok none e = (left_world, refl, refl, record { same_live = λ i. refl; same_count = refl })
  announce_ok (some p) e =
      let (ch, there, member) = leave_promoted w.db id name p e in
      let in_left : in_channel (leave_chan id name w.db).0 name p ≡ true =
        unfold in_channel in rw (there, in_channel) member in
      let was_in : in_channel w.db name p ≡ true =
        ground (arith, in_channel-leave w.db id name name p, in_left) in
      let (info, nick, known, has_nick) =
        joined_nick w.db name p h.db_inv (sym (h.db_inv.agree name p) ∙ was_in) in
      let inv =
        AllIn-lookup ChannelInv name ch (leave_chan id name w.db).0.channels
          (leave-ChannelInv w.db id name h.db_inv.channels) there in
      let (w', sent, d, s) = send_to_members_ok ch.members (promotion name nick) left_world (
        channel_AreLive left_world (leave_chan id name w.db).0 name ch there inv
          (still_live name)) in
      (
        w',
        announce-runs name nick p info ch left_world w'
            (subst (λ m. lookup p m ≡ some info) (sym (leave_connections w.db id name)) known)
            has_nick there sent,
        d,
        record { same_live = s.same_live; same_count = s.same_count },
      )

  -- It returns, on the tables that `leave_chan` gives.
  pub quit_chan_ok :
      (w' : World) × (quit_chan id name w ≡ ok (in_channel w.db name id, w'))
      × (w'.db ≡ (leave_chan id name w.db).0)
      × SameClients w w'
  unfolding left_world
  quit_chan_ok =
      let (w', run, d, s) = announce_ok (leave_chan id name w.db).2 refl in
      (w', quit_chan-runs id name w w' run ∙ rw (leave_removed w.db id name), d, s)

  -- Given the invariant, `quit_chan` returns for any id and any name, never throwing. Its result is
  -- whether the connection was in the channel; afterwards it is not in it, and everyone else is in
  -- the channels where they were; each channel that is left has one operator; the table of clients
  -- and the set of connections are as before.
  pub quit_chan-leaves :
      (w' : World) × (quit_chan id name w ≡ ok (in_channel w.db name id, w'))
      × ((n : Str) (i : ℕ)
          → in_channel w'.db n i
            ≡ (if str_eq name n && id == i then false else in_channel w.db n i))
      × AllIn (λ (n : Str) (ch : Channel). operators ch.members ≡ 1) w'.db.channels
      × (w'.db.connections ≡ w.db.connections)
      × SameClients w w'
  quit_chan-leaves =
      let (w', run, d, s) = quit_chan_ok in
      (
        w',
        run,
        λ n i. ap (λ x. in_channel x n i) d ∙ in_channel-leave w.db id name n i,
        one_operator w'.db.channels (
            subst (λ x. AllIn ChannelInv x.channels) (sym d)
              (leave-ChannelInv w.db id name h.db_inv.channels)),
        ap (λ x. x.connections) d ∙ leave_connections w.db id name,
        s,
      )
    where
      one_operator :
          (m : Map Str Channel)
          → AllIn ChannelInv m
          → AllIn (λ (n : Str) (ch : Channel). operators ch.members ≡ 1) m
      one_operator [] q = tt
      one_operator ((n, ch) ∷ m) q = (q.0.one_operator, one_operator m q.1)
