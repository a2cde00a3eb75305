-- ===== src/Db/Steps.antt =====
-- The invariant under the writes that the handlers of server/main.cpp make to the tables of
-- server/db.cpp.
use irc_chat.Base.{nat_eq, text_eq}
use irc_chat.Base.{
  ℕ, ◌≡◌, refl, sym, ap, ◌∙◌, true, none, some, Str, arith, str_eq_iff, ==_iff, lookup, update,
  AllIn-lookup, Distinct-update,
}
use irc_chat.Db.Invariant.{StateInv, InfoInv, DbInv, is_some_of-eq, find_nick-none}
use irc_chat.Db.Membership.{
  in_channel, has_joined, nick_of, in_channel-leave, in_channel-enter, has_joined-write,
  nick_of-write,
}
use irc_chat.Db.Preserve.{
  leave-ChannelInv, leave_connections, StateInv-clear, write-infos, write-nicks,
}
use irc_chat.Db.{
  ConnState, init, registered_nick, registered_user, ConnInfo, Db, is_some_of, write_info,
  leave_chan, enter_chan, find_nick, clear_joined, set_joined,
}
use irc_chat.Db.Entering.{
  has_joined-connections, nick_of-connections, in_channel-write, enter_connections,
  enter-ChannelInv,
}

StateInv-set :
    (name : Str) (s : ConnState) (i : ConnInfo)
    → s ≡ registered_user
    → StateInv s i
    → StateInv s (set_joined name i)
StateInv-set name init i e h = absurd (ground (arith, e))
StateInv-set name registered_nick i e h = absurd (ground (arith, e))
StateInv-set name registered_user i e h = h

module _ (db : Db) (h : DbInv db) (id : ℕ) (info : ConnInfo)
    (there : lookup id db.connections ≡ some info) where
  info_inv : InfoInv id info
  info_inv = AllIn-lookup InfoInv id info db.connections h.infos there

  joined_by : (n : Str) → has_joined db n id ≡ is_some_of n info.joined_channel
  unfolding has_joined
  joined_by n = rw (there, has_joined)

  -- `quit_chan`, and then the write that forgets the channel.
  pub left-DbInv :
      (name : Str)
      → in_channel db name id ≡ true
      → DbInv (write_info id clear_joined (leave_chan id name db).0)
  left-DbInv name member = record {
    channels = leave-ChannelInv db id name h.channels;
    infos = rw (leave_connections db id name) (
        write-infos db h id info there clear_joined (record {
          own_id = info_inv.own_id;
          by_state = StateInv-clear info.state info info_inv.by_state;
        }));
    distinct =
        rw (leave_connections db id name)
          (Distinct-update id clear_joined db.connections h.distinct);
    agree = agree;
    nicks = λ i j n p q.
        write-nicks db h id info there clear_joined refl i j n (kept i ∙ p) (kept j ∙ q);
  }
    where
      was_in : info.joined_channel ≡ some name
      was_in =
          is_some_of-eq name info.joined_channel
            (sym (joined_by name) ∙ sym (h.agree name id) ∙ member)

      there' : lookup id (leave_chan id name db).0.connections ≡ some info
      there' = rw (leave_connections db id name) there

      kept :
          (k : ℕ)
          → nick_of (write_info id clear_joined db) k
            ≡ nick_of (write_info id clear_joined (leave_chan id name db).0) k
      kept k =
          nick_of-connections _ _ k
            (ap (update id clear_joined) (sym (leave_connections db id name)))

      same : (n : Str) (i : ℕ) → has_joined (leave_chan id name db).0 n i ≡ has_joined db n i
      same n i = has_joined-connections _ db n i (leave_connections db id name)

      agree :
          (n : Str) (i : ℕ)
          → in_channel (write_info id clear_joined (leave_chan id name db).0) n i
            ≡ has_joined (write_info id clear_joined (leave_chan id name db).0) n i
      agree n i =
          in_channel-write (leave_chan id name db).0 id clear_joined n i
          ∙ in_channel-leave db id name n i
          ∙ ground
              (arith, h.agree n i, joined_by n, was_in, same n i, ==_iff id i, str_eq_iff name n)
          ∙ sym (has_joined-write (leave_chan id name db).0 id clear_joined info n i there')

  -- `join_chan`, for a user in no channel.
  pub joined-DbInv :
      (name : Str)
      → info.joined_channel ≡ none
      → info.state ≡ registered_user
      → DbInv (write_info id (set_joined name) (enter_chan id name db))
  joined-DbInv name nowhere user = record {
    channels = enter-ChannelInv db id name h.channels;
    infos = rw (enter_connections db id name) (
        write-infos db h id info there (set_joined name) (record {
          own_id = info_inv.own_id;
          by_state = StateInv-set name info.state info user info_inv.by_state;
        }));
    distinct =
        rw (enter_connections db id name)
          (Distinct-update id (set_joined name) db.connections h.distinct);
    agree = agree;
    nicks = λ i j n p q.
        write-nicks db h id info there (set_joined name) refl i j n (kept i ∙ p) (kept j ∙ q);
  }
    where
      there' : lookup id (enter_chan id name db).connections ≡ some info
      there' = rw (enter_connections db id name) there

      kept :
          (k : ℕ)
          → nick_of (write_info id (set_joined name) db) k
            ≡ nick_of (write_info id (set_joined name) (enter_chan id name db)) k
      kept k =
          nick_of-connections _ _ k
            (ap (update id (set_joined name)) (sym (enter_connections db id name)))

      same : (n : Str) (i : ℕ) → has_joined (enter_chan id name db) n i ≡ has_joined db n i
      same n i = has_joined-connections _ db n i (enter_connections db id name)

      agree :
          (n : Str) (i : ℕ)
          → in_channel (write_info id (set_joined name) (enter_chan id name db)) n i
            ≡ has_joined (write_info id (set_joined name) (enter_chan id name db)) n i
      agree n i =
          in_channel-write (enter_chan id name db) id (set_joined name) n i
          ∙ in_channel-enter db id name n i
          ∙ ground
              (arith, h.agree n i, joined_by n, nowhere, same n i, ==_iff id i, str_eq_iff name n)
          ∙ sym (has_joined-write (enter_chan id name db) id (set_joined name) info n i there')

  -- A write that moves nobody and leaves the nick alone: USER.
  pub info-DbInv :
      (f : ConnInfo → ConnInfo)
      → InfoInv id (f info)
      → (f info).nick ≡ info.nick
      → (f info).joined_channel ≡ info.joined_channel
      → DbInv (write_info id f db)
  info-DbInv f new same_nick same_chan = record {
    channels = h.channels;
    infos = write-infos db h id info there f new;
    distinct = Distinct-update id f db.connections h.distinct;
    agree = λ n i.
        in_channel-write db id f n i
        ∙ ground (arith, h.agree n i, joined_by n, same_chan, ==_iff id i)
        ∙ sym (has_joined-write db id f info n i there);
    nicks = write-nicks db h id info there f same_nick;
  }

  -- A write of a nick that nobody has: NICK.
  pub nick-DbInv :
      (f : ConnInfo → ConnInfo) (nick : Str)
      → InfoInv id (f info)
      → (f info).nick ≡ some nick
      → (f info).joined_channel ≡ info.joined_channel
      → find_nick nick db.connections ≡ none
      → DbInv (write_info id f db)
  nick-DbInv f nick new new_nick same_chan free = record {
    channels = h.channels;
    infos = write-infos db h id info there f new;
    distinct = Distinct-update id f db.connections h.distinct;
    agree = λ n i.
        in_channel-write db id f n i
        ∙ ground (arith, h.agree n i, joined_by n, same_chan, ==_iff id i)
        ∙ sym (has_joined-write db id f info n i there);
    nicks = λ i j n p q. ground (
      arith,
      nick_of-write db id f info i there,
      nick_of-write db id f info j there,
      new_nick,
      find_nick-none nick db i free,
      find_nick-none nick db j free,
      h.nicks i j n,
      ==_iff id i,
      ==_iff id j,
    );
  }
