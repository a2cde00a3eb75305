-- ===== src/Db/Clients.antt =====
-- The invariant of the tables under clients that come and go and under moderation of a channel:
-- operations of server/db.cpp and server/channel.cpp.
use irc_chat.Base.{nat_eq, text_eq}
use irc_chat.Base.{
  ℕ, ◌≡◌, refl, sym, ◌∙◌, false, none, some, Str, arith, str_eq_iff, ==_iff, lookup, contains,
  update, contains-lookup, AllIn-insert, AllIn-update, AllIn-erase, Distinct-insert, Distinct-erase,
  lookup-insert, lookup-erase, lookup-update,
}
use irc_chat.Channel.Operators.{operators-update}
use irc_chat.Channel.{Member, Channel}
use irc_chat.Db.Invariant.{ChannelInv, InfoInv, DbInv}
use irc_chat.Db.Membership.{in_channel, has_joined, nick_of}
use irc_chat.Db.{ConnInfo, Db, new_conn_info, register_connection, remove_connection}

module _ (db : Db) (h : DbInv db) where
  -- A write of one channel that moves nobody.
  pub channel-DbInv :
      (name : Str) (ch ch' : Channel)
      → lookup name db.channels ≡ some ch
      → ChannelInv name ch'
      → ((i : ℕ) → contains i ch'.members ≡ contains i ch.members)
      → DbInv (record db { channels = update name (λ _. ch') db.channels })
  channel-DbInv name ch ch' there new same = record {
    channels = AllIn-update ChannelInv name (λ _. ch') db.channels (λ v q inv. new) h.channels;
    infos = h.infos;
    distinct = h.distinct;
    agree = λ n i. moved n i ∙ h.agree n i ∙ unfold has_joined in refl;
    nicks = unfold nick_of in h.nicks;
  }
    where
      moved :
          (n : Str) (i : ℕ)
          → in_channel (record db { channels = update name (λ _. ch') db.channels }) n i
            ≡ in_channel db n i
      moved n i =
          unfold in_channel in
          ground
            (arith, lookup-update name n (λ _. ch') db.channels, str_eq_iff name n, there, same i)

  -- A new client is in no channel and has no nick.
  pub registered-DbInv :
      (id ipv4 : ℕ) → contains id db.connections ≡ false → DbInv (register_connection id ipv4 db)
  registered-DbInv id ipv4 new = record {
    channels = unfold register_connection in h.channels;
    infos =
        unfold register_connection in
        AllIn-insert InfoInv id (new_conn_info id ipv4) db.connections
          (record { own_id = refl; by_state = (refl, refl) }) h.infos;
    distinct = unfold register_connection in Distinct-insert id _ db.connections h.distinct;
    agree = λ n i. in_channel_same n i ∙ h.agree n i ∙ sym (has_joined_same n i);
    nicks = λ i j n p q. h.nicks i j n (sym (nick_same i) ∙ p) (sym (nick_same j) ∙ q);
  }
    where
      in_channel_same :
          (n : Str) (i : ℕ) → in_channel (register_connection id ipv4 db) n i ≡ in_channel db n i
      in_channel_same n i = unfold in_channel register_connection in refl

      has_joined_same :
          (n : Str) (i : ℕ) → has_joined (register_connection id ipv4 db) n i ≡ has_joined db n i
      has_joined_same n i =
          unfold has_joined register_connection in
          ground (
            arith,
            lookup-insert id i (new_conn_info id ipv4) db.connections,
            contains-lookup id db.connections,
            new,
            ==_iff id i,
          )

      nick_same : (i : ℕ) → nick_of (register_connection id ipv4 db) i ≡ nick_of db i
      nick_same i =
          unfold nick_of register_connection in
          ground (
            arith,
            lookup-insert id i (new_conn_info id ipv4) db.connections,
            contains-lookup id db.connections,
            new,
            ==_iff id i,
          )

  -- A client in no channel may be removed.
  pub removed-DbInv :
      (id : ℕ) (info : ConnInfo)
      → lookup id db.connections ≡ some info
      → info.joined_channel ≡ none
      → DbInv (remove_connection id db)
  removed-DbInv id info there nowhere = record {
    channels = unfold remove_connection in h.channels;
    infos = unfold remove_connection in AllIn-erase InfoInv id db.connections h.infos;
    distinct = unfold remove_connection in Distinct-erase id db.connections h.distinct;
    agree = λ n i. in_channel_same n i ∙ h.agree n i ∙ sym (has_joined_same n i);
    nicks = λ i j n p q. h.nicks i j n (nick_kept i n p) (nick_kept j n q);
  }
    where
      in_channel_same :
          (n : Str) (i : ℕ) → in_channel (remove_connection id db) n i ≡ in_channel db n i
      in_channel_same n i = unfold in_channel remove_connection in refl

      has_joined_same :
          (n : Str) (i : ℕ) → has_joined (remove_connection id db) n i ≡ has_joined db n i
      has_joined_same n i =
          unfold has_joined remove_connection in
          ground (arith, lookup-erase id i db.connections, ==_iff id i, there, nowhere)

      nick_kept :
          (i : ℕ) (n : Str) → nick_of (remove_connection id db) i ≡ some n → nick_of db i ≡ some n
      nick_kept i n p =
          unfold nick_of remove_connection in
          ground (arith, lookup-erase id i db.connections, ==_iff id i, there, p)

-- A write of `is_muted`.
module _ (f : Member → Member) (same_conn : (m : Member) → (f m).conn ≡ m.conn)
    (same_operator : (m : Member) → (f m).is_operator ≡ m.is_operator) where
  pub member_write-ChannelInv :
      (name : Str) (ch : Channel) (id : ℕ)
      → ChannelInv name ch
      → ChannelInv name (record ch { members = update id f ch.members })
  member_write-ChannelInv name ch id h = record {
    named = h.named;
    one_operator = operators-update f same_operator id ch.members ∙ h.one_operator;
    pointers =
        AllIn-update (λ (k : ℕ) (m : Member). m.conn ≡ k) id f ch.members (λ v q p. same_conn v ∙ p)
          h.pointers;
  }
