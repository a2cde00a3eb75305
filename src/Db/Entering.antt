-- ===== src/Db/Entering.antt =====
-- Lemmas on `db::join_chan` of server/db.cpp, and on writes of one of the two tables alone.
use irc_chat.Base.{nat_eq, text_eq}
use irc_chat.Base.{
  ℕ, ◌≡◌, refl, ◌∙◌, inl, inr, false, Str, arith, Option-cases, lookup, AllIn, AllIn-insert,
  AllIn-update,
}
use irc_chat.Channel.Operators.{operators-insert}
use irc_chat.Channel.{Member, Channel, add_member, new_channel}
use irc_chat.Db.Invariant.{ChannelInv}
use irc_chat.Db.Membership.{in_channel, has_joined, nick_of}
use irc_chat.Db.{ConnInfo, Db, write_info, enter_chan}

-- What is said of the connections depends on their table alone.
pub has_joined-connections :
    (d d' : Db) (n : Str) (i : ℕ)
    → d.connections ≡ d'.connections
    → has_joined d n i ≡ has_joined d' n i
unfolding has_joined
has_joined-connections d d' n i e = rw (e, has_joined)

pub nick_of-connections :
    (d d' : Db) (i : ℕ) → d.connections ≡ d'.connections → nick_of d i ≡ nick_of d' i
unfolding nick_of
nick_of-connections d d' i e = rw (e, nick_of)

pub in_channel-write :
    (db : Db) (id : ℕ) (f : ConnInfo → ConnInfo) (n : Str) (i : ℕ)
    → in_channel (write_info id f db) n i ≡ in_channel db n i
unfolding in_channel
in_channel-write db id f n i = refl

pub enter_connections :
    (db : Db) (id : ℕ) (name : Str) → (enter_chan id name db).connections ≡ db.connections
unfolding enter_chan
enter_connections db id name = ground arith

pub new_channel-ChannelInv : (name : Str) (id : ℕ) → ChannelInv name (new_channel name id)
unfolding new_channel
new_channel-ChannelInv name id = record {
  named = refl;
  one_operator = omega arith;
  pointers = (refl, tt);
}

pub add_member-ChannelInv :
    (name : Str) (id : ℕ) (ch : Channel) → ChannelInv name ch → ChannelInv name (add_member id ch)
unfolding add_member
add_member-ChannelInv name id ch h = record {
  named = h.named;
  one_operator =
      operators-insert id (record { conn = id; is_muted = false; is_operator = false }) ch.members
        refl
      ∙ h.one_operator;
  pointers = AllIn-insert (λ (k : ℕ) (m : Member). m.conn ≡ k) id _ ch.members refl h.pointers;
}

pub enter-ChannelInv :
    (db : Db) (id : ℕ) (name : Str)
    → AllIn ChannelInv db.channels
    → AllIn ChannelInv (enter_chan id name db).channels
unfolding enter_chan
enter-ChannelInv db id name h = elim (Option-cases (lookup name db.channels)) [
  | inl absent ↦
      rw (absent, enter_chan)
        (AllIn-insert ChannelInv name _ db.channels (new_channel-ChannelInv name id) h)
  | inr (ch, there) ↦
      rw (there, enter_chan)
        (AllIn-update ChannelInv name (add_member id) db.channels
          (λ v q inv. add_member-ChannelInv name id v inv) h)
]
