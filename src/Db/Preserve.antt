-- ===== src/Db/Preserve.antt =====
-- The invariant of single channels and clients under the operations of server/db.cpp.
use irc_chat.Base.{nat_eq, text_eq}
use irc_chat.Base.{
  ℕ, ◌≤◌, ◌≡◌, refl, ◌∙◌, inl, inr, false, [], ◌∷◌, none, some, Str, arith, ==_iff, Option-cases,
  Bool-cases, Map, lookup, update, erase, AllIn, AllIn-lookup, AllIn-update, AllIn-erase,
  lookup-update,
}
use irc_chat.Channel.Operators.{operators, operators-erase, operators-promote}
use irc_chat.Channel.{Member, Channel, remove_member, promote, maybe_promote_operator, is_empty}
use irc_chat.Db.Invariant.{ChannelInv, StateInv, InfoInv, DbInv}
use irc_chat.Db.Membership.{in_channel, nick_of}
use irc_chat.Db.{
  ConnState, init, registered_nick, registered_user, ConnInfo, Db, write_info, get_channel,
  settle_chan, leave_chan,
}

abbrev Points : ℕ → Member → Type 0
Points k m = m.conn ≡ k

promote-Points : (ms : Map ℕ Member) → AllIn Points ms → AllIn Points (promote ms).0
unfolding promote
promote-Points [] h = tt
promote-Points ((k, m) ∷ ms) h = ground arith

-- A channel that lost a member and still has one.
settled-ChannelInv :
    (name : Str) (ch : Channel) (id : ℕ)
    → ChannelInv name ch
    → is_empty (remove_member id ch).0 ≡ false
    → ChannelInv name (maybe_promote_operator (remove_member id ch).0).0
unfolding maybe_promote_operator remove_member
settled-ChannelInv name ch id h some_left = record {
  named = h.named;
  one_operator =
      go (erase id ch.members) (omega (arith, operators-erase id ch.members, h.one_operator))
        some_left;
  pointers = promote-Points (erase id ch.members) (AllIn-erase Points id ch.members h.pointers);
}
  where
    go :
        (ms : Map ℕ Member)
        → operators ms ≤ 1
        → is_empty (record ch { members = ms }) ≡ false
        → operators (promote ms).0 ≡ 1
    go [] le e = unfold is_empty in cc
    go ((k, m) ∷ ms) le e = operators-promote ms k m le

settle-ChannelInv :
    (db : Db) (name : Str) (ch : Channel) (id : ℕ)
    → AllIn ChannelInv db.channels
    → lookup name db.channels ≡ some ch
    → AllIn ChannelInv (settle_chan name (remove_member id ch).0 db).0.channels
unfolding settle_chan
settle-ChannelInv db name ch id h there = elim (Bool-cases (is_empty (remove_member id ch).0)) [
  | inl e ↦ rw e (AllIn-erase ChannelInv name db.channels h)
  | inr e ↦ rw e (
      AllIn-update ChannelInv name (λ _. (maybe_promote_operator (remove_member id ch).0).0)
        db.channels
        (λ v q _.
          settled-ChannelInv name ch id (AllIn-lookup ChannelInv name ch db.channels h there) e)
        h)
]

pub leave-ChannelInv :
    (db : Db) (id : ℕ) (name : Str)
    → AllIn ChannelInv db.channels
    → AllIn ChannelInv (leave_chan id name db).0.channels
unfolding leave_chan get_channel
leave-ChannelInv db id name h = elim (Option-cases (lookup name db.channels)) [
  | inl absent ↦ rw (absent, leave_chan) h
  | inr (ch, there) ↦ elim (Bool-cases (remove_member id ch).1) [
    | inl member ↦ rw (there, leave_chan) (rw member (settle-ChannelInv db name ch id h there))
    | inr missing ↦ rw (there, leave_chan) (rw missing h)
  ]
]

pub leave_connections :
    (db : Db) (id : ℕ) (name : Str) → (leave_chan id name db).0.connections ≡ db.connections
unfolding leave_chan settle_chan
leave_connections db id name = ground arith

-- `quit_chan` returns whether the connection was in the channel; if not, nothing changes.
pub leave_removed :
    (db : Db) (id : ℕ) (name : Str) → (leave_chan id name db).1 ≡ in_channel db name id
unfolding leave_chan get_channel in_channel remove_member
leave_removed db id name = ground arith

pub leave_missing :
    (db : Db) (id : ℕ) (name : Str)
    → in_channel db name id ≡ false
    → leave_chan id name db ≡ (db, false, none)
unfolding leave_chan get_channel in_channel remove_member
leave_missing db id name h = ground arith

pub StateInv-clear :
    (s : ConnState) (i : ConnInfo) → StateInv s i → StateInv s (record i { joined_channel = none })
StateInv-clear init i h = (refl, h.1)
StateInv-clear registered_nick i h = (refl, h.1)
StateInv-clear registered_user i h = h

-- A write that leaves the nick alone, on any tables with these connections.
module _ (db : Db) (h : DbInv db) (id : ℕ) (info : ConnInfo)
    (there : lookup id db.connections ≡ some info) (f : ConnInfo → ConnInfo) where
  pub write-infos : InfoInv id (f info) → AllIn InfoInv (update id f db.connections)
  write-infos new = AllIn-update InfoInv id f db.connections (λ v q _. rw (← same v q) new) h.infos
    where
      same : (v : ConnInfo) → lookup id db.connections ≡ some v → info ≡ v
      same v q = cc

  pub write-nicks :
      (f info).nick ≡ info.nick
      → (i j : ℕ) (n : Str) → nick_of (write_info id f db) i ≡ some n
      → nick_of (write_info id f db) j ≡ some n
      → i ≡ j
  write-nicks e i j n p q = h.nicks i j n (kept i ∙ p) (kept j ∙ q)
    where
      kept : (k : ℕ) → nick_of db k ≡ nick_of (write_info id f db) k
      kept k =
          unfold nick_of in
          ground (arith, lookup-update id k f db.connections, ==_iff id k, there, e)
