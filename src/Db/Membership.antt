-- ===== src/Db/Membership.antt =====
-- Who is in which channel, as each of the two tables of server/db.cpp says it, with lemmas for
-- each operation.
use irc_chat.Base.{nat_eq, text_eq}
use irc_chat.Base.{
  ℕ, ◌≡◌, refl, ◌∙◌, inl, inr, Bool, true, false, ◌&&◌, [], ◌∷◌, Option, none, some, Str, arith,
  str_eq, str_eq_iff, ◌==◌, ==_iff, if◌then◌else◌, Option-cases, Bool-cases, Map, lookup, contains,
  lookup-insert, lookup-update, lookup-erase, contains-insert, contains-erase,
}
use irc_chat.Channel.{
  Member, Channel, add_member, remove_member, promote, maybe_promote_operator, is_empty,
  new_channel,
}
use irc_chat.Db.{
  Db, ConnInfo, is_some_of, write_info, get_channel, settle_chan, leave_chan, enter_chan,
}

-- By the table of channels.
unfoldable pub in_channel : Db → Str → ℕ → Bool
in_channel db n i = elim (lookup n db.channels) [ none ↦ false | some ch ↦ contains i ch.members ]

-- By the table of connections.
unfoldable pub has_joined : Db → Str → ℕ → Bool
has_joined db n i = elim (lookup i db.connections) [
  | none ↦ false
  | some info ↦ is_some_of n info.joined_channel
]

unfoldable pub nick_of : Db → ℕ → Option Str
nick_of db i = elim (lookup i db.connections) [ none ↦ none | some info ↦ info.nick ]

contains-promote : (i : ℕ) (ms : Map ℕ Member) → contains i (promote ms).0 ≡ contains i ms
unfolding promote contains
contains-promote i [] = refl
contains-promote i ((j, m) ∷ ms) = ground arith

is_empty-contains : (i : ℕ) (ch : Channel) → is_empty ch ≡ true → contains i ch.members ≡ false
unfolding is_empty contains
is_empty-contains i ch h = ground arith

pub in_channel-settle :
    (db : Db) (name : Str) (old ch : Channel) (n : Str) (i : ℕ)
    → lookup name db.channels ≡ some old
    → in_channel (settle_chan name ch db).0 n i
      ≡ (if str_eq name n then contains i ch.members else in_channel db n i)
unfolding in_channel settle_chan maybe_promote_operator
in_channel-settle db name old ch n i there = ground (
  arith,
  is_empty-contains i ch,
  contains-promote i ch.members,
  lookup-erase name n db.channels,
  lookup-update name n (λ _. (maybe_promote_operator ch).0) db.channels,
  str_eq_iff name n,
)

-- Leaving takes the one member out of the one channel.
pub in_channel-leave :
    (db : Db) (id : ℕ) (name n : Str) (i : ℕ)
    → in_channel (leave_chan id name db).0 n i
      ≡ (if str_eq name n && id == i then false else in_channel db n i)
unfolding leave_chan get_channel
in_channel-leave db id name n i = elim (Option-cases (lookup name db.channels)) [
  | inl absent ↦ rw (absent, leave_chan) (unfold in_channel in ground (arith, str_eq_iff name n))
  | inr (ch, there) ↦ elim (Bool-cases (remove_member id ch).1) [
    | inl member ↦
        rw (there, leave_chan)
          (rw member (
            in_channel-settle db name ch (remove_member id ch).0 n i there
            ∙ unfold in_channel remove_member in
              ground (arith, contains-erase id i ch.members, str_eq_iff name n, there)))
    | inr missing ↦
        rw (there, leave_chan)
          (rw missing (
            unfold in_channel remove_member in
            ground (arith, str_eq_iff name n, ==_iff id i, there, missing)))
  ]
]

contains_one :
    (id i : ℕ)
    → contains {V = Member} i
        ((id, record { conn = id; is_muted = false; is_operator = true }) ∷ [])
      ≡ (id == i)
unfolding contains
contains_one id i = ground arith

pub in_channel-enter :
    (db : Db) (id : ℕ) (name n : Str) (i : ℕ)
    → in_channel (enter_chan id name db) n i
      ≡ (if str_eq name n && id == i then true else in_channel db n i)
unfolding in_channel enter_chan add_member new_channel
in_channel-enter db id name n i = elim (Option-cases (lookup name db.channels)) [
  | inl absent ↦ ground (
    arith,
    lookup-insert name n (new_channel name id) db.channels,
    str_eq_iff name n,
    absent,
    contains_one id i,
  )
  | inr (ch, there) ↦ ground (
    arith,
    lookup-update name n (add_member id) db.channels,
    contains-insert id i (record { conn = id; is_muted = false; is_operator = false }) ch.members,
    str_eq_iff name n,
    there,
  )
]

pub has_joined-write :
    (db : Db) (id : ℕ) (f : ConnInfo → ConnInfo) (info : ConnInfo) (n : Str) (i : ℕ)
    → lookup id db.connections ≡ some info
    → has_joined (write_info id f db) n i
      ≡ (if id == i then is_some_of n (f info).joined_channel else has_joined db n i)
unfolding has_joined
has_joined-write db id f info n i there =
    ground (arith, lookup-update id i f db.connections, ==_iff id i, there)

pub nick_of-write :
    (db : Db) (id : ℕ) (f : ConnInfo → ConnInfo) (info : ConnInfo) (i : ℕ)
    → lookup id db.connections ≡ some info
    → nick_of (write_info id f db) i ≡ (if id == i then (f info).nick else nick_of db i)
unfolding nick_of
nick_of-write db id f info i there =
    ground (arith, lookup-update id i f db.connections, ==_iff id i, there)
