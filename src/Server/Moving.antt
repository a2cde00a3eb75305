-- ===== src/Server/Moving.antt =====
-- Who is in which channel, as an abstract view of the tables of server/db.cpp: one channel at most for
-- each client, and the steps in which a message of server/main.cpp may change that.
pub mod Calls
pub mod Commands
pub mod Kick
pub mod Messages
use irc_chat.Base.{nat_eq, text_eq}
use irc_chat.Base.{
  ℕ, ◌≡◌, refl, sym, ap, ◌∙◌, inl, inr, Bool, true, false, Option, none, some, Str, arith, ◌==◌,
  ==_iff, if◌then◌else◌, Option-cases, Result, ok, lookup, lookup-update, update,
}
use irc_chat.Db.Entering.{enter_connections}
use irc_chat.Db.Membership.{in_channel, has_joined}
use irc_chat.Db.{
  ConnInfo, Db, is_some_of, write_info, enter_chan, join_chan, get_conn_info, set_joined,
}
use irc_chat.Server.Handlers.{is_chan_name}

-- The channel of each client.
abbrev pub Rooms : Type 0
Rooms = ℕ → Option Str

unfoldable pub room_of : Db → Rooms
room_of db i = elim (lookup i db.connections) [ none ↦ none | some info ↦ info.joined_channel ]

-- The rooms are what the table of channels says.
abbrev pub Shows : Rooms → Db → Type 0
Shows r db = (n : Str) (i : ℕ) → in_channel db n i ≡ is_some_of n (r i)

abbrev pub move_to : ℕ → Option Str → Rooms → Rooms
move_to id o r i = if id == i then o else r i

unfoldable pub is_operator_in : Db → Str → ℕ → Bool
is_operator_in db name i = elim (lookup name db.channels) [
  | none ↦ false
  | some ch ↦ elim (lookup i ch.members) [ none ↦ false | some m ↦ m.is_operator ]
]

-- What a message of the client `id` may do to the rooms `r`.
pub data Move (id : ℕ) (db : Db) (r r' : Rooms) : Type 0 where
  stays : ((i : ℕ) → r' i ≡ r i) → Move id db r r'
  joins :
      (name : Str)
      → is_chan_name name ≡ true
      → ((i : ℕ) → r' i ≡ move_to id (some name) r i)
      → Move id db r r'
  leaves : ((i : ℕ) → r' i ≡ move_to id none r i) → Move id db r r'
  kicks :
      (name : Str) (k : ℕ)
      → is_operator_in db name id ≡ true
      → r k ≡ some name
      → ((i : ℕ) → r' i ≡ move_to k none r i)
      → Move id db r r'

pub room_of-connections :
    (d d' : Db) (i : ℕ) → d.connections ≡ d'.connections → room_of d i ≡ room_of d' i
unfolding room_of
room_of-connections d d' i e = rw (e, room_of)

-- A write that leaves `joined_channel` as it is.
pub room_of-same :
    (db : Db) (id : ℕ) (f : ConnInfo → ConnInfo) (i : ℕ)
    → ((info : ConnInfo) → (f info).joined_channel ≡ info.joined_channel)
    → room_of (write_info id f db) i ≡ room_of db i
unfolding room_of
room_of-same db id f i same = elim (Option-cases (lookup i db.connections)) [
  | inl absent ↦ ground (arith, lookup-update id i f db.connections, ==_iff id i, absent)
  | inr (info, there) ↦
      ground (arith, lookup-update id i f db.connections, ==_iff id i, there, same info)
]

-- A write that forgets it.
pub room_of-clear :
    (db : Db) (id : ℕ) (f : ConnInfo → ConnInfo) (i : ℕ)
    → ((info : ConnInfo) → (f info).joined_channel ≡ none)
    → room_of (write_info id f db) i ≡ move_to id none (room_of db) i
unfolding room_of
room_of-clear db id f i cleared = elim (Option-cases (lookup i db.connections)) [
  | inl absent ↦ ground (arith, lookup-update id i f db.connections, ==_iff id i, absent)
  | inr (info, there) ↦
      ground (arith, lookup-update id i f db.connections, ==_iff id i, there, cleared info)
]

-- `join_chan`, where it returns.
pub room_of-join :
    (db db' : Db) (id : ℕ) (name : Str) (i : ℕ)
    → join_chan id name db ≡ ok db'
    → room_of db' i ≡ move_to id (some name) (room_of db) i
unfolding join_chan get_conn_info room_of
room_of-join db db' id name i e = elim (Option-cases (lookup id db.connections)) [
  | inl absent ↦ absurd (ground (arith, ap (lookup id) (enter_connections db id name), absent, e))
  | inr (info, there) ↦ ground (
    arith,
    e,
    enter_connections db id name,
    there,
    lookup-update id i (set_joined name) db.connections,
    ==_iff id i,
  )
]

-- By the invariant both tables say the same.
pub room_of-Shows :
    (db : Db) → ((n : Str) (i : ℕ) → in_channel db n i ≡ has_joined db n i) → Shows (room_of db) db
unfolding room_of has_joined
room_of-Shows db agree n i = ground (arith, agree n i)
