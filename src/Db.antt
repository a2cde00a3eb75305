-- ===== src/Db.antt =====
-- server/db.hpp and server/db.cpp. `quit_chan` sends a message when it promotes an operator: its effect
-- on the tables is `leave_chan` here, the whole of it is in Server/World.
pub mod Membership
pub mod Invariant
pub mod Preserve
pub mod Entering
pub mod Steps
pub mod Clients
use irc_chat.Base.{nat_eq, text_eq}
use irc_chat.Base.{
  ℕ, Bool, true, false, List, [], ◌∷◌, Option, none, some, Str, str_eq, Map, lookup, contains,
  insert, update, erase, if◌then◌else◌, Result, ok, throw, ◌>>=◌, or_throw, out_of_range,
}
use irc_chat.Channel.{
  Channel, add_member, remove_member, maybe_promote_operator, is_empty, new_channel,
}

-- `enum class conn_state`.
pub data ConnState : Type 0 where
  init registered_nick registered_user : ConnState

-- `struct conn_info`. `joined_channel` is the name itself instead of a view of the key.
pub record ConnInfo : Type 0 where
  pub joined_channel : Option Str
  pub nick : Option Str
  pub realname : Option Str
  pub username : Option Str
  pub state : ConnState
  pub ipv4 : ℕ
  pub id : ℕ

pub record Db : Type 0 where
  pub channels : Map Str Channel
  pub connections : Map ℕ ConnInfo

-- The constructor of `conn_info`.
abbrev pub new_conn_info : ℕ → ℕ → ConnInfo
new_conn_info id ipv4 = record {
  joined_channel = none;
  nick = none;
  realname = none;
  username = none;
  state = init;
  ipv4 = ipv4;
  id = id;
}

unfoldable pub register_connection : ℕ → ℕ → Db → Db
register_connection id ipv4 db = record db {
  connections = insert id (new_conn_info id ipv4) db.connections;
}

-- `_connections.at(id)`.
unfoldable pub get_conn_info : ℕ → Db → Result ConnInfo
get_conn_info id db = or_throw out_of_range (lookup id db.connections)

-- A write through the reference that `get_conn_info` returns.
abbrev pub write_info : ℕ → (ConnInfo → ConnInfo) → Db → Db
write_info id f db = record db { connections = update id f db.connections }

-- The writes of `joined_channel`.
abbrev pub clear_joined : ConnInfo → ConnInfo
clear_joined i = record i { joined_channel = none }

abbrev pub set_joined : Str → ConnInfo → ConnInfo
set_joined name i = record i { joined_channel = some name }

-- `optional<string> == string_view`.
abbrev pub is_some_of : Str → Option Str → Bool
is_some_of s none = false
is_some_of s (some t) = str_eq t s

-- `std::find_if` by the nick: the key and the entry that the pointer shows.
unfoldable pub find_nick : Str → Map ℕ ConnInfo → Option (ℕ × ConnInfo)
find_nick nick [] = none
find_nick nick ((id, info) ∷ m) =
    if is_some_of nick info.nick then some (id, info) else find_nick nick m

abbrev pub get_conn_info_by_nick : Str → Db → Option (ℕ × ConnInfo)
get_conn_info_by_nick nick db = find_nick nick db.connections

unfoldable pub get_channel : Str → Db → Option Channel
get_channel name db = lookup name db.channels

unfoldable pub remove_connection : ℕ → Db → Db
remove_connection id db = record db { connections = erase id db.connections }

-- The channel afterwards: a new one with the connection as operator, or the old one with one member
-- more.
unfoldable pub enter_chan : ℕ → Str → Db → Db
enter_chan id name db = elim (lookup name db.channels) [
  | none ↦ record db { channels = insert name (new_channel name id) db.channels }
  | some ch ↦ record db { channels = update name (add_member id) db.channels }
]

-- `_connections.at(id)` may throw, after the channel was changed.
unfoldable pub join_chan : ℕ → Str → Db → Result Db
unfolding enter_chan
join_chan id name db = do
  info ← get_conn_info id (enter_chan id name db)
  ok (write_info id (set_joined name) (enter_chan id name db))

-- The channels after `ch` lost a member: an empty channel goes, any other has an operator. The member
-- promoted, if one was.
unfoldable pub settle_chan : Str → Channel → Db → Db × Option ℕ
settle_chan name ch db =
    if is_empty ch then (record db { channels = erase name db.channels }, none) else (
      record db { channels = update name (λ _. (maybe_promote_operator ch).0) db.channels },
      (maybe_promote_operator ch).1,
    )

-- `quit_chan` up to the message: the tables, whether the member was removed, and who was promoted.
unfoldable pub leave_chan : ℕ → Str → Db → Db × Bool × Option ℕ
leave_chan id name db = elim (get_channel name db) [
  | none ↦ (db, false, none)
  | some ch ↦
      if (remove_member id ch).1
      then (
        (settle_chan name (remove_member id ch).0 db).0,
        true,
        (settle_chan name (remove_member id ch).0 db).1,
      )
      else (db, false, none)
]
