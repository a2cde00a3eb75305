-- ===== src/Channel.antt =====
-- server/channel.hpp and server/channel.cpp. `send_message` needs the connections and is in
-- Server/World.
pub mod Operators
use irc_chat.Base.{nat_eq}
use irc_chat.Base.{
  ℕ, Bool, true, false, ◌||◌, List, [], ◌∷◌, Option, none, some, Str, Map, lookup, contains, insert,
  update, erase, if◌then◌else◌, Result, ok, throw, ◌>>=◌, or_throw, out_of_range,
}

-- The pointer `conn` is the id of the connection that it points to: a connection has one object while
-- the server holds it.
pub record Member : Type 0 where
  pub conn : ℕ
  pub is_muted : Bool
  pub is_operator : Bool

pub record Channel : Type 0 where
  pub name : Str
  pub members : Map ℕ Member

-- `members.insert`: a member who is there already stays as it is.
unfoldable pub add_member : ℕ → Channel → Channel
add_member id ch = record ch {
  members = insert id (record { conn = id; is_muted = false; is_operator = false }) ch.members;
}

-- `members.at(id)`: throws where there is no such member, so that the pointer is never null.
unfoldable pub get_member : ℕ → Channel → Result Member
get_member id ch = or_throw out_of_range (lookup id ch.members)

-- The new channel, and whether one member was erased.
unfoldable pub remove_member : ℕ → Channel → Channel × Bool
remove_member id ch = (record ch { members = erase id ch.members }, contains id ch.members)

-- A write through the pointer that `get_member` returns.
write_member : (Member → Member) → ℕ → Channel → Result (Channel × Bool)
write_member f id ch = do
  member ← get_member id ch
  ok (record ch { members = update id f ch.members }, true)

unfoldable pub mute : ℕ → Channel → Result (Channel × Bool)
unfolding write_member
mute = write_member λ m. record m { is_muted = true }

unfoldable pub unmute : ℕ → Channel → Result (Channel × Bool)
unfolding write_member
unmute = write_member λ m. record m { is_muted = false }

unfoldable pub make_operator : ℕ → Channel → Result (Channel × Bool)
unfolding write_member
make_operator = write_member λ m. record m { is_operator = true }

-- `std::find_if` over the members for an operator.
unfoldable pub has_operator : Map ℕ Member → Bool
has_operator [] = false
has_operator ((id, m) ∷ ms) = m.is_operator || has_operator ms

-- The members after `maybe_promote_operator`, and who was promoted: the first in the order of iteration.
unfoldable pub promote : Map ℕ Member → Map ℕ Member × Option ℕ
promote [] = ([], none)
promote ((id, m) ∷ ms) =
    if has_operator ((id, m) ∷ ms)
    then ((id, m) ∷ ms, none)
    else ((id, record m { is_operator = true }) ∷ ms, some id)

unfoldable pub maybe_promote_operator : Channel → Channel × Option ℕ
unfolding promote
maybe_promote_operator ch = (record ch { members = (promote ch.members).0 }, (promote ch.members).1)

unfoldable pub is_empty : Channel → Bool
is_empty ch = elim ch.members [ [] ↦ true | _ ∷ _ ↦ false ]

-- The constructor: the creator is a member and the operator.
unfoldable pub new_channel : Str → ℕ → Channel
new_channel name id = record {
  name = name;
  members = (id, record { conn = id; is_muted = false; is_operator = true }) ∷ [];
}
