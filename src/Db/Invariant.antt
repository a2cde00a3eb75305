-- ===== src/Db/Invariant.antt =====
-- The invariant of the tables of server/db.cpp.
use irc_chat.Base.{nat_eq, text_eq}
use irc_chat.Base.{
  ℕ, ◌≡◌, ◌≢◌, refl, ==_iff, Option-cases, Bool, true, false, [], ◌∷◌, Option, none, some, Str,
  arith, str_eq_iff, Map, lookup, contains-lookup, AllIn, Distinct, Bool-cases, inl, inr,
}
use irc_chat.Channel.{Member, Channel}
use irc_chat.Channel.Operators.{operators}
use irc_chat.Db.Membership.{in_channel, has_joined, nick_of}
use irc_chat.Db.{
  ConnState, init, registered_nick, registered_user, ConnInfo, Db, is_some_of, find_nick,
}

-- A channel is known by its own name, has one operator (so that it is not empty), and its members'
-- pointers are to their own connections.
pub record ChannelInv (key : Str) (ch : Channel) : Type 0 where
  pub named : ch.name ≡ key
  pub one_operator : operators ch.members ≡ 1
  pub pointers : AllIn (λ (k : ℕ) (m : Member). m.conn ≡ k) ch.members

abbrev pub is_set : Option Str → Bool
is_set none = false
is_set (some s) = true

-- What each state of the registration promises.
abbrev pub StateInv : ConnState → ConnInfo → Type 0
StateInv init i = (i.joined_channel ≡ none) × (i.nick ≡ none)
StateInv registered_nick i = (i.joined_channel ≡ none) × (is_set i.nick ≡ true)
StateInv registered_user i =
    (is_set i.nick ≡ true) × (is_set i.username ≡ true) × (is_set i.realname ≡ true)

pub record InfoInv (key : ℕ) (i : ConnInfo) : Type 0 where
  pub own_id : i.id ≡ key
  pub by_state : StateInv i.state i

-- The two tables agree on who is where, so that a client is in at most one channel; no two clients have
-- one nick.
pub record DbInv (db : Db) : Type 0 where
  pub channels : AllIn ChannelInv db.channels
  pub infos : AllIn InfoInv db.connections
  pub distinct : Distinct db.connections
  pub agree : (n : Str) (i : ℕ) → in_channel db n i ≡ has_joined db n i
  pub nicks : (i j : ℕ) (n : Str) → nick_of db i ≡ some n → nick_of db j ≡ some n → i ≡ j

abbrev pub empty_db : Db
empty_db = record { channels = []; connections = [] }

pub empty_db-DbInv : DbInv empty_db
unfolding in_channel has_joined nick_of lookup
empty_db-DbInv = record {
  channels = tt;
  infos = tt;
  distinct = tt;
  agree = λ n i. refl;
  nicks = λ i j n a b. cc;
}

pub is_some_of-eq : (n : Str) (o : Option Str) → is_some_of n o ≡ true → o ≡ some n
is_some_of-eq n none h = cc
is_some_of-eq n (some t) h = ground (arith, str_eq_iff t n)

pub is_some_of_self : (n : Str) → is_some_of n (some n) ≡ true
is_some_of_self n = (str_eq_iff n n).1 refl

-- `find_nick` finds the owner of the nick, and nothing only if there is none.
pub find_nick-some :
    (nick : Str) (m : Map ℕ ConnInfo) (k : ℕ) (info : ConnInfo)
    → Distinct m
    → find_nick nick m ≡ some (k, info)
    → (lookup k m ≡ some info) × (info.nick ≡ some nick)
unfolding find_nick lookup
find_nick-some nick [] k info d e = cc
find_nick-some nick ((j, w) ∷ m) k info d e = elim (Bool-cases (is_some_of nick w.nick)) [
  | inl hit ↦ ground (arith, is_some_of-eq nick w.nick hit)
  | inr miss ↦
      ground (arith, miss, find_nick-some nick m k info d.1, contains-lookup k m, ==_iff j k)
]

find_nick-lookup :
    (nick : Str) (m : Map ℕ ConnInfo) (i : ℕ) (info : ConnInfo)
    → find_nick nick m ≡ none
    → lookup i m ≡ some info
    → is_some_of nick info.nick ≡ false
unfolding find_nick lookup
find_nick-lookup nick [] i info e q = cc
find_nick-lookup nick ((j, w) ∷ m) i info e q = ground (arith, find_nick-lookup nick m i info)

pub find_nick-none :
    (nick : Str) (db : Db) (i : ℕ) → find_nick nick db.connections ≡ none → nick_of db i ≢ some nick
unfolding nick_of
find_nick-none nick db i e q = elim (Option-cases (lookup i db.connections)) [
  | inl absent ↦ ground (arith, absent)
  | inr (info, there) ↦
      ground
        (arith, there, find_nick-lookup nick db.connections i info e there, is_some_of_self nick)
]
