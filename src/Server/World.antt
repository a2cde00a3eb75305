-- ===== src/Server/World.antt =====
-- The state of the server: the tables of server/db.hpp, the connections and the id counter of
-- server/main.cpp, and the global registry; with the calls of the program on it, which may throw.
use irc_chat.Base.{nat_eq, text_eq}
use irc_chat.Base.{
  ◌≡◌, ap, true, false, ℕ, Bool, List, [], ◌∷◌, ◌++◌, Option, none, some, Str, codes, Map, lookup,
  update, if◌then◌else◌, out_of_range, null_deref, bad_optional_access, Result, ok, throw,
  get_elem?, or_throw,
}
use irc_chat.Channel.{Member, Channel}
use irc_chat.Connection.{Connection, send_text, send_message}
use irc_chat.Db.{Db, ConnInfo, get_conn_info, get_channel, leave_chan}
use irc_chat.Message.Print.{to_string}
use irc_chat.Message.{Command, command, Message}
use irc_chat.Registry.{PollRegistry}

pub record World : Type 0 where
  pub db : Db
  pub curr_id_count : ℕ
  pub connections : Map ℕ Connection
  pub registry : PollRegistry

-- A call that may throw. An exception that leaves `handle_message` ends the server, so that the state
-- then is of no account.
abbrev pub M : Type 0 → Type 0
M A = World → Result (A × World)

abbrev pub pure : {A : Type 0} → A → M A
pure a w = ok (a, w)

infixl 5 ◌>>=◌ ◌>>◌
abbrev pub ◌>>=◌ : {A B : Type 0} → M A → (A → M B) → M B
◌>>=◌ m f w = elim (m w) [ throw e ↦ throw e | ok (a, w') ↦ f a w' ]

abbrev pub ◌>>◌ : {B : Type 0} → M (Unit {0}) → M B → M B
m >> k = m >>= λ _. k

abbrev pub lift : {A : Type 0} → Result A → M A
lift (ok a) w = ok (a, w)
lift (throw e) w = throw e

abbrev pub get_db : M Db
get_db w = ok (w.db, w)

abbrev pub put_db : Db → M (Unit {0})
put_db db w = ok (tt, record w { db = db })

abbrev pub modify_db : (Db → Db) → M (Unit {0})
modify_db f w = ok (tt, record w { db = f w.db })

-- `_db.get_conn_info(id)`.
abbrev pub conn_info : ℕ → M ConnInfo
conn_info id w = lift (get_conn_info id w.db) w

-- Reading through the pointer that `_db.get_channel(name)` returned.
abbrev pub channel_at : Str → M Channel
channel_at name w = lift (or_throw null_deref (get_channel name w.db)) w

-- `params.at(i)`.
abbrev pub param_at : List Str → ℕ → M Str
param_at params i = lift (or_throw out_of_range (get_elem? params i))

-- `*o` and `o.value()` on an `optional`.
abbrev pub deref : {A : Type 0} → Option A → M A
deref o = lift (or_throw null_deref o)

abbrev pub value : {A : Type 0} → Option A → M A
value o = lift (or_throw bad_optional_access o)

-- A test for a null pointer or an empty `optional`.
unfoldable pub on_option : {A B : Type 0} → Option A → M B → (A → M B) → M B
on_option none m f = m
on_option (some a) m f = f a

-- A call on the connection that the pointer shows.
unfoldable pub on_connection :
    ℕ → (Connection → PollRegistry → Connection × PollRegistry) → M (Unit {0})
on_connection id f w = elim (lookup id w.connections) [
  | none ↦ throw null_deref
  | some c ↦ ok (
    tt,
    record w {
      connections = update id (λ _. (f c w.registry).0) w.connections;
      registry = (f c w.registry).1;
    },
  )
]

-- `conn->send_message(msg)`.
unfoldable pub reply : ℕ → Message → M (Unit {0})
reply id msg = on_connection id (send_message msg)

-- `send_message(msg.to_string())` if `is_connected()`.
abbrev pub send_if_connected : Message → Connection → PollRegistry → Connection × PollRegistry
send_if_connected msg c r = if c.connected then send_text (to_string msg) c r else (c, r)

-- `channel::send_message` of server/channel.cpp: to every member that is connected.
unfoldable pub send_to_members : Map ℕ Member → Message → M (Unit {0})
send_to_members [] msg = pure tt
send_to_members ((k, m) ∷ ms) msg =
    on_connection m.conn (send_if_connected msg) >> send_to_members ms msg

-- `message(sender, command::privmsg, params)`.
abbrev pub privmsg_from : Str → List Str → Message
privmsg_from sender params = record {
  prefix = some sender;
  command_or_reply = command Command.privmsg;
  params = params;
}

-- The message of `quit_chan` if a member was promoted.
unfoldable pub announce : Str → Option ℕ → M (Unit {0})
announce name none = pure tt
announce name (some promoted) = do
  promoted_info ← conn_info promoted
  promoted_nick ← deref promoted_info.nick
  chan ← channel_at name
  send_to_members chan.members
      (privmsg_from (codes "system") (name ∷ (promoted_nick ++ codes " promoted to operator") ∷ []))

-- `db::quit_chan` of server/db.cpp.
unfoldable pub quit_chan : ℕ → Str → M Bool
quit_chan id name = do
  db ← get_db
  put_db (leave_chan id name db).0
  announce name (leave_chan id name db).2
  pure (leave_chan id name db).1

-- A call whose first part returns is the rest of it.
pub bind-ok :
    {A B : Type 0} (m : M A) (f : A → M B) {a : A} {w w' : World}
    → m w ≡ ok (a, w')
    → ◌≡◌ {A = Result (B × World)} ((m >>= f) w) (f a w')
bind-ok m f {w = w} e = rw (e, ◌>>=◌)

pub conn_info_ok :
    (id : ℕ) (w : World) (info : ConnInfo)
    → lookup id w.db.connections ≡ some info
    → conn_info id w ≡ ok (info, w)
unfolding get_conn_info
conn_info_ok id w info e = rw e

pub channel_at_ok :
    (name : Str) (w : World) (ch : Channel)
    → lookup name w.db.channels ≡ some ch
    → channel_at name w ≡ ok (ch, w)
unfolding get_channel
channel_at_ok name w ch e = rw e

pub deref_ok : {A : Type 0} (o : Option A) (a : A) (w : World) → o ≡ some a → deref o w ≡ ok (a, w)
deref_ok o a w e = rw e

pub value_ok : {A : Type 0} (o : Option A) (a : A) (w : World) → o ≡ some a → value o w ≡ ok (a, w)
value_ok o a w e = rw e

-- The branches of a handler, one step each.
module _ {B : Type 0} {w : World} (m k : M B) {b : Bool} where
  pub if_true : b ≡ true → ◌≡◌ {A = Result (B × World)} ((if b then m else k) w) (m w)
  if_true e = ap (λ c. (if c then m else k) w) e

  pub if_false : b ≡ false → ◌≡◌ {A = Result (B × World)} ((if b then m else k) w) (k w)
  if_false e = ap (λ c. (if c then m else k) w) e

module _ {A B : Type 0} {w : World} (m : M B) (f : A → M B) {o : Option A} where
  pub on_none : o ≡ none → ◌≡◌ {A = Result (B × World)} (on_option o m f w) (m w)
  unfolding on_option
  on_none e = ap (λ c. on_option c m f w) e

  pub on_some : (a : A) → o ≡ some a → ◌≡◌ {A = Result (B × World)} (on_option o m f w) (f a w)
  unfolding on_option
  on_some a e = ap (λ c. on_option c m f w) e
