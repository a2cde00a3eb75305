-- ===== src/Server/Keeping.antt =====
-- The calls of server/main.cpp under a property of the state: where each of them returns, the property
-- still holds, if it does so across writes of the tables and the texts that are sent.
pub mod Commands
pub mod Reading
use irc_chat.Base.{nat_eq, text_eq}
use irc_chat.Base.{
  ℕ, ◌≡◌, inl, inr, Bool, true, false, [], ◌∷◌, Option, none, some, Str, lookup, update, Map,
  if◌then◌else◌, Option-cases, Result, ok, throw,
}
use irc_chat.Channel.{Member}
use irc_chat.Connection.{Connection, send_message}
use irc_chat.Db.{Db}
use irc_chat.Message.{Message}
use irc_chat.Registry.{PollRegistry}
use irc_chat.Server.World.{
  World, M, pure, ◌>>=◌, lift, on_option, on_connection, reply, send_if_connected, send_to_members,
  announce, quit_chan, get_db, put_db, modify_db, conn_info, channel_at,
}

abbrev pub Post : {A : Type 0} → (World → Type 0) → Result (A × World) → Type 0
Post Q (throw e) = Unit {0}
Post Q (ok (a, w)) = Q w

-- From `P` the call throws, or returns with `Q`.
unfoldable pub Ensures : {A : Type 0} → (World → Type 0) → (World → Type 0) → M A → Type 0
Ensures P Q m = (w : World) → P w → Post Q (m w)

-- The state after a call on the connection `c` that is kept under `id`.
abbrev pub called :
    (Connection → PollRegistry → Connection × PollRegistry) → ℕ → Connection → World → World
called f id c w = record w {
  connections = update id (λ _. (f c w.registry).0) w.connections;
  registry = (f c w.registry).1;
}

-- Writes of the tables and texts to the members of a channel leave the property.
pub record IsStable (P : World → Type 0) : Type 0 where
  pub on_db : (w : World) (db : Db) → P w → P (record w { db = db })
  pub on_member :
      (w : World) (k : ℕ) (c : Connection) (msg : Message)
      → lookup k w.connections ≡ some c
      → P w
      → P (called (send_if_connected msg) k c w)

-- And so does a reply to this client.
pub record CanReply (id : ℕ) (P : World → Type 0) : Type 0 where
  pub on_reply :
      (w : World) (c : Connection) (msg : Message)
      → lookup id w.connections ≡ some c
      → P w
      → P (called (send_message msg) id c w)

-- One call behind another.
pub then-Ensures :
    (P R Q : World → Type 0) {A B : Type 0} (m : M A) (f : A → M B)
    → Ensures P R m
    → ((a : A) → Ensures R Q (f a))
    → Ensures P Q (m >>= f)
unfolding Ensures
then-Ensures P R Q {A = A} {B = B} m f p q w h = go (m w) (p w h)
  where
    go :
        (r : Result (A × World))
        → Post R r
        → Post Q (elim r as (λ _. Result (B × World)) [ throw e ↦ throw e | ok (a, w') ↦ f a w' ])
    go (throw e) s = tt
    go (ok (a, w')) s = q a w' s

module _ (P Q : World → Type 0) where
  pub bind-Ensures :
      {A B : Type 0} (m : M A) (f : A → M B)
      → Ensures P P m
      → ((a : A) → Ensures P Q (f a))
      → Ensures P Q (m >>= f)
  bind-Ensures m f p q = then-Ensures P P Q m f p q

  pub if-Ensures :
      {A : Type 0} (b : Bool) (m k : M A)
      → Ensures P Q m
      → Ensures P Q k
      → Ensures P Q (if b then m else k)
  unfolding Ensures
  if-Ensures true m k p q = p
  if-Ensures false m k p q = q

  pub on_option-Ensures :
      {A B : Type 0} (o : Option A) (m : M B) (f : A → M B)
      → Ensures P Q m
      → ((a : A) → Ensures P Q (f a))
      → Ensures P Q (on_option o m f)
  unfolding on_option Ensures
  on_option-Ensures none m f p q = p
  on_option-Ensures (some a) m f p q = q a

  pub on_connection-Ensures :
      (id : ℕ) (f : Connection → PollRegistry → Connection × PollRegistry)
      → ((w : World) (c : Connection)
          → lookup id w.connections ≡ some c
          → P w
          → Q (called f id c w))
      → Ensures P Q (on_connection id f)
  unfolding on_connection Ensures
  on_connection-Ensures id f q w h = elim (Option-cases (lookup id w.connections)) [
    | inl gone ↦ rw (gone, on_connection) tt
    | inr (c, e) ↦ rw (e, on_connection) (q w c e h)
  ]

  pub weaker-Ensures :
      {A : Type 0} (m : M A) → ((w : World) → P w → Q w) → Ensures P P m → Ensures P Q m
  unfolding Ensures
  weaker-Ensures {A = A} m q p w h = go (m w) (p w h)
    where
      go : (r : Result (A × World)) → Post P r → Post Q r
      go (throw e) s = tt
      go (ok (a, w')) s = q w' s

module _ (P : World → Type 0) where
  pub pure-Ensures : {A : Type 0} (a : A) → Ensures P P (pure a)
  unfolding Ensures
  pure-Ensures a w h = h

  pub lift-Ensures : {A : Type 0} (r : Result A) → Ensures P P (lift r)
  unfolding Ensures
  lift-Ensures (throw e) w h = tt
  lift-Ensures (ok a) w h = h

  pub get_db-Ensures : Ensures P P get_db
  unfolding Ensures
  get_db-Ensures w h = h

  pub conn_info-Ensures : (id : ℕ) → Ensures P P (conn_info id)
  unfolding Ensures
  conn_info-Ensures id w h = lift-Ensures _ w h

  pub channel_at-Ensures : (name : Str) → Ensures P P (channel_at name)
  unfolding Ensures
  channel_at-Ensures name w h = lift-Ensures _ w h

  pub put_db-Ensures : (db : Db) → IsStable P → Ensures P P (put_db db)
  unfolding Ensures
  put_db-Ensures db s w h = s.on_db w db h

  pub modify_db-Ensures : (f : Db → Db) → IsStable P → Ensures P P (modify_db f)
  unfolding Ensures
  modify_db-Ensures f s w h = s.on_db w (f w.db) h

  pub reply-Ensures : (id : ℕ) (msg : Message) → CanReply id P → Ensures P P (reply id msg)
  unfolding reply
  reply-Ensures id msg r =
      on_connection-Ensures P P id (send_message msg) (λ w c e h. r.on_reply w c msg e h)

  pub send_to_members-sends :
      (ms : Map ℕ Member) (msg : Message)
      → ((w : World) (k : ℕ) (c : Connection)
          → lookup k w.connections ≡ some c
          → P w
          → P (called (send_if_connected msg) k c w))
      → Ensures P P (send_to_members ms msg)
  unfolding send_to_members
  send_to_members-sends [] msg s = pure-Ensures tt
  send_to_members-sends ((k, m) ∷ ms) msg s =
      bind-Ensures P P _ _
        (on_connection-Ensures P P m.conn (send_if_connected msg) (λ w c e h. s w m.conn c e h))
        (λ _. send_to_members-sends ms msg s)

  pub send_to_members-Ensures :
      (ms : Map ℕ Member) (msg : Message) → IsStable P → Ensures P P (send_to_members ms msg)
  send_to_members-Ensures ms msg s =
      send_to_members-sends ms msg (λ w k c e h. s.on_member w k c msg e h)

pub ruleset calls = (
  bind-Ensures, if-Ensures, on_option-Ensures, pure-Ensures, lift-Ensures, get_db-Ensures,
  put_db-Ensures, modify_db-Ensures, conn_info-Ensures, channel_at-Ensures, reply-Ensures,
  send_to_members-Ensures,
)

module _ (P : World → Type 0) (s : IsStable P) where
  pub announce-Ensures : (name : Str) (o : Option ℕ) → Ensures P P (announce name o)
  unfolding announce
  announce-Ensures name none = pure-Ensures P tt
  announce-Ensures name (some p) = search calls depth 9

  pub quit_chan-Ensures : (id : ℕ) (name : Str) → Ensures P P (quit_chan id name)
  unfolding quit_chan
  quit_chan-Ensures id name = search (calls, announce-Ensures) depth 9
