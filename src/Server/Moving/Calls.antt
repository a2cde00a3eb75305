-- ===== src/Server/Moving/Calls.antt =====
-- The calls of server/main.cpp under a property of the tables alone, and with what a guard of theirs
-- or a read of the tables tells the code behind it.
use irc_chat.Base.{
  ℕ, ◌≡◌, refl, true, false, Bool, Option, none, some, Str, Map, if◌then◌else◌, Result, ok, throw,
}
use irc_chat.Channel.{Member}
use irc_chat.Db.{Db, leave_chan}
use irc_chat.Message.{Message}
use irc_chat.Server.Keeping.{
  Post, Ensures, CanReply, bind-Ensures, if-Ensures, on_option-Ensures, pure-Ensures, lift-Ensures,
  get_db-Ensures, conn_info-Ensures, channel_at-Ensures, reply-Ensures, send_to_members-sends,
}
use irc_chat.Server.World.{
  World, M, ◌>>=◌, lift, on_option, reply, send_to_members, announce, quit_chan, get_db, put_db,
  modify_db,
}

-- Calls that do not write the tables.
module _ (p : Db → Type 0) where
  abbrev pub Of : World → Type 0
  Of w = p w.db

  pub reply-Of : (id : ℕ) (msg : Message) → Ensures Of Of (reply id msg)
  reply-Of id msg = reply-Ensures Of id msg (record { on_reply = λ w c m e h. h })

  pub send_to_members-Of :
      (ms : Map ℕ Member) (msg : Message) → Ensures Of Of (send_to_members ms msg)
  send_to_members-Of ms msg = send_to_members-sends Of ms msg (λ w k c e h. h)

pub ruleset reads = (
  bind-Ensures, if-Ensures, on_option-Ensures, pure-Ensures, lift-Ensures, get_db-Ensures,
  conn_info-Ensures, channel_at-Ensures, reply-Of, send_to_members-Of,
)

module _ (p : Db → Type 0) where
  pub announce-Of : (name : Str) (o : Option ℕ) → Ensures (Of p) (Of p) (announce name o)
  unfolding announce
  announce-Of name none = pure-Ensures (Of p) tt
  announce-Of name (some k) = search reads depth 9

-- What the code behind a guard or a read may take as true.
module _ (P Q : World → Type 0) {A : Type 0} where
  pub if-knows :
      (b : Bool) (m k : M A)
      → (b ≡ true → Ensures P Q m)
      → Ensures P Q k
      → Ensures P Q (if b then m else k)
  unfolding Ensures
  if-knows true m k q r = q refl
  if-knows false m k q r = r

  pub on_option-knows :
      {B : Type 0} (o : Option B) (m : M A) (f : B → M A)
      → Ensures P Q m
      → ((b : B) → o ≡ some b → Ensures P Q (f b))
      → Ensures P Q (on_option o m f)
  unfolding Ensures on_option
  on_option-knows none m f q r = q
  on_option-knows (some b) m f q r = r b refl

  pub lift-knows :
      {B : Type 0} (r : Result B) (f : B → M A)
      → ((b : B) → r ≡ ok b → Ensures P Q (f b))
      → Ensures P Q (lift r >>= f)
  unfolding Ensures
  lift-knows (throw e) f q w h = tt
  lift-knows (ok b) f q w h = q b refl w h

  pub get_db-knows :
      (f : Db → M A)
      → ((db : Db) → Ensures (λ w. P w × (w.db ≡ db)) Q (f db))
      → Ensures P Q (get_db >>= f)
  unfolding Ensures
  get_db-knows f q w h = q w.db w (h, refl)

-- The writes.
module _ (P Q : World → Type 0) where
  pub put_db-writes :
      (db : Db) → ((w : World) → P w → Q (record w { db = db })) → Ensures P Q (put_db db)
  unfolding Ensures
  put_db-writes db q = q

  pub modify_db-writes :
      (f : Db → Db) → ((w : World) → P w → Q (record w { db = f w.db })) → Ensures P Q (modify_db f)
  unfolding Ensures
  modify_db-writes f q = q

-- `quit_chan` with what follows, which is told whether a member was removed.
module _ (p q : Db → Type 0) (Q : World → Type 0) {A : Type 0} where
  pub quit_chan-then :
      (id : ℕ) (name : Str) (f : Bool → M A)
      → ((db : Db) → p db → q (leave_chan id name db).0)
      → ((db : Db) → p db → Ensures (Of q) Q (f (leave_chan id name db).1))
      → Ensures (Of p) Q (quit_chan id name >>= f)
  unfolding Ensures quit_chan
  quit_chan-then id name f left rest w h = go _ (
      announce-Of q name (leave_chan id name w.db).2 (record w { db = (leave_chan id name w.db).0 })
        (left w.db h))
    where
      go :
          (r : Result (Unit {0} × World))
          → Post (Of q) r
          → Post Q
              (elim (elim r as (λ _. Result (Bool × World)) [
                | throw e ↦ throw e
                | ok (a, w') ↦ ok ((leave_chan id name w.db).1, w')
              ])
                as (λ _. Result (A × World)) [ throw e ↦ throw e | ok (a, w') ↦ f a w' ])
      go (throw e) s = tt
      go (ok (a, w')) s = rest w.db h w' s
