-- ===== src/Server/Moving/Kick.antt =====
-- KICK of `server::handle_message` in server/main.cpp as a step of the rooms, from the tables that its
-- guards read.
use mathlib.Core.Path.{subst}
use irc_chat.Base.{nat_eq, text_eq}
use irc_chat.Base.{
  ℕ, ◌≡◌, refl, sym, ap, ◌∙◌, true, List, Option, some, Str, arith, if◌then◌else◌, AllIn-lookup, ok,
}
use irc_chat.Channel.{Channel, Member, get_member}
use irc_chat.Db.Invariant.{DbInv, InfoInv, find_nick-some, is_some_of-eq}
use irc_chat.Db.Membership.{has_joined}
use irc_chat.Db.Preserve.{leave_connections, leave_removed}
use irc_chat.Db.{
  Db, ConnInfo, write_info, leave_chan, clear_joined, get_channel, get_conn_info_by_nick,
}
use irc_chat.Message.Replies.{not_on_channel, no_such_nick}
use irc_chat.Server.Handlers.{with_channel, as_operator, kick_out, handle_kick}
use irc_chat.Server.Keeping.{
  Ensures, bind-Ensures, if-Ensures, on_option-Ensures, weaker-Ensures, lift-Ensures,
}
use irc_chat.Server.Moving.Calls.{
  Of, reply-Of, if-knows, on_option-knows, lift-knows, modify_db-writes, quit_chan-then,
}
use irc_chat.Server.Moving.{
  room_of, is_operator_in, stays, kicks, room_of-connections, room_of-clear,
}
use irc_chat.Server.World.{M, ◌>>=◌, on_option, param_at, reply, modify_db, quit_chan, get_db}
use irc_chat.Server.Moving.Commands.{At, Same, Moved, At-Same, stay}

module _ (db : Db) (h : DbInv db) (id : ℕ) where
  pub rest :
      (m : M (Unit {0}))
      → Ensures (Of (At db id)) (Of (At db id)) m
      → Ensures (Of (At db id)) (Of (Moved db id)) m
  rest m q =
      weaker-Ensures (Of (At db id)) (Of (Moved db id)) m (λ w e. stays (At-Same db id w.db e)) q

  -- A look into these tables.
  look-At :
      {B : Type 0} (find : Db → Option B) (m : M (Unit {0})) (f : B → M (Unit {0}))
      → Ensures (Of (At db id)) (Of (Moved db id)) m
      → ((b : B) → find db ≡ some b → Ensures (Of (At db id)) (Of (Moved db id)) (f b))
      → Ensures (Of (At db id)) (Of (Moved db id)) (get_db >>= λ d. on_option (find d) m f)
  unfolding Ensures
  look-At find m f p q w e =
      on_option-knows (Of (At db id)) (Of (Moved db id)) (find w.db) m f p
        (λ b found. q b (ap find (sym e) ∙ found)) w e

  kicked-room : (name : Str) (k : ℕ) → (leave_chan k name db).1 ≡ true → room_of db k ≡ some name
  unfolding room_of has_joined
  kicked-room name k e =
      is_some_of-eq name (room_of db k)
        (ground (arith, sym (h.agree name k) ∙ sym (leave_removed db k name) ∙ e))

  is_operator-found :
      (name : Str) (ch : Channel) (m : Member)
      → get_channel name db ≡ some ch
      → get_member id ch ≡ ok m
      → m.is_operator ≡ true
      → is_operator_in db name id ≡ true
  unfolding is_operator_in get_channel get_member
  is_operator-found name ch m e q o = ground (arith, e, q, o)

  found_own :
      (nick : Str) (found : ℕ × ConnInfo)
      → get_conn_info_by_nick nick db ≡ some found
      → found.1.id ≡ found.0
  found_own nick (k, target) e =
      let (at, _) = find_nick-some nick db.connections k target h.distinct e in
      (AllIn-lookup InfoInv k target db.connections h.infos at).own_id

  kicked-Moves :
      (name : Str) (k : ℕ)
      → is_operator_in db name id ≡ true
      → Ensures (Of (At db id)) (Of (Moved db id)) (
          quit_chan k name >>= λ removed.
          if removed then modify_db (write_info k clear_joined) else reply id not_on_channel)
  kicked-Moves name k op =
      quit_chan-then (At db id) (Same db id) (Of (Moved db id)) k name _
        (λ d e i.
          room_of-connections (leave_chan k name d).0 d i (leave_connections d k name)
          ∙ At-Same db id d e i)
        (λ d e.
          if-knows (Of (Same db id)) (Of (Moved db id)) (leave_chan k name d).1 _ _
            (λ removed. modify_db-writes (Of (Same db id)) (Of (Moved db id)) _ (λ w s.
              kicks name k op (kicked-room name k (rw (← e) removed))
                (λ i. room_of-clear w.db k clear_joined i (λ x. refl) ∙ ground (arith, s i))))
            (stay db id _ (reply-Of (Same db id) id not_on_channel)))

  kick_out-Moves :
      (params : List Str) (name : Str) (ch : Channel)
      → is_operator_in db name id ≡ true
      → Ensures (Of (At db id)) (Of (Moved db id)) (kick_out id params name ch)
  unfolding kick_out
  kick_out-Moves params name ch op =
      bind-Ensures (Of (At db id)) (Of (Moved db id)) (param_at params 1) _
        (lift-Ensures (Of (At db id)) _)
        λ nick.
          look-At (get_conn_info_by_nick nick) _ _ (rest _ (reply-Of (At db id) id no_such_nick))
            λ kicked found.
              let own = found_own nick kicked found in
              subst
                (λ k. Ensures (Of (At db id)) (Of (Moved db id)) (
                  quit_chan k name >>= λ removed.
                  if removed
                  then modify_db (write_info kicked.0 clear_joined)
                  else reply id not_on_channel))
                (sym own) (kicked-Moves name kicked.0 op)

  pub kick-Moves :
      (info : ConnInfo) (params : List Str)
      → Ensures (Of (At db id)) (Of (Moved db id)) (handle_kick id info params)
  unfolding handle_kick with_channel as_operator
  kick-Moves info params =
      if-Ensures (Of (At db id)) (Of (Moved db id)) _ _ _ (rest _ (reply-Of (At db id) id _)) (
        bind-Ensures (Of (At db id)) (Of (Moved db id)) (param_at params 0) _
          (lift-Ensures (Of (At db id)) _)
          λ param.
            on_option-Ensures (Of (At db id)) (Of (Moved db id)) _ _ _
              (rest _ (reply-Of (At db id) id not_on_channel))
              λ name.
                look-At (get_channel name) _ _ (rest _ (reply-Of (At db id) id not_on_channel))
                  λ ch there.
                    lift-knows (Of (At db id)) (Of (Moved db id)) (get_member id ch) _ λ m member.
                      if-knows (Of (At db id)) (Of (Moved db id)) m.is_operator _ _
                        (λ op.
                          kick_out-Moves params name ch
                            (is_operator-found name ch m there member op))
                        (rest _ (reply-Of (At db id) id _)))
