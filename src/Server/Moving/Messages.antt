-- ===== src/Server/Moving/Messages.antt =====
-- `server::handle_message` of server/main.cpp refines the steps of the rooms.
use mathlib.Core.Path.{subst}
use irc_chat.Base.{nat_eq, text_eq}
use irc_chat.Base.{ℕ, ◌≡◌, refl, sym, ap, ◌∙◌, true, List, some, Str, arith, lookup, ok}
use irc_chat.Db.Invariant.{DbInv}
use irc_chat.Db.{Db, ConnInfo}
use irc_chat.Message.{Command}
use irc_chat.Server.Dispatch.{handle_command}
use irc_chat.Server.Handlers.{handle_ping}
use irc_chat.Server.Keeping.{Post, Ensures, pure-Ensures}
use irc_chat.Server.Moving.Calls.{Of, reply-Of}
use irc_chat.Server.Moving.{room_of, Move, stays}
use irc_chat.Server.World.{World}
use irc_chat.Server.Moving.Commands.{
  At, Moved, At-Same, stay, begin, nick-Same, user-Same, mode-Same, whois-Same, privmsg-Same,
  join-Moves, quit-Moves,
}
use irc_chat.Server.Keeping.Commands.{with_parsed-Ensures}
use irc_chat.Server.Dispatch.{handle_message}
use irc_chat.Message.Parse.{parse}
use irc_chat.Server.World.{bind-ok, conn_info_ok, conn_info}
use irc_chat.Server.Moving.Kick.{rest, kick-Moves}
use irc_chat.Server.Moving.{Shows, room_of-Shows}
use irc_chat.Server.Invariant.{WorldInv, IsSafe}
use irc_chat.Base.{contains, contains-lookup, Option-cases, inl, inr}
use irc_chat.Server.Safety.Messages.{handle_message-IsSafe}

module _ (db : Db) (h : DbInv db) (id : ℕ) where
  pub command-Moves :
      (info : ConnInfo) (cmd : Command) (params : List Str)
      → Ensures (Of (At db id)) (Of (Moved db id)) (handle_command id info cmd params)
  unfolding handle_command handle_ping
  command-Moves info Command.pong params = rest db h id _ (pure-Ensures (Of (At db id)) tt)
  command-Moves info Command.ping params = rest db h id _ (reply-Of (At db id) id _)
  command-Moves info Command.nick params =
      begin db id (Of (Moved db id)) _ (stay db id _ (nick-Same db id info params))
  command-Moves info Command.user params =
      begin db id (Of (Moved db id)) _ (stay db id _ (user-Same db id info params))
  command-Moves info Command.mode params =
      begin db id (Of (Moved db id)) _ (stay db id _ (mode-Same db id info params))
  command-Moves info Command.whois params =
      begin db id (Of (Moved db id)) _ (stay db id _ (whois-Same db id info params))
  command-Moves info Command.privmsg params =
      begin db id (Of (Moved db id)) _ (stay db id _ (privmsg-Same db id info params))
  command-Moves info Command.join params =
      begin db id (Of (Moved db id)) _ (join-Moves db id info params)
  command-Moves info Command.quit params =
      begin db id (Of (Moved db id)) _ (quit-Moves db id info params)
  command-Moves info Command.kick params = kick-Moves db h id info params

  pub handle_message-Moved :
      (info : ConnInfo) (text : Str)
      → lookup id db.connections ≡ some info
      → Ensures (Of (At db id)) (Of (Moved db id)) (handle_message id text)
  unfolding handle_message Ensures
  handle_message-Moved info text there w e =
      subst (Post (Of (Moved db id)))
        (sym (
          bind-ok (conn_info id) _
            (conn_info_ok id w info (ap (λ d. lookup id d.connections) e ∙ there))))
        (with_parsed-Ensures (Of (At db id)) (Of (Moved db id)) id info
          (λ v q. stays (At-Same db id v.db q)) (command-Moves info) (parse text) w e)

-- Given the invariant of the server and a client of the tables: where `handle_message` returns, for
-- whatever bytes, the channel of every client changes by one step at most, namely nobody moves, this
-- client joins a channel with an allowed name, it leaves its channel, or, being an operator there, it
-- kicks a client out of the channel that this client is in; and afterwards both tables show the same
-- rooms, one channel at most for each client.
pub handle_message-refines :
    (id : ℕ) (text : Str) (w w' : World)
    → WorldInv w
    → contains id w.db.connections ≡ true
    → handle_message id text w ≡ ok (tt, w')
    → Move id w.db (room_of w.db) (room_of w'.db) × Shows (room_of w'.db) w'.db
unfolding Ensures
handle_message-refines id text w w' h live run = elim (Option-cases (lookup id w.db.connections)) [
  | inl absent ↦ absurd (ground (arith, contains-lookup id w.db.connections, absent, live))
  | inr (info, there) ↦
      let h' = subst IsSafe run (handle_message-IsSafe w h id live text) in
      (
        subst (Post (Of (Moved w.db id))) run
            (handle_message-Moved w.db h.db_inv id info text there w refl),
        room_of-Shows w'.db h'.db_inv.agree,
      )
]
