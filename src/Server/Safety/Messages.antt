-- ===== src/Server/Safety/Messages.antt =====
-- `server::handle_message` of server/main.cpp as a whole.
use mathlib.Core.Path.{subst}
use irc_chat.Base.{nat_eq, text_eq}
use irc_chat.Base.{
  ℕ, ◌≡◌, refl, ◌∙◌, ap, inl, inr, true, false, some, Str, List, arith, lookup, contains,
  AllIn-lookup, Bool-cases, bad_variant_access, Option-cases, contains-lookup, Result, ok, throw,
}
use irc_chat.Db.Invariant.{InfoInv, StateInv, is_set}
use irc_chat.Db.{ConnInfo, ConnState, init, registered_nick, registered_user}
use irc_chat.Message.Malformed.{parse-throws}
use irc_chat.Message.Parse.{parse}
use irc_chat.Message.{Command, CommandOrReply, command, numeric_reply, Message}
use irc_chat.Server.Dispatch.{is_expected, handle_command, dispatch, with_parsed, handle_message}
use irc_chat.Server.Invariant.{WorldInv, IsSafe}
use irc_chat.Server.Safety.Common.{IsSafe-by}
use irc_chat.Server.Safety.Register.{handle_nick-IsSafe, handle_user-IsSafe, handle_ping-IsSafe}
use irc_chat.Server.Safety.Members.{handle_quit-IsSafe}
use irc_chat.Server.Safety.Join.{handle_join-IsSafe}
use irc_chat.Server.Safety.Talk.{handle_privmsg-IsSafe, handle_whois-IsSafe}
use irc_chat.Server.Safety.Moderate.{handle_mode-IsSafe, handle_kick-IsSafe}
use irc_chat.Server.World.{World, bind-ok, conn_info, conn_info_ok}

-- A command that the guards let through finds what it relies on.
module _ (w : World) (h : WorldInv w) (id : ℕ) (info : ConnInfo)
    (there : lookup id w.db.connections ≡ some info) where
  by_state : (s : ConnState) → info.state ≡ s → StateInv s info
  by_state s e =
      subst (λ x. StateInv x info) e
        (AllIn-lookup InfoInv id info w.db.connections h.db_inv.infos there).by_state

  registered-IsSafe :
      (cmd : Command) (params : List Str)
      → info.state ≡ registered_user
      → is_set info.nick ≡ true
      → IsSafe (handle_command id info cmd params w)
  unfolding handle_command
  registered-IsSafe Command.pong params user n = h
  registered-IsSafe Command.nick params user n = handle_nick-IsSafe w h id info there params
  registered-IsSafe Command.user params user n = handle_user-IsSafe w h id info there params n
  registered-IsSafe Command.ping params user n = handle_ping-IsSafe w h id info there
  registered-IsSafe Command.join params user n = handle_join-IsSafe w h id info there params user n
  registered-IsSafe Command.mode params user n = handle_mode-IsSafe w h id info there params
  registered-IsSafe Command.whois params user n = handle_whois-IsSafe w h id info there params
  registered-IsSafe Command.privmsg params user n = handle_privmsg-IsSafe w h id info there params n
  registered-IsSafe Command.quit params user n = handle_quit-IsSafe w h id info there params n
  registered-IsSafe Command.kick params user n = handle_kick-IsSafe w h id info there params

  -- The command that the guards let through in a state before the registration is done.
  opening-IsSafe :
      (s : ConnState) (cmd : Command) (params : List Str)
      → info.state ≡ s
      → is_expected s cmd ≡ true
      → IsSafe (handle_command id info cmd params w)
  unfolding handle_command is_expected
  opening-IsSafe init Command.nick params e q = handle_nick-IsSafe w h id info there params
  opening-IsSafe init _ params e q = cc
  opening-IsSafe registered_nick Command.user params e q =
      handle_user-IsSafe w h id info there params (by_state registered_nick e).1
  opening-IsSafe registered_nick _ params e q = cc
  opening-IsSafe registered_user cmd params e q =
      registered-IsSafe cmd params e (by_state registered_user e).0

  dispatch-IsSafe : (m : Message) → IsSafe (dispatch id info m w)
  unfolding dispatch
  dispatch-IsSafe m = go m.command_or_reply refl
    where
      go : (c : CommandOrReply) → m.command_or_reply ≡ c → IsSafe (dispatch id info m w)
      go (numeric_reply n) e = rw (e, dispatch) tt
      go (command cmd) e = elim (Bool-cases (is_expected info.state cmd)) [
        | inl expected ↦
            rw (e, expected, dispatch) (opening-IsSafe info.state cmd m.params refl expected)
        | inr other ↦ rw (e, other, dispatch) h
      ]

-- Given the invariant of the server and a registered client, for whatever bytes come in:
-- `handle_message` returns with the invariant kept, or throws `out_of_range` or
-- `bad_variant_access`; it throws nothing else, so it never reads through a null pointer or an
-- empty `optional`.
pub handle_message-IsSafe :
    (w : World)
    → WorldInv w
    → (id : ℕ) → contains id w.db.connections ≡ true
    → (s : Str) → IsSafe (handle_message id s w)
unfolding handle_message with_parsed
handle_message-IsSafe w h id known s = elim (Option-cases (lookup id w.db.connections)) [
  | inl absent ↦ absurd (ground (arith, contains-lookup id w.db.connections, absent, known))
  | inr (info, there) ↦
      IsSafe-by _ (bind-ok (conn_info id) _ (conn_info_ok id w info there))
        (read info there (parse s) refl)
]
  where
    read :
        (info : ConnInfo) (there : lookup id w.db.connections ≡ some info) (r : Result Message)
        → parse s ≡ r
        → IsSafe (with_parsed id info r w)
    read info there (ok m) e = dispatch-IsSafe w h id info there m
    read info there (throw x) e = elim (parse-throws s x e) [
      | inl (_, q) ↦ rw q tt
      | inr (msg, q) ↦ rw q h
    ]

-- What one line does, once its bytes and its sender are known.
module _ (w : World) (id : ℕ) (info : ConnInfo) (there : lookup id w.db.connections ≡ some info)
    (s : Str) (m : Message) (parsed : parse s ≡ ok m) where
  to-dispatch : handle_message id s w ≡ dispatch id info m w
  unfolding handle_message with_parsed
  to-dispatch =
      bind-ok (conn_info id) _ (conn_info_ok id w info there)
      ∙ ap (λ r. with_parsed id info r w) parsed

  -- A line that parses to a numeric reply, from any client of the tables in any state, makes
  -- `handle_message` throw `bad_variant_access`.
  pub numeric-throws :
      (n : ℕ)
      → m.command_or_reply ≡ numeric_reply n
      → handle_message id s w ≡ throw bad_variant_access
  unfolding dispatch
  numeric-throws n e = to-dispatch ∙ rw (e, dispatch)

  -- A line that parses to a command which the registration state of its sender, a client of the
  -- tables, does not allow leaves the server as it is.
  unexpected-ignored :
      (cmd : Command)
      → m.command_or_reply ≡ command cmd
      → is_expected info.state cmd ≡ false
      → handle_message id s w ≡ ok (tt, w)
  unfolding dispatch
  unexpected-ignored cmd e other = to-dispatch ∙ rw (e, other, dispatch)
