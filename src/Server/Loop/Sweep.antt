-- ===== src/Server/Loop/Sweep.antt =====
-- The invariant of the server under the sweep of `server::run` in server/main.cpp.
use mathlib.Core.Path.{subst}
use irc_chat.Base.{nat_eq, text_eq}
use irc_chat.Base.{
  ℕ, ◌≡◌, refl, sym, ap, ◌∙◌, ◌==◌, ==_iff, false, List, [], ◌∷◌, Option, none, some, Str, arith,
  inl, inr, lookup, erase, contains-lookup, contains-erase, contains-update, erase-update,
  lookup-update, ◌++◌, codes, if◌then◌else◌, Option-cases, Bool-cases, ok,
}
use irc_chat.Db.Clients.{removed-DbInv}
use irc_chat.Db.Invariant.{DbInv}
use irc_chat.Db.Preserve.{leave_connections}
use irc_chat.Db.{ConnInfo, remove_connection, write_info, clear_joined}
use irc_chat.Server.Invariant.{WorldInv, SameClients-WorldInv}
use irc_chat.Server.Leaving.{quit_chan_ok, joined_nick}
use irc_chat.Server.Loop.{quit_swept, sweep_ended, sweep_one, sweep_all, ids_of, sweep}
use irc_chat.Server.Safety.Members.{quit_clear-WorldInv, member_of_joined, cleared-WorldInv}
use irc_chat.Server.Safety.Talk.{send_ok, joined_found}
use irc_chat.Server.World.{
  World, bind-ok, conn_info, conn_info_ok, channel_at, channel_at_ok, value, value_ok, privmsg_from,
  send_to_members, quit_chan,
}

-- A client that has ended, and its connection, are forgotten; `w'` is the state behind `quit_swept`.
module _ (w : World) (h : WorldInv w) (id : ℕ) (info : ConnInfo)
    (there : lookup id w.db.connections ≡ some info) where
  -- Once the client is in no channel, in a table that may still say where it was.
  forgotten :
      (w' : World)
      → WorldInv (record w' { db = write_info id clear_joined w'.db })
      → (info' : ConnInfo) → lookup id w'.db.connections ≡ some info'
      → WorldInv
          (record w' { db = remove_connection id w'.db; connections = erase id w'.connections })
  unfolding remove_connection
  forgotten w' h' info' known = record {
    db_inv =
        subst DbInv
          (ap (λ c. record w'.db { connections = c })
            (erase-update id clear_joined w'.db.connections))
          (unfold remove_connection in
            removed-DbInv (write_info id clear_joined w'.db) h'.db_inv id (clear_joined info')
              (lookup-update id id clear_joined w'.db.connections
                ∙ ground (arith, known, ==_iff id id))
              refl);
    live = λ i.
        contains-erase id i w'.connections
        ∙ ap (λ b. if id == i then false else b)
            (h'.live i ∙ contains-update id i clear_joined w'.db.connections)
        ∙ sym (contains-erase id i w'.db.connections);
    fresh = λ i le. contains-erase id i w'.connections ∙ ground (arith, h'.fresh i);
  }

  quit_swept_ok :
      (o : Option Str)
      → info.joined_channel ≡ o
      → (w' : World) × (quit_swept id info o w ≡ ok (tt, w'))
        × WorldInv (record w' { db = write_info id clear_joined w'.db })
        × ((info' : ConnInfo) × (lookup id w'.db.connections ≡ some info'))
  unfolding quit_swept
  quit_swept_ok none nowhere = (w, refl, cleared-WorldInv w h id info there nowhere, (info, there))
  quit_swept_ok (some name) j =
      let (ch, e) = joined_found w h id info there name j in
      let (_, nick, at, has_nick) =
        joined_nick w.db name id h.db_inv
          (sym (h.db_inv.agree name id) ∙ member_of_joined w h id info there name j) in
      let nick_here : info.nick ≡ some nick = ground (arith, at, there, has_nick) in
      let msg = privmsg_from nick (name ∷ (nick ++ codes " quit") ∷ []) in
      let (w₁, sent, d₁, s₁) = send_ok w h id info there name ch msg e in
      let h₁ = SameClients-WorldInv h d₁ s₁ in
      let there₁ : lookup id w₁.db.connections ≡ some info =
        ap (λ x. lookup id x.connections) d₁ ∙ there in
      let (w₂, run, d₂, s₂) = quit_chan_ok w₁ h₁ id name in
      (
        w₂,
        bind-ok (channel_at name) _ (channel_at_ok name w ch e)
            ∙ bind-ok (value info.nick) _ (value_ok info.nick nick w nick_here)
            ∙ bind-ok (send_to_members ch.members msg) _ sent
            ∙ bind-ok (quit_chan id name) _ run,
        quit_clear-WorldInv w₁ h₁ id info there₁ name w₂
            (member_of_joined w₁ h₁ id info there₁ name j) d₂ s₂,
        (
          info,
          ap (lookup id) (ap (λ x. x.connections) d₂ ∙ leave_connections w₁.db id name) ∙ there₁,
        ),
      )

  -- The sweep of a connection never throws.
  sweep_ended_ok : (w' : World) × (sweep_ended id w ≡ ok (tt, w')) × WorldInv w'
  unfolding sweep_ended
  sweep_ended_ok =
      let (w', run, h', found) = quit_swept_ok info.joined_channel refl in
      (
        _,
        bind-ok (conn_info id) _ (conn_info_ok id w info there)
            ∙ bind-ok (quit_swept id info info.joined_channel) _ run,
        forgotten w' h' found.0 found.1,
      )

sweep_one_ok :
    (w : World)
    → WorldInv w
    → (id : ℕ) → (w' : World) × (sweep_one id w ≡ ok (tt, w')) × WorldInv w'
unfolding sweep_one
sweep_one_ok w h id = elim (Option-cases (lookup id w.connections)) [
  | inl gone ↦ (w, rw (gone, sweep_one) refl, h)
  | inr (c, e) ↦ elim (Bool-cases c.connected) [
    | inl up ↦ (w, rw (e, up, sweep_one) refl, h)
    | inr down ↦ elim (Option-cases (lookup id w.db.connections)) [
      | inl absent ↦ absurd (
          ground (
            arith,
            contains-lookup id w.connections,
            contains-lookup id w.db.connections,
            h.live id,
            e,
            absent,
          ))
      | inr (info, there) ↦
          let (w', run, h') = sweep_ended_ok w h id info there in
          (w', rw (e, down, sweep_one) run, h')
    ]
  ]
]

sweep_all_ok :
    (ids : List ℕ) (w : World)
    → WorldInv w
    → (w' : World) × (sweep_all ids w ≡ ok (tt, w')) × WorldInv w'
unfolding sweep_all
sweep_all_ok [] w h = (w, refl, h)
sweep_all_ok (id ∷ ids) w h =
    let (w₁, run₁, h₁) = sweep_one_ok w h id in
    let (w₂, run₂, h₂) = sweep_all_ok ids w₁ h₁ in (w₂, bind-ok (sweep_one id) _ run₁ ∙ run₂, h₂)

-- Given the invariant, the sweep of the connections that have ended returns, never throwing, and
-- keeps the invariant.
pub sweep-WorldInv : (w : World) → WorldInv w → (w' : World) × (sweep w ≡ ok (tt, w')) × WorldInv w'
unfolding sweep
sweep-WorldInv w h = sweep_all_ok (ids_of w.connections) w h
