-- ===== src/Server/Safety/Members.antt =====
-- The invariant under leaving a channel and QUIT, server/main.cpp.
use mathlib.Core.Path.{subst}
use irc_chat.Base.{nat_eq, text_eq}
use irc_chat.Base.{
  ℕ, ◌≡◌, refl, sym, ap, ◌∙◌, true, Option, none, some, Str, List, [], ◌∷◌, arith, lookup, contains,
  contains-update, AllIn-lookup, ok,
}
use irc_chat.Connection.{disconnect}
use irc_chat.Db.Invariant.{DbInv, InfoInv, is_set, is_some_of_self}
use irc_chat.Db.Membership.{in_channel, has_joined}
use irc_chat.Db.Preserve.{leave_connections, StateInv-clear}
use irc_chat.Db.Steps.{left-DbInv, info-DbInv}
use irc_chat.Db.{ConnInfo, leave_chan, write_info, clear_joined}
use irc_chat.Server.Handlers.{quit_joined, leave_joined, quit_message, handle_quit}
use irc_chat.Server.Invariant.{
  WorldInv, SameClients, IsSafe, on_connection_ok, SameClients-WorldInv,
}
use irc_chat.Server.Leaving.{quit_chan_ok}
use irc_chat.Server.Safety.Common.{IsSafe-by, known-contains, write-WorldInv}
use irc_chat.Server.Safety.Talk.{is_set-some, send_ok, joined_found}
use irc_chat.Server.World.{
  World, ◌>>=◌, ◌>>◌, bind-ok, deref, deref_ok, privmsg_from, send_to_members, channel_at,
  channel_at_ok, quit_chan, on_connection,
}

module _ (w : World) (h : WorldInv w) (id : ℕ) (info : ConnInfo)
    (there : lookup id w.db.connections ≡ some info) where
  -- `quit_chan` and then the write that forgets the channel.
  pub quit_clear-WorldInv :
      (name : Str) (w' : World)
      → in_channel w.db name id ≡ true
      → w'.db ≡ (leave_chan id name w.db).0
      → SameClients w w'
      → WorldInv (record w' { db = write_info id clear_joined w'.db })
  quit_clear-WorldInv name w' member d s = record {
    db_inv =
        subst (λ x. DbInv (write_info id clear_joined x)) (sym d)
          (left-DbInv w.db h.db_inv id info there name member);
    live = λ i.
        s.same_live i
        ∙ h.live i
        ∙ sym (ap (contains i) (ap (λ x. x.connections) d ∙ leave_connections w.db id name))
        ∙ sym (contains-update id i clear_joined w'.db.connections);
    fresh = λ i le. s.same_live i ∙ h.fresh i (rw (← s.same_count) le);
  }

  pub member_of_joined :
      (name : Str) → info.joined_channel ≡ some name → in_channel w.db name id ≡ true
  member_of_joined name j =
      h.db_inv.agree name id ∙ unfold has_joined in ground (arith, there, j, is_some_of_self name)

  pub cleared-WorldInv :
      info.joined_channel ≡ none → WorldInv (record w { db = write_info id clear_joined w.db })
  cleared-WorldInv nowhere =
      let inv = AllIn-lookup InfoInv id info w.db.connections h.db_inv.infos there in
      write-WorldInv w id clear_joined h (
        info-DbInv w.db h.db_inv id info there clear_joined
          (record { own_id = inv.own_id; by_state = StateInv-clear info.state info inv.by_state })
          refl (sym nowhere))

  -- Behind `if (conn_info.joined_channel) quit_chan(…)`: up to the stale name in the table, the
  -- invariant holds, with the client in no channel.
  pub quit_joined_ok :
      (o : Option Str)
      → info.joined_channel ≡ o
      → (w' : World) × (quit_joined id o w ≡ ok (tt, w'))
        × (w'.db.connections ≡ w.db.connections)
        × WorldInv (record w' { db = write_info id clear_joined w'.db })
  unfolding quit_joined
  quit_joined_ok none nowhere = (w, refl, refl, cleared-WorldInv nowhere)
  quit_joined_ok (some name) j =
      let (w', run, d, s) = quit_chan_ok w h id name in
      (
        w',
        bind-ok (quit_chan id name) _ run,
        ap (λ x. x.connections) d ∙ leave_connections w.db id name,
        quit_clear-WorldInv name w' (member_of_joined name j) d s,
      )

module _ (w : World) (h : WorldInv w) (id : ℕ) (info : ConnInfo)
    (there : lookup id w.db.connections ≡ some info) where
  known : contains id w.db.connections ≡ true
  known = known-contains id w.db info there

  -- The last lines of QUIT.
  hang_up : (w' : World) → WorldInv w' → SameClients w w' → IsSafe (on_connection id disconnect w')
  hang_up w' h' s =
      let (w₂, run, d, t) =
        on_connection_ok id disconnect w' (s.same_live id ∙ h.live id ∙ known) in
      IsSafe-by _ run (SameClients-WorldInv h' d t)

  -- The message to the channel and leaving it, in QUIT.
  leave_joined_ok :
      (nick msg : Str) (o : Option Str)
      → info.joined_channel ≡ o
      → (w' : World) × (leave_joined id nick msg o w ≡ ok (tt, w')) × WorldInv w' × SameClients w w'
  unfolding leave_joined
  leave_joined_ok nick msg none j =
      (w, refl, h, record { same_live = λ i. refl; same_count = refl })
  leave_joined_ok nick msg (some name) j =
      let (ch, e) = joined_found w h id info there name j in
      let (w₁, sent, d₁, s₁) = send_ok w h id info there name ch (privmsg_from nick (msg ∷ [])) e in
      let h₁ = SameClients-WorldInv h d₁ s₁ in
      let there₁ : lookup id w₁.db.connections ≡ some info =
        ap (λ x. lookup id x.connections) d₁ ∙ there in
      let (w₂, run, d₂, s₂) = quit_chan_ok w₁ h₁ id name in
      (
        record w₂ { db = write_info id clear_joined w₂.db },
        bind-ok (channel_at name) _ (channel_at_ok name w ch e)
            ∙ bind-ok (send_to_members ch.members (privmsg_from nick (msg ∷ []))) _ sent
            ∙ bind-ok (quit_chan id name) _ run,
        quit_clear-WorldInv w₁ h₁ id info there₁ name w₂
            (member_of_joined w₁ h₁ id info there₁ name j) d₂ s₂,
        record {
          same_live = λ i. s₂.same_live i ∙ s₁.same_live i;
          same_count = s₂.same_count ∙ s₁.same_count;
        },
      )

  -- QUIT with one parameter throws: the message is looked for in the second.
  pub handle_quit-IsSafe :
      (params : List Str) → is_set info.nick ≡ true → IsSafe (handle_quit id info params w)
  unfolding handle_quit
  handle_quit-IsSafe params n =
      let (nick, has_nick) = is_set-some info.nick n in
      IsSafe-by _ (bind-ok (deref info.nick) _ (deref_ok info.nick nick w has_nick))
        (go nick params)
    where
      bye :
          (nick msg : Str)
          → IsSafe ((leave_joined id nick msg info.joined_channel >> on_connection id disconnect) w)
      bye nick msg =
          let (w', run, h', s) = leave_joined_ok nick msg info.joined_channel refl in
          IsSafe-by _ (bind-ok (leave_joined id nick msg info.joined_channel) _ run)
            (hang_up w' h' s)

      go :
          (nick : Str) (ps : List Str)
          → IsSafe (
              (quit_message nick ps >>= λ msg.
              leave_joined id nick msg info.joined_channel >> on_connection id disconnect)
                w)
      go nick [] = bye nick _
      go nick (p ∷ []) = tt
      go nick (p ∷ q ∷ ps) = bye nick q
