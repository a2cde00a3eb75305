-- ===== src/Server/Safety/Moderate.antt =====
-- The invariant under MODE and KICK of server/main.cpp.
use irc_chat.Base.{nat_eq, text_eq}
use irc_chat.Base.{
  ℕ, ◌≡◌, refl, ◌∙◌, ◌⊎◌, ap, inl, inr, Bool, true, false, some, Str, List, [], ◌∷◌, codes,
  has_substring, lookup, contains, update, contains-update, AllIn-lookup, Option-cases, Bool-cases,
  Result, ok, throw, out_of_range, if◌then◌else◌,
}
use irc_chat.Channel.{Channel, get_member, mute, unmute}
use irc_chat.Db.Clients.{channel-DbInv, member_write-ChannelInv}
use irc_chat.Db.Invariant.{ChannelInv, InfoInv, find_nick-some}
use irc_chat.Db.Membership.{in_channel}
use irc_chat.Db.Preserve.{leave_missing}
use irc_chat.Db.{ConnInfo, find_nick, get_conn_info_by_nick, write_info, clear_joined}
use irc_chat.Message.Replies.{
  no_such_nick, no_such_channel, not_on_channel, need_more_params, chann_op_priv_needed,
}
use irc_chat.Message.{Command}
use irc_chat.Server.Handlers.{
  set_mute, write_channel, change_mode, as_operator, handle_mode, kick_out, handle_kick,
}
use irc_chat.Server.Invariant.{WorldInv, IsSafe, reply-IsSafe, SameClients-WorldInv}
use irc_chat.Server.Leaving.{quit_chan_ok}
use irc_chat.Server.Safety.Common.{
  ltb_two, ltb_three, IsSafe-by, bind-throw, known-contains, tables-WorldInv,
}
use irc_chat.Server.Safety.Members.{quit_clear-WorldInv}
use irc_chat.Server.Safety.Talk.{get_member_cases, with_channel-IsSafe}
use irc_chat.Server.World.{
  World, M, ◌>>=◌, lift, bind-ok, on_none, on_some, if_true, if_false, quit_chan, reply, modify_db,
  pure,
}

-- What a change of a mode may give: an exception of `members.at`, or a channel with the same members
-- that satisfies the invariant.
abbrev IsModerated : Str → Channel → Result (Channel × Bool) → Type 0
IsModerated name ch r =
    (r ≡ throw out_of_range)
    ⊎ ((ch' : Channel) × (b : Bool) × (r ≡ ok (ch', b))
        × ChannelInv name ch'
        × ((i : ℕ) → contains i ch'.members ≡ contains i ch.members))

if_IsModerated :
    (name : Str) (ch : Channel) (b : Bool) {r r' : Result (Channel × Bool)}
    → IsModerated name ch r
    → IsModerated name ch r'
    → IsModerated name ch (if b then r else r')
if_IsModerated name ch true p q = p
if_IsModerated name ch false p q = q

module _ (name : Str) (target : ℕ) (ch : Channel) (inv : ChannelInv name ch) where
  mute_cases : IsModerated name ch (mute target ch)
  unfolding mute get_member
  mute_cases = elim (Option-cases (lookup target ch.members)) [
    | inl absent ↦ inl (rw (absent, mute))
    | inr (m, e) ↦ inr (
      record ch { members = update target (λ x. record x { is_muted = true }) ch.members },
      true,
      rw (e, mute),
      member_write-ChannelInv _ (λ x. refl) (λ x. refl) name ch target inv,
      λ i. contains-update target i _ ch.members,
    )
  ]

  unmute_cases : IsModerated name ch (unmute target ch)
  unfolding unmute get_member
  unmute_cases = elim (Option-cases (lookup target ch.members)) [
    | inl absent ↦ inl (rw (absent, unmute))
    | inr (m, e) ↦ inr (
      record ch { members = update target (λ x. record x { is_muted = false }) ch.members },
      true,
      rw (e, unmute),
      member_write-ChannelInv _ (λ x. refl) (λ x. refl) name ch target inv,
      λ i. contains-update target i _ ch.members,
    )
  ]

  set_mute_cases : (modifiers : Str) → IsModerated name ch (set_mute modifiers target ch)
  unfolding set_mute
  set_mute_cases modifiers =
      if_IsModerated name ch (has_substring (codes "+v") modifiers) unmute_cases (
        if_IsModerated name ch (has_substring (codes "-v") modifiers) mute_cases
          (inr (ch, true, refl, inv, λ i. refl)))

module _ (w : World) (h : WorldInv w) (id : ℕ) (info : ConnInfo)
    (there : lookup id w.db.connections ≡ some info) where
  known : contains id w.db.connections ≡ true
  known = known-contains id w.db info there

  -- The write of a channel and the end of MODE.
  moderated-IsSafe :
      (name : Str) (ch ch' : Channel) (b : Bool)
      → lookup name w.db.channels ≡ some ch
      → ChannelInv name ch'
      → ((i : ℕ) → contains i ch'.members ≡ contains i ch.members)
      → IsSafe (
          (if b then pure tt else reply id not_on_channel)
            (record w { db = write_channel name ch' w.db }))
  moderated-IsSafe name ch ch' b e inv same = end b
    where
      new : WorldInv (record w { db = write_channel name ch' w.db })
      new =
          tables-WorldInv w (write_channel name ch' w.db) h
            (channel-DbInv w.db h.db_inv name ch ch' e inv same) (λ i. refl)

      end :
          (b : Bool)
          → IsSafe (
              (if b then pure tt else reply id not_on_channel)
                (record w { db = write_channel name ch' w.db }))
      end true = new
      end false = reply-IsSafe id not_on_channel _ new known

  change_mode-IsSafe :
      (p modifiers nick : Str) (ps : List Str) (name : Str) (ch : Channel)
      → lookup name w.db.channels ≡ some ch
      → IsSafe (change_mode id (p ∷ modifiers ∷ nick ∷ ps) name ch w)
  unfolding change_mode
  change_mode-IsSafe p modifiers nick ps name ch e =
      elim (Option-cases (get_conn_info_by_nick nick w.db)) [
        | inl absent ↦ IsSafe-by _ (on_none _ _ absent) (reply-IsSafe id no_such_nick w h known)
        | inr (target, found) ↦
            elim (set_mute_cases name target.1.id ch
              (AllIn-lookup ChannelInv name ch w.db.channels h.db_inv.channels e) modifiers) [
                | inl missing ↦
                    IsSafe-by _
                      (on_some _ _ target found
                        ∙ bind-throw (lift (set_mute modifiers target.1.id ch)) _
                            (ap (λ r. lift r w) missing))
                      tt
                | inr (ch', b, got, inv, same) ↦
                    IsSafe-by _
                      (on_some _ _ target found
                        ∙ bind-ok (lift (set_mute modifiers target.1.id ch)) _
                            (ap (λ r. lift r w) got))
                      (moderated-IsSafe name ch ch' b e inv same)
              ]
      ]

  -- The check for an operator, in front of what only an operator may do.
  as_operator-IsSafe :
      (act : Str → Channel → M (Unit {0})) (name : Str) (ch : Channel)
      → IsSafe (act name ch w)
      → IsSafe (as_operator id act name ch w)
  unfolding as_operator
  as_operator-IsSafe act name ch safe = elim (get_member_cases id ch w) [
    | inl missing ↦ IsSafe-by _ (bind-throw (lift (get_member id ch)) _ missing) tt
    | inr (m, got, _) ↦ elim (Bool-cases m.is_operator) [
      | inl op ↦ IsSafe-by _ (bind-ok (lift (get_member id ch)) _ got ∙ if_true _ _ op) safe
      | inr plain ↦
          IsSafe-by _ (bind-ok (lift (get_member id ch)) _ got ∙ if_false _ _ plain)
            (reply-IsSafe id chann_op_priv_needed w h known)
    ]
  ]

  pub handle_mode-IsSafe : (params : List Str) → IsSafe (handle_mode id info params w)
  unfolding handle_mode
  handle_mode-IsSafe [] = reply-IsSafe id (need_more_params Command.mode) w h known
  handle_mode-IsSafe (p ∷ []) = reply-IsSafe id (need_more_params Command.mode) w h known
  handle_mode-IsSafe (p ∷ q ∷ []) = reply-IsSafe id (need_more_params Command.mode) w h known
  handle_mode-IsSafe (p ∷ q ∷ r ∷ ps) = IsSafe-by _ (if_false _ _ (ltb_three ps)) (
      with_channel-IsSafe w h id info there p (q ∷ r ∷ ps) no_such_channel _ (λ name ch e.
        as_operator-IsSafe (change_mode id (p ∷ q ∷ r ∷ ps)) name ch
          (change_mode-IsSafe p q r ps name ch e)))

  -- The end of KICK, where the kicked client is known under `k`.
  kicked-IsSafe :
      (k : ℕ) (target : ConnInfo) (name : Str)
      → lookup k w.db.connections ≡ some target
      → IsSafe (
          (quit_chan k name >>= λ removed.
          if removed then modify_db (write_info k clear_joined) else reply id not_on_channel)
            w)
  kicked-IsSafe k target name at =
      let (w', run, d, s) = quit_chan_ok w h k name in
      elim (Bool-cases (in_channel w.db name k)) [
        | inl member ↦
            IsSafe-by _ (bind-ok (quit_chan k name) _ run ∙ if_true _ _ member)
              (quit_clear-WorldInv w h k target at name w' member d s)
        | inr outside ↦
            let same = d ∙ ap (λ x. x.0) (leave_missing w.db k name outside) in
            IsSafe-by _ (bind-ok (quit_chan k name) _ run ∙ if_false _ _ outside) (
              reply-IsSafe id not_on_channel w' (SameClients-WorldInv h same s)
                (ap (λ x. contains id x.connections) same ∙ known))
      ]

  kick_out-IsSafe :
      (p nick : Str) (ps : List Str) (name : Str) (ch : Channel)
      → IsSafe (kick_out id (p ∷ nick ∷ ps) name ch w)
  unfolding kick_out
  kick_out-IsSafe p nick ps name ch = elim (Option-cases (find_nick nick w.db.connections)) [
    | inl absent ↦ IsSafe-by _ (on_none _ _ absent) (reply-IsSafe id no_such_nick w h known)
    | inr ((k, target), found) ↦
        let (at, _) = find_nick-some nick w.db.connections k target h.db_inv.distinct found in
        let own = (AllIn-lookup InfoInv k target w.db.connections h.db_inv.infos at).own_id in
        IsSafe-by _
          (on_some _ _ (k, target) found
            ∙ ap
                (λ i.
                  (quit_chan i name >>= λ removed.
                  if removed
                  then modify_db (write_info k clear_joined)
                  else reply id not_on_channel)
                    w)
                own)
          (kicked-IsSafe k target name at)
  ]

  pub handle_kick-IsSafe : (params : List Str) → IsSafe (handle_kick id info params w)
  unfolding handle_kick
  handle_kick-IsSafe [] = reply-IsSafe id (need_more_params Command.kick) w h known
  handle_kick-IsSafe (p ∷ []) = reply-IsSafe id (need_more_params Command.kick) w h known
  handle_kick-IsSafe (p ∷ q ∷ ps) = IsSafe-by _ (if_false _ _ (ltb_two ps)) (
      with_channel-IsSafe w h id info there p (q ∷ ps) not_on_channel _ (λ name ch e.
        as_operator-IsSafe (kick_out id (p ∷ q ∷ ps)) name ch (kick_out-IsSafe p q ps name ch)))
