-- ===== src/Server/Safety/Register.antt =====
-- The invariant under NICK, USER and PING of server/main.cpp.
use irc_chat.Base.{nat_eq, text_eq}
use irc_chat.Base.{
  ℕ, ◌≡◌, refl, ◌∙◌, inl, inr, true, some, Str, List, [], ◌∷◌, lookup, contains, AllIn-lookup, ltb,
  length, Option-cases, Bool-cases,
}
use irc_chat.Db.Invariant.{is_set, InfoInv, StateInv}
use irc_chat.Db.Steps.{info-DbInv, nick-DbInv}
use irc_chat.Db.{ConnInfo, ConnState, init, registered_nick, registered_user, get_conn_info_by_nick}
use irc_chat.Message.Replies.{
  nickname_in_use, need_more_params, erroneus_nickname, already_registered,
}
use irc_chat.Message.{Command}
use irc_chat.Server.Handlers.{
  is_registered, set_nick, set_user, take_nick, handle_nick, register_user, handle_user,
  handle_ping,
}
use irc_chat.Server.Invariant.{WorldInv, IsSafe, reply-IsSafe}
use irc_chat.Server.Safety.Common.{ltb_one, ltb_four, IsSafe-by, known-contains, write-WorldInv}
use irc_chat.Server.World.{World, on_none, on_some, if_true, if_false}

set_nick-StateInv :
    (nick : Str) (i : ConnInfo) (s : ConnState)
    → i.state ≡ s
    → StateInv s i
    → StateInv (set_nick nick i).state (set_nick nick i)
set_nick-StateInv nick i init e h = rw e (h.0, refl)
set_nick-StateInv nick i registered_nick e h = rw e (h.0, refl)
set_nick-StateInv nick i registered_user e h = rw e (refl, h.1, h.2)

module _ (w : World) (h : WorldInv w) (id : ℕ) (info : ConnInfo)
    (there : lookup id w.db.connections ≡ some info) where
  known : contains id w.db.connections ≡ true
  known = known-contains id w.db info there

  inv : InfoInv id info
  inv = AllIn-lookup InfoInv id info w.db.connections h.db_inv.infos there

  take_nick-IsSafe : (nick : Str) → IsSafe (take_nick id info nick w)
  unfolding take_nick
  take_nick-IsSafe nick = elim (Option-cases (get_conn_info_by_nick nick w.db)) [
    | inr (x, taken) ↦ IsSafe-by _ (on_some _ _ x taken) (reply-IsSafe id nickname_in_use w h known)
    | inl free ↦ IsSafe-by _ (on_none _ _ free) (
        write-WorldInv w id (set_nick nick) h (
          nick-DbInv w.db h.db_inv id info there (set_nick nick) nick
            (record {
              own_id = inv.own_id;
              by_state = set_nick-StateInv nick info info.state refl inv.by_state;
            })
            refl refl free))
  ]

  pub handle_nick-IsSafe : (params : List Str) → IsSafe (handle_nick id info params w)
  unfolding handle_nick
  handle_nick-IsSafe [] = reply-IsSafe id (need_more_params Command.nick) w h known
  handle_nick-IsSafe (nick ∷ ps) = elim (Bool-cases (ltb 50 (length nick))) [
    | inl long ↦
        IsSafe-by _ (if_false _ _ (ltb_one ps) ∙ if_true _ _ long)
          (reply-IsSafe id erroneus_nickname w h known)
    | inr short ↦
        IsSafe-by _ (if_false _ _ (ltb_one ps) ∙ if_false _ _ short) (take_nick-IsSafe nick)
  ]

  -- The guard lets USER through only behind NICK.
  register_user-IsSafe :
      (a b c d : Str) (ps : List Str)
      → is_set info.nick ≡ true
      → IsSafe (register_user id (a ∷ b ∷ c ∷ d ∷ ps) w)
  unfolding register_user
  register_user-IsSafe a b c d ps has_nick = write-WorldInv w id (set_user a d) h (
      info-DbInv w.db h.db_inv id info there (set_user a d)
        (record { own_id = inv.own_id; by_state = (has_nick, refl, refl) }) refl refl)

  pub handle_user-IsSafe :
      (params : List Str) → is_set info.nick ≡ true → IsSafe (handle_user id info params w)
  unfolding handle_user
  handle_user-IsSafe [] n = reply-IsSafe id (need_more_params Command.user) w h known
  handle_user-IsSafe (a ∷ []) n = reply-IsSafe id (need_more_params Command.user) w h known
  handle_user-IsSafe (a ∷ b ∷ []) n = reply-IsSafe id (need_more_params Command.user) w h known
  handle_user-IsSafe (a ∷ b ∷ c ∷ []) n = reply-IsSafe id (need_more_params Command.user) w h known
  handle_user-IsSafe (a ∷ b ∷ c ∷ d ∷ ps) n = elim (Bool-cases (is_registered info.state)) [
    | inl again ↦
        IsSafe-by _ (if_false _ _ (ltb_four ps) ∙ if_true _ _ again)
          (reply-IsSafe id already_registered w h known)
    | inr first ↦
        IsSafe-by _ (if_false _ _ (ltb_four ps) ∙ if_false _ _ first)
          (register_user-IsSafe a b c d ps n)
  ]

  pub handle_ping-IsSafe : IsSafe (handle_ping id w)
  unfolding handle_ping
  handle_ping-IsSafe = reply-IsSafe id _ w h known
