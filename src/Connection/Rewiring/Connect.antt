-- ===== src/Connection/Rewiring/Connect.antt =====
-- The constructor of `connection`, server/connection.cpp: its callback is served, and so are the others.
use mathlib.Core.Path.{subst}
use irc_chat.Base.{nat_eq}
use irc_chat.Base.{
  ℕ, ap, true, ◌+◌, ◌<◌, ◌≡◌, refl, none, some, arith, lookup, insert, Map, inl, inr, Bool-cases,
  ◌==◌, ==_iff, lookup-insert, if◌then◌else◌,
}
use irc_chat.Connection.Wiring.{IsServed, HasFront, IsWired}
use irc_chat.Connection.{Connection, connect}
use irc_chat.Registry.Callbacks.{AllIn-map, AllIn-concat}
use irc_chat.Registry.Tokens.{register_event-IsRegistry}
use irc_chat.Registry.{size_mod, PollRegistry, Callback, pollin, register_event}

module _ (cs : Map ℕ Connection) (id : ℕ) (c : Connection) (new : lookup id cs ≡ none) where
  lookup-added : (k : ℕ) → lookup k (insert id c cs) ≡ (if id == k then some c else lookup k cs)
  lookup-added k = ground (arith, lookup-insert id k c cs, new)

  added_self :
      (k : ℕ) (d : Connection) → (id == k) ≡ true → lookup k (insert id c cs) ≡ some d → c ≡ d
  added_self k d same at = ground (arith, lookup-added k)

  IsServed-insert : (cb : Callback) (t : ℕ) → IsServed cs cb t → IsServed (insert id c cs) cb t
  IsServed-insert Callback.poll_accept t h = tt
  IsServed-insert (Callback.poll_recv j) t (d, at, up, tok) =
      (d, ground (arith, lookup-added j, ==_iff id j, new, at), up, tok)
  IsServed-insert (Callback.poll_send j) t (d, at, up, tok) =
      (d, ground (arith, lookup-added j, ==_iff id j, new, at), up, tok)

pub connect-IsWired :
    (fd id : ℕ) (cs : Map ℕ Connection) (r : PollRegistry)
    → lookup id cs ≡ none
    → r.next_tok + 1 < size_mod
    → IsWired cs r
    → IsWired (insert id (connect fd id r).0 cs) (connect fd id r).1
unfolding connect register_event
connect-IsWired fd id cs r new room h =
    let c = (connect fd id r).0 in
    record {
      own_ids = λ k d at. elim (Bool-cases (id == k)) [
        | inr other ↦ h.own_ids k d (ground (arith, lookup-added cs id c new k))
        | inl same ↦
            ground (arith, ==_iff id k, ap (λ x. x.id) (added_self cs id c new k d same at))
      ];
      fronts = λ k d at. elim (Bool-cases (id == k)) [
        | inr other ↦ h.fronts k d (ground (arith, lookup-added cs id c new k))
        | inl same ↦
            subst (λ x. HasFront x.send_buf x.send_queue) (added_self cs id c new k d same at) tt
      ];
      registry =
          unfold register_event in
          register_event-IsRegistry fd pollin (Callback.poll_recv id) r h.registry room;
      served =
          AllIn-concat (IsServed (insert id c cs)) r.callbacks_and_toks (Callback.poll_recv id)
            r.next_tok
            (AllIn-map (IsServed cs) (IsServed (insert id c cs)) r.callbacks_and_toks
              (IsServed-insert cs id c new) h.served)
            (c, ground (arith, lookup-added cs id c new id, ==_iff id id), refl, refl);
    }
