-- ===== src/Server/Loop/Poll/Callbacks.antt =====
-- The room that each callback of the server takes at most: `poll_accept` of server/main.cpp, `poll_recv`
-- and `poll_send` of server/connection.cpp.
use native.Mathlib.Nat.{mod-le}
use irc_chat.Base.{nat_eq}
use irc_chat.Base.{
  ℕ, ◌+◌, ◌≡◌, refl, some, arith, lookup, update, inl, inr, Result, ok, throw, Option-cases,
}
use irc_chat.Connection.Frugal.{
  IsFrugal, IsFrugal-same, disconnect-IsFrugal, poll_send-IsFrugal, Leaves,
}
use irc_chat.Connection.Recv.{store_chunk, drop_message}
use irc_chat.Connection.Send.{Kernel, poll_send}
use irc_chat.Connection.{Connection, connect, disconnect}
use irc_chat.Registry.Measure.{register_event-measure}
use irc_chat.Registry.{PollRegistry, Callback, pollin, size_mod}
use irc_chat.Server.Keeping.Reading.{poll_recv-Ensures}
use irc_chat.Server.Keeping.{Ensures, Post}
use irc_chat.Server.Loop.Poll.Budget.{
  IsWithin, more-IsWithin, put-IsWithin, called-IsWithin, IsWithin-IsStable, IsWithin-CanReply,
  idle_count-insert,
}
use irc_chat.Server.Loop.Poll.{
  AcceptAnswer, accepted, accept_failed, Answers, try_accept, call_back,
}
use irc_chat.Server.Loop.{RecvResult, poll_accept, poll_recv, poll_send_at}
use irc_chat.Server.World.{World}

pub Post-map :
    {A : Type 0} (P Q : World → Type 0) (r : Result (A × World))
    → ((w : World) → P w → Q w)
    → Post P r
    → Post Q r
Post-map P Q (throw e) q h = tt
Post-map P Q (ok (a, w)) q h = q w h

module _ (e t i : ℕ) (r₀ : PollRegistry) where
  accept-IsWithin :
      (a : AcceptAnswer)
      → Ensures (IsWithin e t i r₀) (IsWithin (2 + e) (2 + t) (1 + i) r₀) (try_accept a)
  unfolding try_accept Ensures poll_accept connect
  accept-IsWithin accept_failed w h = tt
  accept-IsWithin (accepted fd ipv4) w h =
      let id = w.curr_id_count in
      let (len, tok, q) = register_event-measure fd pollin (Callback.poll_recv id) w.registry in
      let added = idle_count-insert id (connect fd id w.registry).0 w.connections in
      record {
        few_entries = omega (arith, added, h.few_entries);
        few_tokens = omega (arith, added, h.few_tokens);
        few_ids = omega (arith, mod-le (id + 1) size_mod, h.few_ids);
        quieter = λ j. omega (arith, q j, h.quieter j);
      }

  recv-IsWithin :
      (id : ℕ) (res : RecvResult)
      → Ensures (IsWithin e t i r₀) (IsWithin e t i r₀) (poll_recv id res)
  unfolding store_chunk drop_message
  recv-IsWithin id res =
      poll_recv-Ensures (IsWithin e t i r₀) (IsWithin e t i r₀) (IsWithin-IsStable e t i r₀) id
        (IsWithin-CanReply e t i r₀ id) (λ w h. h)
        (λ w c there h. called-IsWithin e t i r₀ disconnect disconnect-IsFrugal id w c there h)
        (λ w c chunk there h.
          called-IsWithin e t i r₀ (λ c r. (store_chunk chunk c, r))
            (λ c r. IsFrugal-same c (store_chunk chunk c) r refl) id w c there h)
        (λ w c n there h.
          called-IsWithin e t i r₀ (λ c r. (drop_message n c, r))
            (λ c r. IsFrugal-same c (drop_message n c) r refl) id w c there h)
        res

  send-IsWithin :
      (id : ℕ) (k : Kernel)
      → Ensures (IsWithin e t i r₀) (IsWithin (1 + e) (1 + t) i r₀) (poll_send_at id k)
  unfolding poll_send_at Ensures
  send-IsWithin id k w h = elim (Option-cases (lookup id w.connections)) [
    | inl gone ↦ rw (gone, poll_send_at) tt
    | inr (c, there) ↦
        rw (there, poll_send_at)
          (written c there (poll_send k c w.registry) (poll_send-IsFrugal k c w.registry))
  ]
    where
      written :
          (c : Connection)
          → lookup id w.connections ≡ some c
          → (res : Result (Connection × PollRegistry)) → Leaves (IsFrugal 1 c w.registry) res
          → Post (IsWithin (1 + e) (1 + t) i r₀) (elim res as (λ _. Result (Unit {0} × World)) [
            | throw x ↦ throw x
            | ok (c', r) ↦
                ok (tt, record w { connections = update id (λ _. c') w.connections; registry = r })
          ])
      written c there (throw x) f = tt
      written c there (ok (c', r)) f = put-IsWithin 1 e t i r₀ id c c' r w there f h

  pub call_back-IsWithin :
      (a : Answers) (cb : Callback)
      → Ensures (IsWithin e t i r₀) (IsWithin (2 + e) (2 + t) (1 + i) r₀) (call_back a cb)
  unfolding call_back Ensures
  call_back-IsWithin a Callback.poll_accept w h = accept-IsWithin a.accept w h
  call_back-IsWithin a (Callback.poll_recv id) w h =
      Post-map (IsWithin e t i r₀) _ (poll_recv id a.recv w)
        (λ w' q. more-IsWithin (omega arith) (omega arith) (omega arith) q)
        (recv-IsWithin id a.recv w h)
  call_back-IsWithin a (Callback.poll_send id) w h =
      Post-map (IsWithin (1 + e) (1 + t) i r₀) _ (poll_send_at id a.send w)
        (λ w' q. more-IsWithin (omega arith) (omega arith) (omega arith) q)
        (send-IsWithin id a.send w h)
