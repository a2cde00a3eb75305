-- ===== src/Server/Loop/Poll/Serving.antt =====
-- The invariant of the server with that of its callbacks, under one callback of `poll_and_dispatch` in
-- server/poll_registry.cpp.
use irc_chat.Base.{nat_eq}
use irc_chat.Base.{
  ℕ, ◌+◌, ◌<◌, ◌≡◌, ◌≢◌, refl, sym, ◌∙◌, some, arith, lookup, update, contains-lookup,
  contains-update, length, true, Result, ok, throw, out_of_range, bad_variant_access,
  bad_optional_access, runtime_error, null_deref, parse_error,
}
use irc_chat.Connection.Rewiring.Connect.{connect-IsWired}
use irc_chat.Connection.Rewiring.Send.{LeavesOrFails, poll_send-IsRewired}
use irc_chat.Connection.Send.{Kernel, poll_send}
use irc_chat.Connection.Wiring.{IsServed, IsWired, IsRewired, update-IsWired}
use irc_chat.Connection.{Connection}
use irc_chat.Registry.{size_mod, PollRegistry, Callback}
use irc_chat.Server.Invariant.{WorldInv, IsSafe, SameClients-WorldInv}
use irc_chat.Server.Keeping.{Ensures, Post}
use irc_chat.Server.Loop.Invariant.{poll_accept-WorldInv, poll_recv-IsSafe}
use irc_chat.Server.Loop.Poll.Budget.{idle_count}
use irc_chat.Server.Loop.Poll.{
  AcceptAnswer, accepted, accept_failed, Answers, try_accept, call_back,
}
use irc_chat.Server.Loop.{
  RecvResult, received, would_block, recv_failed, poll_accept, poll_recv, poll_send_at,
}
use irc_chat.Server.Wiring.{IsOrderly, recv-IsOrderly}
use irc_chat.Server.World.{World}

-- The tables agree and the callbacks are served.
pub record IsServing (w : World) : Type 0 where
  pub inv : WorldInv w
  pub wired : IsWired w.connections w.registry

-- A state with the property, or an exception that ends the server: of the system, or of a message that
-- the server does not stand. None comes from a pointer or an `optional` that is empty.
abbrev pub EndsIn : {A : Type 0} → (World → Type 0) → Result (A × World) → Type 0
EndsIn Q (ok (a, w)) = Q w
EndsIn Q (throw out_of_range) = Unit
EndsIn Q (throw bad_variant_access) = Unit
EndsIn Q (throw runtime_error) = Unit
EndsIn Q (throw bad_optional_access) = ⊥
EndsIn Q (throw (parse_error msg)) = ⊥
EndsIn Q (throw null_deref) = ⊥

safe_ends :
    {A : Type 0} (Q R : World → Type 0) (r : Result (A × World))
    → IsSafe r
    → Post Q r
    → ((w : World) → WorldInv w → Q w → R w)
    → EndsIn R r
safe_ends Q R (ok (a, w)) h q f = f w h q
safe_ends Q R (throw out_of_range) h q f = tt
safe_ends Q R (throw bad_variant_access) h q f = tt
safe_ends Q R (throw runtime_error) h q f = tt
safe_ends Q R (throw bad_optional_access) h q f = h
safe_ends Q R (throw (parse_error msg)) h q f = h
safe_ends Q R (throw null_deref) h q f = h

module _ (w : World) (h : IsServing w)
    (room : w.registry.next_tok + idle_count w.connections + 1 < size_mod) where
  accept-IsServing :
      (a : AcceptAnswer) → w.curr_id_count + 1 < size_mod → EndsIn IsServing (try_accept a w)
  unfolding try_accept poll_accept
  accept-IsServing accept_failed ids = tt
  accept-IsServing (accepted fd ipv4) ids = record {
    inv = unfold poll_accept in poll_accept-WorldInv w fd ipv4 h.inv ids;
    wired =
        connect-IsWired fd w.curr_id_count w.connections w.registry
          (ground
            (arith, h.inv.fresh w.curr_id_count, contains-lookup w.curr_id_count w.connections))
          (omega arith) h.wired;
  }

  recv_ends :
      (id : ℕ) (c : Connection) (res : RecvResult)
      → lookup id w.connections ≡ some c
      → c.connected ≡ true
      → res ≢ recv_failed
      → EndsIn IsServing (poll_recv id res w)
  unfolding Ensures
  recv_ends id c res there up answered =
      let entries = length w.registry.fds + idle_count w.connections in
      let tokens = w.registry.next_tok + idle_count w.connections in
      safe_ends (IsOrderly entries tokens w.curr_id_count w.registry) IsServing (poll_recv id res w)
        (poll_recv-IsSafe w h.inv id
          (sym (h.inv.live id) ∙ ground (arith, contains-lookup id w.connections)) res answered)
        (recv-IsOrderly entries tokens w.curr_id_count w.registry room id res w (record {
          orderly = record {
            within = record {
              few_entries = omega arith;
              few_tokens = omega arith;
              few_ids = omega arith;
              quieter = λ i. omega arith;
            };
            wired = h.wired;
          };
          up = (c, there, up);
        }))
        (λ w' inv o. record { inv = inv; wired = o.wired })

  recv-IsServing :
      (id : ℕ) (c : Connection) (res : RecvResult)
      → lookup id w.connections ≡ some c
      → c.connected ≡ true
      → EndsIn IsServing (poll_recv id res w)
  recv-IsServing id c recv_failed there up = unfold poll_recv in tt
  recv-IsServing id c would_block there up = recv_ends id c would_block there up (λ q. cc)
  recv-IsServing id c (received chunk) there up = recv_ends id c (received chunk) there up (λ q. cc)

  send-IsServing :
      (id : ℕ) (c : Connection) (tok : ℕ) (k : Kernel)
      → lookup id w.connections ≡ some c
      → c.connected ≡ true
      → c.send_tok ≡ some tok
      → EndsIn IsServing (poll_send_at id k w)
  unfolding poll_send_at
  send-IsServing id c tok k there up has =
      rw (there, poll_send_at)
        (written (poll_send k c w.registry) (
          poll_send-IsRewired k c w.registry h.wired.registry up tok has
            (h.wired.fronts id c there)))
    where
      written :
          (res : Result (Connection × PollRegistry))
          → LeavesOrFails (IsRewired c w.registry) res
          → EndsIn IsServing (elim res as (λ _. Result (Unit {0} × World)) [
            | throw x ↦ throw x
            | ok (c', r) ↦
                ok (tt, record w { connections = update id (λ _. c') w.connections; registry = r })
          ])
      written (ok (c', r)) f = record {
        inv = SameClients-WorldInv h.inv refl (record {
          same_live = λ i. contains-update id i (λ _. c') w.connections;
          same_count = refl;
        });
        wired = update-IsWired w.connections w.registry r id c c' there h.wired f;
      }
      written (throw runtime_error) f = tt
      written (throw out_of_range) f = tt
      written (throw bad_variant_access) f = tt
      written (throw bad_optional_access) f = f
      written (throw (parse_error msg)) f = f
      written (throw null_deref) f = f

  pub call_back-IsServing :
      (a : Answers) (cb : Callback) (t : ℕ)
      → IsServed w.connections cb t
      → w.curr_id_count + 1 < size_mod
      → EndsIn IsServing (call_back a cb w)
  unfolding call_back
  call_back-IsServing a Callback.poll_accept t s ids = accept-IsServing a.accept ids
  call_back-IsServing a (Callback.poll_recv id) t (c, there, up, tok) ids =
      recv-IsServing id c a.recv there up
  call_back-IsServing a (Callback.poll_send id) t (c, there, up, tok) ids =
      send-IsServing id c t a.send there up tok
