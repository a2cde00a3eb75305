-- ===== src/Server/Loop/Poll/Rounds.antt =====
-- The rounds of the `while` loop of `server::run`, server/main.cpp, from the server that listens on.
use mathlib.Core.Path.{subst}
use mathlib.Core.Option.{some-injective}
use irc_chat.Base.{nat_eq}
use irc_chat.Base.{
  ℕ, ◌+◌, ◌*◌, ◌<◌, ◌≤◌, ◌≡◌, refl, sym, ◌∙◌, ap, some, arith, length, Result, ok, throw,
  out_of_range, bad_variant_access, bad_optional_access, runtime_error, null_deref, parse_error,
  lookup,
}
use irc_chat.Registry.Poll.{PollAnswer, interrupted, poll_failed, polled, ready}
use irc_chat.Registry.Tokens.{register_event-IsRegistry}
use irc_chat.Registry.{Callback, pollin, size_mod, register_event, empty_registry}
use irc_chat.Server.Invariant.{SameClients-WorldInv}
use irc_chat.Server.Keeping.{Ensures, Post}
use irc_chat.Server.Loop.Poll.Budget.{idle_count}
use irc_chat.Server.Loop.Poll.Ends.{
  enough_rounds, idle_count-le-length, ready-le-length, length-set_revents,
}
use irc_chat.Server.Loop.Poll.Guarded.{guarded_round, guarded_loop-dispatch_loop}
use irc_chat.Server.Loop.Poll.Safety.{dispatch_loop-serves}
use irc_chat.Server.Loop.Poll.Serving.{IsServing, EndsIn}
use irc_chat.Server.Loop.Poll.Sweeping.{AllUp, sweep-AllUp}
use irc_chat.Server.Loop.Poll.{
  Environment, dispatch_loop, poll_world, then_sweep, run_round, start_listening,
}
use irc_chat.Server.Loop.Reachable.{start_world, start_world-WorldInv}
use irc_chat.Server.Loop.Sweep.{sweep-WorldInv}
use irc_chat.Server.Loop.{sweep}
use irc_chat.Server.Wiring.{IsOrderly}
use irc_chat.Server.World.{World}

-- Between two rounds: the tables agree, the callbacks are served, and every connection is connected.
pub record IsStanding (w : World) : Type 0 where
  pub serving : IsServing w
  pub all_up : AllUp w

-- The counters of tokens and ids do not come to their end in a round.
pub record HasRoom (w : World) : Type 0 where
  pub tokens : w.registry.next_tok + length w.connections + 2 * length w.registry.fds + 1 < size_mod
  pub ids : w.curr_id_count + length w.registry.fds < size_mod

poll_world-IsServing :
    (revents : ℕ → ℕ) (w : World) → IsServing w → IsServing (poll_world revents w)
poll_world-IsServing revents w h = record {
  inv = SameClients-WorldInv h.inv refl (record { same_live = λ i. refl; same_count = refl });
  wired = record {
    own_ids = h.wired.own_ids;
    fronts = h.wired.fronts;
    registry = record {
      in_step = length-set_revents revents 0 w.registry.fds ∙ h.wired.registry.in_step;
      rising = h.wired.registry.rising;
    };
    served = h.wired.served;
  };
}

-- The sweep of a server that serves, where tokens last.
sweep-IsStanding :
    (tokens : ℕ) (w : World)
    → tokens + 1 < size_mod
    → IsServing w
    → w.registry.next_tok + idle_count w.connections ≤ tokens
    → EndsIn IsStanding (sweep w)
unfolding Ensures
sweep-IsStanding tokens w room h few =
    let entries = length w.registry.fds + idle_count w.connections in
    let (w', run, inv) = sweep-WorldInv w h.inv in
    let (o, up) =
      subst (Post (λ v. IsOrderly entries tokens w.curr_id_count w.registry v × AllUp v)) run (
        sweep-AllUp entries tokens w.curr_id_count w.registry room w (record {
          within = record {
            few_entries = omega arith;
            few_tokens = few;
            few_ids = omega arith;
            quieter = λ i. omega arith;
          };
          wired = h.wired;
        })) in
    subst (EndsIn IsStanding) (sym run)
      (record { serving = record { inv = inv; wired = o.wired }; all_up = up })

-- From a state between two rounds, where the counters have room, a round ends whatever the system
-- answers, within `enough_rounds`: with such a state again, or by an exception, which is one of the
-- system (`runtime_error`) or one that a message caused (`out_of_range`, `bad_variant_access`). And
-- the round gives what it gives with a guard that makes each call of a callback of a connection that
-- is gone or has ended a `null_deref`: so none is called, nothing is read through a null pointer or
-- an empty `optional`, and no connection that has ended is left.
pub run_round-IsStanding :
    (env : Environment) (answer : PollAnswer) (w : World)
    → IsStanding w
    → HasRoom w
    → (r : Result (Unit {0} × World)) × (run_round env (enough_rounds w) answer w ≡ some r)
      × (guarded_round env (enough_rounds w) answer w ≡ some r)
      × EndsIn IsStanding r
unfolding run_round then_sweep guarded_round
run_round-IsStanding env interrupted w h room = (ok (tt, w), refl, refl, h)
run_round-IsStanding env poll_failed w h room = (throw runtime_error, refl, refl, tt)
run_round-IsStanding env (polled n revents) w h room =
    let w₁ = poll_world revents w in
    let len = length-set_revents revents 0 w.registry.fds in
    let few = ready-le-length w₁.registry.fds in
    let idle = idle_count-le-length w.connections in
    let tokens = w.registry.next_tok + idle_count w.connections + 2 * ready w₁.registry.fds in
    let small : tokens + 1 < size_mod = omega (arith, room.tokens) in
    let (r, run, end) =
      dispatch_loop-serves
        (length w₁.registry.fds + idle_count w.connections + 2 * ready w₁.registry.fds) tokens
        (w.curr_id_count + ready w₁.registry.fds) small (omega (arith, room.ids)) env
        (enough_rounds w) 0 w₁ (poll_world-IsServing revents w h.serving)
        (record { entries_paid = omega arith; tokens_paid = omega arith; ids_paid = omega arith })
        (omega arith) (omega arith) in
    let guarded =
      guarded_loop-dispatch_loop
        (length w₁.registry.fds + idle_count w.connections + 2 * ready w₁.registry.fds) tokens
        (w.curr_id_count + ready w₁.registry.fds) small (omega (arith, room.ids)) env
        (enough_rounds w) 0 w₁ (poll_world-IsServing revents w h.serving)
        (record {
          entries_paid = omega arith;
          tokens_paid = omega arith;
          ids_paid = omega arith;
        }) in
    let (r', run', end') = swept tokens small r end run in
    (r', run', ap then_sweep guarded ∙ run', end')
  where
    swept :
        (tokens : ℕ)
        → tokens + 1 < size_mod
        → (r : Result (Unit {0} × World))
        → EndsIn (λ v. IsServing v × (v.registry.next_tok + idle_count v.connections ≤ tokens)) r
        → dispatch_loop env (enough_rounds w) 0 (poll_world revents w) ≡ some r
        → (r' : Result (Unit {0} × World)) × (then_sweep
              (dispatch_loop env (enough_rounds w) 0 (poll_world revents w))
            ≡ some r')
          × EndsIn IsStanding r'
    swept tokens small (ok (x, v)) q e =
        (sweep v, ap then_sweep e, sweep-IsStanding tokens v small q.0 q.1)
    swept tokens small (throw out_of_range) q e = (throw out_of_range, ap then_sweep e, tt)
    swept tokens small (throw bad_variant_access) q e =
        (throw bad_variant_access, ap then_sweep e, tt)
    swept tokens small (throw runtime_error) q e = (throw runtime_error, ap then_sweep e, tt)
    swept tokens small (throw bad_optional_access) q e = absurd q
    swept tokens small (throw (parse_error msg)) q e = absurd q
    swept tokens small (throw null_deref) q e = absurd q

-- The server that listens on the descriptor, before the first round.
abbrev pub listening : ℕ → World
listening fd = (start_listening fd start_world).1

-- Rounds that return, one behind the other, while the counters have room.
pub data Rounds (s : World) : World → Type 0 where
  start : Rounds s s
  round :
      {w w' : World} (env : Environment) (answer : PollAnswer)
      → Rounds s w
      → HasRoom w
      → run_round env (enough_rounds w) answer w ≡ some (ok (tt, w'))
      → Rounds s w'

listening-IsStanding : (fd : ℕ) → IsStanding (listening fd)
unfolding start_listening register_event
listening-IsStanding fd = record {
  serving = record {
    inv =
        SameClients-WorldInv start_world-WorldInv refl
          (record { same_live = λ i. refl; same_count = refl });
    wired = record {
      own_ids = λ k c e. unfold lookup in cc;
      fronts = λ k c e. unfold lookup in absurd (cc);
      registry =
          unfold register_event in
          register_event-IsRegistry fd pollin Callback.poll_accept empty_registry
            (record { in_step = refl; rising = omega arith }) (omega arith);
      served = (tt, tt);
    };
  };
  all_up = λ k c e. unfold lookup in cc;
}

-- Behind any number of rounds of the server that listens, which returned while the counters had room:
-- the tables satisfy the invariant, every callback in the registry but that of the listener is one of a
-- connection that is there and connected and that holds the callback's token, and every connection is
-- connected.
pub Rounds-IsStanding : (fd : ℕ) {w : World} → Rounds (listening fd) w → IsStanding w
Rounds-IsStanding fd start = listening-IsStanding fd
Rounds-IsStanding fd (round {w = w} {w' = w'} env answer rounds room ran) =
    let (r, run, _, end) = run_round-IsStanding env answer w (Rounds-IsStanding fd rounds) room in
    subst (EndsIn IsStanding) (some-injective r (ok (tt, w')) (sym run ∙ ran)) end
