-- ===== src/Server/Loop/Poll.antt =====
-- `poll_registry::poll_and_dispatch` of server/poll_registry.cpp with the callbacks of the server, and
-- `server::run` of server/main.cpp around it. What the system answers is a parameter.
pub mod Budget
pub mod Callbacks
pub mod Ends
pub mod Serving
pub mod Sweeping
pub mod Safety
pub mod Guarded
pub mod Rounds
use irc_chat.Base.{
  ℕ, zero, suc, Option, none, some, get_elem?, if◌then◌else◌, runtime_error, null_deref, Result, ok,
  throw,
}
use irc_chat.Connection.Send.{Kernel}
use irc_chat.Registry.Poll.{PollAnswer, interrupted, poll_failed, polled, write_revents, is_ready}
use irc_chat.Registry.{Pollfd, Callback, pollin, register_event, unregister_event, PollRegistry}
use irc_chat.Server.Loop.{RecvResult, poll_accept, poll_recv, poll_send_at, sweep}
use irc_chat.Server.World.{World, M}

-- What `accept` answers: a stream and the address of its peer, or an error of `accept` or `getpeername`.
pub data AcceptAnswer : Type 0 where
  accepted : ℕ → ℕ → AcceptAnswer
  accept_failed : AcceptAnswer

-- What the system answers to the calls of one callback.
pub record Answers : Type 0 where
  pub accept : AcceptAnswer
  pub recv : RecvResult
  pub send : Kernel

-- The answers by the index at which the loop stands.
abbrev pub Environment : Type 0
Environment = ℕ → Answers

unfoldable pub try_accept : AcceptAnswer → M (Unit {0})
try_accept (accepted fd ipv4) w = ok (tt, poll_accept fd ipv4 w)
try_accept accept_failed w = throw runtime_error

unfoldable pub call_back : Answers → Callback → M (Unit {0})
unfolding try_accept
call_back a Callback.poll_accept = try_accept a.accept
call_back a (Callback.poll_recv id) = poll_recv id a.recv
call_back a (Callback.poll_send id) = poll_send_at id a.send

-- One round of the loop, at a descriptor that is there. A vector of callbacks that is shorter would be
-- read out of its bounds.
unfoldable pub fire : Answers → ℕ → Pollfd → M (Unit {0})
fire a i f w = elim (get_elem? w.registry.callbacks_and_toks i) [
  | none ↦ throw null_deref
  | some (cb, t) ↦ if is_ready f then call_back a cb w else ok (tt, w)
]

-- The loop from index `i` on, on the vectors as the callbacks leave them. `none`: the fuel ran out.
unfoldable pub dispatch_loop : Environment → ℕ → ℕ → World → Option (Result (Unit {0} × World))
unfolding fire
dispatch_loop env zero i w = none
dispatch_loop env (suc fuel) i w = elim (get_elem? w.registry.fds i) [
  | none ↦ some (ok (tt, w))
  | some f ↦ elim (fire (env i) i f w) [
    | throw e ↦ some (throw e)
    | ok (x, w') ↦ dispatch_loop env fuel (suc i) w'
  ]
]

abbrev pub poll_world : (ℕ → ℕ) → World → World
poll_world revents w = record w { registry = write_revents revents w.registry }

-- The sweep, once the loop has returned.
unfoldable pub then_sweep : Option (Result (Unit {0} × World)) → Option (Result (Unit {0} × World))
then_sweep none = none
then_sweep (some (throw e)) = some (throw e)
then_sweep (some (ok (x, w))) = some (sweep w)

-- One round of the `while` loop of `run`. An interrupted `::poll` skips the rest of the round.
unfoldable pub run_round : Environment → ℕ → PollAnswer → World → Option (Result (Unit {0} × World))
unfolding dispatch_loop then_sweep
run_round env fuel interrupted w = some (ok (tt, w))
run_round env fuel poll_failed w = some (throw runtime_error)
run_round env fuel (polled n revents) w =
    then_sweep (dispatch_loop env fuel 0 (poll_world revents w))

-- The beginning of `run`, with the descriptor of the listener: its token, and the server that listens.
unfoldable pub start_listening : ℕ → World → ℕ × World
start_listening fd w =
    let (tok, r) = register_event fd pollin Callback.poll_accept w.registry in
    (tok, record w { registry = r })

-- The destructor of the server, on the registry that outlives it.
unfoldable pub stop_listening : ℕ → PollRegistry → PollRegistry
stop_listening tok r = (unregister_event tok r).0
