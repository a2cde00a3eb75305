-- ===== src/Tests/Poll.antt =====
-- Rounds of the main loop of server/main.cpp on concrete answers of the system.
use irc_chat.Base.{nat_eq, text_eq}
use irc_chat.Base.{◌≡◌, refl, some, codes, arith, lookup, insert, ok, Result}
use irc_chat.Connection.Send.{would_block}
use irc_chat.Connection.{connect}
use irc_chat.Registry.Poll.{polled, set_revents, is_ready}
use irc_chat.Registry.{register_event}
use irc_chat.Server.Loop.Poll.Ends.{enough_rounds, run_round-ends}
use irc_chat.Server.Loop.Poll.Guarded.{guarded_round}
use irc_chat.Server.Loop.Poll.Rounds.{
  IsStanding, HasRoom, listening, start, round, run_round-IsStanding, Rounds-IsStanding,
}
use irc_chat.Server.Loop.Poll.Serving.{EndsIn}
use irc_chat.Server.Loop.Poll.{
  Environment, accepted, accept_failed, run_round, dispatch_loop, fire, call_back, try_accept,
  poll_world, then_sweep, start_listening,
}
use irc_chat.Server.Loop
use irc_chat.Server.Loop.{received, poll_accept, sweep, sweep_all, ids_of, sweep_one}
use irc_chat.Server.World.{World}
use irc_chat.Server.Closing.{IsOwn, destroy_all, contains-ids_of, destroy_all-IsOwn}
use irc_chat.Base.{AllIn, sym, ◌∙◌}

-- A client comes: `accept` gives the descriptor 5, and nothing else is answered.
abbrev arrival : Environment
arrival i = record { accept = accepted 5 1; recv = Loop.would_block; send = λ n buf. would_block }

abbrev first_arrival : World
first_arrival = poll_accept 5 1 (poll_world (λ i. 1) (listening 3))

listening_room : HasRoom (listening 3)
unfolding start_listening register_event
listening_room = record { tokens = omega arith; ids = omega arith }

arrives :
    run_round arrival (enough_rounds (listening 3)) (polled 1 (λ i. 1)) (listening 3)
    ≡ some (ok (tt, first_arrival))
unfolding run_round dispatch_loop fire call_back try_accept poll_accept connect start_listening
    register_event set_revents is_ready then_sweep sweep sweep_all ids_of sweep_one lookup insert
arrives = refl

Rounds-IsStanding_example : IsStanding first_arrival
Rounds-IsStanding_example =
    Rounds-IsStanding 3 (round arrival (polled 1 (λ i. 1)) start listening_room arrives)

-- The client, on the descriptor at index 1, sends a line.
abbrev nick_comes : Environment
nick_comes i = record {
  accept = accept_failed;
  recv = received (codes "NICK ann\n");
  send = λ n buf. would_block;
}

first_arrival-IsStanding : IsStanding first_arrival
first_arrival-IsStanding =
    Rounds-IsStanding 3 (round arrival (polled 1 (λ i. 1)) start listening_room arrives)

first_arrival_room : HasRoom first_arrival
unfolding start_listening register_event poll_accept connect set_revents insert
first_arrival_room = record { tokens = omega arith; ids = omega arith }

run_round-IsStanding_example :
    (r : Result (Unit {0} × World)) × (run_round nick_comes
        (enough_rounds first_arrival)
        (polled 1 (λ i. i))
        first_arrival
      ≡ some r)
    × (guarded_round nick_comes (enough_rounds first_arrival) (polled 1 (λ i. i)) first_arrival
        ≡ some r)
    × EndsIn IsStanding r
run_round-IsStanding_example =
    run_round-IsStanding nick_comes (polled 1 (λ i. i)) first_arrival first_arrival-IsStanding
      first_arrival_room

run_round-ends_example :
    (r : Result (Unit {0} × World)) × (run_round nick_comes
        (enough_rounds first_arrival)
        (polled 1 (λ i. i))
        first_arrival
      ≡ some r)
run_round-ends_example = run_round-ends nick_comes (polled 1 (λ i. i)) first_arrival

destroy_all-IsOwn_example :
    AllIn IsOwn
      (destroy_all
        (ids_of first_arrival.connections)
        (first_arrival.connections, first_arrival.registry)).1.callbacks_and_toks
destroy_all-IsOwn_example =
    destroy_all-IsOwn (ids_of first_arrival.connections) first_arrival.connections
      first_arrival.registry (λ k e. sym (contains-ids_of first_arrival.connections k) ∙ e)
      first_arrival-IsStanding.serving.wired
