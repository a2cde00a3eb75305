-- ===== src/Server/Loop/Poll/Guarded.antt =====
-- `poll_and_dispatch` of server/poll_registry.cpp with a guard in front of each callback, as a reference for
-- the loop without: a callback of a connection that is gone or has ended is `null_deref`.
use irc_chat.Base.{nat_eq}
use irc_chat.Base.{
  ℕ, zero, suc, ◌+◌, ◌<◌, ◌≡◌, refl, Bool, true, false, Option, none, some, arith, inl, inr,
  Option-cases, get_elem?, lookup, if◌then◌else◌, Result, ok, throw, runtime_error, null_deref,
}
use irc_chat.Connection.Wiring.{IsServed}
use irc_chat.Registry.Callbacks.{AllIn-get}
use irc_chat.Registry.Poll.{PollAnswer, interrupted, poll_failed, polled, is_ready}
use irc_chat.Registry.{Pollfd, Callback, size_mod}
use irc_chat.Server.Keeping.{Post}
use irc_chat.Server.Loop.Poll.Ends.{IsAt, fire-IsAt}
use irc_chat.Server.Loop.Poll.Safety.{fire-IsServing}
use irc_chat.Server.Loop.Poll.Serving.{IsServing, EndsIn}
use irc_chat.Server.Loop.Poll.{
  Answers, Environment, call_back, fire, dispatch_loop, poll_world, then_sweep,
}
use irc_chat.Server.World.{World, M}

-- Whether the connection is there and connected.
abbrev pub is_up : ℕ → World → Bool
is_up id w = elim (lookup id w.connections) [ none ↦ false | some c ↦ c.connected ]

abbrev pub may_call : Callback → World → Bool
may_call Callback.poll_accept w = true
may_call (Callback.poll_recv id) w = is_up id w
may_call (Callback.poll_send id) w = is_up id w

abbrev pub guarded_call : Answers → Callback → M (Unit {0})
guarded_call a cb w = if may_call cb w then call_back a cb w else throw null_deref

unfoldable pub guarded_fire : Answers → ℕ → Pollfd → M (Unit {0})
guarded_fire a i f w = elim (get_elem? w.registry.callbacks_and_toks i) [
  | none ↦ throw null_deref
  | some (cb, t) ↦ if is_ready f then guarded_call a cb w else ok (tt, w)
]

unfoldable pub guarded_loop : Environment → ℕ → ℕ → World → Option (Result (Unit {0} × World))
unfolding guarded_fire
guarded_loop env zero i w = none
guarded_loop env (suc fuel) i w = elim (get_elem? w.registry.fds i) [
  | none ↦ some (ok (tt, w))
  | some f ↦ elim (guarded_fire (env i) i f w) [
    | throw e ↦ some (throw e)
    | ok (x, w') ↦ guarded_loop env fuel (suc i) w'
  ]
]

-- A round with the guards.
unfoldable pub guarded_round :
    Environment → ℕ → PollAnswer → World → Option (Result (Unit {0} × World))
unfolding guarded_loop
guarded_round env fuel interrupted w = some (ok (tt, w))
guarded_round env fuel poll_failed w = some (throw runtime_error)
guarded_round env fuel (polled n revents) w =
    then_sweep (guarded_loop env fuel 0 (poll_world revents w))

-- Who is served may be called.
served-may_call :
    (w : World) (cb : Callback) (t : ℕ) → IsServed w.connections cb t → may_call cb w ≡ true
served-may_call w Callback.poll_accept t h = refl
served-may_call w (Callback.poll_recv id) t (c, there, up, tok) = ground (arith, there, up)
served-may_call w (Callback.poll_send id) t (c, there, up, tok) = ground (arith, there, up)

guarded_fire-fire :
    (a : Answers) (i : ℕ) (f : Pollfd) (w : World)
    → IsServing w
    → guarded_fire a i f w ≡ fire a i f w
unfolding guarded_fire fire
guarded_fire-fire a i f w h = elim (Option-cases (get_elem? w.registry.callbacks_and_toks i)) [
  | inl gone ↦ rw (gone, guarded_fire, fire) refl
  | inr ((cb, t), e) ↦
      let served =
        AllIn-get (IsServed w.connections) w.registry.callbacks_and_toks i (cb, t) h.wired.served
          e in
      rw (e, guarded_fire, fire) (rw (served-may_call w cb t served) refl)
]

module _ (entries tokens ids : ℕ) (token_room : tokens + 1 < size_mod)
    (id_room : ids < size_mod) where
  pub guarded_loop-dispatch_loop :
      (env : Environment) (fuel i : ℕ) (w : World)
      → IsServing w
      → IsAt entries tokens ids i w
      → guarded_loop env fuel i w ≡ dispatch_loop env fuel i w
  unfolding guarded_loop dispatch_loop
  guarded_loop-dispatch_loop env zero i w h at = refl
  guarded_loop-dispatch_loop env (suc fuel) i w h at =
      elim (Option-cases (get_elem? w.registry.fds i)) [
        | inl gone ↦ rw (gone, guarded_loop, dispatch_loop) refl
        | inr (f, there) ↦
            rw (there, guarded_loop, dispatch_loop)
              (rw (guarded_fire-fire (env i) i f w h) (
                go (fire (env i) i f w) (fire-IsAt entries tokens ids (env i) i f w there at)
                  (fire-IsServing entries tokens ids token_room id_room (env i) i f w there h at)
                  (guarded_loop-dispatch_loop env fuel (suc i))))
      ]
    where
      go :
          (r : Result (Unit {0} × World))
          → Post (IsAt entries tokens ids (suc i)) r
          → EndsIn IsServing r
          → ((w' : World)
              → IsServing w'
              → IsAt entries tokens ids (suc i) w'
              → guarded_loop env fuel (suc i) w' ≡ dispatch_loop env fuel (suc i) w')
          → ◌≡◌ {A = Option (Result (Unit {0} × World))}
              (elim r as (λ _. Option (Result (Unit {0} × World))) [
                | throw e ↦ some (throw e)
                | ok (x, w') ↦ guarded_loop env fuel (suc i) w'
              ])
              (elim r as (λ _. Option (Result (Unit {0} × World))) [
                | throw e ↦ some (throw e)
                | ok (x, w') ↦ dispatch_loop env fuel (suc i) w'
              ])
      go (ok (x, w')) p q next = next w' q p
      go (throw e) p q next = refl
