-- ===== src/Server/Loop/Poll/Ends.antt =====
-- The loop of `poll_and_dispatch` in server/poll_registry.cpp comes to its end, though callbacks put new
-- descriptors behind the index and erase others.
use irc_chat.Base.{
  ℕ, zero, suc, ap, Map, runtime_error, ◌+◌, ◌*◌, ◌≤◌, ◌<◌, ◌≡◌, refl, [], ◌∷◌, Option, some, arith,
  inl, inr, true, false, List, drop, get_elem?, Result, ok, throw, Option-cases, Bool-cases, length,
  if◌then◌else◌,
}
use irc_chat.Registry.Poll.{
  PollAnswer, interrupted, poll_failed, polled, set_revents, is_ready, ready,
}
use irc_chat.Connection.{Connection}
use irc_chat.Registry.{Pollfd}
use irc_chat.Server.Keeping.{Ensures, Post}
use irc_chat.Server.Loop.Poll.Budget.{IsWithin, idle_count}
use irc_chat.Server.Loop.Poll.Callbacks.{Post-map, call_back-IsWithin}
use irc_chat.Server.Loop.Poll.{
  Answers, Environment, call_back, fire, dispatch_loop, poll_world, then_sweep, run_round,
}
use irc_chat.Server.Loop.{sweep}
use irc_chat.Server.World.{World}

-- With the loop at index `i`: the descriptors that may still fire are paid for in advance, at what a
-- callback takes at most.
pub record IsAt (entries tokens ids i : ℕ) (w : World) : Type 0 where
  pub entries_paid :
      length w.registry.fds + idle_count w.connections + 2 * ready (drop i w.registry.fds) ≤ entries
  pub tokens_paid :
      w.registry.next_tok + idle_count w.connections + 2 * ready (drop i w.registry.fds) ≤ tokens
  pub ids_paid : w.curr_id_count + ready (drop i w.registry.fds) ≤ ids

pub ready-drop :
    (i : ℕ) (fs : List Pollfd) (f : Pollfd)
    → get_elem? fs i ≡ some f
    → ready (drop i fs) ≡ (if is_ready f then 1 else 0) + ready (drop (suc i) fs)
unfolding ready
ready-drop i [] f e = cc
ready-drop zero (g ∷ fs) f e = ground arith
ready-drop (suc i) (g ∷ fs) f e = ready-drop i fs f e

pub length-get_elem? :
    (i : ℕ) (fs : List Pollfd) (f : Pollfd) → get_elem? fs i ≡ some f → i < length fs
length-get_elem? i [] f e = cc
length-get_elem? zero (g ∷ fs) f e = omega arith
length-get_elem? (suc i) (g ∷ fs) f e = omega (arith, length-get_elem? i fs f e)

module _ (entries tokens ids : ℕ) where
  pub fire-IsAt :
      (a : Answers) (i : ℕ) (f : Pollfd) (w : World)
      → get_elem? w.registry.fds i ≡ some f
      → IsAt entries tokens ids i w
      → Post (IsAt entries tokens ids (suc i)) (fire a i f w)
  unfolding fire Ensures
  fire-IsAt a i f w there h = elim (Option-cases (get_elem? w.registry.callbacks_and_toks i)) [
    | inl gone ↦ rw (gone, fire) tt
    | inr ((cb, t), e) ↦ elim (Bool-cases (is_ready f)) [
      | inr quiet ↦
          rw (e, quiet, fire)
            (record {
              entries_paid = omega (arith, now quiet, h.entries_paid);
              tokens_paid = omega (arith, now quiet, h.tokens_paid);
              ids_paid = omega (arith, now quiet, h.ids_paid);
            })
      | inl fires ↦
          rw (e, fires, fire)
            (Post-map (IsWithin _ _ _ w.registry) _ (call_back a cb w)
              (λ w' q. record {
                entries_paid =
                    omega (arith, q.few_entries, q.quieter (suc i), fired fires, h.entries_paid);
                tokens_paid =
                    omega (arith, q.few_tokens, q.quieter (suc i), fired fires, h.tokens_paid);
                ids_paid = omega (arith, q.few_ids, q.quieter (suc i), fired fires, h.ids_paid);
              })
              (call_back-IsWithin (length w.registry.fds + idle_count w.connections)
                (w.registry.next_tok + idle_count w.connections) w.curr_id_count w.registry a cb w
                (record {
                  few_entries = omega arith;
                  few_tokens = omega arith;
                  few_ids = omega arith;
                  quieter = λ j. omega arith;
                })))
    ]
  ]
    where
      now : is_ready f ≡ false → ready (drop i w.registry.fds) ≡ ready (drop (suc i) w.registry.fds)
      now q = ground (arith, ready-drop i w.registry.fds f there)

      fired :
          is_ready f ≡ true
          → ready (drop i w.registry.fds) ≡ 1 + ready (drop (suc i) w.registry.fds)
      fired q = ground (arith, ready-drop i w.registry.fds f there)

-- From index `i` on the loop ends, where the fuel reaches behind all entries that may come.
pub dispatch_loop-ends :
    (entries tokens ids : ℕ) (env : Environment) (fuel i : ℕ) (w : World)
    → IsAt entries tokens ids i w
    → entries < fuel + i
    → 0 < fuel
    → (r : Result (Unit {0} × World)) × (dispatch_loop env fuel i w ≡ some r)
unfolding dispatch_loop
dispatch_loop-ends entries tokens ids env zero i w h lt pos = absurd (omega arith)
dispatch_loop-ends entries tokens ids env (suc fuel) i w h lt pos =
    elim (Option-cases (get_elem? w.registry.fds i)) [
      | inl gone ↦ (ok (tt, w), rw (gone, dispatch_loop) refl)
      | inr (f, there) ↦
          rw (there, dispatch_loop)
            (go (fire (env i) i f w) (fire-IsAt entries tokens ids (env i) i f w there h)
              (omega (arith, length-get_elem? i w.registry.fds f there, h.entries_paid))
              (dispatch_loop-ends entries tokens ids env fuel (suc i)))
    ]
  where
    go :
        (r : Result (Unit {0} × World))
        → Post (IsAt entries tokens ids (suc i)) r
        → i < entries
        → ((w' : World)
            → IsAt entries tokens ids (suc i) w'
            → entries < fuel + suc i
            → 0 < fuel
            → (r' : Result (Unit {0} × World)) × (dispatch_loop env fuel (suc i) w' ≡ some r'))
        → (r' : Result (Unit {0} × World)) × ((elim r as (λ _. Option (Result (Unit {0} × World))) [
          | throw e ↦ some (throw e)
          | ok (x, w') ↦ dispatch_loop env fuel (suc i) w'
        ])
            ≡ some r')
    go (throw e) p le next = (throw e, refl)
    go (ok (x, w')) p le next = next w' p (omega arith) (omega arith)

-- Rounds that are enough for one call of `poll_and_dispatch`.
abbrev pub enough_rounds : World → ℕ
enough_rounds w = suc (3 * length w.registry.fds + length w.connections)

pub ready-le-length : (fs : List Pollfd) → ready fs ≤ length fs
unfolding ready
ready-le-length [] = omega arith
ready-le-length (f ∷ fs) = ground (arith, ready-le-length fs)

pub idle_count-le-length : (m : Map ℕ Connection) → idle_count m ≤ length m
unfolding idle_count
idle_count-le-length [] = omega arith
idle_count-le-length ((k, c) ∷ m) = ground (arith, idle_count-le-length m)

pub length-set_revents :
    (revents : ℕ → ℕ) (i : ℕ) (fs : List Pollfd) → length (set_revents revents i fs) ≡ length fs
unfolding set_revents
length-set_revents revents i [] = refl
length-set_revents revents i (f ∷ fs) = ap suc (length-set_revents revents (suc i) fs)

-- Whatever the system answers, in any state of the server, a round of the main loop comes to its end,
-- by an exception or with a new state: `poll_and_dispatch` goes through its loop at most three times
-- for each descriptor and once for each connection, and once more, though the callbacks register and
-- unregister descriptors under the loop.
pub run_round-ends :
    (env : Environment) (answer : PollAnswer) (w : World)
    → (r : Result (Unit {0} × World)) × (run_round env (enough_rounds w) answer w ≡ some r)
unfolding run_round then_sweep
run_round-ends env interrupted w = (ok (tt, w), refl)
run_round-ends env poll_failed w = (throw runtime_error, refl)
run_round-ends env (polled n revents) w =
    let w₁ = poll_world revents w in
    let len = length-set_revents revents 0 w.registry.fds in
    let few = ready-le-length w₁.registry.fds in
    let (r, e) =
      dispatch_loop-ends
        (length w₁.registry.fds + idle_count w.connections + 2 * ready w₁.registry.fds)
        (w.registry.next_tok + idle_count w.connections + 2 * ready w₁.registry.fds)
        (w.curr_id_count + ready w₁.registry.fds) env (enough_rounds w) 0 w₁
        (record { entries_paid = omega arith; tokens_paid = omega arith; ids_paid = omega arith })
        (omega (arith, idle_count-le-length w.connections)) (omega arith) in
    swept r e
  where
    swept :
        (r : Result (Unit {0} × World))
        → dispatch_loop env (enough_rounds w) 0 (poll_world revents w) ≡ some r
        → (r' : Result (Unit {0} × World)) × (then_sweep
              (dispatch_loop env (enough_rounds w) 0 (poll_world revents w))
            ≡ some r')
    swept (throw x) e = (throw x, ap then_sweep e)
    swept (ok (x, w')) e = (sweep w', ap then_sweep e)
