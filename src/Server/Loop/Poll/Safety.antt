-- ===== src/Server/Loop/Poll/Safety.antt =====
-- A round of the main loop of `server::run`, server/main.cpp: `poll_and_dispatch` and the sweep. No
-- callback runs on a connection that is gone, whatever the callbacks do to the registry.
use irc_chat.Base.{nat_eq}
use irc_chat.Base.{
  ℕ, zero, suc, ◌+◌, ◌<◌, ◌≤◌, ◌≡◌, refl, List, [], ◌∷◌, Option, none, some, arith, inl, inr,
  Option-cases, Bool-cases, get_elem?, length, drop, Result, ok, throw, out_of_range,
  bad_variant_access, bad_optional_access, runtime_error, null_deref, parse_error,
}
use irc_chat.Connection.Wiring.{IsServed}
use irc_chat.Registry.Callbacks.{AllIn-get}
use irc_chat.Registry.Poll.{is_ready, ready}
use irc_chat.Registry.{Pollfd, size_mod}
use irc_chat.Server.Keeping.{Post}
use irc_chat.Server.Loop.Poll.Budget.{idle_count}
use irc_chat.Server.Loop.Poll.Ends.{IsAt, fire-IsAt, ready-drop, length-get_elem?}
use irc_chat.Server.Loop.Poll.Serving.{IsServing, EndsIn, call_back-IsServing}
use irc_chat.Server.Loop.Poll.{Answers, Environment, fire, dispatch_loop}
use irc_chat.Server.World.{World}

get_elem?-none {ℓ} : {A : Type ℓ} (l : List A) (i : ℕ) → get_elem? l i ≡ none → length l ≤ i
get_elem?-none [] i e = omega arith
get_elem?-none (x ∷ l) zero e = cc
get_elem?-none (x ∷ l) (suc i) e = omega (arith, get_elem?-none l i e)

module _ (entries tokens ids : ℕ) (token_room : tokens + 1 < size_mod)
    (id_room : ids < size_mod) where
  pub fire-IsServing :
      (a : Answers) (i : ℕ) (f : Pollfd) (w : World)
      → get_elem? w.registry.fds i ≡ some f
      → IsServing w
      → IsAt entries tokens ids i w
      → EndsIn IsServing (fire a i f w)
  unfolding fire
  fire-IsServing a i f w there h at =
      elim (Option-cases (get_elem? w.registry.callbacks_and_toks i)) [
        | inl gone ↦ absurd (
            omega (
              arith,
              get_elem?-none w.registry.callbacks_and_toks i gone,
              length-get_elem? i w.registry.fds f there,
              h.wired.registry.in_step,
            ))
        | inr ((cb, t), e) ↦ elim (Bool-cases (is_ready f)) [
          | inr quiet ↦ rw (e, quiet, fire) h
          | inl fires ↦
              let one : 1 ≤ ready (drop i w.registry.fds) =
                ground (arith, ready-drop i w.registry.fds f there) in
              rw (e, fires, fire)
                (call_back-IsServing w h (omega (arith, at.tokens_paid)) a cb t
                  (AllIn-get (IsServed w.connections) w.registry.callbacks_and_toks i (cb, t)
                    h.wired.served e)
                  (omega (arith, at.ids_paid)))
        ]
      ]

  -- Behind the loop: the server serves, and has used no more tokens than were paid for.
  abbrev pub Finished : World → Type 0
  Finished w = IsServing w × (w.registry.next_tok + idle_count w.connections ≤ tokens)

  pub dispatch_loop-serves :
      (env : Environment) (fuel i : ℕ) (w : World)
      → IsServing w
      → IsAt entries tokens ids i w
      → entries < fuel + i
      → 0 < fuel
      → (r : Result (Unit {0} × World)) × (dispatch_loop env fuel i w ≡ some r) × EndsIn Finished r
  unfolding dispatch_loop
  dispatch_loop-serves env zero i w h at lt pos = absurd (omega arith)
  dispatch_loop-serves env (suc fuel) i w h at lt pos =
      elim (Option-cases (get_elem? w.registry.fds i)) [
        | inl gone ↦ (ok (tt, w), rw (gone, dispatch_loop) refl, (h, omega (arith, at.tokens_paid)))
        | inr (f, there) ↦
            rw (there, dispatch_loop)
              (go (fire (env i) i f w) (fire-IsAt entries tokens ids (env i) i f w there at)
                (fire-IsServing (env i) i f w there h at)
                (omega (arith, length-get_elem? i w.registry.fds f there, at.entries_paid))
                (dispatch_loop-serves env fuel (suc i)))
      ]
    where
      go :
          (r : Result (Unit {0} × World))
          → Post (IsAt entries tokens ids (suc i)) r
          → EndsIn IsServing r
          → i < entries
          → ((w' : World)
              → IsServing w'
              → IsAt entries tokens ids (suc i) w'
              → entries < fuel + suc i
              → 0 < fuel
              → (r' : Result (Unit {0} × World)) × (dispatch_loop env fuel (suc i) w' ≡ some r')
                × EndsIn Finished r')
          → (r' : Result (Unit {0} × World)) × ((elim r
                as (λ _. Option (Result (Unit {0} × World))) [
                  | throw e ↦ some (throw e)
                  | ok (x, w') ↦ dispatch_loop env fuel (suc i) w'
                ])
              ≡ some r')
            × EndsIn Finished r'
      go (ok (x, w')) p q le next = next w' q p (omega arith) (omega arith)
      go (throw out_of_range) p q le next = (throw out_of_range, refl, tt)
      go (throw bad_variant_access) p q le next = (throw bad_variant_access, refl, tt)
      go (throw runtime_error) p q le next = (throw runtime_error, refl, tt)
      go (throw bad_optional_access) p q le next = absurd q
      go (throw (parse_error msg)) p q le next = absurd q
      go (throw null_deref) p q le next = absurd q
