-- ===== src/Registry/Callbacks.antt =====
-- A property of every callback and its token, as server/poll_registry.cpp registers and unregisters
-- events.
use mathlib.Core.Path.{subst}
use mathlib.Core.Option.{some-injective}
use irc_chat.Base.{
  ℕ, zero, suc, ◌<◌, ◌≡◌, ◌≢◌, inl, inr, List, [], ◌∷◌, ◌++◌, none, some, arith, get_elem?, AllIn,
  Option-cases,
}
use irc_chat.Registry.Tokens.{Rising, IsRegistry}
use irc_chat.Registry.{Callback, PollRegistry, index_of, erase_at, unregister_event}

module _ (P : Callback → ℕ → Type 0) where
  pub AllIn-get :
      (l : List (Callback × ℕ)) (i : ℕ) (x : Callback × ℕ)
      → AllIn P l
      → get_elem? l i ≡ some x
      → P x.0 x.1
  AllIn-get [] i x h e = cc
  AllIn-get ((cb, t) ∷ l) zero x h e = subst (λ y. P y.0 y.1) (some-injective (cb, t) x e) h.0
  AllIn-get (y ∷ l) (suc i) x h e = AllIn-get l i x h.1 e

  pub AllIn-concat :
      (l : List (Callback × ℕ)) (cb : Callback) (t : ℕ)
      → AllIn P l
      → P cb t
      → AllIn P (l ++ (cb, t) ∷ [])
  AllIn-concat [] cb t h p = (p, tt)
  AllIn-concat ((cb', t') ∷ l) cb t h p = (h.0, AllIn-concat l cb t h.1 p)

module _ (P Q : Callback → ℕ → Type 0) where
  pub AllIn-map :
      (l : List (Callback × ℕ))
      → ((cb : Callback) (t : ℕ) → P cb t → Q cb t)
      → AllIn P l
      → AllIn Q l
  AllIn-map [] f h = tt
  AllIn-map ((cb, t) ∷ l) f h = (f cb t h.0, AllIn-map l f h.1)

  -- What holds of the callbacks with other tokens holds of those that are left.
  module _ (tok : ℕ) (others : (cb : Callback) (t : ℕ) → t ≢ tok → P cb t → Q cb t) where
    AllIn-above :
        (lo : ℕ) (l : List (Callback × ℕ)) (hi : ℕ)
        → Rising lo l hi
        → tok < lo
        → AllIn P l
        → AllIn Q l
    AllIn-above lo [] hi r lt h = tt
    AllIn-above lo ((cb, t) ∷ l) hi r lt h =
        (others cb t (omega arith) h.0, AllIn-above (suc t) l hi r.1 (omega arith) h.1)

    AllIn-erase_at :
        (lo : ℕ) (l : List (Callback × ℕ)) (hi : ℕ) (i : ℕ)
        → Rising lo l hi
        → index_of tok l ≡ some i
        → AllIn P l
        → AllIn Q (erase_at i l)
    unfolding index_of erase_at
    AllIn-erase_at lo [] hi i r e h = cc
    AllIn-erase_at lo ((cb, t) ∷ l) hi zero r e h =
        AllIn-above (suc t) l hi r.1 (ground (arith)) h.1
    AllIn-erase_at lo ((cb, t) ∷ l) hi (suc i) r e h =
        (others cb t (ground (arith)) h.0, AllIn-erase_at (suc t) l hi i r.1 (ground arith) h.1)

    AllIn-absent : (l : List (Callback × ℕ)) → index_of tok l ≡ none → AllIn P l → AllIn Q l
    unfolding index_of
    AllIn-absent [] e h = tt
    AllIn-absent ((cb, t) ∷ l) e h =
        (others cb t (ground arith) h.0, AllIn-absent l (ground arith) h.1)

    pub AllIn-unregister :
        (r : PollRegistry)
        → IsRegistry r
        → AllIn P r.callbacks_and_toks
        → AllIn Q (unregister_event tok r).0.callbacks_and_toks
    unfolding unregister_event
    AllIn-unregister r inv h = elim (Option-cases (index_of tok r.callbacks_and_toks)) [
      | inl e ↦ rw (e, unregister_event) (AllIn-absent r.callbacks_and_toks e h)
      | inr (i, e) ↦
          rw (e, unregister_event)
            (AllIn-erase_at 0 r.callbacks_and_toks r.next_tok i inv.rising e h)
    ]
