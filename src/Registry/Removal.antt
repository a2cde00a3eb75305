-- ===== src/Registry/Removal.antt =====
-- Events of server/poll_registry.cpp that are registered one behind the other, and the removal of either.
use native.Mathlib.Nat.{mod-eq_of_lt}
use mathlib.Core.List.{append_assoc}
use irc_chat.Base.{ℕ, suc, ◌+◌, ◌≤◌, ◌<◌, ◌≡◌, refl, ap, ◌∙◌, true, List, [], ◌∷◌, ◌++◌, arith}
use irc_chat.Registry.Tokens.{
  Entry, entries, zip_entries, IsRegistry, Rising, remove_tok, has_tok, register_event-IsRegistry,
  entries-register_event, unregister_event-remove_tok,
}
use irc_chat.Registry.{size_mod, Pollfd, Callback, PollRegistry, register_event, unregister_event}

Rising-le : (lo : ℕ) (l : List (Callback × ℕ)) (hi : ℕ) → Rising lo l hi → lo ≤ hi
Rising-le lo [] hi h = h
Rising-le lo ((cb, t) ∷ l) hi h = omega (arith, h.0, Rising-le (suc t) l hi h.1)

module _ (tok : ℕ) where
  remove_tok_above :
      (lo : ℕ) (fs : List Pollfd) (l : List (Callback × ℕ)) (hi : ℕ)
      → Rising lo l hi
      → hi ≤ tok
      → remove_tok tok (zip_entries fs l) ≡ zip_entries fs l
  remove_tok_above lo [] l hi h le = refl
  remove_tok_above lo (f ∷ fs) [] hi h le = refl
  remove_tok_above lo (f ∷ fs) ((cb, t) ∷ l) hi h le =
      ground (arith, remove_tok_above (suc t) fs l hi h.1, Rising-le (suc t) l hi h.1)

  remove_tok-append :
      (es fs : List Entry) → remove_tok tok (es ++ fs) ≡ remove_tok tok es ++ remove_tok tok fs
  remove_tok-append [] fs = refl
  remove_tok-append (e ∷ es) fs = ground (arith, remove_tok-append es fs)

  has_tok-append : (es fs : List Entry) → has_tok tok fs ≡ true → has_tok tok (es ++ fs) ≡ true
  has_tok-append [] fs h = h
  has_tok-append (e ∷ es) fs h = ground (arith, has_tok-append es fs h)

  remove_tok-entries :
      (r : PollRegistry) (fs : List Entry)
      → IsRegistry r
      → r.next_tok ≤ tok
      → remove_tok tok (entries r ++ fs) ≡ entries r ++ remove_tok tok fs
  remove_tok-entries r fs h le =
      remove_tok-append (entries r) fs
      ∙ ap (λ es. es ++ remove_tok tok fs)
          (remove_tok_above 0 r.fds r.callbacks_and_toks r.next_tok h.rising le)

next_tok_lem :
    (fd events : ℕ) (cb : Callback) (r : PollRegistry)
    → r.next_tok + 1 < size_mod
    → (register_event fd events cb r).1.next_tok ≡ suc r.next_tok
unfolding register_event
next_tok_lem fd events cb r lt = mod-eq_of_lt lt ∙ omega arith

-- Of two events that are registered one behind the other on a well-formed registry with room for two
-- tokens, the token of each is its own: to unregister it succeeds, drops that event and leaves the
-- other, with its token, its descriptor and its callback, and all that were there before.
pub unregister_event-register_event :
    (fd events fd' events' : ℕ) (cb cb' : Callback) (r : PollRegistry)
    → IsRegistry r
    → r.next_tok + 2 < size_mod
    → let (a, r₁) = register_event fd events cb r in
      let (b, r₂) = register_event fd' events' cb' r₁ in
      (entries (unregister_event a r₂).0
        ≡ entries r ++ record { tok = b; fd = fd'; events = events'; callback = cb' } ∷ [])
      × (entries (unregister_event b r₂).0
          ≡ entries r ++ record { tok = a; fd = fd; events = events; callback = cb } ∷ [])
      × ((unregister_event a r₂).1 ≡ true)
      × ((unregister_event b r₂).1 ≡ true)
unregister_event-register_event fd events fd' events' cb cb' r h room =
    let (a, r₁) = register_event fd events cb r in
    let (b, r₂) = register_event fd' events' cb' r₁ in
    let ea : Entry = record { tok = a; fd = fd; events = events; callback = cb } in
    let eb : Entry = record { tok = b; fd = fd'; events = events'; callback = cb' } in
    let h₁ = register_event-IsRegistry fd events cb r h (omega arith) in
    let next = next_tok_lem fd events cb r (omega arith) in
    let h₂ = register_event-IsRegistry fd' events' cb' r₁ h₁ (omega arith) in
    let (ta, es₁) = entries-register_event fd events cb r h in
    let (tb, es₂) = entries-register_event fd' events' cb' r₁ h₁ in
    let all : entries r₂ ≡ entries r ++ ea ∷ eb ∷ [] =
      es₂ ∙ ap (λ es. es ++ eb ∷ []) es₁ ∙ append_assoc (entries r) (ea ∷ []) (eb ∷ []) in
    let (da, fa, _) = unregister_event-remove_tok a r₂ h₂ in
    let (db, fb, _) = unregister_event-remove_tok b r₂ h₂ in
    (
      da
          ∙ ap (remove_tok a) all
          ∙ remove_tok-entries a r (ea ∷ eb ∷ []) h (omega arith)
          ∙ ap (λ es. entries r ++ es) (ground arith),
      db
          ∙ ap (remove_tok b) all
          ∙ remove_tok-entries b r (ea ∷ eb ∷ []) h (omega arith)
          ∙ ap (λ es. entries r ++ es) (ground arith),
      fa ∙ ap (has_tok a) all ∙ has_tok-append a (entries r) (ea ∷ eb ∷ []) (ground arith),
      fb ∙ ap (has_tok b) all ∙ has_tok-append b (entries r) (ea ∷ eb ∷ []) (ground arith),
    )
