-- ===== src/Registry/Tokens.antt =====
-- Lemmas on the two vectors and the tokens of server/poll_registry.cpp.
use native.Mathlib.Nat.{mod-eq_of_lt}
use irc_chat.Base.{
  ℕ, zero, suc, ◌+◌, ◌%◌, ◌≤◌, ◌<◌, ◌≡◌, refl, ap, ◌∙◌, Bool, true, false, List, [], ◌∷◌, ◌++◌,
  none, some, arith, ◌==◌, if◌then◌else◌, length, Option-cases, inl, inr, sym,
}
use irc_chat.Registry.{
  size_mod, Pollfd, Callback, PollRegistry, register_event, index_of, erase_at, unregister_event,
}

-- What is registered: the token, the descriptor, the events and the callback of each entry.
pub record Entry : Type 0 where
  pub tok : ℕ
  pub fd : ℕ
  pub events : ℕ
  pub callback : Callback

abbrev pub zip_entries : List Pollfd → List (Callback × ℕ) → List Entry
zip_entries (f ∷ fs) ((cb, t) ∷ r) =
    record { tok = t; fd = f.fd; events = f.events; callback = cb } ∷ zip_entries fs r
zip_entries _ _ = []

abbrev pub entries : PollRegistry → List Entry
entries r = zip_entries r.fds r.callbacks_and_toks

-- Tokens rise along the vector and stay below the next one.
abbrev pub Rising : ℕ → List (Callback × ℕ) → ℕ → Type 0
Rising lo [] hi = lo ≤ hi
Rising lo ((cb, t) ∷ r) hi = (lo ≤ t) × Rising (suc t) r hi

pub record IsRegistry (r : PollRegistry) : Type 0 where
  pub in_step : length r.fds ≡ length r.callbacks_and_toks
  pub rising : Rising 0 r.callbacks_and_toks r.next_tok

Rising-concat :
    (lo : ℕ) (l : List (Callback × ℕ)) (hi : ℕ) (cb : Callback)
    → Rising lo l hi
    → Rising lo (l ++ (cb, hi) ∷ []) (suc hi)
Rising-concat lo [] hi cb h = (h, omega arith)
Rising-concat lo ((c, t) ∷ r) hi cb h = (h.0, Rising-concat (suc t) r hi cb h.1)

length-concat {ℓ} : {A : Type ℓ} (l : List A) (a : A) → length (l ++ a ∷ []) ≡ suc (length l)
length-concat [] a = refl
length-concat (x ∷ l) a = ap suc (length-concat l a)

-- `register_event` keeps a registry well formed, while the next token is below `2 ^ 64 - 1`.
pub register_event-IsRegistry :
    (fd events : ℕ) (cb : Callback) (r : PollRegistry)
    → IsRegistry r
    → r.next_tok + 1 < size_mod
    → IsRegistry (register_event fd events cb r).1
unfolding register_event
register_event-IsRegistry fd events cb r h lt = record {
  in_step = omega (
    arith,
    length-concat r.fds (record { fd = fd; events = events; revents = 0 }),
    length-concat r.callbacks_and_toks (cb, r.next_tok),
    h.in_step,
  );
  rising =
      let e : (r.next_tok + 1) % size_mod ≡ suc r.next_tok = mod-eq_of_lt lt ∙ omega arith in
      rw e (Rising-concat 0 r.callbacks_and_toks r.next_tok cb h.rising);
}

zip_entries-concat :
    (fs : List Pollfd) (l : List (Callback × ℕ)) (f : Pollfd) (x : Callback × ℕ)
    → length fs ≡ length l
    → zip_entries (fs ++ f ∷ []) (l ++ x ∷ []) ≡ zip_entries fs l ++ zip_entries (f ∷ []) (x ∷ [])
zip_entries-concat [] [] f (cb, t) h = refl
zip_entries-concat [] (y ∷ l) f x h = absurd (omega arith)
zip_entries-concat (g ∷ fs) [] f x h = absurd (omega arith)
zip_entries-concat (g ∷ fs) ((cb, t) ∷ l) f x h =
    ap (◌∷◌ (record { tok = t; fd = g.fd; events = g.events; callback = cb }))
      (zip_entries-concat fs l f x (omega arith))

-- What is registered afterwards, described by tokens alone.
abbrev pub remove_tok : ℕ → List Entry → List Entry
remove_tok t [] = []
remove_tok t (e ∷ es) = if e.tok == t then remove_tok t es else e ∷ remove_tok t es

abbrev pub has_tok : ℕ → List Entry → Bool
has_tok t [] = false
has_tok t (e ∷ es) = if e.tok == t then true else has_tok t es

module _ (tok : ℕ) where
  remove_tok_below :
      (lo : ℕ) (fs : List Pollfd) (l : List (Callback × ℕ)) (hi : ℕ)
      → Rising lo l hi
      → tok < lo
      → remove_tok tok (zip_entries fs l) ≡ zip_entries fs l
  remove_tok_below lo [] l hi h lt = refl
  remove_tok_below lo (f ∷ fs) [] hi h lt = refl
  remove_tok_below lo (f ∷ fs) ((cb, t) ∷ l) hi h lt =
      ground (arith, remove_tok_below (suc t) fs l hi h.1)

  -- Erasing at the index in both vectors drops the one entry with the token.
  erase_at-remove_tok :
      (lo : ℕ) (fs : List Pollfd) (l : List (Callback × ℕ)) (hi i : ℕ)
      → Rising lo l hi
      → index_of tok l ≡ some i
      → zip_entries (erase_at i fs) (erase_at i l) ≡ remove_tok tok (zip_entries fs l)
  unfolding index_of erase_at
  erase_at-remove_tok lo fs [] hi i h e = cc
  erase_at-remove_tok lo [] ((cb, t) ∷ l) hi i h e = refl
  erase_at-remove_tok lo (f ∷ fs) ((cb, t) ∷ l) hi zero h e =
      ground (arith, remove_tok_below (suc t) fs l hi h.1)
  erase_at-remove_tok lo (f ∷ fs) ((cb, t) ∷ l) hi (suc i) h e =
      ground (arith, erase_at-remove_tok (suc t) fs l hi i h.1)

  index_of-none :
      (fs : List Pollfd) (l : List (Callback × ℕ))
      → index_of tok l ≡ none
      → (remove_tok tok (zip_entries fs l) ≡ zip_entries fs l)
        × (has_tok tok (zip_entries fs l) ≡ false)
  unfolding index_of
  index_of-none [] l e = (refl, refl)
  index_of-none (f ∷ fs) [] e = (refl, refl)
  index_of-none (f ∷ fs) ((cb, t) ∷ l) e =
      (ground (arith, index_of-none fs l), ground (arith, index_of-none fs l))

  index_of-some :
      (fs : List Pollfd) (l : List (Callback × ℕ)) (i : ℕ)
      → length fs ≡ length l
      → index_of tok l ≡ some i
      → (has_tok tok (zip_entries fs l) ≡ true) × (i < length l)
  unfolding index_of
  index_of-some [] [] i h e = cc
  index_of-some [] (x ∷ l) i h e = absurd (omega arith)
  index_of-some (f ∷ fs) [] i h e = cc
  index_of-some (f ∷ fs) ((cb, t) ∷ l) zero h e = (ground arith, omega arith)
  index_of-some (f ∷ fs) ((cb, t) ∷ l) (suc i) h e =
      (ground (arith, index_of-some fs l i), ground (arith, index_of-some fs l i))

  erase_at-Rising :
      (lo : ℕ) (l : List (Callback × ℕ)) (hi i : ℕ) → Rising lo l hi → Rising lo (erase_at i l) hi
  unfolding erase_at
  erase_at-Rising lo [] hi i h = h
  erase_at-Rising lo ((cb, t) ∷ []) hi zero h = omega arith
  erase_at-Rising lo ((cb, t) ∷ (c, u) ∷ l) hi zero h = (omega arith, h.1.1)
  erase_at-Rising lo ((cb, t) ∷ l) hi (suc i) h = (h.0, erase_at-Rising (suc t) l hi i h.1)

length-erase_at {ℓ} :
    {A : Type ℓ} (i : ℕ) (l : List A) → i < length l → suc (length (erase_at i l)) ≡ length l
unfolding erase_at
length-erase_at i [] h = absurd (omega arith)
length-erase_at zero (x ∷ l) h = refl
length-erase_at (suc i) (x ∷ l) h = ap suc (length-erase_at i l (omega arith))

-- On a well-formed registry `register_event` returns the next token and appends one entry with that
-- token, the descriptor, the events and the callback, leaving the others as they were.
pub entries-register_event :
    (fd events : ℕ) (cb : Callback) (r : PollRegistry)
    → IsRegistry r
    → let (tok, r') = register_event fd events cb r in
      (tok ≡ r.next_tok)
      × (entries r'
          ≡ entries r ++ record { tok = tok; fd = fd; events = events; callback = cb } ∷ [])
unfolding register_event
entries-register_event fd events cb r h =
    (refl, zip_entries-concat r.fds r.callbacks_and_toks _ (cb, r.next_tok) h.in_step)

-- On a registry whose vectors are in step and whose tokens rise, `unregister_event` drops the
-- entries with the token from both vectors and leaves the others as they were, its result is
-- whether there was one, and the registry stays well formed.
pub unregister_event-remove_tok :
    (tok : ℕ) (r : PollRegistry)
    → IsRegistry r
    → let (r', found) = unregister_event tok r in
      (entries r' ≡ remove_tok tok (entries r)) × (found ≡ has_tok tok (entries r)) × IsRegistry r'
unfolding unregister_event
unregister_event-remove_tok tok r h = elim (Option-cases (index_of tok r.callbacks_and_toks)) [
  | inl e ↦
      let (same, absent) = index_of-none tok r.fds r.callbacks_and_toks e in
      rw (e, unregister_event) (sym same, sym absent, h)
  | inr (i, e) ↦
      let (present, lt) = index_of-some tok r.fds r.callbacks_and_toks i h.in_step e in
      rw (e, unregister_event)
        (
          erase_at-remove_tok tok 0 r.fds r.callbacks_and_toks r.next_tok i h.rising e,
          sym present,
          record {
            in_step = omega (
              arith,
              length-erase_at i r.fds,
              length-erase_at i r.callbacks_and_toks,
              h.in_step,
              lt,
            );
            rising = erase_at-Rising tok 0 r.callbacks_and_toks r.next_tok i h.rising;
          },
        )
]
