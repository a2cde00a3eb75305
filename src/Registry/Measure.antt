-- ===== src/Registry/Measure.antt =====
-- How long the vectors of server/poll_registry.cpp are and how many of their descriptors have an event
-- that is waited for, as events are registered and unregistered.
use native.Mathlib.Nat.{mod-le}
use Prim.Native.Nat.{bit_and, bit_and-bitwise}
use irc_chat.Base.{
  not, ap, ◌==◌, ℕ, zero, suc, ◌+◌, ◌≤◌, ◌≡◌, refl, false, List, [], ◌∷◌, ◌++◌, arith, length, drop,
  inl, inr, Option-cases,
}
use irc_chat.Registry.Poll.{is_ready, ready}
use irc_chat.Registry.{
  size_mod, Pollfd, Callback, PollRegistry, register_event, index_of, erase_at, unregister_event,
}

-- `r'` has no more descriptors with an event than `r` has, counted from any index on.
abbrev pub IsQuieter : PollRegistry → PollRegistry → Type 0
IsQuieter r' r = (i : ℕ) → ready (drop i r'.fds) ≤ ready (drop i r.fds)

ready-concat :
    (i : ℕ) (fs : List Pollfd) (f : Pollfd)
    → is_ready f ≡ false
    → ready (drop i (fs ++ f ∷ [])) ≤ ready (drop i fs)
unfolding ready
ready-concat zero [] f q = ground arith
ready-concat (suc i) [] f q = drop_nil i
  where
    drop_nil : (j : ℕ) → ready (drop j []) ≤ ready []
    drop_nil zero = omega arith
    drop_nil (suc j) = omega arith
ready-concat zero (g ∷ fs) f q = omega (arith, ready-concat zero fs f q)
ready-concat (suc i) (g ∷ fs) f q = ready-concat i fs f q

ready-tail : (i : ℕ) (f : Pollfd) (fs : List Pollfd) → ready (drop i fs) ≤ ready (drop i (f ∷ fs))
unfolding ready
ready-tail zero f fs = omega arith
ready-tail (suc i) f [] = ready-nil i
  where
    ready-nil : (j : ℕ) → ready [] ≤ ready (drop j [])
    ready-nil zero = omega arith
    ready-nil (suc j) = omega arith
ready-tail (suc i) f (g ∷ fs) = ready-tail i g fs

ready-erase_at : (i j : ℕ) (fs : List Pollfd) → ready (drop i (erase_at j fs)) ≤ ready (drop i fs)
unfolding erase_at ready
ready-erase_at i j [] = omega arith
ready-erase_at i zero (f ∷ fs) = ready-tail i f fs
ready-erase_at zero (suc j) (f ∷ fs) = omega (arith, ready-erase_at zero j fs)
ready-erase_at (suc i) (suc j) (f ∷ fs) = ready-erase_at i j fs

length-concat {ℓ} : {A : Type ℓ} (l : List A) (a : A) → length (l ++ a ∷ []) ≡ suc (length l)
length-concat [] a = refl
length-concat (x ∷ l) a = omega (arith, length-concat l a)

length-erase_at-le {ℓ} : {A : Type ℓ} (j : ℕ) (l : List A) → length (erase_at j l) ≤ length l
unfolding erase_at
length-erase_at-le j [] = omega arith
length-erase_at-le zero (x ∷ l) = omega arith
length-erase_at-le (suc j) (x ∷ l) = omega (arith, length-erase_at-le j l)

-- A descriptor that is just registered has no event yet.
fresh_quiet : (fd events : ℕ) → is_ready (record { fd = fd; events = events; revents = 0 }) ≡ false
unfolding is_ready
fresh_quiet fd events =
    let e : bit_and 0 events ≡ 0 = bit_and-bitwise 0 events in ap (λ b. not (b == 0)) e

-- What a new event does to the measures: one entry and at most one token more, and nothing that is
-- ready.
pub register_event-measure :
    (fd events : ℕ) (cb : Callback) (r : PollRegistry)
    → let r' = (register_event fd events cb r).1 in
      (length r'.fds ≡ suc (length r.fds)) × (r'.next_tok ≤ suc r.next_tok) × IsQuieter r' r
unfolding register_event
register_event-measure fd events cb r = (
  length-concat r.fds (record { fd = fd; events = events; revents = 0 }),
  omega (arith, mod-le (r.next_tok + 1) size_mod),
  λ i.
      ready-concat i r.fds (record { fd = fd; events = events; revents = 0 })
        (fresh_quiet fd events),
)

-- And what the end of an event does.
pub unregister_event-measure :
    (tok : ℕ) (r : PollRegistry)
    → let r' = (unregister_event tok r).0 in
      (length r'.fds ≤ length r.fds) × (r'.next_tok ≡ r.next_tok) × IsQuieter r' r
unfolding unregister_event
unregister_event-measure tok r = elim (Option-cases (index_of tok r.callbacks_and_toks)) [
  | inl e ↦ rw (e, unregister_event) (omega arith, refl, λ i. omega arith)
  | inr (j, e) ↦
      rw (e, unregister_event) (length-erase_at-le j r.fds, refl, λ i. ready-erase_at i j r.fds)
]
