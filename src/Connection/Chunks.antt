-- ===== src/Connection/Chunks.antt =====
-- Lemmas on the slices that `connection::send_message` of server/connection.cpp queues.
use mathlib.Core.List.{append-nil}
use irc_chat.Base.{
  ℕ, zero, suc, ◌≤◌, ◌<◌, ◌≡◌, sym, ap, ◌∙◌, inl, inr, List, [], ◌∷◌, ◌++◌, Str, Bool-cases, length,
  take, drop, length-take, length-drop, take-append-drop, drop-eq-nil, take-eq_self, arith, leb,
  if◌then◌else◌, concat,
}
use irc_chat.Connection.{chunks_loop, chunks}

-- A slice that `poll_send` can send.
abbrev pub IsSlice : ℕ → Str → Type 0
IsSlice limit p = (0 < length p) × (length p ≤ limit)

abbrev pub AreSlices : ℕ → List Str → Type 0
AreSlices limit [] = Unit {0}
AreSlices limit (p ∷ ps) = IsSlice limit p × AreSlices limit ps

drop_min :
    (limit : ℕ) (s : Str) → drop (if leb limit (length s) then limit else length s) s ≡ drop limit s
drop_min limit s = elim (Bool-cases (leb limit (length s))) [
  | inl e ↦ rw e
  | inr e ↦ rw e (drop-eq-nil (length s) s (omega arith) ∙ sym (drop-eq-nil limit s (ground arith)))
]

chunks_loop-concat :
    (limit f : ℕ) (s : Str) → 0 < limit → length s < f → concat (chunks_loop limit f s) ≡ s
unfolding chunks_loop
chunks_loop-concat limit zero s h lt = absurd (omega arith)
chunks_loop-concat limit (suc f) s h lt =
    rw (drop_min limit s) (elim (Bool-cases (leb 1 (length (drop limit s)))) [
      | inl more ↦ rw more (
          ap (◌++◌ (take limit s))
            (chunks_loop-concat limit f (drop limit s) h (ground (arith, length-drop limit s)))
          ∙ take-append-drop limit s)
      | inr done ↦
          rw (done, append-nil) (take-eq_self limit s (ground (arith, length-drop limit s)))
    ])

-- For a limit above 0, the slices that `send_message` queues, put together in order, are the text.
pub chunks-concat : (limit : ℕ) (s : Str) → 0 < limit → concat (chunks limit s) ≡ s
unfolding chunks
chunks-concat limit s h = chunks_loop-concat limit (suc (length s)) s h (omega arith)

chunks_loop-AreSlices :
    (limit f : ℕ) (s : Str) → 0 < limit → 0 < length s → AreSlices limit (chunks_loop limit f s)
unfolding chunks_loop
chunks_loop-AreSlices limit zero s h lt = tt
chunks_loop-AreSlices limit (suc f) s h lt =
    rw (drop_min limit s) (elim (Bool-cases (leb 1 (length (drop limit s)))) [
      | inl more ↦ rw more (
        (omega (arith, length-take limit s), omega (arith, length-take limit s)),
        chunks_loop-AreSlices limit f (drop limit s) h (ground arith),
      )
      | inr done ↦
          rw done ((omega (arith, length-take limit s), omega (arith, length-take limit s)), tt)
    ])

-- For a limit above 0 and a text that is not empty, each slice that `send_message` queues has at
-- least one byte and at most the limit.
pub chunks-AreSlices :
    (limit : ℕ) (s : Str) → 0 < limit → 0 < length s → AreSlices limit (chunks limit s)
unfolding chunks
chunks-AreSlices limit s h lt = chunks_loop-AreSlices limit (suc (length s)) s h lt
