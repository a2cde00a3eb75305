-- ===== src/Client/Send/Whole.antt =====
-- Lemmas on the sending loops of client/main.cpp: a socket that takes what it is given, and one that
-- takes a part.
use irc_chat.Base.{
  ℕ, zero, suc, ◌≤◌, ◌<◌, ◌≡◌, refl, ap, ◌∙◌, true, false, [], ◌∷◌, ◌++◌, Str, arith, length, take,
  drop, leb, ◌==◌, length-drop, take-eq_self, drop-eq-nil, out_of_range,
}
use mathlib.Core.List.{append-nil}
use irc_chat.Client.Send.{
  max_size, sent, Flag, go_on, Socket, done, faulted, SendRun, taking, after_send, send_slice,
  and_then, send_slices, send_line,
}

-- `RUN` is not cleared while the line is sent.
abbrev pub StaysSet : Flag → Type 0
StaysSet run = (i : ℕ) → run i ≡ true

-- The socket takes all that it is given.
abbrev pub TakesAll : Socket → Type 0
TakesAll k = (i : ℕ) (s : Str) → k i s ≡ sent (length s)

send_slice-all :
    (k : Socket) (f i c : ℕ) (s : Str)
    → TakesAll k
    → send_slice k (suc f) i (c ∷ s) (c ∷ s) ≡ record { wire = c ∷ s; calls = suc i; ending = done }
unfolding send_slice after_send
send_slice-all k f i c s h =
    let some_bytes : (suc (length s) == 0) ≡ false = ground arith in
    let fits : leb (suc (length s)) (suc (length s)) ≡ true = ground arith in
    rw (h i (c ∷ s), some_bytes, fits, take-eq_self (length s) s (omega arith))
      (rw (drop-eq-nil (length s) s (omega arith), append-nil))

-- One slice of at most `suc m` bytes.
and_then-all :
    (run : Flag) (k : Socket) (m i c : ℕ) (s : Str) (next : ℕ → SendRun)
    → StaysSet run
    → TakesAll k
    → and_then run (send_slice k (suc (length (take m s))) i (c ∷ take m s) (c ∷ take m s)) next
      ≡ taking (c ∷ take m s) (next (suc i))
unfolding and_then
and_then-all run k m i c s next set h =
    ap (λ r. and_then run r next) (send_slice-all k (length (take m s)) i c (take m s) h)
    ∙ ap (λ b. go_on b (record { wire = c ∷ take m s; calls = suc i; ending = done }) next)
        (set (suc i))

take-append-drop_taken : (m : ℕ) (s : Str) → take m s ++ drop (length (take m s)) s ≡ s
take-append-drop_taken zero s = refl
take-append-drop_taken (suc m) [] = refl
take-append-drop_taken (suc m) (c ∷ s) = ap (◌∷◌ c) (take-append-drop_taken m s)

-- The loop with any limit on the slices, in place of `max_size`.
send_slices-all :
    (run : Flag) (k : Socket) (m f i : ℕ) (s : Str)
    → StaysSet run
    → TakesAll k
    → max_size ≡ suc m
    → length s ≤ f
    → ((send_slices run k f i s).wire ≡ s) × ((send_slices run k f i s).ending ≡ done)
unfolding send_slices
send_slices-all run k m f i [] set h e le = (refl, refl)
send_slices-all run k m zero i (c ∷ s) set h e le = absurd (omega arith)
send_slices-all run k m (suc f) i (c ∷ s) set h e le =
    let left = drop (length (take m s)) s in
    let (w, d) =
      send_slices-all run k m f (suc i) left set h e
        (omega (arith, length-drop (length (take m s)) s)) in
    rw e (
      rw (and_then-all run k m i c s (λ i'. send_slices run k f i' left) set h)
        (ap (λ t. c ∷ take m s ++ t) w ∙ ap (◌∷◌ c) (take-append-drop_taken m s), d))

-- If the socket takes all that it is given and `RUN` stays set, the client's sending loop ends by
-- itself, and the bytes on the wire are the line.
pub send_line-all :
    (run : Flag) (k : Socket) (line : Str)
    → StaysSet run
    → TakesAll k
    → ((send_line run k line).wire ≡ line) × ((send_line run k line).ending ≡ done)
unfolding send_line max_size
send_line-all run k line set h =
    send_slices-all run k 4095 (length line) 0 line set h refl (omega arith)

-- The second round, on what is left of the slice `s`.
send_slice-second :
    (k : Socket) (f : ℕ) (s left : Str)
    → 0 < length left
    → length left < length s
    → k 1 s ≡ sent (length s)
    → send_slice k (suc f) 1 s left ≡ record { wire = s; calls = 2; ending = faulted out_of_range }
unfolding send_slice after_send
send_slice-second k f s [] pos less e = absurd (omega arith)
send_slice-second k f s (d ∷ left) pos less e =
    let some_bytes : (length s == 0) ≡ false = ground arith in
    let past : leb (length s) (suc (length left)) ≡ false = ground arith in
    rw (e, some_bytes, past, take-eq_self (length s) s (omega arith))

send_slice-partial :
    (k : Socket) (f c n : ℕ) (s : Str)
    → 0 < n
    → n < suc (length s)
    → k 0 (c ∷ s) ≡ sent n
    → k 1 (c ∷ s) ≡ sent (suc (length s))
    → send_slice k (suc (suc f)) 0 (c ∷ s) (c ∷ s)
      ≡ record { wire = take n (c ∷ s) ++ c ∷ s; calls = 2; ending = faulted out_of_range }
unfolding send_slice after_send
send_slice-partial k f c n s pos part first second =
    let some_bytes : (n == 0) ≡ false = ground arith in
    let fits : leb n (suc (length s)) ≡ true = ground arith in
    let rest =
      send_slice-second k f (c ∷ s) (drop n (c ∷ s)) (omega (arith, length-drop n (c ∷ s)))
        (omega (arith, length-drop n (c ∷ s))) second in
    rw (first, some_bytes, fits) (ap (taking (take n (c ∷ s))) rest)

-- A socket that takes a part of a line shorter than `MAX_SIZE` and then all that it is given makes
-- the client send that part followed by the whole line, and then throw `out_of_range`, whatever
-- happens to `RUN` meanwhile.
pub send_line-partial :
    (run : Flag) (k : Socket) (c n : ℕ) (line : Str)
    → length line < max_size
    → 0 < n
    → n < suc (length line)
    → k 0 (c ∷ line) ≡ sent n
    → k 1 (c ∷ line) ≡ sent (suc (length line))
    → ((send_line run k (c ∷ line)).wire ≡ take n (c ∷ line) ++ c ∷ line)
      × ((send_line run k (c ∷ line)).ending ≡ faulted out_of_range)
unfolding send_line send_slices and_then
send_line-partial run k c n [] short pos part first second = absurd (omega arith)
send_line-partial run k c n (d ∷ line) short pos part first second =
    rw (take-eq_self max_size (c ∷ d ∷ line) (omega arith))
      (rw (send_slice-partial k (length line) c n (d ∷ line) pos part first second) (refl, refl))
