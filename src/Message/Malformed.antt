-- ===== src/Message/Malformed.antt =====
-- Lemmas on `message::parse` of common/message.cpp for any input: its errors, the shape of its
-- results, and the loop over the parameters.
use mathlib.Core.Path.{subst}
use irc_chat.Base.{
  true, ℕ, zero, suc, ◌-◌, ◌≤◌, ◌≡◌, ◌≢◌, refl, sym, ◌∙◌, ◌⊎◌, inl, inr, List, [], ◌∷◌, Option,
  none, some, Option-cases, Bool-cases, arith, Str, length, take, length-drop, Avoids, find_byte,
  ok, throw, Result, parse_error, out_of_range, Exception, ◌==◌,
}
use irc_chat.Message.{CommandOrReply, Message}
use irc_chat.Message.Parse.{command_of, at_front, parse}
use irc_chat.Message.Total.{
  cut_field, params_loop, params_of, command_at, read_at, read, parse-read,
}
use irc_chat.Message.Print.{to_string}
use irc_chat.Message.RoundTrip.{
  IsField, AreFields, IsPrefix, IsCommandOrReply, IsPrintable, parse-to_string,
}

thrown-eq : {y z : Exception} → ◌≡◌ {A = Result Message} (throw y) (throw z) → z ≡ y
thrown-eq q = cc

-- If the parser throws, then either the text is empty and the exception is `out_of_range`, or the
-- exception is a `parse_error`. So no call of `substr` in it, which throws `out_of_range` past the
-- end, ever does.
pub parse-throws :
    (s : Str) (x : Exception)
    → parse s ≡ throw x
    → ((s ≡ []) × (x ≡ out_of_range)) ⊎ ((msg : Str) × (x ≡ parse_error msg))
unfolding read at_front command_at
parse-throws [] x e = inl (refl, thrown-eq (sym (parse-read []) ∙ e))
parse-throws (c ∷ s) x e = inr (refused (c ∷ s) (sym (parse-read (c ∷ s)) ∙ e))
  where
    refused : (t : Str) → read_at t c ≡ throw x → (msg : Str) × (x ≡ parse_error msg)
    refused t h = ground arith

find_byte-take-Avoids : (c : ℕ) (s : Str) (i : ℕ) → find_byte c s ≡ some i → Avoids c (take i s)
unfolding find_byte
find_byte-take-Avoids c [] i e = cc
find_byte-take-Avoids c (x ∷ s) zero e = tt
find_byte-take-Avoids c (x ∷ s) (suc i) e =
    (ground arith, find_byte-take-Avoids c s i (ground arith))

-- The rest behind a field is shorter than what was split.
length-cut_field : (c : ℕ) (s : Str) → length (cut_field (c ∷ s)).1 ≤ length s
unfolding cut_field
length-cut_field c s = elim (Option-cases (find_byte b' ' (c ∷ s))) [
  | inl e ↦ rw (e, cut_field) (omega arith)
  | inr (i, e) ↦ rw (e, cut_field) (omega (arith, length-drop i s))
]

-- More rounds than bytes make no difference.
params_loop-fuel :
    (f g : ℕ) (s : Str) → length s ≤ f → length s ≤ g → params_loop f s ≡ params_loop g s
unfolding params_loop
params_loop-fuel zero zero s hf hg = refl
params_loop-fuel zero (suc g) [] hf hg = refl
params_loop-fuel zero (suc g) (c ∷ s) hf hg = absurd (omega arith)
params_loop-fuel (suc f) zero [] hf hg = refl
params_loop-fuel (suc f) zero (c ∷ s) hf hg = absurd (omega arith)
params_loop-fuel (suc f) (suc g) [] hf hg = refl
params_loop-fuel (suc f) (suc g) (c ∷ s) hf hg =
    let shorter = length-cut_field c s in
    rw (params_loop-fuel f g (cut_field (c ∷ s)).1 (omega arith) (omega arith))

-- A field with another parameter behind it was cut off at a space.
cut_field-IsField :
    (c : ℕ) (s : Str)
    → c ≢ b'\n'
    → c ≢ b':'
    → ((cut_field (c ∷ s)).1 ≡ []) ⊎ IsField (cut_field (c ∷ s)).0
unfolding cut_field
cut_field-IsField c s hn hc = elim (Option-cases (find_byte b' ' (c ∷ s))) [
  | inl e ↦ rw (e, cut_field) (inl refl)
  | inr (i, e) ↦ rw (e, cut_field) (inr (field i (find_byte-take-Avoids b' ' (c ∷ s) i e)))
]
  where
    field : (i : ℕ) → Avoids b' ' (take i (c ∷ s)) → IsField (take i (c ∷ s))
    field zero h = tt
    field (suc i) h = (hc, hn, h)

params_loop-nil : (f : ℕ) → params_loop f [] ≡ []
unfolding params_loop
params_loop-nil zero = refl
params_loop-nil (suc f) = refl

AreFields-cons : (p : Str) (ps : List Str) → IsField p → AreFields ps → AreFields (p ∷ ps)
AreFields-cons p [] h t = tt
AreFields-cons p (q ∷ ps) h t = (h, t)

params_loop-AreFields : (f : ℕ) (s : Str) → AreFields (params_loop f s)
unfolding params_loop
params_loop-AreFields zero s = tt
params_loop-AreFields (suc f) [] = tt
params_loop-AreFields (suc f) (c ∷ s) = elim (Bool-cases (c == b'\n')) [
  | inl newline ↦ rw newline tt
  | inr other ↦ rw other (elim (Bool-cases (c == b':')) [
    | inl colon ↦ rw colon tt
    | inr plain ↦ rw plain (elim (cut_field-IsField c s (ground arith) (ground arith)) [
      | inl e ↦ rw (e, params_loop-nil f) tt
      | inr h ↦ AreFields-cons _ _ h (params_loop-AreFields f (cut_field (c ∷ s)).1)
    ])
  ])
]

command_at-IsPrintable :
    (pre : Option Str) (s : Str) (m : Message)
    → IsPrefix pre
    → command_at pre s ≡ ok m
    → IsCommandOrReply m.command_or_reply
    → IsPrintable m
unfolding command_at params_of
command_at-IsPrintable pre s m h e hc = elim (Option-cases (command_of (cut_field s).0)) [
  | inl none_of ↦ absurd (not_thrown (rw (none_of, command_at) at e))
  | inr (c, some_of) ↦ go c (rw (some_of, command_at) at e)
]
  where
    not_thrown : {x : Exception} → ◌≡◌ {A = Result Message} (throw x) (ok m) → ⊥
    not_thrown q = cc

    ps : List Str
    ps = params_loop (length (cut_field s).1) (cut_field s).1

    go :
        (c : CommandOrReply)
        → ◌≡◌ {A = Result Message}
            (ok (record { prefix = pre; command_or_reply = c; params = ps }))
            (ok m)
        → IsPrintable m
    go c q =
        let prefix_eq : pre ≡ m.prefix = cc in
        let params_eq : ps ≡ m.params = cc in
        record {
          prefix_ok = subst IsPrefix prefix_eq h;
          command_ok = hc;
          params_ok = subst AreFields params_eq (params_loop-AreFields _ _);
        }

read-IsPrintable :
    (c : ℕ) (s : Str) (m : Message)
    → read (c ∷ s) ≡ ok m
    → IsCommandOrReply m.command_or_reply
    → IsPrintable m
unfolding read at_front
read-IsPrintable c s m e hc = elim (Bool-cases (c == b':')) [
  | inl colon ↦ elim (Option-cases (find_byte b' ' (c ∷ s))) [
    | inl no_space ↦ absurd (impossible (rw (colon, no_space, read_at) at e))
    | inr (i, at_i) ↦
        command_at-IsPrintable (some (take (i - 1) s)) _ m (prefix_Avoids i at_i colon)
          (rw (colon, at_i, read_at) at e) hc
  ]
  | inr plain ↦ command_at-IsPrintable none (c ∷ s) m tt (rw (plain, read_at) at e) hc
]
  where
    impossible : {x : Exception} → ◌≡◌ {A = Result Message} (throw x) (ok m) → ⊥
    impossible q = cc

    prefix_Avoids :
        (i : ℕ)
        → find_byte b' ' (c ∷ s) ≡ some i
        → (c == b':') ≡ true
        → Avoids b' ' (take (i - 1) s)
    prefix_Avoids zero q colon = tt
    prefix_Avoids (suc i) q colon =
        let e : suc i - 1 ≡ i = omega arith in rw e (find_byte-take-Avoids b' ' (c ∷ s) (suc i) q).1

-- If some text parses to a message that is not a numeric reply, or is one from 100 to 999, then
-- printing the message and parsing the result gives the same message.
pub parse-to_string-parse :
    (s : Str) (m : Message)
    → parse s ≡ ok m
    → IsCommandOrReply m.command_or_reply
    → parse (to_string m) ≡ ok m
parse-to_string-parse [] m e hc = unfold parse at_front in cc
parse-to_string-parse (c ∷ s) m e hc =
    parse-to_string m (read-IsPrintable c s m (sym (parse-read (c ∷ s)) ∙ e) hc)
