-- ===== src/Message/Total.antt =====
-- `message::parse` of common/message.cpp as a function without the errors of `substr`, which the parser
-- never meets.
use irc_chat.Base.{
  ℕ, zero, suc, ◌-◌, ◌<◌, ◌≡◌, refl, List, [], ◌∷◌, Option, none, some, Str, codes, length, take,
  drop, find_byte, arith, ◌==◌, if◌then◌else◌, inl, inr, Option-cases, Bool-cases, parse_error,
  Result, ok, throw, ◌>>=◌,
}
use irc_chat.Message.Parse.{
  command_of, at_front, sub_view, view_from, split_at, split_field, parse_params_loop, parse_params,
  with_params, parse_command, parse_at, parse,
}
use irc_chat.Message.{CommandOrReply, Message}

unfoldable pub cut_field : Str → Str × Str
cut_field s = elim (find_byte b' ' s) [
  | none ↦ (take (length s - 1) s, [])
  | some i ↦ (take i s, drop (suc i) s)
]

unfoldable pub params_loop : ℕ → Str → List Str
params_loop zero s = []
params_loop (suc f) [] = []
params_loop (suc f) (c ∷ s) =
    let field = cut_field (c ∷ s) in
    let rest = params_loop f field.1 in
    if c == b'\n'
    then []
    else if c == b':'
    then take (length (c ∷ s) - 2) s ∷ []
    else field.0 ∷ rest

unfoldable pub params_of : Str → List Str
params_of s = params_loop (length s) s

-- What follows the prefix.
unfoldable pub command_at : Option Str → Str → Result Message
command_at prefix s =
    let (cmd_name, rest) = cut_field s in
    elim (command_of cmd_name) [
      | none ↦ throw (parse_error (codes "unsupported command"))
      | some c ↦ ok (record { prefix = prefix; command_or_reply = c; params = params_of rest })
    ]

-- After `s.at(0)`: with a colon in front there is a prefix up to the first space.
abbrev pub read_at : Str → ℕ → Result Message
read_at s first =
    if first == b':'
    then elim (find_byte b' ' s) [
      | none ↦ throw (parse_error (codes "expected space"))
      | some i ↦ command_at (some (take (i - 1) (drop 1 s))) (drop (suc i) s)
    ]
    else command_at none s

unfoldable pub read : Str → Result Message
read s = do first ← at_front s; read_at s first

find_byte-lt : (c : ℕ) (s : Str) (i : ℕ) → find_byte c s ≡ some i → i < length s
unfolding find_byte
find_byte-lt c [] i e = cc
find_byte-lt c (x ∷ s) zero e = omega arith
find_byte-lt c (x ∷ s) (suc i) e = omega (arith, find_byte-lt c s i (ground arith))

drop-length : (s : Str) → drop (length s) s ≡ []
drop-length [] = refl
drop-length (c ∷ s) = drop-length s

-- Both positions of a split are within the text.
split_field-cut_field : (s : Str) → split_field s ≡ ok (cut_field s)
unfolding split_field cut_field split_at sub_view view_from
split_field-cut_field s = elim (Option-cases (find_byte b' ' s)) [
  | inl e ↦ ground (arith, e, drop-length s)
  | inr (i, e) ↦ ground (arith, e, find_byte-lt b' ' s i e)
]

parse_params_loop-total : (f : ℕ) (s : Str) → parse_params_loop f s ≡ ok (params_loop f s)
unfolding parse_params_loop params_loop sub_view
parse_params_loop-total zero s = refl
parse_params_loop-total (suc f) [] = refl
parse_params_loop-total (suc f) (c ∷ s) =
    rw (split_field-cut_field (c ∷ s), parse_params_loop-total f (cut_field (c ∷ s)).1)
      (ground arith)

with_params-total :
    (prefix : Option Str) (o : Option CommandOrReply) (rest : Str)
    → with_params prefix o rest ≡ (elim o [
      | none ↦ throw (parse_error (codes "unsupported command"))
      | some c ↦ ok (record { prefix = prefix; command_or_reply = c; params = params_of rest })
    ])
unfolding with_params parse_params params_of
with_params-total prefix none rest = refl
with_params-total prefix (some c) rest = rw (parse_params_loop-total (length rest) rest) refl

parse_command-total : (prefix : Option Str) (s : Str) → parse_command prefix s ≡ command_at prefix s
unfolding parse_command command_at
parse_command-total prefix s =
    rw (split_field-cut_field s)
      (with_params-total prefix (command_of (cut_field s).0) (cut_field s).1)

parse_at-total : (c : ℕ) (s : Str) → parse_at (c ∷ s) c ≡ read_at (c ∷ s) c
unfolding sub_view view_from
parse_at-total c s = elim (Bool-cases (c == b':')) [
  | inr plain ↦ rw plain (parse_command-total none (c ∷ s))
  | inl colon ↦ rw colon (elim (Option-cases (find_byte b' ' (c ∷ s))) [
    | inl e ↦ rw e
    | inr (i, e) ↦ ground (
      arith,
      e,
      find_byte-lt b' ' (c ∷ s) i e,
      parse_command-total (some (take (i - 1) s)) (drop (suc i) (c ∷ s)),
    )
  ])
]

-- Every position that the parser hands to `substr` is within the text.
pub parse-read : (s : Str) → parse s ≡ read s
unfolding parse read at_front
parse-read [] = refl
parse-read (c ∷ s) = parse_at-total c s
