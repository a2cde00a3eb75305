-- ===== src/Message/Parse.antt =====
-- `message::parse` of common/message.cpp. A `string_view` is the list of the bytes that it shows.
use irc_chat.Base.{
  ℕ, zero, suc, ◌+◌, ◌-◌, ◌*◌, Bool, ◌&&◌, List, [], ◌∷◌, Option, none, some, Str, codes, length,
  take, drop, find_byte, str_eq, leb, ◌==◌, if◌then◌else◌, parse_error, out_of_range, Result, ok,
  throw, ◌>>=◌,
}
use irc_chat.Message.{
  nick, user, quit, join, mode, kick, privmsg, whois, ping, pong, CommandOrReply, command,
  numeric_reply, Message,
}

-- `s.at(0)`.
unfoldable pub at_front : Str → Result ℕ
at_front [] = throw out_of_range
at_front (c ∷ s) = ok c

-- `s.substr(pos, count)` and `s.substr(pos)`, which throw where `pos` is past the end.
unfoldable pub sub_view : Str → ℕ → ℕ → Result Str
sub_view s pos count =
    if leb pos (length s) then ok (take count (drop pos s)) else throw out_of_range

unfoldable pub view_from : Str → ℕ → Result Str
view_from s pos = if leb pos (length s) then ok (drop pos s) else throw out_of_range

-- `s.substr(0, count)` and `s.substr(next)`.
unfoldable pub split_at : Str → ℕ → ℕ → Result (Str × Str)
unfolding sub_view view_from
split_at s count next = do field ← sub_view s 0 count; rest ← view_from s next; ok (field, rest)

-- Splits at the first space, `space_idx = s.find(" ")`: the field in front, and the rest from
-- `space_idx + 1` on. With no space `space_idx` is `s.size() - 1`, which drops the last byte (the
-- newline); on an empty `s` it wraps round, and `space_idx + 1` is 0.
unfoldable pub split_field : Str → Result (Str × Str)
unfolding split_at
split_field s = elim (find_byte b' ' s) [
  | none ↦ split_at s (length s - 1) (length s)
  | some i ↦ split_at s i (suc i)
]

abbrev is_digit : ℕ → Bool
is_digit c = leb b'0' c && leb c b'9'

-- `cmd_name.size() == 3`, all digits, and the value that `from_chars` reads.
three_digits : Str → Option ℕ
three_digits (a ∷ b ∷ c ∷ []) =
    if is_digit a && is_digit b && is_digit c
    then some ((a - b'0') * 100 + (b - b'0') * 10 + (c - b'0'))
    else none
three_digits _ = none

-- The chain of comparisons of `cmd_name` with the names of the commands.
unfoldable pub command_of : Str → Option CommandOrReply
unfolding three_digits
command_of name =
    if str_eq name (codes "USER")
    then some (command user)
    else if str_eq name (codes "NICK")
    then some (command nick)
    else if str_eq name (codes "PRIVMSG")
    then some (command privmsg)
    else if str_eq name (codes "JOIN")
    then some (command join)
    else if str_eq name (codes "WHOIS")
    then some (command whois)
    else if str_eq name (codes "PING")
    then some (command ping)
    else if str_eq name (codes "PONG")
    then some (command pong)
    else if str_eq name (codes "MODE")
    then some (command mode)
    else if str_eq name (codes "QUIT")
    then some (command quit)
    else if str_eq name (codes "KICK")
    then some (command kick)
    else elim (three_digits name) [ none ↦ none | some n ↦ some (numeric_reply n) ]

-- The `while` loop that collects the parameters. Each round shortens `s`, so that `length s` rounds
-- are enough.
unfoldable pub parse_params_loop : ℕ → Str → Result (List Str)
parse_params_loop zero s = ok []
parse_params_loop (suc f) [] = ok []
parse_params_loop (suc f) (c ∷ s) =
    if c == b'\n'
    then ok []
    else if c == b':'
    then (do last ← sub_view (c ∷ s) 1 (length (c ∷ s) - 2); ok (last ∷ []))
    else (do
      (field, left) ← split_field (c ∷ s)
      rest ← parse_params_loop f left
      ok (field ∷ rest))

unfoldable pub parse_params : Str → Result (List Str)
parse_params s = parse_params_loop (length s) s

-- What the name of the command stands for, with the parameters behind it.
unfoldable pub with_params : Option Str → Option CommandOrReply → Str → Result Message
with_params prefix none rest = throw (parse_error (codes "unsupported command"))
with_params prefix (some c) rest = do
  params ← parse_params rest
  ok (record { prefix = prefix; command_or_reply = c; params = params })

-- What follows the prefix.
unfoldable pub parse_command : Option Str → Str → Result Message
unfolding with_params
parse_command prefix s = do
  (cmd_name, rest) ← split_field s
  with_params prefix (command_of cmd_name) rest

-- After `s.at(0)`: with a colon in front there is a prefix up to the first space.
abbrev pub parse_at : Str → ℕ → Result Message
parse_at s first =
    if first == b':'
    then elim (find_byte b' ' s) [
      | none ↦ throw (parse_error (codes "expected space"))
      | some i ↦ do
        prefix ← sub_view s 1 (i - 1)
        rest ← view_from s (suc i)
        parse_command (some prefix) rest
    ]
    else parse_command none s

unfoldable pub parse : Str → Result Message
parse s = do first ← at_front s; parse_at s first
