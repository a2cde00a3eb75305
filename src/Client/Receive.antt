-- ===== src/Client/Receive.antt =====
-- `recv_message` of client/main.cpp: one round with the bytes of one `recv`, and what is printed.
pub mod Lines
pub mod Replies
use irc_chat.Base.{
  ℕ, suc, zero, ◌+◌, Bool, List, [], ◌∷◌, ◌++◌, Option, none, some, Str, codes, take, drop,
  find_byte, last?, get_elem?, decimal, ◌==◌, if◌then◌else◌, parse_error, out_of_range,
  bad_optional_access, null_deref, Result, ok, throw, ◌>>=◌, or_throw,
}
use irc_chat.Message.Parse.{parse}
use irc_chat.Message.Replies.{rpl_whoisuser}
use irc_chat.Message.{Command, command, numeric_reply, Message}

-- `%s` on `c_str()`: the bytes in front of the first 0.
abbrev pub c_str : Str → Str
c_str [] = []
c_str (zero ∷ s) = []
c_str (suc c ∷ s) = suc c ∷ c_str s

-- `" %s"` for each parameter.
abbrev pub spaced : List Str → Str
spaced [] = []
spaced (p ∷ ps) = b' ' ∷ (c_str p ++ spaced ps)

-- The branch of a numeric reply.
unfoldable pub show_numeric : ℕ → List Str → Result Str
show_numeric n params =
    if n == rpl_whoisuser
    then (do
      username ← or_throw out_of_range (get_elem? params 0)
      realname ← or_throw out_of_range (get_elem? params 3)
      ip ← or_throw out_of_range (get_elem? params 1)
      ok (
          codes "User has username '"
          ++ (c_str username
              ++ (codes "' and real name '"
                  ++ (c_str realname ++ (codes "' with ip " ++ (c_str ip ++ codes "\n")))))))
    else ok (codes "Error " ++ (decimal n ++ (codes ":" ++ (spaced params ++ codes "\n"))))

-- The `switch` over the commands. `params.back()` on no parameters is undefined.
unfoldable pub show_command : Command → Message → Result Str
show_command Command.privmsg m = do
  sender ← or_throw bad_optional_access m.prefix
  text ← or_throw null_deref (last? m.params)
  ok (b'[' ∷ (c_str sender ++ (codes "]: " ++ (c_str text ++ codes "\n"))))
show_command Command.pong m = ok (codes "pong\n")
show_command _ m = ok []

unfoldable pub show : Message → Result Str
unfolding show_numeric show_command
show m = elim m.command_or_reply [
  | numeric_reply n ↦ show_numeric n m.params
  | command c ↦ show_command c m
]

-- The `try` around the parser: an error is printed.
unfoldable pub show_parsed : Result Message → Result Str
unfolding show
show_parsed (ok m) = show m
show_parsed (throw (parse_error what)) = ok (what ++ codes "\n")
show_parsed (throw e) = throw e

-- The first line of the text, shown, and what is behind it.
unfoldable pub take_line : Str → Result (Str × Str)
unfolding show_parsed
take_line text = elim (find_byte b'\n' text) [
  | none ↦ ok ([], text)
  | some end_pos ↦ do
    shown ← show_parsed (parse (take (suc end_pos) text))
    ok (shown, drop (suc end_pos) text)
]

-- The bytes of one `recv` behind those of an unfinished line: what is printed, and what stays in
-- `msg_str`. One line at most is taken off.
unfoldable pub receive : Str → Str → Result (Str × Str)
unfolding take_line
receive chunk msg_str = take_line (msg_str ++ chunk)
