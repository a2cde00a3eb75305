-- ===== src/Client/Translate.antt =====
-- The chain of tests in `send_message` of client/main.cpp that turns a line of the user into a line of
-- the protocol.
use irc_chat.Base.{
  ℕ, suc, ◌++◌, [], ◌∷◌, none, some, Str, codes, length, take, drop, leb, find_byte, starts_with,
  str_eq, if◌then◌else◌, out_of_range, Result, ok, throw, ◌>>=◌,
}

-- `s.substr(pos)`, which throws past the end.
unfoldable pub substr : Str → ℕ → Result Str
substr s pos = if leb pos (length s) then ok (drop pos s) else throw out_of_range

-- Behind `/user `: the name up to the space with the space, the two unused fields, and the rest. With
-- no space `next_space` is `npos`, which `++` turns to 0.
unfoldable pub user_line : Str → Str
user_line input =
    let next_space : ℕ = elim (find_byte b' ' input) [ none ↦ 0 | some i ↦ suc i ] in
    codes "USER "
    ++ (take next_space input ++ (codes "<hostname> <servername> :" ++ drop next_space input))

-- A prefix of the line taken off, and another text put in front of the rest.
unfoldable pub rewritten : Str → ℕ → Str → Result Str
unfolding substr
rewritten front pos input = do rest ← substr input pos; ok (front ++ rest)

-- The text to send, without the newline.
unfoldable pub translate : Str → Result Str
unfolding rewritten user_line
translate input =
    if str_eq input (codes "/ping")
    then ok (codes "PING")
    else if str_eq input (codes "/quit")
    then ok (codes "QUIT")
    else if starts_with (codes "/join") input
    then rewritten (codes "JOIN ") 6 input
    else if starts_with (codes "/nickname") input
    then rewritten (codes "NICK ") 10 input
    else if starts_with (codes "/user") input
    then (do rest ← substr input 6; ok (user_line rest))
    else if starts_with (codes "/kick") input
    then rewritten (codes "KICK --- ") 6 input
    else if starts_with (codes "/mute") input
    then rewritten (codes "MODE --- -v ") 6 input
    else if starts_with (codes "/unmute") input
    then rewritten (codes "MODE --- +v ") 8 input
    else if starts_with (codes "/whois") input
    then rewritten (codes "WHOIS ") 7 input
    else ok (codes "PRIVMSG --- :" ++ input)

-- `input.push_back('\n')`.
unfoldable pub line_of : Str → Result Str
line_of input = do text ← translate input; ok (text ++ b'\n' ∷ [])
