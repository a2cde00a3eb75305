-- ===== src/Client/Receive/Replies.antt =====
-- Numeric replies of the server in `recv_message` of client/main.cpp.
use irc_chat.Base.{ℕ, List, [], ◌∷◌, ◌++◌, none, Str}
use irc_chat.Client.Receive.Lines.{IsText}
use irc_chat.Message.{Message, numeric_reply}

abbrev pub AreTexts : List Str → Type 0
AreTexts [] = Unit {0}
AreTexts (p ∷ ps) = IsText p × AreTexts ps

-- The parameters behind each other, a space in front of each.
abbrev pub listed : List Str → Str
listed [] = []
listed (p ∷ ps) = b' ' ∷ (p ++ listed ps)

abbrev pub reply_of : ℕ → List Str → Message
reply_of n params = record { prefix = none; command_or_reply = numeric_reply n; params = params }
