-- ===== src/Client/Receive/Lines.antt =====
-- Lemmas on `recv_message` of client/main.cpp, for the lines that the server sends.
use mathlib.Core.List.{append_assoc}
use irc_chat.Base.{
  ℕ, zero, suc, ◌≡◌, refl, sym, ap, ◌∙◌, [], ◌∷◌, ◌++◌, Str, codes, arith, length, take, drop,
  Avoids, find_byte_at, Result, ok, ◌>>=◌,
}
use irc_chat.Client.Receive.{c_str, show_command, show, show_parsed, take_line, receive}
use irc_chat.Message.Parse.{parse}
use irc_chat.Message.Print.{
  to_string, print_prefix, print_params, command_or_reply_name, command_name,
}
use irc_chat.Message.RoundTrip.{IsField, IsPrintable, parse-to_string}
use irc_chat.Message.{Message}
use irc_chat.Server.World.{privmsg_from}

take-suc-length : (s rest : Str) → take (suc (length s)) (s ++ b'\n' ∷ rest) ≡ s ++ b'\n' ∷ []
take-suc-length [] rest = refl
take-suc-length (c ∷ s) rest = ap (◌∷◌ c) (take-suc-length s rest)

drop-suc-length : (s rest : Str) → drop (suc (length s)) (s ++ b'\n' ∷ rest) ≡ rest
drop-suc-length [] rest = refl
drop-suc-length (c ∷ s) rest = drop-suc-length s rest

take_line-at :
    (s rest : Str)
    → Avoids b'\n' s
    → take_line (s ++ b'\n' ∷ rest)
      ≡ (show_parsed (parse (s ++ b'\n' ∷ [])) >>= λ shown. ok (shown, rest))
unfolding take_line
take_line-at s rest h =
    rw (find_byte_at b'\n' s rest h, take_line)
      (rw (take-suc-length s rest, drop-suc-length s rest))

-- Bytes that complete a line: the line is shown, and what is behind it waits.
pub receive-line :
    (chunk msg_str s rest : Str)
    → Avoids b'\n' s
    → msg_str ++ chunk ≡ s ++ b'\n' ∷ rest
    → receive chunk msg_str ≡ (show_parsed (parse (s ++ b'\n' ∷ [])) >>= λ shown. ok (shown, rest))
unfolding receive
receive-line chunk msg_str s rest h e = ap take_line e ∙ take_line-at s rest h

-- Once the bytes kept by the client and the bytes just received are a printed message followed by
-- anything, however they were cut: the client shows that message, and keeps exactly what is behind
-- it. The message is printable, and its line holds one newline, at the end.
pub receive-to_string :
    (m : Message) (chunk msg_str s rest : Str)
    → IsPrintable m
    → to_string m ≡ s ++ b'\n' ∷ []
    → Avoids b'\n' s
    → msg_str ++ chunk ≡ to_string m ++ rest
    → receive chunk msg_str ≡ (show m >>= λ shown. ok (shown, rest))
unfolding show_parsed
receive-to_string m chunk msg_str s rest h line one_line e =
    receive-line chunk msg_str s rest one_line
      (e ∙ ap (λ t. t ++ rest) line ∙ append_assoc s (b'\n' ∷ []) rest)
    ∙ ap (λ (q : Result Message). show_parsed q >>= λ shown. ok (shown, rest))
        (ap parse (sym line) ∙ parse-to_string m h)

pub Avoids-append : (c : ℕ) (s t : Str) → Avoids c s → Avoids c t → Avoids c (s ++ t)
Avoids-append c [] t hs ht = ht
Avoids-append c (d ∷ s) t hs ht = (hs.0, Avoids-append c s t hs.1 ht)

pub c_str-Avoids : (s : Str) → Avoids 0 s → c_str s ≡ s
c_str-Avoids [] h = refl
c_str-Avoids (zero ∷ s) h = absurd (h.0 refl)
c_str-Avoids (suc c ∷ s) h = ap (◌∷◌ (suc c)) (c_str-Avoids s h.1)

-- Text that shows as it is: no newline and no 0.
pub record IsText (s : Str) : Type 0 where
  pub one_line : Avoids b'\n' s
  pub no_nul : Avoids 0 s

-- The line that the server sends on for a PRIVMSG is shown by the client as `[nick]: text`, where
-- nick and text hold no newline and no 0, the nick no space, and the channel's name no newline and
-- no space and no colon in front.
pub receive-privmsg :
    (nick chan text : Str) (rest : Str)
    → IsText nick
    → Avoids b' ' nick
    → Avoids b'\n' chan
    → IsField chan
    → IsText text
    → receive (to_string (privmsg_from nick (chan ∷ text ∷ [])) ++ rest) []
      ≡ ok (b'[' ∷ (nick ++ (codes "]: " ++ (text ++ codes "\n"))), rest)
unfolding to_string print_prefix print_params command_or_reply_name command_name show show_command
receive-privmsg nick chan text rest hn spaces hc field ht =
    receive-to_string (privmsg_from nick (chan ∷ text ∷ [])) _ [] body rest
      (record { prefix_ok = spaces; command_ok = tt; params_ok = (field, tt) }) (simp append_assoc)
      (
        omega arith,
        Avoids-append b'\n' nick _ hn.one_line (
            Avoids-append b'\n' (codes " PRIVMSG ") _ (omega arith)
              (Avoids-append b'\n' chan _ hc (omega arith, (omega arith, ht.one_line)))),
      )
      refl
    ∙ rw (c_str-Avoids nick hn.no_nul, c_str-Avoids text ht.no_nul)
  where
    body : Str
    body = b':' ∷ (nick ++ (b' ' ∷ (codes "PRIVMSG " ++ (chan ++ (b' ' ∷ (b':' ∷ text))))))
