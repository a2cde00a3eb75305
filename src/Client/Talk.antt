-- ===== src/Client/Talk.antt =====
-- What the server's parser makes of the client's chat lines, `/user`, `/ping` and `/quit`, client/main.cpp.
use mathlib.Core.List.{append_assoc}
use irc_chat.Base.{
  suc, ◌≡◌, ◌≢◌, refl, sym, ap, ◌∙◌, false, [], ◌∷◌, ◌++◌, Str, codes, arith, length, take, drop,
  Avoids, find_byte_at, ◌==◌, starts_with, str_eq, Result, ok, ◌>>=◌,
}
use irc_chat.Client.Commands.{request, IsReadAs, line_of-ok, substr-append}
use irc_chat.Client.Translate.{user_line, translate}
use irc_chat.Message.Parse.{parse}
use irc_chat.Message.Print.{
  to_string, print_prefix, print_params, command_or_reply_name, command_name,
}
use irc_chat.Message.RoundTrip.{IsField, IsPrintable, parse-to_string}
use irc_chat.Message.{Command, Message}

-- A line that does not begin with a slash.
abbrev pub IsPlain : Str → Type 0
IsPlain [] = Unit {0}
IsPlain (c ∷ s) = c ≢ b'/'

translate-plain : (t : Str) → IsPlain t → translate t ≡ ok (codes "PRIVMSG --- :" ++ t)
unfolding translate starts_with str_eq
translate-plain [] h = refl
translate-plain (c ∷ s) h =
    let e : (c == b'/') ≡ false = ground arith in
    let e' : (b'/' == c) ≡ false = ground arith in rw (e, e')

-- The line is the printed message.
print-request :
    (input text : Str) (m : Message)
    → translate input ≡ ok text
    → to_string m ≡ text ++ b'\n' ∷ []
    → IsPrintable m
    → IsReadAs input m
print-request input text m e p h =
    (text ++ b'\n' ∷ [], line_of-ok input text e, ap parse (sym p) ∙ parse-to_string m h)

-- A line that does not begin with a slash goes to the server as a line that its parser reads as
-- PRIVMSG to `---` with exactly that text, whatever bytes the text holds.
pub plain-IsReadAs :
    (t : Str) → IsPlain t → IsReadAs t (request Command.privmsg (codes "---" ∷ t ∷ []))
unfolding to_string print_prefix print_params command_or_reply_name command_name
plain-IsReadAs t h =
    print-request t (codes "PRIVMSG --- :" ++ t) (request Command.privmsg (codes "---" ∷ t ∷ []))
      (translate-plain t h) refl
      (record { prefix_ok = tt; command_ok = tt; params_ok = (omega arith, tt) })

take-suc-length : (n r : Str) → take (suc (length n)) (n ++ b' ' ∷ r) ≡ n ++ b' ' ∷ []
take-suc-length [] r = refl
take-suc-length (c ∷ n) r = ap (◌∷◌ c) (take-suc-length n r)

drop-suc-length : (n r : Str) → drop (suc (length n)) (n ++ b' ' ∷ r) ≡ r
drop-suc-length [] r = refl
drop-suc-length (c ∷ n) r = drop-suc-length n r

abbrev unused_fields : Str
unused_fields = codes "<hostname> <servername> :"

user_line-split :
    (n r : Str)
    → Avoids b' ' n
    → user_line (n ++ b' ' ∷ r) ≡ codes "USER " ++ (n ++ (b' ' ∷ (unused_fields ++ r)))
unfolding user_line
user_line-split n r h =
    rw (find_byte_at b' ' n r h, user_line)
      (rw (take-suc-length n r, drop-suc-length n r)
        (ap (λ t. codes "USER " ++ t) (append_assoc n (b' ' ∷ []) (unused_fields ++ r))))

translate-user :
    (n r : Str)
    → Avoids b' ' n
    → translate (codes "/user " ++ (n ++ b' ' ∷ r))
      ≡ ok (codes "USER " ++ (n ++ (b' ' ∷ (unused_fields ++ r))))
unfolding translate starts_with str_eq
translate-user n r h =
    ap (λ (q : Result Str). q >>= λ rest. ok (user_line rest))
      (substr-append (codes "/user ") (n ++ b' ' ∷ r))
    ∙ ap (λ s. ok s) (user_line-split n r h)

-- `/user` with a name that holds no space and begins with neither a colon nor a newline, a space
-- and any real name goes to the server as a line that its parser reads as USER with that name, the
-- two unused fields and exactly that real name.
pub user-IsReadAs :
    (n r : Str)
    → IsField n
    → Avoids b' ' n
    → IsReadAs
        (codes "/user " ++ (n ++ b' ' ∷ r))
        (request Command.user (n ∷ codes "<hostname>" ∷ codes "<servername>" ∷ r ∷ []))
unfolding to_string print_prefix print_params command_or_reply_name command_name
user-IsReadAs n r h spaces =
    print-request (codes "/user " ++ (n ++ b' ' ∷ r)) _
      (request Command.user (n ∷ codes "<hostname>" ∷ codes "<servername>" ∷ r ∷ []))
      (translate-user n r spaces) refl
      (record {
        prefix_ok = tt;
        command_ok = tt;
        params_ok = (h, (omega arith, (omega arith, tt)));
      })
