-- ===== src/Message/RoundTrip.antt =====
-- Lemmas on `message::parse` applied to the output of `message::to_string`, common/message.cpp.
use mathlib.Core.List.{append_assoc}
use irc_chat.Base.{
  ℕ, zero, suc, ◌+◌, ◌-◌, ◌*◌, ◌/◌, ◌%◌, ◌≤◌, ◌<◌, ◌≡◌, ◌≢◌, refl, ap, ◌∙◌, List, [], ◌∷◌, ◌++◌,
  Option, none, some, arith, Str, length, take, drop, length-append, take-length-append, Avoids,
  find_byte_at, str_eq, decimal_three, ok,
}
use irc_chat.Message.{
  nick, user, quit, join, mode, kick, privmsg, whois, ping, pong, CommandOrReply, command,
  numeric_reply, Message,
}
use irc_chat.Message.Parse.{command_of, at_front, parse}
use irc_chat.Message.Total.{cut_field, params_loop, params_of, command_at, read, parse-read}
use irc_chat.Message.Print.{
  command_name, command_or_reply_name, print_params, print_prefix, to_string,
}

-- A parameter that is not the last: no space, and its first byte is neither the mark of the last
-- parameter nor a newline.
abbrev pub IsField : Str → Type 0
IsField [] = Unit {0}
IsField (c ∷ s) = (c ≢ b':') × (c ≢ b'\n') × Avoids b' ' (c ∷ s)

-- The last parameter may hold any bytes.
abbrev pub AreFields : List Str → Type 0
AreFields [] = Unit {0}
AreFields (p ∷ []) = Unit {0}
AreFields (p ∷ q ∷ ps) = IsField p × AreFields (q ∷ ps)

abbrev pub IsPrefix : Option Str → Type 0
IsPrefix none = Unit {0}
IsPrefix (some p) = Avoids b' ' p

-- A numeric reply has three digits.
abbrev pub IsCommandOrReply : CommandOrReply → Type 0
IsCommandOrReply (command c) = Unit {0}
IsCommandOrReply (numeric_reply n) = (100 ≤ n) × (n < 1000)

pub record IsPrintable (m : Message) : Type 0 where
  pub prefix_ok : IsPrefix m.prefix
  pub command_ok : IsCommandOrReply m.command_or_reply
  pub params_ok : AreFields m.params

drop-suc-length : (f rest : Str) → drop (suc (length f)) (f ++ b' ' ∷ rest) ≡ rest
drop-suc-length [] rest = refl
drop-suc-length (c ∷ f) rest = drop-suc-length f rest

pub cut_field_at : (f rest : Str) → Avoids b' ' f → cut_field (f ++ b' ' ∷ rest) ≡ (f, rest)
unfolding cut_field
cut_field_at f rest h =
    rw (find_byte_at b' ' f rest h, cut_field)
      (rw (take-length-append f (b' ' ∷ rest), drop-suc-length f rest))

take_last : (p : Str) → take (suc (length (p ++ b'\n' ∷ [])) - 2) (p ++ b'\n' ∷ []) ≡ p
take_last p =
    let e : suc (length (p ++ b'\n' ∷ [])) - 2 ≡ length p =
      omega (arith, length-append p (b'\n' ∷ [])) in
    rw e (take-length-append p (b'\n' ∷ []))

-- One round of the loop on a parameter that is not the last.
params_loop-field :
    (f : ℕ) (p rest : Str)
    → IsField p
    → params_loop (suc f) (p ++ b' ' ∷ rest) ≡ p ∷ params_loop f rest
unfolding params_loop
params_loop-field f [] rest h = rw (cut_field_at [] rest tt)
params_loop-field f (c ∷ s) rest h = rw (cut_field_at (c ∷ s) rest h.2) (ground arith)

pub params_loop-print :
    (f : ℕ) (ps : List Str)
    → AreFields ps
    → length (print_params ps ++ b'\n' ∷ []) ≤ f
    → params_loop f (print_params ps ++ b'\n' ∷ []) ≡ ps
unfolding print_params
params_loop-print zero ps h le =
    absurd (omega (arith, length-append (print_params ps) (b'\n' ∷ [])))
params_loop-print (suc f) [] h le = unfold params_loop in refl
params_loop-print (suc f) (p ∷ []) h le = unfold params_loop in ap (λ x. x ∷ []) (take_last p)
params_loop-print (suc f) (p ∷ q ∷ ps) h le = rw append_assoc (
    params_loop-field f p (print_params (q ∷ ps) ++ b'\n' ∷ []) h.0
    ∙ ap (◌∷◌ p) (
        params_loop-print f (q ∷ ps) h.1 (
          omega (
            arith,
            length-append (p ++ b' ' ∷ print_params (q ∷ ps)) (b'\n' ∷ []),
            length-append p (b' ' ∷ print_params (q ∷ ps)),
            length-append (print_params (q ∷ ps)) (b'\n' ∷ []),
          ))))

command_of_digits :
    (a b c : ℕ)
    → a < 10
    → b < 10
    → c < 10
    → command_of ((b'0' + a) ∷ (b'0' + b) ∷ (b'0' + c) ∷ [])
      ≡ some (numeric_reply (a * 100 + b * 10 + c))
unfolding command_of str_eq
command_of_digits a b c ha hb hc = ground arith

command_of-name :
    (c : CommandOrReply) → IsCommandOrReply c → command_of (command_or_reply_name c) ≡ some c
unfolding command_or_reply_name command_name
command_of-name (command nick) h = unfold command_of str_eq in refl
command_of-name (command user) h = unfold command_of str_eq in refl
command_of-name (command quit) h = unfold command_of str_eq in refl
command_of-name (command join) h = unfold command_of str_eq in refl
command_of-name (command mode) h = unfold command_of str_eq in refl
command_of-name (command kick) h = unfold command_of str_eq in refl
command_of-name (command privmsg) h = unfold command_of str_eq in refl
command_of-name (command whois) h = unfold command_of str_eq in refl
command_of-name (command ping) h = unfold command_of str_eq in refl
command_of-name (command pong) h = unfold command_of str_eq in refl
command_of-name (numeric_reply n) h = rw (decimal_three n h.0 h.1) (
    command_of_digits (n / 10 / 10) (n / 10 % 10) (n % 10) (omega arith) (omega arith) (omega arith)
    ∙ ap (λ k. some (numeric_reply k)) (omega arith))

name-Avoids : (c : CommandOrReply) → IsCommandOrReply c → Avoids b' ' (command_or_reply_name c)
unfolding command_or_reply_name command_name
name-Avoids (command nick) h = omega arith
name-Avoids (command _) h = omega arith
name-Avoids (numeric_reply n) h = rw (decimal_three n h.0 h.1) (omega arith)

-- A name does not begin with the mark of a prefix.
name_front :
    (c : CommandOrReply)
    → IsCommandOrReply c
    → (a : ℕ) × (s : Str) × (command_or_reply_name c ≡ a ∷ s) × (a ≢ b':')
unfolding command_or_reply_name command_name
name_front (command nick) h = (_, _, refl, omega arith)
name_front (command _) h = (_, _, refl, omega arith)
name_front (numeric_reply n) h = (_, _, decimal_three n h.0 h.1, omega arith)

command_at-print :
    (pre : Option Str) (c : CommandOrReply) (ps : List Str)
    → IsCommandOrReply c
    → AreFields ps
    → command_at pre (command_or_reply_name c ++ (b' ' ∷ (print_params ps ++ b'\n' ∷ [])))
      ≡ ok (record { prefix = pre; command_or_reply = c; params = ps })
unfolding command_at params_of
command_at-print pre c ps hc hp =
    let rest : Str = print_params ps ++ b'\n' ∷ [] in
    let split = cut_field_at (command_or_reply_name c) rest (name-Avoids c hc) in
    rw (split, command_of-name c hc, command_at)
      (rw split (
        ap (λ l. ok (record { prefix = pre; command_or_reply = c; params = l }))
          (params_loop-print (length rest) ps hp (omega arith))))

read_no_prefix : (a : ℕ) (s : Str) → a ≢ b':' → read (a ∷ s) ≡ command_at none (a ∷ s)
unfolding read at_front
read_no_prefix a s h = ground arith

read_with_prefix :
    (p rest : Str) → Avoids b' ' p → read (b':' ∷ (p ++ b' ' ∷ rest)) ≡ command_at (some p) rest
unfolding read at_front
read_with_prefix p rest h =
    let e : suc (length p) - 1 ≡ length p = omega arith in
    rw (find_byte_at b' ' (b':' ∷ p) rest (omega arith, h))
      (rw (e, take-length-append p (b' ' ∷ rest), drop-suc-length p rest))

read-to_string : (m : Message) → IsPrintable m → read (to_string m) ≡ ok m
unfolding to_string print_prefix
read-to_string m h = go m.prefix h.prefix_ok
  where
    line : Str
    line =
        command_or_reply_name m.command_or_reply ++ (b' ' ∷ (print_params m.params ++ b'\n' ∷ []))

    front : read line ≡ command_at none line
    front =
        let (a, s, e, ne) = name_front m.command_or_reply h.command_ok in
        rw e (read_no_prefix a _ ne)

    go :
        (pre : Option Str)
        → IsPrefix pre
        → read (print_prefix pre ++ line) ≡ ok (record m { prefix = pre })
    go none hp = front ∙ command_at-print none _ _ h.command_ok h.params_ok
    go (some p) hp =
        rw append_assoc
          (read_with_prefix p line hp ∙ command_at-print (some p) _ _ h.command_ok h.params_ok)

-- Parsing a printed message gives the message back, if the prefix holds no space, a numeric reply
-- is from 100 to 999, and each parameter but the last holds no space and does not begin with a
-- colon or a newline.
pub parse-to_string : (m : Message) → IsPrintable m → parse (to_string m) ≡ ok m
parse-to_string m h = parse-read (to_string m) ∙ read-to_string m h
