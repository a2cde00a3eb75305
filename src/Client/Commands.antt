-- ===== src/Client/Commands.antt =====
-- What the server's parser makes of the lines that the client of client/main.cpp sends.
use mathlib.Core.List.{append_assoc}
use irc_chat.Base.{
  ℕ, zero, suc, ◌-◌, ◌≡◌, ◌≢◌, refl, ap, ◌∙◌, true, List, [], ◌∷◌, ◌++◌, none, Str, codes, arith,
  length, length-append, drop-length-append, take-length-append, Avoids, find_byte,
  find_byte-Avoids, starts_with, str_eq, leb, out_of_range, Result, ok, throw, ◌>>=◌,
}
use irc_chat.Client.Translate.{substr, rewritten, translate, line_of}
use irc_chat.Message.Parse.{command_of, at_front, parse}
use irc_chat.Message.Total.{cut_field, params_loop, params_of, command_at, read, parse-read}
use irc_chat.Message.{Command, command, Message}

-- The commands of the user with one argument.
pub data UserCommand : Type 0 where
  join nickname kick mute unmute whois : UserCommand

abbrev pub typed : UserCommand → Str
typed join = codes "/join"
typed nickname = codes "/nickname"
typed kick = codes "/kick"
typed mute = codes "/mute"
typed unmute = codes "/unmute"
typed whois = codes "/whois"

abbrev pub command_meant : UserCommand → Command
command_meant join = Command.join
command_meant nickname = Command.nick
command_meant kick = Command.kick
command_meant mute = Command.mode
command_meant unmute = Command.mode
command_meant whois = Command.whois

abbrev pub params_meant : UserCommand → Str → List Str
params_meant join x = x ∷ []
params_meant nickname x = x ∷ []
params_meant kick x = codes "---" ∷ x ∷ []
params_meant mute x = codes "---" ∷ codes "-v" ∷ x ∷ []
params_meant unmute x = codes "---" ∷ codes "+v" ∷ x ∷ []
params_meant whois x = x ∷ []

-- A message from a client.
abbrev pub request : Command → List Str → Message
request cmd params = record { prefix = none; command_or_reply = command cmd; params = params }

-- An argument that is one parameter: not empty, no space, no colon or newline in front.
abbrev pub IsWord : Str → Type 0
IsWord [] = ⊥
IsWord (c ∷ s) = (c ≢ b':') × (c ≢ b'\n') × Avoids b' ' (c ∷ s)

-- `line_of` succeeds, and the server reads `m`.
abbrev pub IsReadAs : Str → Message → Type 0
IsReadAs input m = (line : Str) × (line_of input ≡ ok line) × (parse line ≡ ok m)

Avoids-append_end : (s : Str) → Avoids b' ' s → Avoids b' ' (s ++ b'\n' ∷ [])
Avoids-append_end [] h = omega arith
Avoids-append_end (c ∷ s) h = (h.0, Avoids-append_end s h.1)

-- The last field, with the newline behind it.
cut_field_end : (x : Str) → Avoids b' ' x → cut_field (x ++ b'\n' ∷ []) ≡ (x, [])
unfolding cut_field
cut_field_end x h =
    let e : length (x ++ b'\n' ∷ []) - 1 ≡ length x = omega (arith, length-append x (b'\n' ∷ [])) in
    rw (find_byte-Avoids b' ' (x ++ b'\n' ∷ []) (Avoids-append_end x h), cut_field)
      (rw (e, take-length-append x (b'\n' ∷ [])))

params_loop-nil : (f : ℕ) → params_loop f [] ≡ []
unfolding params_loop
params_loop-nil zero = refl
params_loop-nil (suc f) = refl

params_loop-word : (f : ℕ) (x : Str) → IsWord x → params_loop (suc f) (x ++ b'\n' ∷ []) ≡ x ∷ []
unfolding params_loop
params_loop-word f [] h = absurd h
params_loop-word f (c ∷ s) h = rw (cut_field_end (c ∷ s) h.2) (ground (arith, params_loop-nil f))

-- The line that is sent up to the argument.
abbrev line_front : UserCommand → Str
line_front join = codes "JOIN "
line_front nickname = codes "NICK "
line_front kick = codes "KICK --- "
line_front mute = codes "MODE --- -v "
line_front unmute = codes "MODE --- +v "
line_front whois = codes "WHOIS "

pub substr-append : (p x : Str) → substr (p ++ x) (length p) ≡ ok x
unfolding substr
substr-append p x =
    let room : leb (length p) (length (p ++ x)) ≡ true = ground (arith, length-append p x) in
    rw room (ap (λ s. ok s) (drop-length-append p x))

rewritten-append : (front p x : Str) → rewritten front (length p) (p ++ x) ≡ ok (front ++ x)
unfolding rewritten
rewritten-append front p x = rw (substr-append p x, ◌>>=◌)

translate-typed :
    (u : UserCommand) (x : Str) → translate (typed u ++ (b' ' ∷ x)) ≡ ok (line_front u ++ x)
unfolding translate starts_with str_eq
translate-typed join x = rewritten-append (codes "JOIN ") (codes "/join ") x
translate-typed nickname x = rewritten-append (codes "NICK ") (codes "/nickname ") x
translate-typed kick x = rewritten-append (codes "KICK --- ") (codes "/kick ") x
translate-typed mute x = rewritten-append (codes "MODE --- -v ") (codes "/mute ") x
translate-typed unmute x = rewritten-append (codes "MODE --- +v ") (codes "/unmute ") x
translate-typed whois x = rewritten-append (codes "WHOIS ") (codes "/whois ") x

pub line_of-ok :
    (input text : Str) → translate input ≡ ok text → line_of input ≡ ok (text ++ b'\n' ∷ [])
unfolding line_of
line_of-ok input text e = rw e

-- In front of the word stand fields that compute.
read-word :
    (f : ℕ) (x : Str) (front : List Str → List Str) (cmd : Command)
    → IsWord x
    → ◌≡◌ {A = Result Message}
        (ok (request cmd (front (params_loop (suc f) (x ++ b'\n' ∷ [])))))
        (ok (request cmd (front (x ∷ []))))
read-word f x front cmd h = ap (λ ps. ok (request cmd (front ps))) (params_loop-word f x h)

read-line_front :
    (u : UserCommand) (x : Str)
    → IsWord x
    → read (line_front u ++ (x ++ b'\n' ∷ [])) ≡ ok (request (command_meant u) (params_meant u x))
unfolding str_eq find_byte read at_front command_at command_of cut_field params_of params_loop
read-line_front _ [] h = absurd h
read-line_front join (c ∷ s) h = read-word _ (c ∷ s) (λ ps. ps) _ h
read-line_front nickname (c ∷ s) h = read-word _ (c ∷ s) (λ ps. ps) _ h
read-line_front kick (c ∷ s) h =
    read-word (suc (suc (suc (length (s ++ b'\n' ∷ []))))) (c ∷ s) (λ ps. codes "---" ∷ ps) _ h
read-line_front mute (c ∷ s) h =
    read-word (suc (suc (suc (suc (suc (length (s ++ b'\n' ∷ []))))))) (c ∷ s)
      (λ ps. codes "---" ∷ codes "-v" ∷ ps) _ h
read-line_front unmute (c ∷ s) h =
    read-word (suc (suc (suc (suc (suc (length (s ++ b'\n' ∷ []))))))) (c ∷ s)
      (λ ps. codes "---" ∷ codes "+v" ∷ ps) _ h
read-line_front whois (c ∷ s) h = read-word _ (c ∷ s) (λ ps. ps) _ h

parse-line_front :
    (u : UserCommand) (x : Str)
    → IsWord x
    → parse (line_front u ++ (x ++ b'\n' ∷ [])) ≡ ok (request (command_meant u) (params_meant u x))
parse-line_front u x h = parse-read (line_front u ++ (x ++ b'\n' ∷ [])) ∙ read-line_front u x h

-- For each command of the user that takes an argument (`/join`, `/nickname`, `/kick`, `/mute`,
-- `/unmute`, `/whois`) and an argument that is not empty, holds no space and begins with neither a
-- colon nor a newline: the client's line for it is made without an exception, and the server's
-- parser reads it as the message that the command stands for, with that argument as the last
-- parameter.
pub command-IsReadAs :
    (u : UserCommand) (x : Str)
    → IsWord x
    → IsReadAs (typed u ++ (b' ' ∷ x)) (request (command_meant u) (params_meant u x))
command-IsReadAs u x h = (
  (line_front u ++ x) ++ b'\n' ∷ [],
  line_of-ok (typed u ++ (b' ' ∷ x)) (line_front u ++ x) (translate-typed u x),
  ap parse (append_assoc (line_front u) x (b'\n' ∷ [])) ∙ parse-line_front u x h,
)

-- Each of `/join`, `/nickname`, `/kick`, `/mute`, `/unmute` and `/whois` with nothing behind it
-- makes the client throw `out_of_range`.
bare-throws : (u : UserCommand) → line_of (typed u) ≡ throw out_of_range
unfolding line_of translate rewritten substr starts_with str_eq
bare-throws join = refl
bare-throws nickname = refl
bare-throws kick = refl
bare-throws mute = refl
bare-throws unmute = refl
bare-throws whois = refl
