-- ===== src/Tests/Message.antt =====
-- common/message.cpp at concrete lines.
use irc_chat.Base.{
  ◌≡◌, ◌⊎◌, refl, [], ◌∷◌, some, Str, codes, arith, find_byte, str_eq, ok, parse_error,
  out_of_range,
}
use irc_chat.Message.Malformed.{parse-throws, parse-to_string-parse}
use irc_chat.Message.Parse.{
  parse, at_front, parse_command, parse_params, parse_params_loop, split_field, split_at, sub_view,
  view_from, with_params, command_of,
}
use irc_chat.Message.Print.{
  to_string, print_prefix, print_params, command_or_reply_name, command_name,
}
use irc_chat.Message.RoundTrip.{parse-to_string}
use irc_chat.Message.{Command, command, Message}

-- The last parameter may hold spaces.
abbrev greeting : Message
greeting = record {
  prefix = some (codes "ann");
  command_or_reply = command Command.privmsg;
  params = codes "#a" ∷ codes "hello there" ∷ [];
}

print_greeting : to_string greeting ≡ codes ":ann PRIVMSG #a :hello there\n"
unfolding to_string print_prefix print_params command_or_reply_name command_name
print_greeting = refl

parse-to_string_example : parse (to_string greeting) ≡ ok greeting
parse-to_string_example =
    parse-to_string greeting
      (record { prefix_ok = omega arith; command_ok = tt; params_ok = (omega arith, tt) })

parse-throws_example :
    ((codes "WHAT" ≡ []) × (parse_error (codes "unsupported command") ≡ out_of_range))
    ⊎ ((msg : Str) × (parse_error (codes "unsupported command") ≡ parse_error msg))
unfolding parse at_front parse_command command_of split_field split_at sub_view view_from
    with_params find_byte str_eq
parse-throws_example = parse-throws (codes "WHAT") (parse_error (codes "unsupported command")) refl

parse-to_string-parse_example : parse (to_string greeting) ≡ ok greeting
unfolding parse at_front parse_command command_of split_field split_at sub_view view_from
    with_params find_byte str_eq parse_params parse_params_loop
parse-to_string-parse_example =
    parse-to_string-parse (codes ":ann PRIVMSG #a :hello there\n") greeting refl tt
