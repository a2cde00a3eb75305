-- ===== src/Message.antt =====
-- The wire format of common/message.hpp and common/message.cpp: the data types here, `message::parse`
-- in Parse, `message::to_string` in Print, the replies that the server sends in Replies.
pub mod Parse
pub mod Total
pub mod Print
pub mod Replies
pub mod RoundTrip
pub mod Malformed
use irc_chat.Base.{ℕ, List, Option, Str}

-- `enum class command`.
pub data Command : Type 0 where
  nick user quit join mode kick privmsg whois ping pong : Command

-- `std::variant<command, numeric_reply>`. The enum `numeric_reply` takes any number that is read.
pub data CommandOrReply : Type 0 where
  command : Command → CommandOrReply
  numeric_reply : ℕ → CommandOrReply

pub record Message : Type 0 where
  pub prefix : Option Str
  pub command_or_reply : CommandOrReply
  pub params : List Str
