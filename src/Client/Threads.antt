-- ===== src/Client/Threads.antt =====
-- The two threads of client/main.cpp, `send_message` and `recv_message`, with the flag `RUN` and the
-- eventfd that end them. A step is the test of `RUN` by a thread, what a thread does between the return
-- of `epoll_wait` and the next test, or the handler of the interrupt; steps of the two threads come in
-- any order but not inside each other. What the system answers is an argument.
pub mod Rounds
pub mod Shutdown
use irc_chat.Base.{
  ℕ, zero, suc, Bool, true, false, List, [], ◌∷◌, ◌++◌, ◌||◌, Str, codes, str_eq, length, take,
  ◌==◌, if◌then◌else◌, Exception, runtime_error, Result, ok, throw,
}
use irc_chat.Client.Input.{ReadLineResult, reading, ready, eof, read_line}
use irc_chat.Client.Receive.{receive}
use irc_chat.Client.Send.{
  max_size, Socket, SendRun, Ending, done, stopped, faulted, send_slice, send_line,
}
use irc_chat.Client.Translate.{line_of}

-- A thread with its buffer, in front of the test of `RUN` or in `epoll_wait`; or behind its loop; or ended
-- by an exception, which ends the process.
pub data Thread : Type 0 where
  looping : Str → Thread
  waiting : Str → Thread
  left : Thread
  failed : Exception → Thread

-- `RUN`, the number of writes to the eventfd, which nobody reads, the threads, the bytes that the socket has
-- taken and what is printed to the window of the chat.
pub record Client : Type 0 where
  pub run : Bool
  pub wakes : ℕ
  pub sender : Thread
  pub receiver : Thread
  pub wire : Str
  pub screen : Str

abbrev pub new_client : Client
new_client = record {
  run = true;
  wakes = 0;
  sender = looping [];
  receiver = looping [];
  wire = [];
  screen = [];
}

-- `shutdown`: the flag, and the write, which may fail.
unfoldable pub shutdown : Bool → Client → Result (Unit {0}) × Client
shutdown write_fails c =
    if write_fails
    then (throw runtime_error, record c { run = false })
    else (ok tt, record c { run = false; wakes = suc c.wakes })

-- What `epoll_wait` answers: a failure, the other descriptor, or the eventfd. The last answer comes only
-- while the eventfd can be read, that is, once it was written to; till then the wait blocks.
pub data WaitAnswer : Type 0 where
  wait_failed shutdown_event ready_event : WaitAnswer

-- What `cli.recv` returns; `data []` is the end of the stream.
pub data RecvAnswer : Type 0 where
  recv_failed : RecvAnswer
  data_read : Str → RecvAnswer

-- On after a call that may throw, with the thread as it is then.
unfoldable pub sender_then : Thread → Result (Unit {0}) × Client → Client
sender_then next (throw e, c) = record c { sender = failed e }
sender_then next (ok _, c) = record c { sender = next }

unfoldable pub receiver_then : Thread → Result (Unit {0}) × Client → Client
receiver_then next (throw e, c) = record c { receiver = failed e }
receiver_then next (ok _, c) = record c { receiver = next }

-- What has been sent of the line, and how the sending ended.
unfoldable pub sent_line : Bool → SendRun → Client → Client
sent_line write_fails r c = elim r.ending [
  | done ↦ record c { wire = c.wire ++ r.wire; sender = looping [] }
  | stopped ↦ sender_then (looping []) (shutdown write_fails (record c { wire = c.wire ++ r.wire }))
  | faulted e ↦ record c { wire = c.wire ++ r.wire; sender = failed e }
]

-- `shutdown` if the line is `/quit`.
unfoldable pub quit_typed : Bool → Str → Client → Result (Unit {0}) × Client
unfolding shutdown
quit_typed write_fails input c =
    if str_eq input (codes "/quit") then shutdown write_fails c else (ok tt, c)

-- The line is translated and sent.
unfoldable pub send_input : Bool → Socket → Str → Result (Unit {0}) × Client → Client
unfolding sent_line
send_input write_fails k input (throw e, c) = record c { sender = failed e }
send_input write_fails k input (ok _, c) = elim (line_of input) [
  | throw e ↦ record c { sender = failed e }
  | ok line ↦ sent_line write_fails (send_line (λ i. c.run) k line) c
]

module _ (key_backspace : ℕ) where
  -- A key, on the line typed so far.
  unfoldable pub key_pressed : Bool → Socket → Str × ReadLineResult → Client → Client
  unfolding sender_then quit_typed
  key_pressed write_fails k (buf, reading) c = record c { sender = looping buf }
  key_pressed write_fails k (buf, eof) c = sender_then (looping buf) (shutdown write_fails c)
  key_pressed write_fails k (buf, ready) c =
      send_input write_fails k buf (quit_typed write_fails buf c)

  -- `send_message` behind `epoll_wait`, with the line typed so far.
  unfoldable pub send_round : WaitAnswer → ℕ → Socket → Bool → Str → Client → Client
  unfolding key_pressed
  send_round wait ch k write_fails buf c = elim wait [
    | wait_failed ↦ record c { sender = failed runtime_error }
    | shutdown_event ↦ if c.wakes == 0 then c else record c { sender = looping buf }
    | ready_event ↦ key_pressed write_fails k (read_line key_backspace ch buf) c
  ]

-- The bytes of one `recv`.
unfoldable pub received_bytes : Bool → Str → RecvAnswer → Client → Client
unfolding receiver_then
received_bytes write_fails msg_str recv_failed c = record c { receiver = failed runtime_error }
received_bytes write_fails msg_str (data_read []) c = receiver_then left (shutdown write_fails c)
received_bytes write_fails msg_str (data_read (b ∷ bytes)) c = elim (receive (b ∷ bytes) msg_str) [
  | throw e ↦ record c { receiver = failed e }
  | ok (shown, rest) ↦ record c { screen = c.screen ++ shown; receiver = looping rest }
]

-- `recv_message` behind `epoll_wait`, with the text that is not shown yet.
unfoldable pub recv_round : WaitAnswer → RecvAnswer → Bool → Str → Client → Client
unfolding received_bytes
recv_round wait answer write_fails msg_str c = elim wait [
  | wait_failed ↦ record c { receiver = failed runtime_error }
  | shutdown_event ↦ if c.wakes == 0 then c else record c { receiver = looping msg_str }
  | ready_event ↦ received_bytes write_fails msg_str answer c
]

-- The test `while (RUN)`, with the buffer of the thread.
abbrev pub tested : Bool → Str → Thread
tested run buf = if run then waiting buf else left

-- Whose turn it is, and what the system answers in it.
pub data Turn : Type 0 where
  sends : WaitAnswer → ℕ → Socket → Bool → Turn
  receives : WaitAnswer → RecvAnswer → Bool → Turn
  interrupt : Bool → Turn

-- An exception that leaves a thread ends the process, and so does one that leaves the handler.
abbrev pub is_failed : Thread → Bool
is_failed (failed e) = true
is_failed _ = false

unfoldable pub sender_turn : Thread → (Str → Client → Client) → Client → Client
sender_turn (looping buf) round c = record c { sender = tested c.run buf }
sender_turn (waiting buf) round c = round buf c
sender_turn _ round c = c

unfoldable pub receiver_turn : Thread → (Str → Client → Client) → Client → Client
receiver_turn (looping buf) round c = record c { receiver = tested c.run buf }
receiver_turn (waiting buf) round c = round buf c
receiver_turn _ round c = c

-- The handler of the interrupt.
abbrev pub interrupted : Result (Unit {0}) × Client → Client
interrupted (throw e, c) = record c { sender = failed e; receiver = failed e }
interrupted (ok _, c) = c

unfoldable pub turn : ℕ → Turn → Client → Client
unfolding send_round recv_round shutdown sender_turn receiver_turn
turn key_backspace (sends wait ch k fails) c =
    if is_failed c.sender || is_failed c.receiver
    then c
    else sender_turn c.sender (send_round key_backspace wait ch k fails) c
turn key_backspace (receives wait answer fails) c =
    if is_failed c.sender || is_failed c.receiver
    then c
    else receiver_turn c.receiver (recv_round wait answer fails) c
turn key_backspace (interrupt fails) c =
    if is_failed c.sender || is_failed c.receiver then c else interrupted (shutdown fails c)

unfoldable pub turns : ℕ → List Turn → Client → Client
unfolding turn
turns key_backspace [] c = c
turns key_backspace (t ∷ ts) c = turns key_backspace ts (turn key_backspace t c)
