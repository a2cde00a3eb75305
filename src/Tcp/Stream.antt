-- ===== src/Tcp/Stream.antt =====
-- `tcpstream` of tcp/tcpstream.hpp and tcp/tcpstream.cpp: who holds a descriptor, and when it is
-- closed. What is received and sent is in Connection.
use irc_chat.Base.{◌∷◌, if◌then◌else◌, Result, ok, throw, runtime_error}
use irc_chat.Tcp.{ℤ, pos, negsuc, is_negative, is_zero, is_positive, Trace, answered, closed}

pub record TcpStream : Type 0 where
  pub fd : ℤ

-- The private constructor.
abbrev pub of_fd : ℤ → TcpStream
of_fd fd = record { fd = fd }

-- The move constructor: the new stream, and the old one.
unfoldable pub move_stream : TcpStream → TcpStream × TcpStream
move_stream rhs = (of_fd rhs.fd, of_fd (negsuc 0))

unfoldable pub close : TcpStream → Trace → Trace
close s t = if is_positive s.fd then closed s.fd ∷ t else t

-- The destructor.
unfoldable pub destroy : TcpStream → Trace → Trace
unfolding close
destroy s t = close s t

-- `operator=`: `*this` and `rhs` afterwards.
unfoldable pub assign : TcpStream → TcpStream → Trace → (TcpStream × TcpStream) × Trace
unfolding close
assign this rhs t = ((of_fd rhs.fd, of_fd this.fd), close this t)

-- A descriptor that the system gave, or the exception.
abbrev pub stream_of : ℤ → Result TcpStream
stream_of fd = if is_negative fd then throw runtime_error else ok (of_fd fd)

-- `fd` is what `fcntl` answers.
unfoldable pub duplicate : ℤ → Trace → Result TcpStream × Trace
duplicate fd t = (stream_of fd, answered fd t)

-- `int ret = ::connect(...) != 0`.
abbrev pub connect_result : ℤ → ℤ
connect_result answer = if is_zero answer then pos 0 else pos 1

-- `fd` is what `socket` answers, `answer` what `::connect` does.
unfoldable pub connect_to : ℤ → ℤ → Trace → Result TcpStream × Trace
connect_to fd answer t =
    if is_negative fd
    then (throw runtime_error, t)
    else if is_negative (connect_result answer)
    then (throw runtime_error, answered fd t)
    else if is_zero (connect_result answer)
    then (ok (of_fd fd), answered fd t)
    else (throw runtime_error, answered fd t)
