-- ===== src/Tcp/Listener.antt =====
-- `tcplistener` of tcp/tcplistener.hpp and tcp/tcplistener.cpp. The address, which only the system
-- reads, is left out.
use irc_chat.Base.{ℕ, Bool, true, false, not, ◌∷◌, if◌then◌else◌, Result, ok, throw, runtime_error}
use irc_chat.Tcp.Stream.{TcpStream, stream_of}
use irc_chat.Tcp.{ℤ, pos, is_negative, is_zero, Trace, answered, shut_down, closed}

pub record TcpListener : Type 0 where
  pub port : ℕ
  pub fd : ℤ
  pub init : Bool

-- The constructor. `_fd` has no value yet, so that it is an argument.
unfoldable pub new_listener : ℤ → ℕ → TcpListener
new_listener fd port = record { port = port; fd = fd; init = false }

-- `_fd(rhs._init)`.
abbrev pub bool_to_int : Bool → ℤ
bool_to_int true = pos 1
bool_to_int false = pos 0

-- The move constructor: the new listener, and the old one.
unfoldable pub move_listener : TcpListener → TcpListener × TcpListener
move_listener rhs = (record rhs { fd = bool_to_int rhs.init }, record rhs { init = false })

-- The destructor.
unfoldable pub destroy_listener : TcpListener → Trace → Trace
destroy_listener l t = if l.init then closed l.fd ∷ shut_down l.fd ∷ t else t

-- What the calls of `start` answer.
pub record StartAnswers : Type 0 where
  pub socket : ℤ
  pub setsockopt : ℤ
  pub bind : ℤ
  pub listen : ℤ

abbrev pub started : StartAnswers → TcpListener → Result (Unit {0}) × TcpListener
started a l =
    if not (is_zero a.setsockopt)
    then (throw runtime_error, record l { fd = a.socket })
    else if is_negative a.bind
    then (throw runtime_error, record l { fd = a.socket })
    else if is_negative a.listen
    then (throw runtime_error, record l { fd = a.socket })
    else (ok tt, record l { fd = a.socket; init = true })

-- The outcome, the listener afterwards, and the calls.
unfoldable pub start_listener :
    StartAnswers → TcpListener → Trace → (Result (Unit {0}) × TcpListener) × Trace
start_listener a l t =
    if is_zero a.socket
    then ((throw runtime_error, record l { fd = a.socket }), answered a.socket t)
    else (started a l, answered a.socket t)

unfoldable pub assert_init : TcpListener → Result (Unit {0})
assert_init l = if not l.init then throw runtime_error else ok tt

unfoldable pub raw_fd : TcpListener → Result ℤ
unfolding assert_init
raw_fd l = elim (assert_init l) [ throw e ↦ throw e | ok _ ↦ ok l.fd ]

-- `fd` is what `::accept` answers.
unfoldable pub accept_stream : ℤ → TcpListener → Trace → Result TcpStream × Trace
unfolding assert_init
accept_stream fd l t = elim (assert_init l) [
  | throw e ↦ (throw e, t)
  | ok _ ↦ (stream_of fd, answered fd t)
]
