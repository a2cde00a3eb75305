-- ===== src/Tcp/Lifetime.antt =====
-- The descriptors of the streams of tcp/tcpstream.cpp over their lifetime, as the calls count them.
use irc_chat.Base.{nat_eq}
use irc_chat.Base.{ℕ, ◌+◌, ◌≤◌, ◌≡◌, Bool, true, false, ◌==◌, List, [], ◌∷◌, ◌++◌, arith, ok}
use irc_chat.Tcp.Listener.{TcpListener, accept_stream, assert_init}
use irc_chat.Tcp.Stream.{TcpStream, move_stream, close, destroy, duplicate, connect_to, of_fd}
use irc_chat.Tcp.{ℤ, pos, negsuc, opened, closed, Trace, answered}

abbrev pub is_fd : ℕ → ℤ → Bool
is_fd n (pos m) = n == m
is_fd n (negsuc m) = false

abbrev pub tick : Bool → ℕ
tick true = 1
tick false = 0

-- How often the descriptor was given out, and how often it was closed.
unfoldable pub opens : ℕ → Trace → ℕ
opens n [] = 0
opens n (opened fd ∷ t) = tick (is_fd n fd) + opens n t
opens n (_ ∷ t) = opens n t

unfoldable pub closes : ℕ → Trace → ℕ
closes n [] = 0
closes n (closed fd ∷ t) = tick (is_fd n fd) + closes n t
closes n (_ ∷ t) = closes n t

-- How many streams hold it.
unfoldable pub holders : ℕ → List TcpStream → ℕ
holders n [] = 0
holders n (s ∷ ss) = tick (is_fd n s.fd) + holders n ss

-- The system gives out no descriptor that is open.
unfoldable pub IsNew : ℤ → Trace → Type 0
IsNew fd t = (n : ℕ) → is_fd n fd ≡ true → opens n t ≡ closes n t

-- The streams of a program that makes them by `accept`, `connect` and `duplicate`, moves them to new
-- ones and destroys them, in any order.
pub data Uses : List TcpStream → Trace → Type 0 where
  none_yet : Uses [] []
  accepts :
      {ss : List TcpStream} {t t' : Trace} (fd : ℤ) (l : TcpListener) (s : TcpStream)
      → Uses ss t
      → IsNew fd t
      → accept_stream fd l t ≡ (ok s, t')
      → Uses (s ∷ ss) t'
  connects :
      {ss : List TcpStream} {t t' : Trace} (fd answer : ℤ) (s : TcpStream)
      → Uses ss t
      → IsNew fd t
      → connect_to fd answer t ≡ (ok s, t')
      → Uses (s ∷ ss) t'
  duplicates :
      {ss : List TcpStream} {t t' : Trace} (fd : ℤ) (s : TcpStream)
      → Uses ss t
      → IsNew fd t
      → duplicate fd t ≡ (ok s, t')
      → Uses (s ∷ ss) t'
  moves :
      {t : Trace} (before behind : List TcpStream) (s : TcpStream)
      → Uses (before ++ (s ∷ behind)) t
      → Uses ((move_stream s).0 ∷ (before ++ ((move_stream s).1 ∷ behind))) t
  destroys :
      {t : Trace} (before behind : List TcpStream) (s : TcpStream)
      → Uses (before ++ (s ∷ behind)) t
      → Uses (before ++ behind) (destroy s t)

-- A descriptor that is open has one holder, and one that is closed has none.
pub record IsHeld (n : ℕ) (ss : List TcpStream) (t : Trace) : Type 0 where
  pub balance : opens n t ≡ closes n t + holders n ss
  pub one_holder : holders n ss ≤ 1

holders-++ : (n : ℕ) (xs ys : List TcpStream) → holders n (xs ++ ys) ≡ holders n xs + holders n ys
unfolding holders
holders-++ n [] ys = omega arith
holders-++ n (x ∷ xs) ys = ground (arith, holders-++ n xs ys)

-- A stream of a descriptor that was not open.
given-IsHeld :
    (n : ℕ) (fd : ℤ) {ss : List TcpStream} {t : Trace}
    → IsNew fd t
    → IsHeld n ss t
    → IsHeld n (of_fd fd ∷ ss) (answered fd t)
unfolding IsNew holders opens closes
given-IsHeld n (negsuc m) new h = record {
  balance = ground (arith, h.balance);
  one_holder = ground (arith, h.one_holder);
}
given-IsHeld n (pos m) new h = record {
  balance = ground (arith, h.balance, new n);
  one_holder = ground (arith, h.balance, h.one_holder, new n);
}

-- The calls that make a stream, where they return one.
accept_stream-returns :
    (fd : ℤ) (l : TcpListener) (s : TcpStream) (t t' : Trace)
    → accept_stream fd l t ≡ (ok s, t')
    → (s ≡ of_fd fd) × (t' ≡ answered fd t)
unfolding accept_stream assert_init
accept_stream-returns fd l s t t' e = ground arith

connect_to-returns :
    (fd answer : ℤ) (s : TcpStream) (t t' : Trace)
    → connect_to fd answer t ≡ (ok s, t')
    → (s ≡ of_fd fd) × (t' ≡ answered fd t)
unfolding connect_to
connect_to-returns fd answer s t t' e = ground arith

duplicate-returns :
    (fd : ℤ) (s : TcpStream) (t t' : Trace)
    → duplicate fd t ≡ (ok s, t')
    → (s ≡ of_fd fd) × (t' ≡ answered fd t)
unfolding duplicate
duplicate-returns fd s t t' e = ground arith

module _ (n : ℕ) (some_fd : 1 ≤ n) where
  made-IsHeld :
      (fd : ℤ) {ss : List TcpStream} {t t' : Trace} {s : TcpStream}
      → IsNew fd t
      → (s ≡ of_fd fd) × (t' ≡ answered fd t)
      → IsHeld n ss t
      → IsHeld n (s ∷ ss) t'
  made-IsHeld fd new (e, e') h = rw (e, e') (given-IsHeld n fd new h)

  moved-IsHeld :
      (before behind : List TcpStream) (s : TcpStream) (t : Trace)
      → IsHeld n (before ++ (s ∷ behind)) t
      → IsHeld n ((move_stream s).0 ∷ (before ++ ((move_stream s).1 ∷ behind))) t
  unfolding holders move_stream
  moved-IsHeld before behind s t h = record {
    balance = grind (
      arith,
      h.balance,
      holders-++ n before (s ∷ behind),
      holders-++ n before (of_fd (negsuc 0) ∷ behind),
    );
    one_holder = grind (
      arith,
      h.one_holder,
      holders-++ n before (s ∷ behind),
      holders-++ n before (of_fd (negsuc 0) ∷ behind),
    );
  }

  destroyed-IsHeld :
      (before behind : List TcpStream) (s : TcpStream) (t : Trace)
      → IsHeld n (before ++ (s ∷ behind)) t
      → IsHeld n (before ++ behind) (destroy s t)
  unfolding holders destroy close opens closes
  destroyed-IsHeld before behind s t h = record {
    balance =
        ground
          (arith, h.balance, holders-++ n before (s ∷ behind), holders-++ n before behind, some_fd);
    one_holder =
        ground (arith, h.one_holder, holders-++ n before (s ∷ behind), holders-++ n before behind);
  }

  -- Where the system gives out no descriptor that is open, and streams are only made, moved to new
  -- ones and destroyed: a descriptor other than 0 has been closed as often as it was given out, or,
  -- while one stream holds it, once less; and no two streams hold it. So none is closed twice, and
  -- none is left open when its stream is gone.
  pub Uses-IsHeld : {ss : List TcpStream} {t : Trace} → Uses ss t → IsHeld n ss t
  unfolding opens closes holders
  Uses-IsHeld none_yet = record { balance = omega arith; one_holder = omega arith }
  Uses-IsHeld (accepts fd l s u new e) =
      made-IsHeld fd new (accept_stream-returns fd l s _ _ e) (Uses-IsHeld u)
  Uses-IsHeld (connects fd answer s u new e) =
      made-IsHeld fd new (connect_to-returns fd answer s _ _ e) (Uses-IsHeld u)
  Uses-IsHeld (duplicates fd s u new e) =
      made-IsHeld fd new (duplicate-returns fd s _ _ e) (Uses-IsHeld u)
  Uses-IsHeld (moves before behind s u) = moved-IsHeld before behind s _ (Uses-IsHeld u)
  Uses-IsHeld (destroys before behind s u) = destroyed-IsHeld before behind s _ (Uses-IsHeld u)
