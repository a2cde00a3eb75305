-- ===== src/Tcp.antt =====
-- The sockets of tcp: the descriptors as `int`, and the system calls that a process makes on them. What
-- the system answers is an argument of each operation.
pub mod Stream
pub mod Listener
pub mod Lifetime
use irc_chat.Base.{ℕ, zero, suc, Bool, true, false, List, ◌∷◌}

-- `int`: `pos n` is n, `negsuc n` is -(n + 1).
pub data ℤ : Type 0 where
  pos : ℕ → ℤ
  negsuc : ℕ → ℤ

abbrev pub is_negative : ℤ → Bool
is_negative (pos n) = false
is_negative (negsuc n) = true

abbrev pub is_zero : ℤ → Bool
is_zero (pos zero) = true
is_zero _ = false

abbrev pub is_positive : ℤ → Bool
is_positive (pos (suc n)) = true
is_positive _ = false

-- The calls that give a descriptor, with the descriptor that they gave, and those that end one.
pub data SystemCall : Type 0 where
  opened : ℤ → SystemCall
  shut_down : ℤ → SystemCall
  closed : ℤ → SystemCall

-- The calls so far, the last one in front.
abbrev pub Trace : Type 0
Trace = List SystemCall

-- The trace behind a call that answers with a descriptor, or with a negative number.
abbrev pub answered : ℤ → Trace → Trace
answered (pos n) t = opened (pos n) ∷ t
answered (negsuc n) t = t
