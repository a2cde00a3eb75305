-- ===== src/Connection/Buffer.antt =====
-- Lemmas on the receive buffer of `connection::poll_recv`, server/connection.cpp: the bytes that wait in
-- it, and those that are handed over.
use mathlib.Core.List.{append_assoc}
use irc_chat.Base.{
  ℕ, suc, zero, ◌+◌, ◌-◌, ◌≤◌, ◌<◌, ◌≡◌, refl, sym, ap, ◌∙◌, [], ◌∷◌, ◌++◌, Str, arith, length,
  take, drop, length-take, length-append, take-append-drop, take-length-append,
}
use irc_chat.Connection.Recv.{resize, store_chunk, copy_message, drop_message}
use irc_chat.Connection.{Connection, zeros, buf_size}

-- The bytes that have come in and are not handed over yet.
abbrev pub waiting : Connection → Str
waiting c = take c.recv_idx c.recv_buf

-- Behind the bytes that wait there is room for `buf_size` more.
abbrev pub IsRoomy : Connection → Type 0
IsRoomy c = length c.recv_buf ≡ c.recv_idx + buf_size

pub length-zeros : (n : ℕ) → length (zeros n) ≡ n
length-zeros zero = refl
length-zeros (suc n) = ap suc (length-zeros n)

length-resize : (n : ℕ) (v : Str) → length (resize n v) ≡ n
unfolding resize
length-resize n v = omega (
  arith,
  length-append (take n v) (zeros (n - length v)),
  length-take n v,
  length-zeros (n - length v),
)

take-append_le : (n : ℕ) (p r : Str) → length p ≤ n → take n (p ++ r) ≡ p ++ take (n - length p) r
take-append_le n [] r le = ap (λ k. take k r) (omega arith)
take-append_le zero (c ∷ p) r le = absurd (omega arith)
take-append_le (suc n) (c ∷ p) r le =
    let e : n - length p ≡ suc n - suc (length p) = omega arith in
    ap (◌∷◌ c) (take-append_le n p r (omega arith) ∙ ap (λ k. p ++ take k r) e)

take-take_le : (k n : ℕ) (s : Str) → k ≤ n → take k (take n s) ≡ take k s
take-take_le zero n s le = refl
take-take_le (suc k) zero s le = absurd (omega arith)
take-take_le (suc k) (suc n) [] le = refl
take-take_le (suc k) (suc n) (c ∷ s) le = ap (◌∷◌ c) (take-take_le k n s (omega arith))

-- What stands in front of a buffer is there after a resize to no less than it.
take-resize : (n : ℕ) (p r : Str) → length p ≤ n → take (length p) (resize n (p ++ r)) ≡ p
unfolding resize
take-resize n p r le =
    ap (λ v. take (length p) (v ++ zeros (n - length (p ++ r)))) (take-append_le n p r le)
    ∙ ap (take (length p)) (append_assoc p (take (n - length p) r) (zeros (n - length (p ++ r))))
    ∙ take-length-append p (take (n - length p) r ++ zeros (n - length (p ++ r)))

-- On a receive buffer with room for `buf_size` bytes behind the bytes that wait, storing a chunk
-- puts it behind those bytes, and leaves room for `buf_size` bytes again.
pub waiting-store_chunk :
    (c : Connection) (chunk : Str)
    → IsRoomy c
    → (waiting (store_chunk chunk c) ≡ waiting c ++ chunk) × IsRoomy (store_chunk chunk c)
unfolding store_chunk resize
waiting-store_chunk c chunk h =
    let idx = c.recv_idx + length chunk in
    let front = take c.recv_idx c.recv_buf ++ chunk in
    let rest = drop idx c.recv_buf in
    let len : length front ≡ idx = omega (
      arith,
      length-append (take c.recv_idx c.recv_buf) chunk,
      length-take c.recv_idx c.recv_buf,
      h,
    ) in
    (
      ap (λ k. take k (resize (idx + buf_size) (take c.recv_idx c.recv_buf ++ (chunk ++ rest))))
            (sym len)
          ∙ ap (λ v. take (length front) (resize (idx + buf_size) v))
              (sym (append_assoc (take c.recv_idx c.recv_buf) chunk rest))
          ∙ take-resize (idx + buf_size) front rest (omega (arith, len)),
      length-resize (idx + buf_size) _,
    )

-- For an index among the bytes that wait in the receive buffer, the message that is handed over
-- followed by the bytes that wait once it is dropped are the bytes that waited, and room for
-- `buf_size` bytes is left.
pub copy-drop_message :
    (c : Connection) (msg_end : ℕ)
    → msg_end < c.recv_idx
    → (copy_message msg_end c ++ waiting (drop_message msg_end c) ≡ waiting c)
      × IsRoomy (drop_message msg_end c)
unfolding copy_message drop_message resize
copy-drop_message c msg_end lt =
    let used = take c.recv_idx c.recv_buf in
    let rest = drop (suc msg_end) used in
    (
      ap (λ v. v ++ waiting (drop_message msg_end c))
            (sym (take-take_le (suc msg_end) c.recv_idx c.recv_buf (omega arith)))
          ∙ ap (◌++◌ (take (suc msg_end) used)) (
              take-resize (length rest + buf_size) rest
                (take (suc msg_end) used ++ drop c.recv_idx c.recv_buf) (omega arith))
          ∙ take-append-drop (suc msg_end) used,
      length-resize (length rest + buf_size) _,
    )
