-- ===== src/Channel/Operators.antt =====
-- The operators of a channel of server/channel.cpp: how many there are, and lemmas on how the
-- operations on the members change that.
use irc_chat.Base.{nat_eq}
use irc_chat.Base.{
  ℕ, ◌+◌, ◌≤◌, ◌≡◌, refl, true, false, [], ◌∷◌, arith, Map, insert, update, erase, if◌then◌else◌,
  Bool-cases, inl, inr,
}
use irc_chat.Channel.{Member, has_operator, promote}

-- How many members are operators.
abbrev pub operators : Map ℕ Member → ℕ
operators [] = 0
operators ((id, m) ∷ ms) = (if m.is_operator then 1 else 0) + operators ms

pub operators-insert :
    (id : ℕ) (m : Member) (ms : Map ℕ Member)
    → m.is_operator ≡ false
    → operators (insert id m ms) ≡ operators ms
unfolding insert
operators-insert id m [] h = ground arith
operators-insert id m ((j, w) ∷ ms) h = ground (arith, operators-insert id m ms h)

pub operators-erase : (id : ℕ) (ms : Map ℕ Member) → operators (erase id ms) ≤ operators ms
unfolding erase
operators-erase id [] = omega arith
operators-erase id ((j, w) ∷ ms) = ground (arith, operators-erase id ms)

-- A write that leaves `is_operator` alone.
pub operators-update :
    (f : Member → Member)
    → ((m : Member) → (f m).is_operator ≡ m.is_operator)
    → (id : ℕ) (ms : Map ℕ Member) → operators (update id f ms) ≡ operators ms
unfolding update
operators-update f keep id [] = refl
operators-update f keep id ((j, w) ∷ ms) = ground (arith, keep w, operators-update f keep id ms)

has_operator-operators : (ms : Map ℕ Member) → has_operator ms ≡ false → operators ms ≡ 0
unfolding has_operator
has_operator-operators [] h = refl
has_operator-operators ((id, m) ∷ ms) h = ground (arith, has_operator-operators ms)

operators-has_operator : (ms : Map ℕ Member) → has_operator ms ≡ true → 1 ≤ operators ms
unfolding has_operator
operators-has_operator [] h = cc
operators-has_operator ((id, m) ∷ ms) h = ground (arith, operators-has_operator ms)

-- A channel with a member left and at most one operator has exactly one operator after
-- `maybe_promote_operator`.
pub operators-promote :
    (ms : Map ℕ Member) (id : ℕ) (m : Member)
    → operators ((id, m) ∷ ms) ≤ 1
    → operators (promote ((id, m) ∷ ms)).0 ≡ 1
unfolding promote
operators-promote ms id m h = elim (Bool-cases (has_operator ((id, m) ∷ ms))) [
  | inl old ↦ rw (old, promote) (omega (arith, operators-has_operator ((id, m) ∷ ms) old))
  | inr new ↦ rw (new, promote) (ground (arith, has_operator-operators ((id, m) ∷ ms) new))
]
