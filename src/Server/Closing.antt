-- ===== src/Server/Closing.antt =====
-- The end of the process of server/main.cpp: the destructor of the server, and those of its connections,
-- `connection::~connection` of server/connection.cpp, on the registry, which outlives them.
use mathlib.Core.Path.{subst}
use irc_chat.Base.{nat_eq}
use irc_chat.Base.{
  ℕ, ◌≡◌, refl, ap, ◌∙◌, sym, inl, inr, Bool, true, false, ◌||◌, List, [], ◌∷◌, none, some, arith,
  lookup, update, erase, contains, contains-erase, contains-update, contains-lookup, lookup-update,
  Map, ◌==◌, ==_iff, Option-cases, Bool-cases, if◌then◌else◌, AllIn,
}
use irc_chat.Connection.Rewiring.{same-IsRewired, disconnect-IsRewired}
use irc_chat.Connection.Wiring.{IsWired, IsRewired, IsServed, update-IsWired}
use irc_chat.Connection.{Connection, disconnect}
use irc_chat.Registry.{PollRegistry, Callback}
use irc_chat.Server.Loop.{ids_of}
use irc_chat.Server.Loop.Poll.Sweeping.{erase-IsWired}

-- The destructor of a connection.
unfoldable pub destroy_connection : Connection → PollRegistry → Connection × PollRegistry
destroy_connection c r = if c.connected then disconnect c r else (c, r)

-- An entry of the map of connections is destroyed.
unfoldable pub destroy_one : ℕ → Map ℕ Connection × PollRegistry → Map ℕ Connection × PollRegistry
unfolding destroy_connection
destroy_one id (cs, r) = elim (lookup id cs) [
  | none ↦ (cs, r)
  | some c ↦ (erase id (update id (λ _. (destroy_connection c r).0) cs), (destroy_connection c r).1)
]

-- The map is a member of the server, which is destroyed with it: one connection after another, in an
-- order that is the caller's, as the standard does not say which.
unfoldable pub destroy_all :
    List ℕ → Map ℕ Connection × PollRegistry → Map ℕ Connection × PollRegistry
unfolding destroy_one
destroy_all [] s = s
destroy_all (id ∷ ids) s = destroy_all ids (destroy_one id s)

abbrev pub is_in : ℕ → List ℕ → Bool
is_in k [] = false
is_in k (id ∷ ids) = (id == k) || is_in k ids

destroyed-IsRewired :
    (cs : Map ℕ Connection) (c : Connection) (r : PollRegistry)
    → IsWired cs r
    → IsRewired c r (destroy_connection c r).0 (destroy_connection c r).1
unfolding destroy_connection
destroyed-IsRewired cs c r h = elim (Bool-cases c.connected) [
  | inl up ↦
      subst (λ p. IsRewired c r p.0 p.1) (sym (ap (λ b. if b then disconnect c r else (c, r)) up))
        (disconnect-IsRewired c r h.registry up)
  | inr down ↦
      subst (λ p. IsRewired c r p.0 p.1) (sym (ap (λ b. if b then disconnect c r else (c, r)) down))
        (same-IsRewired c c r h.registry refl (λ f. f)
          (λ t. record { recv = λ up tok. (up, tok); send = λ up tok. (up, tok) }))
]

destroyed-down : (c : Connection) (r : PollRegistry) → (destroy_connection c r).0.connected ≡ false
unfolding destroy_connection disconnect
destroyed-down c r = ground arith

destroy_one-IsWired :
    (id : ℕ) (cs : Map ℕ Connection) (r : PollRegistry)
    → IsWired cs r
    → IsWired (destroy_one id (cs, r)).0 (destroy_one id (cs, r)).1
unfolding destroy_one
destroy_one-IsWired id cs r h = elim (Option-cases (lookup id cs)) [
  | inl absent ↦ rw (absent, destroy_one) h
  | inr (c, there) ↦
      rw (there, destroy_one)
        (erase-IsWired (update id (λ _. (destroy_connection c r).0) cs) (destroy_connection c r).1
          id (destroy_connection c r).0
          (ground
            (arith, lookup-update id id (λ _. (destroy_connection c r).0) cs, there, ==_iff id id))
          (destroyed-down c r)
          (update-IsWired cs r (destroy_connection c r).1 id c (destroy_connection c r).0 there h
            (destroyed-IsRewired cs c r h)))
]

contains-destroy_one :
    (k id : ℕ) (cs : Map ℕ Connection) (r : PollRegistry)
    → contains k (destroy_one id (cs, r)).0 ≡ (if id == k then false else contains k cs)
unfolding destroy_one
contains-destroy_one k id cs r = elim (Option-cases (lookup id cs)) [
  | inl absent ↦
      rw (absent, destroy_one) (ground (arith, contains-lookup id cs, absent, ==_iff id k))
  | inr (c, there) ↦
      rw (there, destroy_one)
        (contains-erase id k (update id (λ _. (destroy_connection c r).0) cs)
          ∙ ground (arith, contains-update id k (λ _. (destroy_connection c r).0) cs))
]

destroy_all-IsWired :
    (ids : List ℕ) (s : Map ℕ Connection × PollRegistry)
    → IsWired s.0 s.1
    → IsWired (destroy_all ids s).0 (destroy_all ids s).1
unfolding destroy_all
destroy_all-IsWired [] s h = h
destroy_all-IsWired (id ∷ ids) s h =
    destroy_all-IsWired ids (destroy_one id s) (destroy_one-IsWired id s.0 s.1 h)

contains-destroy_all :
    (ids : List ℕ) (s : Map ℕ Connection × PollRegistry) (k : ℕ)
    → (contains k s.0 ≡ true → is_in k ids ≡ true)
    → contains k (destroy_all ids s).0 ≡ false
unfolding destroy_all
contains-destroy_all [] s k all = ground (arith, all)
contains-destroy_all (id ∷ ids) s k all =
    contains-destroy_all ids (destroy_one id s) k
      (λ e. ground (arith, contains-destroy_one k id s.0 s.1, e, all))

-- The ids in the order of the map are one such order.
pub contains-ids_of : (cs : Map ℕ Connection) (k : ℕ) → contains k cs ≡ is_in k (ids_of cs)
unfolding contains ids_of
contains-ids_of [] k = refl
contains-ids_of ((id, c) ∷ cs) k = ground (arith, contains-ids_of cs k)

-- A callback that is not one of a connection.
abbrev pub IsOwn : Callback → ℕ → Type 0
IsOwn Callback.poll_accept t = Unit
IsOwn (Callback.poll_recv id) t = ⊥
IsOwn (Callback.poll_send id) t = ⊥

-- The callbacks left when every connection is gone.
IsOwn-left :
    (cs : Map ℕ Connection)
    → ((k : ℕ) → contains k cs ≡ false)
    → (l : List (Callback × ℕ)) → AllIn (IsServed cs) l
    → AllIn IsOwn l
IsOwn-left cs none_left [] h = tt
IsOwn-left cs none_left ((Callback.poll_accept, t) ∷ l) h = (tt, IsOwn-left cs none_left l h.1)
IsOwn-left cs none_left ((Callback.poll_recv id, t) ∷ l) h =
    absurd (ground (arith, h.0.1, contains-lookup id cs, none_left id))
IsOwn-left cs none_left ((Callback.poll_send id, t) ∷ l) h =
    absurd (ground (arith, h.0.1, contains-lookup id cs, none_left id))

-- Where every callback of a connection in the registry is one of a connection that is there and
-- connected, as it is between two rounds: once the connections are destroyed, in whatever order, the
-- registry holds no callback of any.
pub destroy_all-IsOwn :
    (ids : List ℕ) (cs : Map ℕ Connection) (r : PollRegistry)
    → ((k : ℕ) → contains k cs ≡ true → is_in k ids ≡ true)
    → IsWired cs r
    → AllIn IsOwn (destroy_all ids (cs, r)).1.callbacks_and_toks
destroy_all-IsOwn ids cs r all h =
    IsOwn-left (destroy_all ids (cs, r)).0 (λ k. contains-destroy_all ids (cs, r) k (all k)) _
      (destroy_all-IsWired ids (cs, r) h).served
