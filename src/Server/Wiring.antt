-- ===== src/Server/Wiring.antt =====
-- The callbacks of the registry under the calls of server/main.cpp: each points to a connection that the
-- server holds and that is connected, while tokens last.
use mathlib.Core.Path.{subst}
use irc_chat.Base.{nat_eq}
use irc_chat.Base.{
  ℕ, ◌+◌, ◌≤◌, ◌<◌, ◌≡◌, refl, sym, ◌∙◌, ap, Bool, true, [], ◌∷◌, none, some, arith, Str, lookup,
  Map, inl, inr, Bool-cases, if◌then◌else◌, ◌==◌, ==_iff,
}
use irc_chat.Connection.Frugal.{idle_of, IsFrugal-same, disconnect-IsFrugal}
use irc_chat.Connection.Recv.{store_chunk, drop_message}
use irc_chat.Connection.Rewiring.{
  same-IsRewired, send_text-IsRewired, disconnect-IsRewired, send_text-connected,
}
use irc_chat.Connection.Wiring.{
  IsWired, IsKept, IsRewired, HasFront, lookup-written, update-IsWired,
}
use irc_chat.Connection.{Connection, send_text, send_message, disconnect}
use irc_chat.Message.Print.{to_string}
use irc_chat.Message.{Message}
use irc_chat.Registry.{size_mod, PollRegistry}
use irc_chat.Server.Keeping.Reading.{poll_recv-Ensures}
use irc_chat.Server.Loop.{RecvResult, poll_recv}
use irc_chat.Server.Keeping.{Ensures, IsStable, CanReply, called}
use irc_chat.Server.Loop.Poll.Budget.{
  IsWithin, IsWithin-IsStable, IsWithin-CanReply, idle_count, called-IsWithin,
}
use irc_chat.Server.World.{World, send_if_connected}

-- The callbacks are served, within the room.
pub record IsOrderly (entries tokens ids : ℕ) (r₀ : PollRegistry) (w : World) : Type 0 where
  pub within : IsWithin entries tokens ids r₀ w
  pub wired : IsWired w.connections w.registry

-- The connection is there, and `b` says whether it is connected.
abbrev pub HasState : Bool → ℕ → World → Type 0
HasState b id w = (c : Connection) × (lookup id w.connections ≡ some c) × (c.connected ≡ b)

abbrev pub IsUp : ℕ → World → Type 0
IsUp = HasState true

pub record IsOpen (entries tokens ids : ℕ) (r₀ : PollRegistry) (id : ℕ) (w : World) : Type 0 where
  pub orderly : IsOrderly entries tokens ids r₀ w
  pub up : IsUp id w

idle_count-lookup :
    (id : ℕ) (c : Connection) (m : Map ℕ Connection)
    → lookup id m ≡ some c
    → idle_of c ≤ idle_count m
unfolding idle_count lookup
idle_count-lookup id c [] e = cc
idle_count-lookup id c ((k, d) ∷ m) e = ground (arith, idle_count-lookup id c m)

module _ (entries tokens ids : ℕ) (r₀ : PollRegistry) (room : tokens + 1 < size_mod) where
  -- An idle connection may still get a token.
  token_room :
      (w : World) (k : ℕ) (c : Connection)
      → lookup k w.connections ≡ some c
      → IsWithin entries tokens ids r₀ w
      → c.send_tok ≡ none
      → w.registry.next_tok + 1 < size_mod
  token_room w k c there h idle =
      let one : idle_of c ≡ 1 = ground arith in
      omega (arith, idle_count-lookup k c w.connections there, h.few_tokens)

  send-IsRewired :
      (s : Str) (w : World) (k : ℕ) (c : Connection)
      → lookup k w.connections ≡ some c
      → c.connected ≡ true
      → IsOrderly entries tokens ids r₀ w
      → IsRewired c w.registry (send_text s c w.registry).0 (send_text s c w.registry).1
  send-IsRewired s w k c there up h =
      send_text-IsRewired s c w.registry h.wired.registry up (token_room w k c there h.within)

  member-IsRewired :
      (msg : Message) (w : World) (k : ℕ) (c : Connection)
      → lookup k w.connections ≡ some c
      → IsOrderly entries tokens ids r₀ w
      → IsRewired c w.registry
          (send_if_connected msg c w.registry).0
          (send_if_connected msg c w.registry).1
  member-IsRewired msg w k c there h = elim (Bool-cases c.connected) [
    | inl up ↦
        subst (λ p. IsRewired c w.registry p.0 p.1)
          (ap (λ b. if b then send_text (to_string msg) c w.registry else (c, w.registry)) (sym up))
          (send-IsRewired (to_string msg) w k c there up h)
    | inr down ↦
        subst (λ p. IsRewired c w.registry p.0 p.1)
          (ap (λ b. if b then send_text (to_string msg) c w.registry else (c, w.registry))
            (sym down))
          (same-IsRewired c c w.registry h.wired.registry refl (λ q. q)
            (λ t. record { recv = λ p q. (p, q); send = λ p q. (p, q) }))
  ]

  pub IsOrderly-IsStable : IsStable (IsOrderly entries tokens ids r₀)
  IsOrderly-IsStable = record {
    on_db = λ w db h. record {
      within = (IsWithin-IsStable entries tokens ids r₀).on_db w db h.within;
      wired = h.wired;
    };
    on_member = λ w k c msg e h. record {
      within = (IsWithin-IsStable entries tokens ids r₀).on_member w k c msg e h.within;
      wired =
          update-IsWired w.connections w.registry _ k c _ e h.wired
            (member-IsRewired msg w k c e h);
    };
  }

pub state-called :
    {b : Bool} (f : Connection → PollRegistry → Connection × PollRegistry)
    → ((c : Connection) (r : PollRegistry) → (f c r).0.connected ≡ c.connected)
    → (id k : ℕ) (w : World) (c : Connection) → lookup k w.connections ≡ some c
    → HasState b id w
    → HasState b id (called f k c w)
state-called f same id k w c there (d, at, up) = elim (Bool-cases (k == id)) [
  | inr other ↦
      (d, ground (arith, lookup-written w.connections k c (f c w.registry).0 there id), up)
  | inl hit ↦
      let e : c ≡ d = ground (arith, ==_iff k id, there, at) in
      (
        (f c w.registry).0,
        ground (arith, lookup-written w.connections k c (f c w.registry).0 there id),
        same c w.registry ∙ ap (λ x. x.connected) e ∙ up,
      )
]

pub member-connected :
    (msg : Message) (c : Connection) (r : PollRegistry)
    → (send_if_connected msg c r).0.connected ≡ c.connected
member-connected msg c r = ground (arith, send_text-connected (to_string msg) c r)

module _ (entries tokens ids : ℕ) (r₀ : PollRegistry) (room : tokens + 1 < size_mod) (id : ℕ) where
  IsOpen-IsStable : IsStable (IsOpen entries tokens ids r₀ id)
  IsOpen-IsStable = record {
    on_db = λ w db h. record {
      orderly = (IsOrderly-IsStable entries tokens ids r₀ room).on_db w db h.orderly;
      up = h.up;
    };
    on_member = λ w k c msg e h. record {
      orderly = (IsOrderly-IsStable entries tokens ids r₀ room).on_member w k c msg e h.orderly;
      up = state-called (send_if_connected msg) (member-connected msg) id k w c e h.up;
    };
  }

  is_up :
      (w : World) (c : Connection)
      → lookup id w.connections ≡ some c
      → IsUp id w
      → c.connected ≡ true
  is_up w c there (d, at, up) = ground (arith, there, at)

  IsOpen-CanReply : CanReply id (IsOpen entries tokens ids r₀ id)
  unfolding send_message
  IsOpen-CanReply = record {
    on_reply = λ w c msg e h. record {
      orderly = record {
        within = (IsWithin-CanReply entries tokens ids r₀ id).on_reply w c msg e h.orderly.within;
        wired = update-IsWired w.connections w.registry _ id c _ e h.orderly.wired (
            send-IsRewired entries tokens ids r₀ room (to_string msg) w id c e (is_up w c e h.up)
              h.orderly);
      };
      up = state-called (send_message msg) (send_text-connected (to_string msg)) id id w c e h.up;
    };
  }

  buffer-IsOrderly :
      (f : Connection → Connection)
      → ((c : Connection) → (f c).id ≡ c.id)
      → ((c : Connection)
          → HasFront c.send_buf c.send_queue
          → HasFront (f c).send_buf (f c).send_queue)
      → ((c : Connection) (t : ℕ) → IsKept c (f c) t)
      → ((c : Connection) → (f c).send_tok ≡ c.send_tok)
      → (w : World) (c : Connection) → lookup id w.connections ≡ some c
      → IsOrderly entries tokens ids r₀ w
      → IsOrderly entries tokens ids r₀ (called (λ c r. (f c, r)) id c w)
  buffer-IsOrderly f own front kept tok w c e h = record {
    within =
        called-IsWithin entries tokens ids r₀ (λ c r. (f c, r))
          (λ c r. IsFrugal-same c (f c) r (tok c)) id w c e h.within;
    wired =
        update-IsWired w.connections w.registry w.registry id c (f c) e h.wired
          (same-IsRewired c (f c) w.registry h.wired.registry (own c) (front c) (kept c));
  }

  pub recv-IsOrderly :
      (res : RecvResult)
      → Ensures
          (IsOpen entries tokens ids r₀ id)
          (IsOrderly entries tokens ids r₀)
          (poll_recv id res)
  unfolding store_chunk drop_message
  recv-IsOrderly res =
      poll_recv-Ensures (IsOpen entries tokens ids r₀ id) (IsOrderly entries tokens ids r₀)
        IsOpen-IsStable id IsOpen-CanReply (λ w h. h.orderly)
        (λ w c e h. record {
          within =
              called-IsWithin entries tokens ids r₀ disconnect disconnect-IsFrugal id w c e
                h.orderly.within;
          wired =
              update-IsWired w.connections w.registry _ id c _ e h.orderly.wired
                (disconnect-IsRewired c w.registry h.orderly.wired.registry (is_up w c e h.up));
        })
        (λ w c chunk e h. record {
          orderly =
              buffer-IsOrderly (store_chunk chunk) (λ c. refl) (λ c q. q)
                (λ c t. record { recv = λ p q. (p, q); send = λ p q. (p, q) }) (λ c. refl) w c e
                h.orderly;
          up = state-called (λ c r. (store_chunk chunk c, r)) (λ c r. refl) id id w c e h.up;
        })
        (λ w c n e h.
          buffer-IsOrderly (drop_message n) (λ c. refl) (λ c q. q)
            (λ c t. record { recv = λ p q. (p, q); send = λ p q. (p, q) }) (λ c. refl) w c e h)
        res
