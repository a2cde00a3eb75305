-- ===== src/Server/Loop/Poll/Sweeping.antt =====
-- The sweep of `server::run`, server/main.cpp: it forgets every connection that has ended and leaves no
-- callback of one.
use irc_chat.Base.{nat_eq}
use irc_chat.Base.{
  ℕ, ◌+◌, ◌<◌, ◌≤◌, ◌≡◌, sym, ◌∙◌, ap, Bool, List, [], ◌∷◌, Option, none, some, arith, Str, lookup,
  erase, lookup-erase, inl, inr, true, false, ◌||◌, Option-cases, Bool-cases, ◌==◌, ==_iff,
  if◌then◌else◌, Map,
}
use irc_chat.Connection.Wiring.{IsServed, IsWired, lookup-written}
use irc_chat.Connection.{Connection}
use irc_chat.Db.{ConnInfo}
use irc_chat.Message.{Message}
use irc_chat.Registry.Callbacks.{AllIn-map}
use irc_chat.Registry.{size_mod, PollRegistry, Callback}
use irc_chat.Server.Keeping.{
  Ensures, IsStable, called, calls, bind-Ensures, then-Ensures, quit_chan-Ensures, pure-Ensures,
  conn_info-Ensures,
}
use irc_chat.Server.Loop.Poll.Budget.{idle_count}
use irc_chat.Server.Loop.Poll.Callbacks.{Post-map}
use irc_chat.Server.Loop.{quit_swept, forget, sweep_ended, sweep_one, sweep_all, ids_of, sweep}
use irc_chat.Server.Wiring.{IsOrderly, IsOrderly-IsStable, HasState, state-called, member-connected}
use irc_chat.Server.World.{World, send_if_connected}

quit_swept-Ensures :
    (P : World → Type 0)
    → IsStable P
    → (id : ℕ) (info : ConnInfo) (o : Option Str) → Ensures P P (quit_swept id info o)
unfolding quit_swept
quit_swept-Ensures P s id info none = pure-Ensures P tt
quit_swept-Ensures P s id info (some name) = search (calls, quit_chan-Ensures) depth 12

unfoldable pub is_among : ℕ → List ℕ → Bool
is_among k [] = false
is_among k (j ∷ ids) = j == k || is_among k ids

-- A connection that has ended is among those that the sweep has yet to come to.
abbrev pub EndedAmong : List ℕ → Map ℕ Connection → Type 0
EndedAmong ids cs =
    (k : ℕ) (c : Connection) → lookup k cs ≡ some c → c.connected ≡ false → is_among k ids ≡ true

EndedAmong-called :
    (ids : List ℕ) (w : World) (k : ℕ) (c : Connection) (msg : Message)
    → lookup k w.connections ≡ some c
    → EndedAmong ids w.connections
    → EndedAmong ids (called (send_if_connected msg) k c w).connections
EndedAmong-called ids w k c msg there h j d at down = elim (Bool-cases (k == j)) [
  | inr other ↦ h j d (ground (arith, written)) down
  | inl hit ↦
      let e : (send_if_connected msg c w.registry).0 ≡ d = ground (arith, written) in
      h j c (ground (arith, ==_iff k j, there))
        (sym (member-connected msg c w.registry) ∙ ap (λ x. x.connected) e ∙ down)
]
  where
    written :
        lookup j (called (send_if_connected msg) k c w).connections
        ≡ (if k == j then some (send_if_connected msg c w.registry).0 else lookup j w.connections)
    written = lookup-written w.connections k c (send_if_connected msg c w.registry).0 there j

-- Without the connection of `id`, which has ended.
module _ (cs : Map ℕ Connection) (r : PollRegistry) (id : ℕ) (c : Connection)
    (there : lookup id cs ≡ some c) (down : c.connected ≡ false) where
  IsServed-erase : (cb : Callback) (t : ℕ) → IsServed cs cb t → IsServed (erase id cs) cb t
  IsServed-erase Callback.poll_accept t h = tt
  IsServed-erase (Callback.poll_recv j) t (d, at, up, tok) =
      (d, ground (arith, lookup-erase id j cs, ==_iff id j, there, down), up, tok)
  IsServed-erase (Callback.poll_send j) t (d, at, up, tok) =
      (d, ground (arith, lookup-erase id j cs, ==_iff id j, there, down), up, tok)

  pub erase-IsWired : IsWired cs r → IsWired (erase id cs) r
  erase-IsWired h = record {
    own_ids = λ k d at. h.own_ids k d (ground (arith, lookup-erase id k cs));
    fronts = λ k d at. h.fronts k d (ground (arith, lookup-erase id k cs));
    registry = h.registry;
    served =
        AllIn-map (IsServed cs) (IsServed (erase id cs)) r.callbacks_and_toks IsServed-erase
          h.served;
  }

idle_count-erase : (id : ℕ) (cs : Map ℕ Connection) → idle_count (erase id cs) ≤ idle_count cs
unfolding idle_count erase
idle_count-erase id [] = omega arith
idle_count-erase id ((k, c) ∷ cs) = ground (arith, idle_count-erase id cs)

module _ (entries tokens ids : ℕ) (r₀ : PollRegistry) (room : tokens + 1 < size_mod) where
  -- Before the rounds for these connections.
  record IsSweeping (left : List ℕ) (w : World) : Type 0 where
    orderly : IsOrderly entries tokens ids r₀ w
    ended : EndedAmong left w.connections

  -- In the round for a connection that has ended.
  record IsEnding (id : ℕ) (left : List ℕ) (w : World) : Type 0 where
    sweeping : IsSweeping left w
    down : HasState false id w

  IsEnding-IsStable : (id : ℕ) (left : List ℕ) → IsStable (IsEnding id left)
  IsEnding-IsStable id left = record {
    on_db = λ w db h. record {
      sweeping = record {
        orderly = (IsOrderly-IsStable entries tokens ids r₀ room).on_db w db h.sweeping.orderly;
        ended = h.sweeping.ended;
      };
      down = h.down;
    };
    on_member = λ w k c msg e h. record {
      sweeping = record {
        orderly =
            (IsOrderly-IsStable entries tokens ids r₀ room).on_member w k c msg e
              h.sweeping.orderly;
        ended = EndedAmong-called left w k c msg e h.sweeping.ended;
      };
      down = state-called (send_if_connected msg) (member-connected msg) id k w c e h.down;
    };
  }

  forget-Ensures :
      (id : ℕ) (left : List ℕ) → Ensures (IsEnding id (id ∷ left)) (IsSweeping left) (forget id)
  unfolding Ensures is_among
  forget-Ensures id left w h =
      let (c, there, down) = h.down in
      let o = h.sweeping.orderly in
      record {
        orderly = record {
          within = record {
            few_entries = omega (arith, idle_count-erase id w.connections, o.within.few_entries);
            few_tokens = omega (arith, idle_count-erase id w.connections, o.within.few_tokens);
            few_ids = o.within.few_ids;
            quieter = o.within.quieter;
          };
          wired = erase-IsWired w.connections w.registry id c there down o.wired;
        };
        ended = λ k d at e. ground (
          arith,
          lookup-erase id k w.connections,
          h.sweeping.ended k d (ground (arith, lookup-erase id k w.connections)) e,
        );
      }

  sweep_ended-Ensures :
      (id : ℕ) (left : List ℕ)
      → Ensures (IsEnding id (id ∷ left)) (IsSweeping left) (sweep_ended id)
  unfolding sweep_ended
  sweep_ended-Ensures id left =
      let P = IsEnding id (id ∷ left) in
      bind-Ensures P (IsSweeping left) _ _ (conn_info-Ensures P id) λ info.
        bind-Ensures P (IsSweeping left) _ _
          (quit_swept-Ensures P (IsEnding-IsStable id (id ∷ left)) id info info.joined_channel)
          (λ x. forget-Ensures id left)

  sweep_one-Ensures :
      (id : ℕ) (left : List ℕ) → Ensures (IsSweeping (id ∷ left)) (IsSweeping left) (sweep_one id)
  unfolding sweep_one Ensures is_among
  sweep_one-Ensures id left w h = elim (Option-cases (lookup id w.connections)) [
    | inl gone ↦
        rw (gone, sweep_one)
          (record {
            orderly = h.orderly;
            ended = λ k d at e. ground (arith, h.ended k d at e, ==_iff id k, gone);
          })
    | inr (c, there) ↦ elim (Bool-cases c.connected) [
      | inl up ↦
          rw (there, up, sweep_one)
            (record {
              orderly = h.orderly;
              ended = λ k d at e. ground (arith, h.ended k d at e, ==_iff id k, there, up);
            })
      | inr down ↦
          rw (there, down, sweep_one)
            (sweep_ended-Ensures id left w (record { sweeping = h; down = (c, there, down) }))
    ]
  ]

  sweep_all-Ensures : (left : List ℕ) → Ensures (IsSweeping left) (IsSweeping []) (sweep_all left)
  unfolding sweep_all
  sweep_all-Ensures [] = pure-Ensures (IsSweeping []) tt
  sweep_all-Ensures (id ∷ left) =
      then-Ensures (IsSweeping (id ∷ left)) (IsSweeping left) (IsSweeping []) _ _
        (sweep_one-Ensures id left) (λ x. sweep_all-Ensures left)

-- Every connection that the server holds is connected.
abbrev pub AllUp : World → Type 0
AllUp w = (k : ℕ) (c : Connection) → lookup k w.connections ≡ some c → c.connected ≡ true

all_among :
    (k : ℕ) (c : Connection) (cs : Map ℕ Connection)
    → lookup k cs ≡ some c
    → is_among k (ids_of cs) ≡ true
unfolding is_among ids_of lookup
all_among k c [] e = cc
all_among k c ((j, d) ∷ cs) e = ground (arith, all_among k c cs)

-- The sweep keeps order among the callbacks, and behind it every connection is connected.
pub sweep-AllUp :
    (entries tokens ids : ℕ) (r₀ : PollRegistry)
    → tokens + 1 < size_mod
    → Ensures
        (IsOrderly entries tokens ids r₀)
        (λ w. IsOrderly entries tokens ids r₀ w × AllUp w)
        sweep
unfolding sweep Ensures is_among
sweep-AllUp entries tokens ids r₀ room w h =
    Post-map (IsSweeping entries tokens ids r₀ room []) _ (sweep_all (ids_of w.connections) w)
      (λ w' q. (q.orderly, λ k c at. ground (arith, q.ended k c at)))
      (sweep_all-Ensures entries tokens ids r₀ room (ids_of w.connections) w
        (record { orderly = h; ended = λ k c at down. all_among k c w.connections at }))
