-- ===== src/Server/Loop/Poll/Budget.antt =====
-- The room that a callback of the server may take: entries of the registry, tokens and client ids, and
-- the descriptors with an event, which no callback makes more.
use irc_chat.Base.{nat_eq}
use irc_chat.Base.{
  ℕ, ◌+◌, ◌≤◌, ◌≡◌, refl, [], ◌∷◌, some, arith, lookup, update, insert, Map, inl, inr, Bool-cases,
  length,
}
use irc_chat.Connection.Frugal.{idle_of, IsFrugal, IsFrugal-same, send_text-IsFrugal}
use irc_chat.Connection.{Connection, send_message}
use irc_chat.Message.Print.{to_string}
use irc_chat.Message.{Message}
use irc_chat.Registry.Measure.{IsQuieter}
use irc_chat.Registry.{PollRegistry}
use irc_chat.Server.Keeping.{IsStable, CanReply, called}
use irc_chat.Server.World.{World, send_if_connected}

unfoldable pub idle_count : Map ℕ Connection → ℕ
idle_count [] = 0
idle_count ((k, c) ∷ m) = idle_of c + idle_count m

pub idle_count-update :
    (id : ℕ) (c c' : Connection) (m : Map ℕ Connection)
    → lookup id m ≡ some c
    → idle_count (update id (λ _. c') m) + idle_of c ≡ idle_count m + idle_of c'
unfolding idle_count lookup update
idle_count-update id c c' [] e = cc
idle_count-update id c c' ((k, d) ∷ m) e = ground (arith, idle_count-update id c c' m)

pub idle_count-insert :
    (id : ℕ) (c : Connection) (m : Map ℕ Connection)
    → idle_count (insert id c m) ≤ idle_of c + idle_count m
unfolding idle_count insert
idle_count-insert id c [] = omega arith
idle_count-insert id c ((k, d) ∷ m) = ground (arith, idle_count-insert id c m)

-- Within so many entries, tokens and ids, and with no more events than `r`.
pub record IsWithin (entries tokens ids : ℕ) (r : PollRegistry) (w : World) : Type 0 where
  pub few_entries : length w.registry.fds + idle_count w.connections ≤ entries
  pub few_tokens : w.registry.next_tok + idle_count w.connections ≤ tokens
  pub few_ids : w.curr_id_count ≤ ids
  pub quieter : IsQuieter w.registry r

-- A connection and the registry are written.
abbrev pub put : ℕ → Connection → PollRegistry → World → World
put id c r w = record w { connections = update id (λ _. c) w.connections; registry = r }

-- A call on one connection that takes `extra` more at most.
pub put-IsWithin :
    (extra entries tokens ids : ℕ) (r₀ : PollRegistry) (id : ℕ) (c c' : Connection)
    (r : PollRegistry) (w : World)
    → lookup id w.connections ≡ some c
    → IsFrugal extra c w.registry c' r
    → IsWithin entries tokens ids r₀ w
    → IsWithin (extra + entries) (extra + tokens) ids r₀ (put id c' r w)
put-IsWithin extra entries tokens ids r₀ id c c' r w e f h = record {
  few_entries = omega (arith, idle_count-update id c c' w.connections e, f.entries, h.few_entries);
  few_tokens = omega (arith, idle_count-update id c c' w.connections e, f.tokens, h.few_tokens);
  few_ids = h.few_ids;
  quieter = λ i. omega (arith, f.quieter i, h.quieter i);
}

pub more-IsWithin :
    {e t i e' t' i' : ℕ} {r₀ : PollRegistry} {w : World}
    → e ≤ e'
    → t ≤ t'
    → i ≤ i'
    → IsWithin e t i r₀ w
    → IsWithin e' t' i' r₀ w
more-IsWithin p q r h = record {
  few_entries = omega (arith, h.few_entries);
  few_tokens = omega (arith, h.few_tokens);
  few_ids = omega (arith, h.few_ids);
  quieter = h.quieter;
}

module _ (entries tokens ids : ℕ) (r₀ : PollRegistry) where
  pub called-IsWithin :
      (f : Connection → PollRegistry → Connection × PollRegistry)
      → ((c : Connection) (r : PollRegistry) → IsFrugal 0 c r (f c r).0 (f c r).1)
      → (id : ℕ) (w : World) (c : Connection) → lookup id w.connections ≡ some c
      → IsWithin entries tokens ids r₀ w
      → IsWithin entries tokens ids r₀ (called f id c w)
  called-IsWithin f frugal id w c e h = more-IsWithin (omega arith) (omega arith) (omega arith) (
      put-IsWithin 0 entries tokens ids r₀ id c (f c w.registry).0 (f c w.registry).1 w e
        (frugal c w.registry) h)

  send_if_connected-IsFrugal :
      (msg : Message) (c : Connection) (r : PollRegistry)
      → IsFrugal 0 c r (send_if_connected msg c r).0 (send_if_connected msg c r).1
  send_if_connected-IsFrugal msg c r = elim (Bool-cases c.connected) [
    | inl up ↦ rw up (send_text-IsFrugal (to_string msg) _ r)
    | inr down ↦ rw down (IsFrugal-same _ _ r refl)
  ]

  pub IsWithin-IsStable : IsStable (IsWithin entries tokens ids r₀)
  IsWithin-IsStable = record {
    on_db = λ w db h. record {
      few_entries = h.few_entries;
      few_tokens = h.few_tokens;
      few_ids = h.few_ids;
      quieter = h.quieter;
    };
    on_member = λ w k c msg e h.
        called-IsWithin (send_if_connected msg) (send_if_connected-IsFrugal msg) k w c e h;
  }

  pub IsWithin-CanReply : (id : ℕ) → CanReply id (IsWithin entries tokens ids r₀)
  unfolding send_message
  IsWithin-CanReply id = record {
    on_reply = λ w c msg e h.
        called-IsWithin (send_message msg) (send_text-IsFrugal (to_string msg)) id w c e h;
  }
