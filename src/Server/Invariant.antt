-- ===== src/Server/Invariant.antt =====
-- The invariant of the server of server/main.cpp, with lemmas on the calls that only send.
use irc_chat.Base.{nat_eq, text_eq}
use irc_chat.Base.{
  ℕ, ◌≤◌, ◌≡◌, refl, sym, ◌∙◌, inl, inr, true, false, [], ◌∷◌, some, Str, arith, ◌==◌, ==_iff, Map,
  lookup, contains, update, contains-lookup, contains-update, AllIn, Option-cases, Bool-cases,
  parse_error, out_of_range, bad_variant_access, bad_optional_access, runtime_error, null_deref,
  Result, ok, throw,
}
use irc_chat.Channel.{Member, Channel}
use irc_chat.Connection.{Connection, send_message}
use irc_chat.Db.Invariant.{ChannelInv, DbInv}
use irc_chat.Db.Membership.{in_channel, has_joined}
use irc_chat.Db.{Db}
use irc_chat.Message.{Message}
use irc_chat.Registry.{PollRegistry}
use irc_chat.Server.World.{bind-ok, World, on_connection, reply, send_if_connected, send_to_members}

-- The tables satisfy their invariant; each client of the tables has its connection object, and the other
-- way round; and an id that the counter has yet to give out is free.
pub record WorldInv (w : World) : Type 0 where
  pub db_inv : DbInv w.db
  pub live : (i : ℕ) → contains i w.connections ≡ contains i w.db.connections
  pub fresh : (i : ℕ) → w.curr_id_count ≤ i → contains i w.connections ≡ false

-- The same connections are there, in whatever state, and the counter stands where it stood.
pub record SameClients (w w' : World) : Type 0 where
  pub same_live : (i : ℕ) → contains i w'.connections ≡ contains i w.connections
  pub same_count : w'.curr_id_count ≡ w.curr_id_count

pub SameClients-trans : {u v w : World} → SameClients u v → SameClients v w → SameClients u w
SameClients-trans a b = record {
  same_live = λ i. b.same_live i ∙ a.same_live i;
  same_count = b.same_count ∙ a.same_count;
}

-- What may leave a handler: a state with the invariant, or an exception that ends the server. No handler
-- reads through a null or dangling pointer or an empty `optional`.
abbrev pub IsSafe {ℓ} : {A : Type ℓ} → Result (A × World) → Type 0
IsSafe (ok (_, w)) = WorldInv w
IsSafe (throw out_of_range) = Unit {0}
IsSafe (throw bad_variant_access) = Unit {0}
IsSafe (throw (parse_error msg)) = ⊥
IsSafe (throw bad_optional_access) = ⊥
IsSafe (throw runtime_error) = ⊥
IsSafe (throw null_deref) = ⊥

-- A change that touches no table and no client.
pub SameClients-WorldInv :
    {w w' : World} → WorldInv w → w'.db ≡ w.db → SameClients w w' → WorldInv w'
SameClients-WorldInv {w} {w'} h e s = record {
  db_inv = rw e h.db_inv;
  live = λ i. s.same_live i ∙ h.live i ∙ rw e;
  fresh = λ i le. s.same_live i ∙ h.fresh i (rw (← s.same_count) le);
}

pub on_connection_ok :
    (id : ℕ) (f : Connection → PollRegistry → Connection × PollRegistry) (w : World)
    → contains id w.connections ≡ true
    → (w' : World) × (on_connection id f w ≡ ok (tt, w')) × (w'.db ≡ w.db) × SameClients w w'
unfolding on_connection
on_connection_ok id f w there = elim (Option-cases (lookup id w.connections)) [
  | inl absent ↦ absurd (ground (arith, contains-lookup id w.connections, absent, there))
  | inr (c, e) ↦ (
    record w {
      connections = update id (λ _. (f c w.registry).0) w.connections;
      registry = (f c w.registry).1;
    },
    rw (e, on_connection) refl,
    refl,
    record {
      same_live = λ i. contains-update id i (λ _. (f c w.registry).0) w.connections;
      same_count = refl;
    },
  )
]

-- The pointers of these members are good.
abbrev pub AreLive : World → Map ℕ Member → Type 0
AreLive w = AllIn (λ (k : ℕ) (m : Member). contains m.conn w.connections ≡ true)

AreLive-SameClients :
    (w w' : World) (ms : Map ℕ Member) → SameClients w w' → AreLive w ms → AreLive w' ms
AreLive-SameClients w w' [] s h = tt
AreLive-SameClients w w' ((k, m) ∷ ms) s h =
    (s.same_live m.conn ∙ h.0, AreLive-SameClients w w' ms s h.1)

pub send_to_members_ok :
    (ms : Map ℕ Member) (msg : Message) (w : World)
    → AreLive w ms
    → (w' : World) × (send_to_members ms msg w ≡ ok (tt, w')) × (w'.db ≡ w.db) × SameClients w w'
unfolding send_to_members
send_to_members_ok [] msg w h = (w, refl, refl, record { same_live = λ i. refl; same_count = refl })
send_to_members_ok ((k, m) ∷ ms) msg w h =
    let (w₁, e₁, d₁, s₁) = on_connection_ok m.conn (send_if_connected msg) w h.0 in
    let (w₂, e₂, d₂, s₂) = send_to_members_ok ms msg w₁ (AreLive-SameClients w w₁ ms s₁ h.1) in
    (
      w₂,
      bind-ok (on_connection m.conn (send_if_connected msg)) (λ _. send_to_members ms msg) e₁ ∙ e₂,
      d₂ ∙ d₁,
      SameClients-trans s₁ s₂,
    )

AllIn-contains :
    (Q : ℕ → Type 0) (ms : Map ℕ Member)
    → ((k : ℕ) → contains k ms ≡ true → Q k)
    → AllIn (λ (k : ℕ) (m : Member). Q k) ms
unfolding contains
AllIn-contains Q [] h = tt
AllIn-contains Q ((j, m) ∷ ms) h = (
  h j (rw ((==_iff j j).1 refl)),
  AllIn-contains Q ms λ k c. h k (elim (Bool-cases (j == k)) [ inl e ↦ rw e | inr e ↦ rw e c ]),
)

AreLive-members :
    (w : World) (ms : Map ℕ Member)
    → AllIn (λ (k : ℕ) (m : Member). m.conn ≡ k) ms
    → AllIn (λ (k : ℕ) (m : Member). contains k w.connections ≡ true) ms
    → AreLive w ms
AreLive-members w [] p q = tt
AreLive-members w ((k, m) ∷ ms) p q = (rw p.0 q.0, AreLive-members w ms p.1 q.1)

-- The members of a channel can be sent to, where all who are in it are live.
pub channel_AreLive :
    (w : World) (db : Db) (name : Str) (ch : Channel)
    → lookup name db.channels ≡ some ch
    → ChannelInv name ch
    → ((k : ℕ) → in_channel db name k ≡ true → contains k w.connections ≡ true)
    → AreLive w ch.members
channel_AreLive w db name ch there inv live = AreLive-members w ch.members inv.pointers (
    AllIn-contains (λ k. contains k w.connections ≡ true) ch.members
      λ k c. live k (unfold in_channel in rw (there, in_channel) c))

pub has_joined-contains :
    (db : Db) (n : Str) (i : ℕ) → has_joined db n i ≡ true → contains i db.connections ≡ true
unfolding has_joined
has_joined-contains db n i h = ground (arith, contains-lookup i db.connections)

pub in_channel-live :
    (w : World)
    → WorldInv w
    → (n : Str) (k : ℕ) → in_channel w.db n k ≡ true
    → contains k w.connections ≡ true
in_channel-live w h n k c = h.live k ∙ has_joined-contains w.db n k (sym (h.db_inv.agree n k) ∙ c)

-- `conn->send_message(msg)` to a client of the tables.
pub reply-IsSafe :
    (id : ℕ) (msg : Message) (w : World)
    → WorldInv w
    → contains id w.db.connections ≡ true
    → IsSafe (reply id msg w)
unfolding reply
reply-IsSafe id msg w h there =
    let (w', e, d, s) = on_connection_ok id (send_message msg) w (h.live id ∙ there) in
    rw e (SameClients-WorldInv h d s)
