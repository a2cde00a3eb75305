-- ===== src/Server/Clients.antt =====
-- The clients of the server around `server::handle_message` of server/main.cpp: which connections
-- there are, before and after.
use mathlib.Core.Path.{subst}
use irc_chat.Base.{nat_eq, text_eq}
use irc_chat.Base.{ℕ, ◌≡◌, refl, Str, contains-update, ok}
use irc_chat.Connection.{Connection, send_message, disconnect}
use irc_chat.Registry.{PollRegistry}
use irc_chat.Server.Dispatch.{handle_message}
use irc_chat.Server.Invariant.{SameClients, SameClients-trans}
use irc_chat.Server.Keeping.Commands.{handle_message-Ensures}
use irc_chat.Server.Keeping.{Post, Ensures, IsStable, CanReply, called}
use irc_chat.Server.World.{World, send_if_connected}

-- A call on one connection leaves the set of the connections as it is.
called-SameClients :
    (f : Connection → PollRegistry → Connection × PollRegistry) (id : ℕ) (c : Connection)
    (w w' : World)
    → SameClients w w'
    → SameClients w (called f id c w')
called-SameClients f id c w w' s = SameClients-trans s (record {
  same_live = λ i. contains-update id i (λ _. (f c w'.registry).0) w'.connections;
  same_count = refl;
})

module _ (w : World) where
  SameClients-IsStable : IsStable (SameClients w)
  SameClients-IsStable = record {
    on_db = λ w' db s. record { same_live = s.same_live; same_count = s.same_count };
    on_member = λ w' k c msg e s. called-SameClients (send_if_connected msg) k c w w' s;
  }

  SameClients-CanReply : (id : ℕ) → CanReply id (SameClients w)
  SameClients-CanReply id = record {
    on_reply = λ w' c msg e s. called-SameClients (send_message msg) id c w w' s;
  }

-- Where `handle_message` returns, the same connections are there as before, and the id counter
-- stands where it stood.
pub handle_message-SameClients :
    (id : ℕ) (s : Str) (w w' : World) → handle_message id s w ≡ ok (tt, w') → SameClients w w'
unfolding Ensures
handle_message-SameClients id s w w' e = subst (Post (SameClients w)) e (
    handle_message-Ensures (SameClients w) (SameClients w) (SameClients-IsStable w) id
      (SameClients-CanReply w id) (λ w₁ q. q)
      (λ w₁ c there q. called-SameClients disconnect id c w w₁ q) s w
      (record { same_live = λ i. refl; same_count = refl }))
