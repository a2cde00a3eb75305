-- ===== src/Server/Loop/Reachable.antt =====
-- The events of `server::run` in server/main.cpp as a step relation, in any order, and the states
-- that they lead to.
use mathlib.Core.Path.{subst}
use irc_chat.Base.{nat_eq}
use irc_chat.Base.{ℕ, ◌+◌, ◌<◌, ◌≡◌, ◌≢◌, refl, true, [], contains, ok, sym}
use irc_chat.Connection.Send.{Kernel}
use irc_chat.Db.Invariant.{empty_db, empty_db-DbInv}
use irc_chat.Registry.{size_mod, empty_registry}
use irc_chat.Server.Invariant.{WorldInv, IsSafe}
use irc_chat.Server.Loop.Invariant.{poll_accept-WorldInv, poll_recv-IsSafe, poll_send_at-WorldInv}
use irc_chat.Server.Loop.Sweep.{sweep-WorldInv}
use irc_chat.Server.Loop.{RecvResult, recv_failed, poll_accept, poll_recv, poll_send_at, sweep}
use irc_chat.Server.World.{World}

-- The server when `run` begins.
abbrev pub start_world : World
start_world = record {
  db = empty_db;
  curr_id_count = 0;
  connections = [];
  registry = empty_registry;
}

-- One callback that returns, of a connection that the server holds, or one sweep. The id counter does
-- not pass its range.
pub data Step : World → World → Type 0 where
  accepts :
      (w : World) (fd ipv4 : ℕ) → w.curr_id_count + 1 < size_mod → Step w (poll_accept fd ipv4 w)
  receives :
      (w w' : World) (id : ℕ) (r : RecvResult)
      → contains id w.db.connections ≡ true
      → r ≢ recv_failed
      → poll_recv id r w ≡ ok (tt, w')
      → Step w w'
  sends : (w w' : World) (id : ℕ) (k : Kernel) → poll_send_at id k w ≡ ok (tt, w') → Step w w'
  sweeps : (w w' : World) → sweep w ≡ ok (tt, w') → Step w w'

pub data Reach (s : World) : World → Type 0 where
  here : Reach s s
  next : {t u : World} → Reach s t → Step t u → Reach s u

pub start_world-WorldInv : WorldInv start_world
unfolding contains
start_world-WorldInv = record { db_inv = empty_db-DbInv; live = λ i. refl; fresh = λ i le. refl }

pub Step-WorldInv : {w w' : World} → Step w w' → WorldInv w → WorldInv w'
Step-WorldInv (accepts w fd ipv4 lt) h = poll_accept-WorldInv w fd ipv4 h lt
Step-WorldInv (receives w w' id r known q e) h = subst IsSafe e (poll_recv-IsSafe w h id known r q)
Step-WorldInv (sends w w' id k e) h = poll_send_at-WorldInv w w' id k h e
Step-WorldInv (sweeps w w' e) h =
    let (w₂, run, h₂) = sweep-WorldInv w h in subst IsSafe e (subst IsSafe (sym run) h₂)

-- Every state that a sequence of accepted clients (while the id counter is below `2 ^ 64 - 1`),
-- returned reads without a `recv` error of registered clients, returned sends and returned sweeps
-- leads to from the empty server satisfies `WorldInv`: the two tables agree on who is in which
-- channel, each channel has exactly one operator, no two clients have one nick, clients have
-- connection objects and the other way round, and ids not yet given out are free.
pub Reach-WorldInv : {w : World} → Reach start_world w → WorldInv w
Reach-WorldInv here = start_world-WorldInv
Reach-WorldInv (next r s) = Step-WorldInv s (Reach-WorldInv r)
