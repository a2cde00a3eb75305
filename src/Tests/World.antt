-- ===== src/Tests/World.antt =====
-- A server with two registered clients: `ann`, the operator of the channel `#a`, and `bob`, who is nowhere.
use irc_chat.Base.{nat_eq, text_eq}
use irc_chat.Base.{
  ℕ, ◌+◌, refl, true, false, ==_iff, [], ◌∷◌, Option, none, some, Str, codes, arith, lookup,
  contains,
}
use irc_chat.Channel.{Channel}
use irc_chat.Connection.{Connection}
use irc_chat.Db.Invariant.{DbInv}
use irc_chat.Db.Membership.{in_channel, has_joined, nick_of}
use irc_chat.Db.{ConnInfo, registered_user, Db}
use irc_chat.Server.Invariant.{WorldInv}
use irc_chat.Server.World.{World}

abbrev pub client : ℕ → Str → Option Str → ConnInfo
client id nick joined = record {
  joined_channel = joined;
  nick = some nick;
  realname = some (codes "real");
  username = some (codes "user");
  state = registered_user;
  ipv4 = 1;
  id = id;
}

abbrev pub chan_a : Channel
chan_a = record {
  name = codes "#a";
  members = (0, record { conn = 0; is_muted = false; is_operator = true }) ∷ [];
}

abbrev pub idle : ℕ → Connection
idle id = record {
  id = id;
  stream = record { fd = id + 5; taken = [] };
  connected = true;
  recv_tok = some (id + 1);
  recv_buf = [];
  recv_idx = 0;
  send_tok = none;
  send_buf = [];
  send_queue = [];
}

abbrev pub two_db : Db
two_db = record {
  channels = (codes "#a", chan_a) ∷ [];
  connections =
      (0, client 0 (codes "ann") (some (codes "#a"))) ∷ (1, client 1 (codes "bob") none) ∷ [];
}

abbrev pub two_clients : World
two_clients = record {
  db = two_db;
  curr_id_count = 2;
  connections = (0, idle 0) ∷ (1, idle 1) ∷ [];
  registry = record { next_tok = 3; fds = []; callbacks_and_toks = [] };
}

pub two_db-DbInv : DbInv two_db
unfolding in_channel has_joined nick_of lookup contains
two_db-DbInv = record {
  channels = (record { named = refl; one_operator = refl; pointers = (refl, tt) }, tt);
  infos = (
    record { own_id = refl; by_state = (refl, refl, refl) },
    (record { own_id = refl; by_state = (refl, refl, refl) }, tt),
  );
  distinct = (refl, (refl, tt));
  agree = λ n i. ground (arith, ==_iff 0 i, ==_iff 1 i);
  nicks = λ i j n p q. ground (arith, ==_iff 0 i, ==_iff 1 i, ==_iff 0 j, ==_iff 1 j);
}

pub two_clients-WorldInv : WorldInv two_clients
unfolding contains
two_clients-WorldInv = record {
  db_inv = two_db-DbInv;
  live = λ i. refl;
  fresh = λ i le. ground (arith, ==_iff 0 i, ==_iff 1 i);
}

-- The same server, after the connection of `ann` has ended.
abbrev pub one_ended : World
one_ended = record two_clients {
  connections = (0, record (idle 0) { connected = false }) ∷ (1, idle 1) ∷ [];
}

pub one_ended-WorldInv : WorldInv one_ended
unfolding contains
one_ended-WorldInv = record {
  db_inv = two_db-DbInv;
  live = λ i. refl;
  fresh = λ i le. ground (arith, ==_iff 0 i, ==_iff 1 i);
}
