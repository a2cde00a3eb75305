-- ===== src/Server/Safety/Common.antt =====
-- The steps that the proofs about the handlers of server/main.cpp share.
use irc_chat.Base.{nat_eq, text_eq}
use irc_chat.Base.{
  ℕ, suc, ◌≡◌, sym, ◌∙◌, true, false, some, Str, List, arith, lookup, contains, contains-lookup,
  contains-update, ltb, length, Exception, Result, throw,
}
use irc_chat.Db.Invariant.{DbInv}
use irc_chat.Db.{Db, ConnInfo, write_info}
use irc_chat.Server.Invariant.{WorldInv, IsSafe}
use irc_chat.Server.World.{World, M, ◌>>=◌}

pub IsSafe-by :
    {A : Type 0} (r : Result (A × World)) {r' : Result (A × World)} → r ≡ r' → IsSafe r' → IsSafe r
IsSafe-by r e s = rw e s

pub bind-throw :
    {A B : Type 0} (m : M A) (f : A → M B) {x : Exception} {w : World}
    → m w ≡ throw x
    → ◌≡◌ {A = Result (B × World)} ((m >>= f) w) (throw x)
bind-throw m f {w = w} e = rw (e, ◌>>=◌)

pub known-contains :
    (id : ℕ) (db : Db) (info : ConnInfo)
    → lookup id db.connections ≡ some info
    → contains id db.connections ≡ true
known-contains id db info e = ground (arith, contains-lookup id db.connections)

-- New tables with the same clients.
pub tables-WorldInv :
    (w : World) (db : Db)
    → WorldInv w
    → DbInv db
    → ((i : ℕ) → contains i db.connections ≡ contains i w.db.connections)
    → WorldInv (record w { db = db })
tables-WorldInv w db h inv same = record {
  db_inv = inv;
  live = λ i. h.live i ∙ sym (same i);
  fresh = h.fresh;
}

pub write-WorldInv :
    (w : World) (id : ℕ) (f : ConnInfo → ConnInfo)
    → WorldInv w
    → DbInv (write_info id f w.db)
    → WorldInv (record w { db = write_info id f w.db })
write-WorldInv w id f h inv =
    tables-WorldInv w (write_info id f w.db) h inv (λ i. contains-update id i f w.db.connections)

pub ltb_one : (ps : List Str) → ltb (suc (length ps)) 1 ≡ false
ltb_one ps = ground arith

pub ltb_two : (ps : List Str) → ltb (suc (suc (length ps))) 2 ≡ false
ltb_two ps = ground arith

pub ltb_three : (ps : List Str) → ltb (suc (suc (suc (length ps)))) 3 ≡ false
ltb_three ps = ground arith

pub ltb_four : (ps : List Str) → ltb (suc (suc (suc (suc (length ps))))) 4 ≡ false
ltb_four ps = ground arith
