-- ===== src/Connection/Wiring.antt =====
-- The closures of server/connection.cpp in the registry, `[&](short) { this->poll_recv(); }` and the like,
-- hold a pointer to their connection: that each of them points to one that is there and connected.
use mathlib.Core.Path.{subst}
use irc_chat.Base.{nat_eq}
use irc_chat.Base.{
  ℕ, ◌≡◌, ◌∙◌, ap, true, [], ◌∷◌, some, arith, Str, lookup, update, Map, List, inl, inr, Bool-cases,
  if◌then◌else◌, ◌==◌, ==_iff, AllIn, lookup-update,
}
use irc_chat.Connection.{Connection}
use irc_chat.Registry.Tokens.{IsRegistry}
use irc_chat.Registry.{PollRegistry, Callback}

-- The callback, under that token, is one of a connection that is there, is connected and has the token.
abbrev pub IsServed : Map ℕ Connection → Callback → ℕ → Type 0
IsServed cs Callback.poll_accept t = Unit
IsServed cs (Callback.poll_recv id) t =
    (c : Connection) × (lookup id cs ≡ some c) × (c.connected ≡ true) × (c.recv_tok ≡ some t)
IsServed cs (Callback.poll_send id) t =
    (c : Connection) × (lookup id cs ≡ some c) × (c.connected ≡ true) × (c.send_tok ≡ some t)

-- What `c` has with the token, `c'` has.
pub record IsKept (c c' : Connection) (t : ℕ) : Type 0 where
  pub recv :
      c.connected ≡ true → c.recv_tok ≡ some t → (c'.connected ≡ true) × (c'.recv_tok ≡ some t)
  pub send :
      c.connected ≡ true → c.send_tok ≡ some t → (c'.connected ≡ true) × (c'.send_tok ≡ some t)

module _ (cs : Map ℕ Connection) (id : ℕ) (c c' : Connection) (there : lookup id cs ≡ some c) where
  pub lookup-written :
      (k : ℕ) → lookup k (update id (λ _. c') cs) ≡ (if id == k then some c' else lookup k cs)
  lookup-written k = ground (arith, lookup-update id k (λ _. c') cs, ==_iff id k, there)

  pub IsServed-update :
      (cb : Callback) (t : ℕ)
      → IsKept c c' t
      → IsServed cs cb t
      → IsServed (update id (λ _. c') cs) cb t
  IsServed-update Callback.poll_accept t k h = tt
  IsServed-update (Callback.poll_recv j) t k (d, at, up, tok) = elim (Bool-cases (id == j)) [
    | inr other ↦ (d, ground (arith, lookup-written j), up, tok)
    | inl same ↦
        let e : c ≡ d = ground (arith, ==_iff id j, there, at) in
        let (up', tok') = k.recv (ground arith) (ground arith) in
        (c', ground (arith, lookup-written j), up', tok')
  ]
  IsServed-update (Callback.poll_send j) t k (d, at, up, tok) = elim (Bool-cases (id == j)) [
    | inr other ↦ (d, ground (arith, lookup-written j), up, tok)
    | inl same ↦
        let e : c ≡ d = ground (arith, ==_iff id j, there, at) in
        let (up', tok') = k.send (ground arith) (ground arith) in
        (c', ground (arith, lookup-written j), up', tok')
  ]

-- A slice that is being sent has its text at the front of the queue.
abbrev pub HasFront : Str → List Str → Type 0
HasFront [] queue = Unit
HasFront (c ∷ buf) [] = ⊥
HasFront (c ∷ buf) (q ∷ qs) = Unit

-- Connections under their own ids whose slices have their texts, a registry that is well formed, and callbacks that are served.
pub record IsWired (cs : Map ℕ Connection) (r : PollRegistry) : Type 0 where
  pub own_ids : (k : ℕ) (c : Connection) → lookup k cs ≡ some c → c.id ≡ k
  pub fronts : (k : ℕ) (c : Connection) → lookup k cs ≡ some c → HasFront c.send_buf c.send_queue
  pub registry : IsRegistry r
  pub served : AllIn (IsServed cs) r.callbacks_and_toks

-- From the connection `c` and the registry `r` to these: the callbacks are served as before.
pub record IsRewired (c : Connection) (r : PollRegistry) (c' : Connection) (r' : PollRegistry)
    : Type 0 where
  pub same_id : c'.id ≡ c.id
  pub front : HasFront c.send_buf c.send_queue → HasFront c'.send_buf c'.send_queue
  pub well_formed : IsRegistry r'
  pub still_served :
      (cs : Map ℕ Connection)
      → lookup c.id cs ≡ some c
      → AllIn (IsServed cs) r.callbacks_and_toks
      → AllIn (IsServed (update c.id (λ _. c') cs)) r'.callbacks_and_toks

pub update-IsWired :
    (cs : Map ℕ Connection) (r r' : PollRegistry) (id : ℕ) (c c' : Connection)
    → lookup id cs ≡ some c
    → IsWired cs r
    → IsRewired c r c' r'
    → IsWired (update id (λ _. c') cs) r'
update-IsWired cs r r' id c c' there h f =
    let own = h.own_ids id c there in
    record {
      own_ids = λ k d at. elim (Bool-cases (id == k)) [
        | inr other ↦ h.own_ids k d (ground (arith, lookup-written cs id c c' there k))
        | inl same ↦ ground (arith, lookup-written cs id c c' there k, ==_iff id k, f.same_id, own)
      ];
      fronts = λ k d at. elim (Bool-cases (id == k)) [
        | inr other ↦ h.fronts k d (ground (arith, lookup-written cs id c c' there k))
        | inl same ↦
            let e : c' ≡ d = ground (arith, lookup-written cs id c c' there k) in
            subst (λ x. HasFront x.send_buf x.send_queue) e (f.front (h.fronts id c there))
      ];
      registry = f.well_formed;
      served =
          subst (λ j. AllIn (IsServed (update j (λ _. c') cs)) r'.callbacks_and_toks) own
            (f.still_served cs (ap (λ j. lookup j cs) own ∙ there) h.served);
    }
