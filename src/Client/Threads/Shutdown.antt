-- ===== src/Client/Threads/Shutdown.antt =====
-- The end of the two threads of client/main.cpp once one of the calls of `shutdown` has been made.
use mathlib.Core.Path.{subst}
use irc_chat.Base.{nat_eq}
use irc_chat.Base.{
  ℕ, suc, ◌≤◌, ◌≡◌, ◌≢◌, ◌⊎◌, refl, sym, ap, ◌∙◌, Bool, true, false, List, [], ◌∷◌, Str, codes,
  str_eq, arith, ok, inl, inr, Bool-cases, ==_iff,
}
use irc_chat.Client.Input.{ready, eof, read_line}
use irc_chat.Client.Send.{Socket}
use irc_chat.Client.Threads.Rounds.{
  is_dead, is_over, count_sends, count_receives, rank, Awake, sends-TurnRan, receives-TurnRan,
  interrupt-TurnRan, send_input-SenderRan,
}
use irc_chat.Client.Threads.{
  Thread, looping, waiting, left, Client, shutdown, ready_event, data_read, sender_then,
  receiver_then, quit_typed, send_input, key_pressed, send_round, received_bytes, recv_round, Turn,
  sends, receives, interrupt, sender_turn, receiver_turn, turn, turns,
}

module _ (key_backspace : ℕ) where
  dead-turn : (t : Turn) (c : Client) → is_dead c ≡ true → turn key_backspace t c ≡ c
  unfolding turn
  dead-turn (sends wait ch k fails) c dead = rw dead
  dead-turn (receives wait answer fails) c dead = rw dead
  dead-turn (interrupt fails) c dead = rw dead

  dead-turns : (ts : List Turn) (c : Client) → is_dead c ≡ true → turns key_backspace ts c ≡ c
  unfolding turns
  dead-turns [] c dead = refl
  dead-turns (t ∷ ts) c dead =
      ap (turns key_backspace ts) (dead-turn t c dead) ∙ dead-turns ts c dead

  dead-is_over : (c : Client) → is_dead c ≡ true → is_over c ≡ true
  dead-is_over c dead = ground (arith, dead)

  rested-is_over : (c : Client) → rank c.sender ≤ 0 → rank c.receiver ≤ 0 → is_over c ≡ true
  rested-is_over c p q = ground (arith, p, q)

  -- A turn leaves enough turns for each thread.
  turn-TurnRan :
      (t : Turn) (ts : List Turn) (c : Client)
      → Awake c
      → is_dead c ≡ false
      → rank c.sender ≤ count_sends (t ∷ ts)
      → rank c.receiver ≤ count_receives (t ∷ ts)
      → let c' = turn key_backspace t c in
        Awake c' × (rank c'.sender ≤ count_sends ts) × (rank c'.receiver ≤ count_receives ts)
  turn-TurnRan (sends wait ch k fails) ts c h alive p q =
      let r = sends-TurnRan key_backspace c h alive wait ch k fails in
      (r.keeps, omega (arith, r.sender), omega (arith, r.receiver))
  turn-TurnRan (receives wait answer fails) ts c h alive p q =
      let r = receives-TurnRan key_backspace c h alive wait answer fails in
      (r.keeps, omega (arith, r.sender), omega (arith, r.receiver))
  turn-TurnRan (interrupt fails) ts c h alive p q =
      let r = interrupt-TurnRan key_backspace c h alive fails in
      (r.keeps, omega (arith, r.sender), omega (arith, r.receiver))

  -- Two threads that have to stop, with enough turns for each.
  turns-is_over :
      (ts : List Turn) (c : Client)
      → Awake c
      → rank c.sender ≤ count_sends ts
      → rank c.receiver ≤ count_receives ts
      → is_over (turns key_backspace ts c) ≡ true
  unfolding turns
  turns-is_over [] c h p q = rested-is_over c p q
  turns-is_over (t ∷ ts) c h p q = elim (Bool-cases (is_dead c)) [
    | inl dead ↦ ap is_over (dead-turns (t ∷ ts) c dead) ∙ dead-is_over c dead
    | inr alive ↦
        let (h', p', q') = turn-TurnRan t ts c h alive p q in
        turns-is_over ts (turn key_backspace t c) h' p' q'
  ]

  -- What makes the client stop: Ctrl + D, the line `/quit`, a server that closes the stream, and the
  -- interrupt.
  pub data Stop : Turn → Client → Type 0 where
    ctrl_d :
        {k : Socket} {fails : Bool} {c : Client} (buf : Str)
        → c.sender ≡ waiting buf
        → Stop (sends ready_event 4 k fails) c
    quit_line :
        {k : Socket} {fails : Bool} {c : Client}
        → c.sender ≡ waiting (codes "/quit")
        → Stop (sends ready_event b'\n' k fails) c
    stream_end :
        {fails : Bool} {c : Client} (msg_str : Str)
        → c.receiver ≡ waiting msg_str
        → Stop (receives ready_event (data_read []) fails) c
    interrupted_by_user : {fails : Bool} {c : Client} → Stop (interrupt fails) c

  -- The threads have to stop, or the call of `shutdown` has thrown.
  abbrev IsStopped : Client → Type 0
  IsStopped c = (Awake c) ⊎ (is_dead c ≡ true)

  newline-ready :
      (buf : Str) → key_backspace ≢ b'\n' → read_line key_backspace b'\n' buf ≡ (buf, ready)
  unfolding read_line
  newline-ready buf other = ground (arith, other, ==_iff b'\n' key_backspace)

  eof_key : (buf : Str) → key_backspace ≢ 4 → read_line key_backspace 4 buf ≡ (buf, eof)
  unfolding read_line
  eof_key buf other = ground (arith, other, ==_iff 4 key_backspace)

  eof-IsStopped :
      (buf : Str) (fails : Bool) (c : Client)
      → IsStopped (sender_then (looping buf) (shutdown fails c))
  unfolding sender_then shutdown
  eof-IsStopped buf true c = inr refl
  eof-IsStopped buf false c = inl (record { off = refl; woken = omega arith })

  closed-IsStopped : (fails : Bool) (c : Client) → IsStopped (receiver_then left (shutdown fails c))
  unfolding receiver_then shutdown
  closed-IsStopped true c = inr (ground arith)
  closed-IsStopped false c = inl (record { off = refl; woken = omega arith })

  quit-IsStopped :
      (k : Socket) (fails : Bool) (c : Client)
      → IsStopped (send_input fails k (codes "/quit") (quit_typed fails (codes "/quit") c))
  unfolding quit_typed str_eq shutdown
  quit-IsStopped k true c = inr (unfold send_input in refl)
  quit-IsStopped k false c =
      let d : Client = record c { run = false; wakes = suc c.wakes } in
      inl (
        (send_input-SenderRan false k (codes "/quit") (ok tt, d) d (λ h. h) refl).keeps
          (record { off = refl; woken = omega arith }))

  Stop-IsStopped :
      (t : Turn) (c : Client)
      → key_backspace ≢ 4
      → key_backspace ≢ b'\n'
      → Stop t c
      → IsStopped (turn key_backspace t c)
  unfolding turn sender_turn receiver_turn send_round key_pressed recv_round received_bytes
  Stop-IsStopped t c far other s = elim (Bool-cases (is_dead c)) [
    | inl dead ↦ inr (ap is_dead (dead-turn t c dead) ∙ dead)
    | inr alive ↦ go s alive
  ]
    where
      go : {t : Turn} → Stop t c → is_dead c ≡ false → IsStopped (turn key_backspace t c)
      go (ctrl_d {k = k} {fails = fails} buf e) alive = rw alive (
          subst (λ x. IsStopped (sender_turn x (send_round key_backspace ready_event 4 k fails) c))
            (sym e) (rw (eof_key buf far) (eof-IsStopped buf fails c)))
      go (quit_line {k = k} {fails = fails} e) alive = rw alive (
          subst
            (λ x. IsStopped (sender_turn x (send_round key_backspace ready_event b'\n' k fails) c))
            (sym e) (rw (newline-ready (codes "/quit") other) (quit-IsStopped k fails c)))
      go (stream_end {fails = fails} msg_str e) alive = rw alive (
          subst (λ x. IsStopped (receiver_turn x (recv_round ready_event (data_read []) fails) c))
            (sym e) (closed-IsStopped fails c))
      go (interrupted_by_user {fails = true}) alive = unfold shutdown in rw alive (inr refl)
      go (interrupted_by_user {fails = false}) alive =
          unfold shutdown in rw alive (inl (record { off = refl; woken = omega arith }))

  rank-le : (s : Thread) → rank s ≤ 2
  rank-le s = ground arith

  -- Where the backspace is another key than Ctrl + D and Enter: behind a key Ctrl + D, the line
  -- `/quit`, the end of the stream from the server or an interrupt, once each of the two threads has
  -- had two more turns, in whatever order and whatever the system answers, both threads have left
  -- their loops, or an exception has ended the process. This holds though a thread may stand in
  -- `epoll_wait`, which returns for the eventfd only if it was written to.
  pub Stop-is_over :
      (t : Turn) (ts : List Turn) (c : Client)
      → key_backspace ≢ 4
      → key_backspace ≢ b'\n'
      → Stop t c
      → 2 ≤ count_sends ts
      → 2 ≤ count_receives ts
      → is_over (turns key_backspace (t ∷ ts) c) ≡ true
  unfolding turns
  Stop-is_over t ts c far other s p q = elim (Stop-IsStopped t c far other s) [
    | inr dead ↦
        ap is_over (dead-turns ts (turn key_backspace t c) dead)
        ∙ dead-is_over (turn key_backspace t c) dead
    | inl h ↦
        turns-is_over ts (turn key_backspace t c) h
          (omega (arith, rank-le (turn key_backspace t c).sender))
          (omega (arith, rank-le (turn key_backspace t c).receiver))
  ]
