-- ===== src/Client/Threads/Rounds.antt =====
-- The steps of the two threads of client/main.cpp once `RUN` is false and the eventfd was written to.
use irc_chat.Base.{nat_eq}
use irc_chat.Base.{
  ℕ, suc, ◌≤◌, ◌-◌, ◌≡◌, refl, Bool, true, false, ◌&&◌, ◌||◌, List, [], ◌∷◌, ◌++◌, Str, ap, codes,
  str_eq, runtime_error, ◌∙◌, arith, Result, ok, throw, inl, inr, Bool-cases, ◌==◌,
}
use irc_chat.Client.Input.{ReadLineResult, reading, ready, eof, read_line}
use irc_chat.Client.Receive.{receive}
use irc_chat.Client.Send.{send_line, Socket, SendRun, Ending, done, stopped, faulted}
use irc_chat.Client.Translate.{line_of}
use irc_chat.Client.Threads.{
  Thread, looping, waiting, left, failed, Client, shutdown, WaitAnswer, wait_failed, shutdown_event,
  ready_event, RecvAnswer, recv_failed, data_read, sender_then, receiver_then, sent_line,
  quit_typed, send_input, key_pressed, send_round, received_bytes, recv_round, Turn, sends,
  receives, interrupt, is_failed, sender_turn, receiver_turn, turn,
}

abbrev pub is_left : Thread → Bool
is_left left = true
is_left _ = false

-- An exception has ended the process.
abbrev pub is_dead : Client → Bool
is_dead c = is_failed c.sender || is_failed c.receiver

-- Both threads are behind their loops, or an exception has ended the process.
abbrev pub is_over : Client → Bool
is_over c = is_dead c || (is_left c.sender && is_left c.receiver)

abbrev pub count_sends : List Turn → ℕ
count_sends [] = 0
count_sends (sends wait ch k fails ∷ ts) = suc (count_sends ts)
count_sends (_ ∷ ts) = count_sends ts

abbrev pub count_receives : List Turn → ℕ
count_receives [] = 0
count_receives (receives wait answer fails ∷ ts) = suc (count_receives ts)
count_receives (_ ∷ ts) = count_receives ts

-- The turns that a thread takes at most once it has to stop.
abbrev pub rank : Thread → ℕ
rank (waiting buf) = 2
rank (looping buf) = 1
rank _ = 0

-- The threads have to stop: `RUN` is false, and no wait blocks.
pub record Awake (c : Client) : Type 0 where
  pub off : c.run ≡ false
  pub woken : 1 ≤ c.wakes

-- A step of the sender, which does not block, leaves `RUN`, the writes and the receiver.
pub record SenderRan (c c' : Client) : Type 0 where
  pub keeps : Awake c → Awake c'
  rested : rank c'.sender ≤ 1
  other : c'.receiver ≡ c.receiver

record ReceiverRan (c c' : Client) : Type 0 where
  keeps : Awake c → Awake c'
  rested : rank c'.receiver ≤ 1
  other : c'.sender ≡ c.sender

sender_then-SenderRan :
    (next : Thread) (fails : Bool) (c : Client)
    → rank next ≤ 1
    → SenderRan c (sender_then next (shutdown fails c))
unfolding sender_then shutdown
sender_then-SenderRan next true c le = record {
  keeps = λ h. record { off = refl; woken = h.woken };
  rested = omega arith;
  other = refl;
}
sender_then-SenderRan next false c le = record {
  keeps = λ h. record { off = refl; woken = omega arith };
  rested = le;
  other = refl;
}

receiver_then-ReceiverRan :
    (next : Thread) (fails : Bool) (c : Client)
    → rank next ≤ 1
    → ReceiverRan c (receiver_then next (shutdown fails c))
unfolding receiver_then shutdown
receiver_then-ReceiverRan next true c le = record {
  keeps = λ h. record { off = refl; woken = h.woken };
  rested = omega arith;
  other = refl;
}
receiver_then-ReceiverRan next false c le = record {
  keeps = λ h. record { off = refl; woken = omega arith };
  rested = le;
  other = refl;
}

-- The sender alone is written.
sets_sender :
    (c : Client) (wire : Str) (next : Thread)
    → rank next ≤ 1
    → SenderRan c (record c { wire = wire; sender = next })
sets_sender c wire next le = record {
  keeps = λ h. record { off = h.off; woken = h.woken };
  rested = le;
  other = refl;
}

sent_line-SenderRan : (fails : Bool) (r : SendRun) (c : Client) → SenderRan c (sent_line fails r c)
unfolding sent_line
sent_line-SenderRan fails r c = go r.ending
  where
    go :
        (e : Ending)
        → SenderRan c (elim e as (λ _. Client) [
          | done ↦ record c { wire = c.wire ++ r.wire; sender = looping [] }
          | stopped ↦
              sender_then (looping []) (shutdown fails (record c { wire = c.wire ++ r.wire }))
          | faulted e ↦ record c { wire = c.wire ++ r.wire; sender = failed e }
        ])
    go done = sets_sender c _ (looping []) (omega arith)
    go (faulted e) = sets_sender c _ (failed e) (omega arith)
    go stopped =
        let h =
          sender_then-SenderRan (looping []) fails (record c { wire = c.wire ++ r.wire })
            (omega arith) in
        record {
          keeps = λ q. h.keeps (record { off = q.off; woken = q.woken });
          rested = h.rested;
          other = h.other;
        }

line-SenderRan :
    (fails : Bool) (k : Socket) (l : Result Str) (c : Client)
    → SenderRan c (elim l as (λ _. Client) [
      | throw e ↦ record c { sender = failed e }
      | ok line ↦ sent_line fails (send_line (λ i. c.run) k line) c
    ])
line-SenderRan fails k (throw e) c = sets_sender c c.wire (failed e) (omega arith)
line-SenderRan fails k (ok line) c = sent_line-SenderRan fails (send_line (λ i. c.run) k line) c

-- The line is sent, behind the `shutdown` of `/quit`.
pub send_input-SenderRan :
    (fails : Bool) (k : Socket) (input : Str) (r : Result (Unit {0}) × Client) (c : Client)
    → (Awake c → Awake r.1)
    → r.1.receiver ≡ c.receiver
    → SenderRan c (send_input fails k input r)
unfolding send_input
send_input-SenderRan fails k input (throw e, d) c keeps other = record {
  keeps = λ h. let a = keeps h in record { off = a.off; woken = a.woken };
  rested = omega arith;
  other = other;
}
send_input-SenderRan fails k input (ok _, d) c keeps other =
    let q = line-SenderRan fails k (line_of input) d in
    record { keeps = λ h. q.keeps (keeps h); rested = q.rested; other = q.other ∙ other }

quit_typed-Awake :
    (fails : Bool) (input : Str) (c : Client)
    → (Awake c → Awake (quit_typed fails input c).1)
      × ((quit_typed fails input c).1.receiver ≡ c.receiver)
unfolding quit_typed shutdown
quit_typed-Awake fails input c = elim (Bool-cases (str_eq input (codes "/quit"))) [
  | inr other ↦ rw other ((λ h. h), refl)
  | inl quit ↦ rw quit (go fails)
]
  where
    go : (b : Bool) → (Awake c → Awake (shutdown b c).1) × ((shutdown b c).1.receiver ≡ c.receiver)
    go true = ((λ h. record { off = refl; woken = h.woken }), refl)
    go false = ((λ h. record { off = refl; woken = omega arith }), refl)

module _ (key_backspace : ℕ) where
  key_pressed-SenderRan :
      (fails : Bool) (k : Socket) (key : Str × ReadLineResult) (c : Client)
      → SenderRan c (key_pressed key_backspace fails k key c)
  unfolding key_pressed
  key_pressed-SenderRan fails k (buf, reading) c = sets_sender c c.wire (looping buf) (omega arith)
  key_pressed-SenderRan fails k (buf, eof) c =
      sender_then-SenderRan (looping buf) fails c (omega arith)
  key_pressed-SenderRan fails k (buf, ready) c =
      let (keeps, other) = quit_typed-Awake fails buf c in
      send_input-SenderRan fails k buf (quit_typed fails buf c) c keeps other

  send_round-SenderRan :
      (wait : WaitAnswer) (ch : ℕ) (k : Socket) (fails : Bool) (buf : Str) (c : Client)
      → Awake c
      → SenderRan c (send_round key_backspace wait ch k fails buf c)
  unfolding send_round
  send_round-SenderRan wait_failed ch k fails buf c h =
      sets_sender c c.wire (failed runtime_error) (omega arith)
  send_round-SenderRan shutdown_event ch k fails buf c h =
      let awake : (c.wakes == 0) ≡ false = ground (arith, h.woken) in
      rw awake (sets_sender c c.wire (looping buf) (omega arith))
  send_round-SenderRan ready_event ch k fails buf c h =
      key_pressed-SenderRan fails k (read_line key_backspace ch buf) c

received_bytes-ReceiverRan :
    (fails : Bool) (msg_str : Str) (answer : RecvAnswer) (c : Client)
    → ReceiverRan c (received_bytes fails msg_str answer c)
unfolding received_bytes
received_bytes-ReceiverRan fails msg_str recv_failed c = record {
  keeps = λ h. record { off = h.off; woken = h.woken };
  rested = omega arith;
  other = refl;
}
received_bytes-ReceiverRan fails msg_str (data_read []) c =
    receiver_then-ReceiverRan left fails c (omega arith)
received_bytes-ReceiverRan fails msg_str (data_read (b ∷ bytes)) c =
    go (receive (b ∷ bytes) msg_str)
  where
    go :
        (r : Result (Str × Str))
        → ReceiverRan c (elim r as (λ _. Client) [
          | throw e ↦ record c { receiver = failed e }
          | ok (shown, rest) ↦ record c { screen = c.screen ++ shown; receiver = looping rest }
        ])
    go (throw e) = record {
      keeps = λ h. record { off = h.off; woken = h.woken };
      rested = omega arith;
      other = refl;
    }
    go (ok (shown, rest)) = record {
      keeps = λ h. record { off = h.off; woken = h.woken };
      rested = omega arith;
      other = refl;
    }

recv_round-ReceiverRan :
    (wait : WaitAnswer) (answer : RecvAnswer) (fails : Bool) (msg_str : Str) (c : Client)
    → Awake c
    → ReceiverRan c (recv_round wait answer fails msg_str c)
unfolding recv_round
recv_round-ReceiverRan wait_failed answer fails msg_str c h = record {
  keeps = λ q. record { off = q.off; woken = q.woken };
  rested = omega arith;
  other = refl;
}
recv_round-ReceiverRan shutdown_event answer fails msg_str c h =
    let awake : (c.wakes == 0) ≡ false = ground (arith, h.woken) in
    rw awake (record {
      keeps = λ q. record { off = q.off; woken = q.woken };
      rested = omega arith;
      other = refl;
    })
recv_round-ReceiverRan ready_event answer fails msg_str c h =
    received_bytes-ReceiverRan fails msg_str answer c

-- A turn of either thread where both have to stop: its rank falls, and the other's stays.
pub record TurnRan (down_s down_r : ℕ) (c c' : Client) : Type 0 where
  pub keeps : Awake c'
  pub sender : rank c'.sender ≤ rank c.sender - down_s
  pub receiver : rank c'.receiver ≤ rank c.receiver - down_r

module _ (key_backspace : ℕ) (c : Client) (h : Awake c) (alive : is_dead c ≡ false) where
  pub sends-TurnRan :
      (wait : WaitAnswer) (ch : ℕ) (k : Socket) (fails : Bool)
      → TurnRan 1 0 c (turn key_backspace (sends wait ch k fails) c)
  unfolding turn sender_turn
  sends-TurnRan wait ch k fails = rw alive (go c.sender refl)
    where
      go :
          (s : Thread)
          → c.sender ≡ s
          → TurnRan 1 0 c (sender_turn s (send_round key_backspace wait ch k fails) c)
      go (looping buf) e = record {
        keeps = record { off = h.off; woken = h.woken };
        sender = ground (arith, h.off);
        receiver = ground (arith, h.off);
      }
      go (waiting buf) e =
          let q = send_round-SenderRan key_backspace wait ch k fails buf c h in
          record {
            keeps = q.keeps h;
            sender = ground (arith, q.rested, ap rank e);
            receiver = rw q.other (omega arith);
          }
      go left e = record { keeps = h; sender = rw e (omega arith); receiver = omega arith }
      go (failed x) e = record { keeps = h; sender = rw e (omega arith); receiver = omega arith }

  pub receives-TurnRan :
      (wait : WaitAnswer) (answer : RecvAnswer) (fails : Bool)
      → TurnRan 0 1 c (turn key_backspace (receives wait answer fails) c)
  unfolding turn receiver_turn
  receives-TurnRan wait answer fails = rw alive (go c.receiver refl)
    where
      go :
          (s : Thread)
          → c.receiver ≡ s
          → TurnRan 0 1 c (receiver_turn s (recv_round wait answer fails) c)
      go (looping buf) e = record {
        keeps = record { off = h.off; woken = h.woken };
        sender = ground (arith, h.off);
        receiver = ground (arith, h.off);
      }
      go (waiting buf) e =
          let q = recv_round-ReceiverRan wait answer fails buf c h in
          record {
            keeps = q.keeps h;
            receiver = ground (arith, q.rested, ap rank e);
            sender = rw q.other (omega arith);
          }
      go left e = record { keeps = h; receiver = rw e (omega arith); sender = omega arith }
      go (failed x) e = record { keeps = h; receiver = rw e (omega arith); sender = omega arith }

  pub interrupt-TurnRan : (fails : Bool) → TurnRan 0 0 c (turn key_backspace (interrupt fails) c)
  unfolding turn shutdown
  interrupt-TurnRan true = rw alive (record {
    keeps = record { off = refl; woken = h.woken };
    sender = omega arith;
    receiver = omega arith;
  })
  interrupt-TurnRan false = rw alive (record {
    keeps = record { off = refl; woken = omega arith };
    sender = omega arith;
    receiver = omega arith;
  })
