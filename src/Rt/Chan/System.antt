-- ===== src/Rt/Chan/System.antt =====
-- The threads around a channel of runtime/vader_rt.c: who sleeps on `not_full` and `not_empty`, and
-- whom the signals wake. The mutex makes each call one step from lock to unlock or to the wait.
use vader_langue.Prelude.{
  ℕ, ◌+◌, ◌-◌, ◌≤◌, ◌<◌, ◌≡◌, refl, true, Bytes, ℤ, arith, if◌then◌else◌, ◌==◌,
}
use vader_langue.Rt.Chan.{
  Chan, make, send, recv, close, SendResult, RecvResult, send_waits, dropped, sent, recv_waits,
  drained, received,
}
use vader_langue.Rt.Chan.Inv.{IsValid, make-IsValid, send-IsValid, recv-IsValid, close-IsValid}

-- `pthread_cond_t`: the threads that sleep, and those woken that have not run again.
pub record Cond : Type 0 where
  pub asleep : ℕ
  pub woken : ℕ

abbrev pub cond_wait : Cond → Cond
cond_wait c = record c { asleep = c.asleep + 1 }

abbrev pub cond_signal : Cond → Cond
cond_signal c = if c.asleep == 0 then c else record { asleep = c.asleep - 1; woken = c.woken + 1 }

abbrev pub cond_broadcast : Cond → Cond
cond_broadcast c = record { asleep = 0; woken = c.woken + c.asleep }

-- A woken thread takes the lock again.
abbrev pub resume : Cond → Cond
resume c = record c { woken = c.woken - 1 }

pub record System : Type 0 where
  pub chan : Chan
  pub not_full : Cond
  pub not_empty : Cond

unfoldable pub after_send : System → SendResult × Chan → System
after_send s (send_waits, c) = record s { chan = c; not_full = cond_wait s.not_full }
after_send s (dropped, c) = record s { chan = c }
after_send s (sent, c) = record s { chan = c; not_empty = cond_signal s.not_empty }

unfoldable pub after_recv : System → RecvResult × Chan → System
after_recv s (recv_waits, c) = record s { chan = c; not_empty = cond_wait s.not_empty }
after_recv s (drained, c) = record s { chan = c }
after_recv s (received x, c) = record s { chan = c; not_full = cond_signal s.not_full }

-- A turn of `vader_chan_send`, of `vader_chan_recv` and of `vader_chan_close`.
unfoldable pub send_turn : System → Bytes → System
unfolding after_send
send_turn s e = after_send s (send s.chan e)

unfoldable pub recv_turn : System → System
unfolding after_recv
recv_turn s = after_recv s (recv s.chan)

unfoldable pub close_turn : System → System
close_turn s = record {
  chan = close s.chan;
  not_full = cond_broadcast s.not_full;
  not_empty = cond_broadcast s.not_empty;
}

abbrev pub idle : Cond
idle = record { asleep = 0; woken = 0 }

abbrev pub start : Bytes → ℕ → ℤ → System
start junk elemsize cap = record {
  chan = make junk elemsize cap;
  not_full = idle;
  not_empty = idle;
}

-- A thread enters a call, or a woken one goes round its loop again; sleepers may also wake for no
-- reason.
pub data Step (s : System) : System → Type 0 where
  send_call : (e : Bytes) → Step s (send_turn s e)
  send_again :
      (e : Bytes)
      → 0 < s.not_full.woken
      → Step s (send_turn (record s { not_full = resume s.not_full }) e)
  recv_call : Step s (recv_turn s)
  recv_again :
      0 < s.not_empty.woken → Step s (recv_turn (record s { not_empty = resume s.not_empty }))
  close_call : Step s (close_turn s)
  spurious_send : 0 < s.not_full.asleep → Step s (record s { not_full = cond_signal s.not_full })
  spurious_recv : 0 < s.not_empty.asleep → Step s (record s { not_empty = cond_signal s.not_empty })

pub data Reach (s : System) : System → Type 0 where
  here : Reach s s
  next : {t u : System} → Reach s t → Step t u → Reach s u

-- While a receiver sleeps, every item of the channel has a woken receiver that will look at it;
-- while a sender sleeps, every free slot has a woken sender; after `close` nobody sleeps.
pub record NoLostWakeup (s : System) : Type 0 where
  pub items : 0 < s.not_empty.asleep → s.chan.count ≤ s.not_empty.woken
  pub room : 0 < s.not_full.asleep → s.chan.cap ≤ s.chan.count + s.not_full.woken
  pub closed_wakes : s.chan.closed ≡ true → (s.not_full.asleep ≡ 0) × (s.not_empty.asleep ≡ 0)

send_turn-NoLostWakeup :
    (s : System) (e : Bytes)
    → (0 < s.not_empty.asleep → s.chan.count ≤ s.not_empty.woken)
    → (0 < s.not_full.asleep → s.chan.cap ≤ s.chan.count + (s.not_full.woken + 1))
    → (s.chan.closed ≡ true → (s.not_full.asleep ≡ 0) × (s.not_empty.asleep ≡ 0))
    → NoLostWakeup (send_turn s e)
unfolding send_turn send
send_turn-NoLostWakeup s e h1 h2 h3 = ground arith

recv_turn-NoLostWakeup :
    (s : System)
    → (0 < s.not_empty.asleep → s.chan.count ≤ s.not_empty.woken + 1)
    → (0 < s.not_full.asleep → s.chan.cap ≤ s.chan.count + s.not_full.woken)
    → (s.chan.closed ≡ true → (s.not_full.asleep ≡ 0) × (s.not_empty.asleep ≡ 0))
    → NoLostWakeup (recv_turn s)
unfolding recv_turn recv
recv_turn-NoLostWakeup s h1 h2 h3 = ground arith

Step-NoLostWakeup : {s t : System} → Step s t → NoLostWakeup s → NoLostWakeup t
unfolding close_turn close
Step-NoLostWakeup {s} (send_call e) v =
    send_turn-NoLostWakeup s e v.items (λ h. ground (arith, v.room h)) v.closed_wakes
Step-NoLostWakeup {s} (send_again e w) v =
    send_turn-NoLostWakeup (record s { not_full = resume s.not_full }) e v.items
      (λ h. ground (arith, v.room h)) v.closed_wakes
Step-NoLostWakeup {s} recv_call v =
    recv_turn-NoLostWakeup s (λ h. ground (arith, v.items h)) v.room v.closed_wakes
Step-NoLostWakeup {s} (recv_again w) v =
    recv_turn-NoLostWakeup (record s { not_empty = resume s.not_empty })
      (λ h. ground (arith, v.items h)) v.room v.closed_wakes
Step-NoLostWakeup {s} close_call v = ground arith
Step-NoLostWakeup {s} (spurious_send h) v = ground (arith, v.room h)
Step-NoLostWakeup {s} (spurious_recv h) v = ground (arith, v.items h)

start-NoLostWakeup : (junk : Bytes) (n : ℕ) (cap : ℤ) → NoLostWakeup (start junk n cap)
unfolding make
start-NoLostWakeup junk n cap = ground arith

-- From a fresh channel, whatever threads call send, receive and close and in whatever order their
-- turns come, spurious wake-ups included: while a receiver sleeps on `not_empty` every item is matched
-- by a woken receiver, while a sender sleeps on `not_full` every free slot is matched by a woken
-- sender, and once the channel is closed no thread sleeps.
pub Reach-NoLostWakeup :
    (junk : Bytes) (n : ℕ) (cap : ℤ) {s : System} → Reach (start junk n cap) s → NoLostWakeup s
Reach-NoLostWakeup junk n cap here = start-NoLostWakeup junk n cap
Reach-NoLostWakeup junk n cap (next r st) = Step-NoLostWakeup st (Reach-NoLostWakeup junk n cap r)

after_send-chan : (s : System) (r : SendResult) (c : Chan) → (after_send s (r, c)).chan ≡ c
unfolding after_send
after_send-chan s send_waits c = refl
after_send-chan s dropped c = refl
after_send-chan s sent c = refl

after_recv-chan : (s : System) (r : RecvResult) (c : Chan) → (after_recv s (r, c)).chan ≡ c
unfolding after_recv
after_recv-chan s recv_waits c = refl
after_recv-chan s drained c = refl
after_recv-chan s (received x) c = refl

send_turn-chan : (s : System) (e : Bytes) → (send_turn s e).chan ≡ (send s.chan e).1
unfolding send_turn
send_turn-chan s e = after_send-chan s (send s.chan e).0 (send s.chan e).1

recv_turn-chan : (s : System) → (recv_turn s).chan ≡ (recv s.chan).1
unfolding recv_turn
recv_turn-chan s = after_recv-chan s (recv s.chan).0 (recv s.chan).1

Step-IsValid : {s t : System} → Step s t → IsValid s.chan → IsValid t.chan
unfolding close_turn
Step-IsValid {s} (send_call e) v = rw (send_turn-chan s e) (send-IsValid s.chan e v)
Step-IsValid {s} (send_again e w) v =
    rw (send_turn-chan (record s { not_full = resume s.not_full }) e) (send-IsValid s.chan e v)
Step-IsValid {s} recv_call v = rw (recv_turn-chan s) (recv-IsValid s.chan v)
Step-IsValid {s} (recv_again w) v =
    rw (recv_turn-chan (record s { not_empty = resume s.not_empty })) (recv-IsValid s.chan v)
Step-IsValid {s} close_call v = close-IsValid s.chan v
Step-IsValid {s} (spurious_send h) v = v
Step-IsValid {s} (spurious_recv h) v = v

-- From a fresh channel every interleaving of calls keeps the buffer's representation valid: the head
-- in range, the tail `count` slots after it, and no more items than slots.
pub Reach-IsValid :
    (junk : Bytes) (n : ℕ) (cap : ℤ) {s : System} → Reach (start junk n cap) s → IsValid s.chan
Reach-IsValid junk n cap here = make-IsValid junk n cap
Reach-IsValid junk n cap (next r st) = Step-IsValid st (Reach-IsValid junk n cap r)
