-- ===== src/Rt/Chan/Live.antt =====
-- What the threads that sleep on a channel of runtime/vader_rt.c may count on.
use vader_langue.Prelude.{
  refl, ℕ, zero, suc, ◌+◌, ◌*◌, ◌≤◌, ◌<◌, ◌≡◌, Bool, true, false, Bytes, ℤ, arith,
}
use vader_langue.Rt.Chan.{send, recv}
use vader_langue.Rt.Chan.Inv.{IsValid}
use vader_langue.Rt.Chan.System.{
  System, resume, Reach, start, next, send_again, recv_again, send_turn, recv_turn, NoLostWakeup,
  Reach-NoLostWakeup, Reach-IsValid,
}

-- `k` turns of woken threads, in any order, while no thread enters a call.
pub data Turns (s : System) : ℕ → System → Type 0 where
  none_yet : Turns s zero s
  send_next :
      {k : ℕ} {t : System} (e : Bytes)
      → Turns s k t
      → 0 < t.not_full.woken
      → Turns s (suc k) (send_turn (record t { not_full = resume t.not_full }) e)
  recv_next :
      {k : ℕ} {t : System}
      → Turns s k t
      → 0 < t.not_empty.woken
      → Turns s (suc k) (recv_turn (record t { not_empty = resume t.not_empty }))

-- A sleeper may be woken, run, and sleep again only when another thread has left.
abbrev pub pending : System → ℕ
pending s = s.not_full.asleep + s.not_empty.asleep + 2 * (s.not_full.woken + s.not_empty.woken)

send_turn-pending :
    (s : System) (e : Bytes)
    → 0 < s.not_full.woken
    → pending (send_turn (record s { not_full = resume s.not_full }) e) + 1 ≤ pending s
unfolding send_turn send
send_turn-pending s e h = ground arith

recv_turn-pending :
    (s : System)
    → 0 < s.not_empty.woken
    → pending (recv_turn (record s { not_empty = resume s.not_empty })) + 1 ≤ pending s
unfolding recv_turn recv
recv_turn-pending s h = ground arith

Turns-pending : {s t : System} {k : ℕ} → Turns s k t → pending t + k ≤ pending s
Turns-pending none_yet = omega arith
Turns-pending (send_next {t} e r w) = omega (arith, Turns-pending r, send_turn-pending t e w)
Turns-pending (recv_next {t} r w) = omega (arith, Turns-pending r, recv_turn-pending t w)

Turns-Reach : {r s t : System} {k : ℕ} → Reach r s → Turns s k t → Reach r t
Turns-Reach q none_yet = q
Turns-Reach q (send_next e ts w) = next (Turns-Reach q ts) (send_again e w)
Turns-Reach q (recv_next ts w) = next (Turns-Reach q ts) (recv_again w)

open_of : (b : Bool) → ¬ (b ≡ true) → b ≡ false
open_of true h = absurd (h refl)
open_of false h = refl

-- No woken thread is left.
abbrev pub IsQuiet : System → Type 0
IsQuiet s = (s.not_full.woken ≡ 0) × (s.not_empty.woken ≡ 0)

-- Who sleeps has a reason: receivers on an empty open channel, senders on a full open one.
pub record SleepsRightly (s : System) : Type 0 where
  pub receivers : 0 < s.not_empty.asleep → (s.chan.count ≡ 0) × (s.chan.closed ≡ false)
  pub senders : 0 < s.not_full.asleep → (s.chan.count ≡ s.chan.cap) × (s.chan.closed ≡ false)

quiet-SleepsRightly : (s : System) → NoLostWakeup s → IsValid s.chan → IsQuiet s → SleepsRightly s
quiet-SleepsRightly s v i q = record {
  receivers = λ h.
      (ground (arith, v.items h), open_of s.chan.closed (λ c. ground (arith, v.closed_wakes c)));
  senders = λ h.
      (ground (arith, v.room h), open_of s.chan.closed (λ c. ground (arith, v.closed_wakes c)));
}

-- From any state that the calls of any threads lead to: if no thread enters a call, the woken threads
-- come to rest, after one turn for each sleeping and two for each woken thread at most, in
-- whatever order they run; and when they have, a receiver sleeps only if the channel is open and
-- empty, a sender only if it is open and full.
pub Reach-settles :
    (junk : Bytes) (n : ℕ) (cap : ℤ) {s t : System} {k : ℕ}
    → Reach (start junk n cap) s
    → Turns s k t
    → (k ≤ pending s) × (IsQuiet t → SleepsRightly t)
Reach-settles junk n cap {t} r ts = (
  omega (arith, Turns-pending ts),
  λ q.
      quiet-SleepsRightly t (Reach-NoLostWakeup junk n cap (Turns-Reach r ts))
        (Reach-IsValid junk n cap (Turns-Reach r ts)) q,
)
