-- ===== src/Rt/Chan/Refine.antt =====
-- Every call on a valid channel of runtime/vader_rt.c is the call on the queue of its contents.
use native.Mathlib.Nat.{
  mod-add-mod, mod-eq_of_lt, mod-eq-sub-mod, mod-lt, mod-mod, add-zero, le_trans,
}
use mathlib.Core.Path.{ap₂, sym}
use native.Mathlib.Decide.{dec_lt}
use vader_langue.Prelude.{
  ap, ℕ, zero, suc, ◌+◌, ◌-◌, ◌%◌, ◌≤◌, ◌<◌, ◌≡◌, ◌≢◌, refl, ◌∙◌, List, [], ◌∷◌, ◌++◌, Bytes, arith,
  length, get_or, set, get_or-set_self, get_or-set_ne, get_elem?-get_or,
}
use vader_langue.Rt.Chan.{Chan, send, recv, close, SendResult, RecvResult}
use vader_langue.Rt.Chan.Inv.{IsValid, send-IsValid, recv-IsValid, close-IsValid}
use vader_langue.Rt.Chan.Queue
use vader_langue.Rt.Chan.Queue.{Queue}

-- The `n` slots from position `p` on, positions counted round the buffer.
abbrev pub slots : List Bytes → ℕ → ℕ → ℕ → List Bytes
slots buf cap p zero = []
slots buf cap p (suc n) = get_or buf (p % cap) [] ∷ slots buf cap (p + 1) n

abbrev pub contents : Chan → Queue
contents c = record { items = slots c.buf c.cap c.head c.count; bound = c.cap; shut = c.closed }

length-slots : (buf : List Bytes) (cap p n : ℕ) → length (slots buf cap p n) ≡ n
length-slots buf cap p zero = refl
length-slots buf cap p (suc n) = ap suc (length-slots buf cap (p + 1) n)

-- Only the position round the buffer matters.
slots_mod :
    (buf : List Bytes) (cap p q n : ℕ) → p % cap ≡ q % cap → slots buf cap p n ≡ slots buf cap q n
slots_mod buf cap p q zero e = refl
slots_mod buf cap p q (suc n) e =
    rw e (ap (λ l. get_or buf (q % cap) [] ∷ l) (slots_mod buf cap (p + 1) (q + 1) n next))
  where
    next : (p + 1) % cap ≡ (q + 1) % cap
    next = rw (← mod-add-mod p cap 1, e, mod-add-mod q cap 1)

-- Positions less than `cap` apart are different slots.
mod-ne_small : (r k cap : ℕ) → r < cap → 0 < k → k < cap → r ≢ (r + k) % cap
mod-ne_small r k cap hr hk hc = elim (dec_lt (r + k) cap) [
  | yes p ↦ omega (arith, mod-eq_of_lt p)
  | no p ↦ omega (
    arith,
    mod-eq-sub-mod {n = r + k} {m = cap} (omega arith),
    mod-eq_of_lt {n = r + k - cap} {m = cap} (omega arith),
  )
]

mod-ne : (p k cap : ℕ) → 0 < k → k < cap → p % cap ≢ (p + k) % cap
mod-ne p k cap hk hc =
    rw (← mod-add-mod p cap k) (mod-ne_small (p % cap) k cap (mod-lt p (omega arith)) hk hc)

-- A write `n` slots after the head extends the contents by the written item.
slots-set :
    (buf : List Bytes) (cap : ℕ) (x : Bytes) (n p i : ℕ)
    → cap ≤ length buf
    → n < cap
    → i ≡ (p + n) % cap
    → slots (set buf i x) cap p (suc n) ≡ slots buf cap p n ++ x ∷ []
slots-set buf cap x zero p i hl hn e =
    ap (λ a. a ∷ [])
      (rw (e, add-zero) (get_or-set_self buf (p % cap) x [] (le_trans (mod-lt p hn) hl)))
slots-set buf cap x (suc n) p i hl hn e =
    ap₂ ◌∷◌
      (get_or-set_ne buf i (p % cap) x [] (λ h. mod-ne p (suc n) cap (omega arith) hn (sym h ∙ e)))
      (slots-set buf cap x n (p + 1) i hl (omega arith) (e ∙ ap (λ k. k % cap) (omega arith)))

-- The contents from the head on, one slot being read.
slots_first :
    (buf : List Bytes) (cap h n : ℕ)
    → h < cap
    → 0 < n
    → slots buf cap h n ≡ get_or buf h [] ∷ slots buf cap ((h + 1) % cap) (n - 1)
slots_first buf cap h zero hh hn = absurd (omega arith)
slots_first buf cap h (suc n) hh hn =
    let e : suc n - 1 ≡ n = omega arith in
    rw (mod-eq_of_lt hh, e)
      (ap (λ l. get_or buf h [] ∷ l)
        (slots_mod buf cap (h + 1) ((h + 1) % cap) n (sym (mod-mod (h + 1) cap))))

-- On a valid channel `vader_chan_send` waits, drops or enqueues exactly as the bounded queue of the
-- channel's contents does, and leaves the channel holding the queue's new contents.
pub send_refines :
    (c : Chan) (e : Bytes)
    → IsValid c
    → ((send c e).0 ≡ (Queue.send (contents c) e).0)
      × (contents (send c e).1 ≡ (Queue.send (contents c) e).1)
unfolding send Queue.send
send_refines c e v =
    ground (
      arith,
      length-slots c.buf c.cap c.head c.count,
      slots-set c.buf c.cap e c.count c.head c.tail,
    )

slots_count_zero : (c : Chan) → c.count ≡ 0 → (contents c).items ≡ []
slots_count_zero c e = rw e

-- On a valid channel `vader_chan_recv` waits, reports the end or takes the oldest item exactly as the
-- queue of the channel's contents does, and leaves the channel holding the queue's rest.
pub recv_refines :
    (c : Chan)
    → IsValid c
    → ((recv c).0 ≡ (Queue.recv (contents c)).0)
      × (contents (recv c).1 ≡ (Queue.recv (contents c)).1)
unfolding recv Queue.recv
recv_refines c v = ground (
  arith,
  slots_count_zero c,
  slots_first c.buf c.cap c.head c.count,
  get_elem?-get_or c.buf c.head [],
)

contents-close : (c : Chan) → contents (close c) ≡ Queue.close (contents c)
unfolding close Queue.close
contents-close c = refl

-- A client's calls on one channel in the order in which they take its lock, and the answers.
pub data Op : Type 0 where
  op_send : Bytes → Op
  op_recv : Op
  op_close : Op

pub data Answer : Type 0 where
  send_answer : SendResult → Answer
  recv_answer : RecvResult → Answer
  closed_now : Answer

unfoldable pub run : Chan → List Op → List Answer
run c [] = []
run c (op_send e ∷ ops) = send_answer (send c e).0 ∷ run (send c e).1 ops
run c (op_recv ∷ ops) = recv_answer (recv c).0 ∷ run (recv c).1 ops
run c (op_close ∷ ops) = closed_now ∷ run (close c) ops

unfoldable pub queue_run : Queue → List Op → List Answer
queue_run q [] = []
queue_run q (op_send e ∷ ops) = send_answer (Queue.send q e).0 ∷ queue_run (Queue.send q e).1 ops
queue_run q (op_recv ∷ ops) = recv_answer (Queue.recv q).0 ∷ queue_run (Queue.recv q).1 ops
queue_run q (op_close ∷ ops) = closed_now ∷ queue_run (Queue.close q) ops

-- No sequence of sends, receives and closes tells a valid channel from the bounded queue of its
-- contents: every answer agrees.
pub run_refines : (ops : List Op) (c : Chan) → IsValid c → run c ops ≡ queue_run (contents c) ops
unfolding run queue_run
run_refines [] c v = refl
run_refines (op_send e ∷ ops) c v = cc (
  run_refines ops (send c e).1 (send-IsValid c e v),
  (send_refines c e v).0,
  (send_refines c e v).1,
)
run_refines (op_recv ∷ ops) c v =
    cc (run_refines ops (recv c).1 (recv-IsValid c v), (recv_refines c v).0, (recv_refines c v).1)
run_refines (op_close ∷ ops) c v =
    cc (run_refines ops (close c) (close-IsValid c v), contents-close c)
