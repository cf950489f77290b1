-- ===== src/Rt/Tests.antt =====
-- Runs of the models of runtime/vader_rt.c, and its theorems at concrete inputs.
use vader_langue.Prelude.{
  ◌≡◌, ◌≤◌, ◌↔◌, refl, true, false, some, List, [], ◌∷◌, pos, negsuc, codes, arith,
}
use vader_langue.Rt.Bounds.{bounds, returns, jumps, bounds_iff, InRange}
use vader_langue.Rt.Chan
use vader_langue.Rt.Chan.{Chan, sent, dropped, send_waits, received, drained, recv_waits}
use vader_langue.Rt.Chan.Inv.{IsValid}
use vader_langue.Rt.Chan.Refine.{
  contents, Op, op_send, op_recv, op_close, run, queue_run, send_answer, recv_answer, closed_now,
  run_refines,
}
use vader_langue.Rt.Chan.System.{
  System, resume, Reach, start, here, next, send_call, recv_call, send_turn, recv_turn,
  NoLostWakeup, Reach-NoLostWakeup, Reach-IsValid,
}
use vader_langue.Rt.Chan.Live.{
  Turns, none_yet, recv_next, pending, IsQuiet, SleepsRightly, Reach-settles,
}
use vader_langue.Rt.Map.{len}
use vader_langue.Rt.Map.Keys.{int_key, str_key, get}
use vader_langue.Rt.Map.History.{History, build, last_value, distinct, answer, get-build, len-build}

bounds_below : bounds true (negsuc 0) (pos 3) ≡ jumps
unfolding bounds
bounds_below = refl

bounds_iff_example : (bounds false (pos 2) (pos 3) ≡ returns) ↔ InRange (pos 2) (pos 3)
bounds_iff_example = bounds_iff false (pos 2) (pos 3)

abbrev fresh : Chan
fresh = Chan.make [] 1 (pos 2)

-- A channel of two slots in use, the tail having gone round.
abbrev half : Chan
half = record {
  buf = (7 ∷ []) ∷ (8 ∷ []) ∷ [];
  elemsize = 1;
  cap = 2;
  count = 1;
  head = 1;
  tail = 0;
  closed = false;
}

half-IsValid : IsValid half
half-IsValid = omega arith

abbrev script : List Op
script =
    op_send (1 ∷ [])
    ∷ op_send (2 ∷ [])
    ∷ op_recv
    ∷ op_close
    ∷ op_send (3 ∷ [])
    ∷ op_recv
    ∷ op_recv
    ∷ []

run-half :
    run half script
    ≡ send_answer sent
      ∷ send_answer send_waits
      ∷ recv_answer (received (some (8 ∷ [])))
      ∷ closed_now
      ∷ send_answer dropped
      ∷ recv_answer (received (some (1 ∷ [])))
      ∷ recv_answer drained
      ∷ []
unfolding run Chan.send Chan.recv Chan.close
run-half = refl

run_refines_example : run half script ≡ queue_run (contents half) script
run_refines_example = run_refines script half half-IsValid

-- A receiver goes to sleep on an empty channel, and a sender wakes it.
abbrev one_send : System
one_send = send_turn (recv_turn (start [] 1 (pos 2))) (5 ∷ [])

woken : one_send.not_empty.woken ≡ 1
unfolding send_turn recv_turn Chan.make Chan.recv Chan.send
woken = refl

one_send_reached : Reach (start [] 1 (pos 2)) one_send
one_send_reached = next (next here recv_call) (send_call (5 ∷ []))

Reach-NoLostWakeup_example : NoLostWakeup one_send
Reach-NoLostWakeup_example = Reach-NoLostWakeup [] 1 (pos 2) one_send_reached

Reach-IsValid_example : IsValid one_send.chan
Reach-IsValid_example = Reach-IsValid [] 1 (pos 2) one_send_reached

-- The receiver that slept runs and leaves with the element.
one_turn : Turns one_send 1 (recv_turn (record one_send { not_empty = resume one_send.not_empty }))
one_turn = recv_next none_yet (omega (arith, woken))

Reach-settles_example :
    (1 ≤ pending one_send)
    × (IsQuiet (recv_turn (record one_send { not_empty = resume one_send.not_empty }))
        → SleepsRightly (recv_turn (record one_send { not_empty = resume one_send.not_empty })))
Reach-settles_example = Reach-settles [] 1 (pos 2) one_send_reached one_turn

abbrev past : History
past =
    (int_key (pos 65), 2 ∷ 0 ∷ [])
    ∷ (str_key (codes "a"), 9 ∷ 9 ∷ [])
    ∷ (int_key (pos 1), 1 ∷ 0 ∷ [])
    ∷ []

get-build_example :
    get (build 2 false past) (int_key (pos 1)) ≡ answer 2 (last_value (int_key (pos 1)) past)
get-build_example = get-build 2 false past (int_key (pos 1))

len-build_example : len (build 2 false past) ≡ distinct past
len-build_example = len-build 2 false past

distinct_three : distinct past ≡ 3
unfolding distinct last_value
distinct_three = refl
