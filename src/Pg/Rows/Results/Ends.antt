-- ===== src/Pg/Rows/Results/Ends.antt =====
-- The loop over the messages of a reply ends, whatever the server sends.
use vader_langue.Prelude.{
  ℕ, suc, zero, ◌+◌, ◌≢◌, refl, ◌<◌, arith, Option, none, some, List, [], ◌∷◌, ◌++◌, Bytes, length,
  if◌then◌else◌, Bool-cases, inl, inr,
}
use vader_langue.Net.{Wire}
use vader_langue.Net.Transfer.{flat}
use vader_langue.Net.Progress.{pending}
use vader_langue.Pg.Message.{Message, pg_read_msg, pg_send}
use vader_langue.Pg.Message.Progress.{Shorter, pg_read_msg-Shorter}
use vader_langue.Pg.Rows.{
  PgStep, PgRows, drained, ready, go_on, stop, drain, outside, msg_step, is_ready, drain_wire,
  PgReply, tired, after_step, pg_loop, pg_run_open,
}

drain_next :
    (rest : Option Wire) (w : Wire) (got : Option Message × Wire)
    → Shorter w got
    → (pending got.1 < pending w → rest ≢ none)
    → (if is_ready got.0 then some got.1 else rest) ≢ none
drain_next rest w (none, w1) h ends = λ e. cc e
drain_next rest w (some m, w1) h ends = elim (Bool-cases (is_ready (some m))) [
  | inl at_end ↦ rw at_end (λ e. cc e)
  | inr more ↦ rw more (ends h)
]

-- To drain ends: without a message, or at ReadyForQuery.
drain_wire-ends : (fuel : ℕ) (w : Wire) → pending w < fuel → drain_wire fuel w ≢ none
unfolding drain_wire
drain_wire-ends zero w h = absurd (omega arith)
drain_wire-ends (suc fuel) w h =
    drain_next (drain_wire fuel (pg_read_msg w).1) w (pg_read_msg w) (pg_read_msg-Shorter w)
      (λ less. drain_wire-ends fuel (pg_read_msg w).1 (omega arith))

abbrev Rows : Type 0
Rows = List (List (Option Bytes))

drained-ends :
    (rows : PgRows) (err : Bytes) (left : Option Wire) → left ≢ none → drained rows err left ≢ tired
drained-ends rows err none h = absurd (h refl)
drained-ends rows err (some w) h = λ e. cc e

after_step-ends :
    (n : ℕ) (cells : Rows) (w : Wire) (loop : ℕ → Rows → PgReply) (left : Option Wire)
    → ((k : ℕ) (rows : Rows) → loop k rows ≢ tired)
    → left ≢ none
    → (s : PgStep) → after_step n cells w loop left s ≢ tired
after_step-ends n cells w loop left hl hd (go_on k rows) = hl k rows
after_step-ends n cells w loop left hl hd (stop err) = λ e. cc e
after_step-ends n cells w loop left hl hd (drain err) = drained-ends (ready n cells) err left hd
after_step-ends n cells w loop left hl hd outside = λ e. cc e

message-ends :
    (n : ℕ) (cells : Rows) (w : Wire) (loop : ℕ → Rows → PgReply) (left : Option Wire)
    (got : Option Message × Wire)
    → Shorter w got
    → (pending got.1 < pending w → (k : ℕ) (rows : Rows) → loop k rows ≢ tired)
    → (pending got.1 < pending w → left ≢ none)
    → after_step n cells got.1 loop left (msg_step n cells got.0) ≢ tired
message-ends n cells w loop left (none, w1) h hl hd = unfold msg_step in λ e. cc e
message-ends n cells w loop left (some m, w1) h hl hd =
    after_step-ends n cells w1 loop left (hl h) (hd h) (msg_step n cells (some m))

pg_loop-ends :
    (fuel n : ℕ) (cells : Rows) (w : Wire) → pending w + 1 < fuel → pg_loop fuel n cells w ≢ tired
unfolding pg_loop
pg_loop-ends zero n cells w h = absurd (omega arith)
pg_loop-ends (suc fuel) n cells w h =
    let w1 = (pg_read_msg w).1 in
    message-ends n cells w (λ k rows. pg_loop fuel k rows w1) (drain_wire fuel w1) (pg_read_msg w)
      (pg_read_msg-Shorter w) (λ less k rows. pg_loop-ends fuel k rows w1 (omega arith))
      (λ less. drain_wire-ends fuel w1 (omega arith))

-- A query comes to an end when the server sends finitely many bytes, whatever they are, before it ends the
-- connection or a read fails: every round of the loop of rows and of the one that drains the reply
-- has taken a message, so the rounds that the model gives them, one for each byte and two more, are
-- enough.
pub pg_run_open-ends : (w : Wire) (sql : Bytes) → pg_run_open w sql ≢ tired
unfolding pg_run_open
pg_run_open-ends w sql =
    let w1 = (pg_send w b'Q' (sql ++ 0 ∷ [])).1 in
    pg_loop-ends (suc (suc (length (flat w1.incoming)))) 0 [] w1 (omega arith)
