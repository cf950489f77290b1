-- ===== src/Pg/Rows/Results.antt =====
-- The reply of a server to a query, and what the client makes of it.
pub mod Cells
pub mod Ends
use vader_langue.Prelude.{
  ℕ, suc, zero, ◌+◌, ◌*◌, ◌-◌, ◌%◌, ◌/◌, ◌^◌, ◌≡◌, ◌≤◌, ◌<◌, ◌≢◌, refl, ap, sym, ◌∙◌, arith, Bool,
  true, false, inl, inr, negsuc, Option, none, some, List, [], ◌∷◌, ◌++◌, map, append_assoc,
  append-nil, Bytes, ◌==◌, ltb, lt→ltb, le→ltb, leb, if◌then◌else◌, ◌>>=◌, length, length-append,
  length-map, All, take, drop, take-length-append, drop-length-append,
}
use vader_langue.Net.{Wire}
use vader_langue.Net.Transfer.{flat, Flows}
use vader_langue.Pg.Message.{Message, put32, get32, pg_read_msg, pg_send, msg_header}
use vader_langue.Pg.Message.Frames.{message, get32-put32, pg_read_msg-message, pg_send_incoming}
use vader_langue.Pg.Rows.{
  PgRows, get16, pg_cell, pg_cells, with_row, described, go_on, stop, msg_step, ready, drain_wire,
  after_step, PgStep, PgReply, answered, pg_loop, pg_run_open,
}
use vader_langue.Pg.Rows.Results.Cells.{row_bytes, put16, row_body, Small, pg_cells-row_bytes}

-- Messages one after the other.
unfoldable pub messages : List Message → Bytes
messages [] = []
messages (m ∷ ms) = message m.0 m.1 ++ messages ms

messages_nil : messages [] ≡ []
unfolding messages
messages_nil = refl

-- There are at least as many bytes as messages.
length-messages : (ms : List Message) → length ms ≤ length (messages ms)
unfolding messages message msg_header
length-messages [] = omega arith
length-messages (m ∷ ms) = omega (
  arith,
  length-messages ms,
  length-append (message m.0 m.1) (messages ms),
  length-append (msg_header m.0 m.1) m.1,
)

-- The connection when the message `m` has been read.
record Next (w : Wire) (m : Message) (more : Bytes) : Type 0 where
  pub got : (pg_read_msg w).0 ≡ some m
  pub flows : Flows (pg_read_msg w).1.incoming
  pub left : flat (pg_read_msg w).1.incoming ≡ more

pg_read_msg-Next :
    (w : Wire) (m : Message) (ms : List Message) (more : Bytes)
    → length m.1 + 4 < 2 ^ 31
    → Flows w.incoming
    → flat w.incoming ≡ messages (m ∷ ms) ++ more
    → Next w m (messages ms ++ more)
unfolding messages
pg_read_msg-Next w m ms more h hf e =
    let r =
      pg_read_msg-message w m.0 m.1 (messages ms ++ more) h hf
        (e ∙ append_assoc (message m.0 m.1) (messages ms) more) in
    let then_at : (pg_read_msg w).1 ≡ r.after = ap (λ x. x.1) r.got in
    record { got = ap (λ x. x.0) r.got; flows = rw then_at r.flows; left = rw then_at r.left }

-- A row that fits into a message: fewer than 2^16 cells, and the length of the body.
abbrev pub Fitting : List (Option Bytes) → Type 0
Fitting cs = (length cs < 2 ^ 16) × (length (row_body cs) + 4 < 2 ^ 31) × All Small cs

abbrev pub data_row : List (Option Bytes) → Message
data_row cs = (b'D', row_body cs)

msg_step-row :
    (n : ℕ) (cells : List (List (Option Bytes))) (cs : List (Option Bytes))
    → Fitting cs
    → msg_step n cells (some (data_row cs)) ≡ go_on n (cells ++ cs ∷ [])
unfolding msg_step
msg_step-row n cells cs h =
    let count : length cs / 2 ^ 8 * 2 ^ 8 + length cs % 2 ^ 8 ≡ length cs = omega arith in
    let all : pg_cells (length cs) (row_bytes cs) ≡ some cs =
      ap (pg_cells (length cs)) (sym (append-nil (row_bytes cs))) ∙ pg_cells-row_bytes cs [] h.2 in
    ap (λ k. with_row n cells (pg_cells k (row_bytes cs))) count ∙ ap (with_row n cells) all

-- What the loop has come to when it returns, and `more` that is still to arrive.
pub record Answers (o : PgReply) (n : ℕ) (rows : List (List (Option Bytes))) (more : Bytes)
    : Type 0 where
  pub after : Wire
  pub got : o ≡ answered (record { ncols = n; cur = negsuc 0; cells = rows }) none after
  pub flows : Flows after.incoming
  pub left : flat after.incoming ≡ more

-- The messages behind the rows: CommandComplete and ReadyForQuery.
abbrev pub closing : Bytes → Bytes → List Message
closing tag status = (b'C', tag) ∷ (b'Z', status) ∷ []

-- What stands behind the message that the loop has read.
module _ (fuel n : ℕ) (cells : List (List (Option Bytes))) (w : Wire) where
  abbrev stepped : PgStep → PgReply
  stepped =
      after_step n cells (pg_read_msg w).1 (λ k rows. pg_loop fuel k rows (pg_read_msg w).1)
        (drain_wire fuel (pg_read_msg w).1)

  pg_loop_step :
      (m : Message)
      → (pg_read_msg w).0 ≡ some m
      → pg_loop (suc fuel) n cells w ≡ stepped (msg_step n cells (some m))
  unfolding pg_loop
  pg_loop_step m e = ap (λ o. stepped (msg_step n cells o)) e

-- The loop adds the rows that follow and returns at ReadyForQuery, with one round of fuel for each message.
pg_loop-messages :
    (rows acc : List (List (Option Bytes))) (fuel n : ℕ) (tag status : Bytes) (w : Wire)
    (more : Bytes)
    → length rows + 2 ≤ fuel
    → All Fitting rows
    → length tag + 4 < 2 ^ 31
    → length status + 4 < 2 ^ 31
    → Flows w.incoming
    → flat w.incoming ≡ messages (map data_row rows ++ closing tag status) ++ more
    → Answers (pg_loop fuel n acc w) n (acc ++ rows) more
pg_loop-messages [] acc (suc (suc fuel)) n tag status w more hk hr ht hs hf e =
    let p = pg_read_msg-Next w (b'C', tag) ((b'Z', status) ∷ []) more ht hf e in
    let w1 = (pg_read_msg w).1 in
    let q = pg_read_msg-Next w1 (b'Z', status) [] more hs p.flows p.left in
    record {
      after = (pg_read_msg w1).1;
      got =
          pg_loop_step (suc fuel) n acc w (b'C', tag) p.got
          ∙ unfold msg_step in
            pg_loop_step fuel n acc w1 (b'Z', status) q.got
            ∙ ap (λ l. answered (ready n l) none (pg_read_msg w1).1) (sym (append-nil acc));
      flows = q.flows;
      left = q.left ∙ ap (λ t. t ++ more) messages_nil;
    }
pg_loop-messages (cs ∷ rows) acc (suc fuel) n tag status w more hk hr ht hs hf e =
    let p =
      pg_read_msg-Next w (data_row cs) (map data_row rows ++ closing tag status) more hr.0.1 hf e in
    let r =
      pg_loop-messages rows (acc ++ cs ∷ []) fuel n tag status (pg_read_msg w).1 more (omega arith)
        hr.1 ht hs p.flows p.left in
    record {
      after = r.after;
      got =
          pg_loop_step fuel n acc w (data_row cs) p.got
          ∙ ap (stepped fuel n acc w) (msg_step-row n acc cs hr.0)
          ∙ r.got
          ∙ ap (λ l. answered (ready n l) none r.after) (append_assoc acc (cs ∷ []) rows);
      flows = r.flows;
      left = r.left;
    }
pg_loop-messages [] acc zero n tag status w more hk hr ht hs hf e = absurd (omega arith)
pg_loop-messages [] acc (suc zero) n tag status w more hk hr ht hs hf e = absurd (omega arith)
pg_loop-messages (cs ∷ rows) acc zero n tag status w more hk hr ht hs hf e = absurd (omega arith)

msg_step-described :
    (k n : ℕ) (fields : Bytes) (cells : List (List (Option Bytes)))
    → msg_step k cells (some (b'T', put16 n ++ fields)) ≡ go_on n cells
unfolding msg_step
msg_step-described k n fields cells = ap (λ c. go_on c cells) (omega arith)

-- When no read ends early, a result of fewer than 2^16 columns and of rows with fewer than 2^16
-- cells, in messages whose lengths are below 2^31, is read whole: as many columns and the rows in
-- their order, with a null pointer for NULL; and what comes behind ReadyForQuery is left.
pub pg_run_open-reply :
    (w : Wire) (sql : Bytes) (n : ℕ) (fields : Bytes) (rows : List (List (Option Bytes)))
    (tag status more : Bytes)
    → n < 2 ^ 16
    → length (put16 n ++ fields) + 4 < 2 ^ 31
    → All Fitting rows
    → length tag + 4 < 2 ^ 31
    → length status + 4 < 2 ^ 31
    → Flows w.incoming
    → flat w.incoming
      ≡ messages ((b'T', put16 n ++ fields) ∷ map data_row rows ++ closing tag status) ++ more
    → Answers (pg_run_open w sql) n rows more
unfolding pg_run_open
pg_run_open-reply w sql n fields rows tag status more hn hd hr ht hs hf e =
    let w1 = (pg_send w b'Q' (sql ++ 0 ∷ [])).1 in
    let same = pg_send_incoming w b'Q' (sql ++ 0 ∷ []) in
    let first : Message = (b'T', put16 n ++ fields) in
    let behind = map data_row rows ++ closing tag status in
    let p = pg_read_msg-Next w1 first behind more hd (rw same hf) (ap flat same ∙ e) in
    let many : length rows + 2 ≤ suc (length (flat w1.incoming)) = omega (
      arith,
      ap length (ap flat same ∙ e),
      length-append (messages (first ∷ behind)) more,
      length-messages (first ∷ behind),
      length-append (map data_row rows) (closing tag status),
      length-map data_row rows,
    ) in
    let fuel = suc (length (flat w1.incoming)) in
    let r =
      pg_loop-messages rows [] fuel n tag status (pg_read_msg w1).1 more many hr ht hs p.flows
        p.left in
    record {
      after = r.after;
      got =
          pg_loop_step fuel 0 [] w1 first p.got
          ∙ ap (stepped fuel 0 [] w1) (msg_step-described 0 n fields [])
          ∙ r.got;
      flows = r.flows;
      left = r.left;
    }
