-- ===== src/Mysql/Rows/Results.antt =====
-- A result set as the server writes it, and what the client makes of it.
pub mod Cells
use vader_langue.Prelude.{
  ℕ, suc, zero, ◌+◌, ◌*◌, ◌-◌, ◌%◌, ◌/◌, ◌^◌, ◌≡◌, ◌≤◌, ◌<◌, ◌≢◌, refl, ap, sym, ◌∙◌, arith, Bool,
  true, false, ◌&&◌, Bool-cases, inl, inr, Option, none, some, List, [], ◌∷◌, ◌++◌, map,
  append_assoc, append-nil, Bytes, ◌==◌, ne→==, ltb, lt→ltb, ltb→lt, if◌then◌else◌, ◌>>=◌, length,
  length-append, length-map, All, negsuc, ℤ,
}
use vader_langue.Net.{Wire, send}
use vader_langue.Net.Transfer.{flat, Flows}
use vader_langue.Mysql.Packet.{read_packet, write_packet, packet_header, lenenc_int}
use vader_langue.Mysql.Packet.Frames.{write_packet_incoming}
use vader_langue.Mysql.Rows.Sequence.{
  frames, frames-append, length-frames, Short, read_packet-Next, skip_packets-frames,
}
use vader_langue.Mysql.Packet.Lengths.{lenenc, lenenc_int-lenenc, length-lenenc}
use vader_langue.Mysql.Rows.{
  MyRows, to_count, is_eof, skip_packets, finished, outside, cells_of, row_reply, add_row,
  rows_from, read_rows, no_rows, Answer, with_rows, result_set, first_reply, run_open, parse_row,
}
use vader_langue.Mysql.Rows.Results.Cells.{
  value, row_bytes, parse_row-row_bytes, Head, Number, lenenc-Head, row_bytes-Head,
}

-- The packet that ends the rows.
abbrev pub Eof : Bytes → Type 0
Eof p = Head (λ b. b ≡ 0xfe) p × (length p < 9)

row_reply-eof :
    (n seq b : ℕ) (p : Bytes)
    → b ≡ 0xfe
    → length (b ∷ p) < 9
    → row_reply n (some (seq, b ∷ p)) ≡ finished
unfolding row_reply
row_reply-eof n seq b p hb hl = rw (hb, lt→ltb (length (b ∷ p)) 9 hl) refl

row_reply-row :
    (n seq b : ℕ) (p : Bytes) (vs : List Bytes)
    → b ≢ 0xfe
    → parse_row n (b ∷ p) ≡ some vs
    → row_reply n (some (seq, b ∷ p)) ≡ cells_of vs
unfolding row_reply
row_reply-row n seq b p vs hb e = rw (ne→== b 0xfe hb, e) refl

row_reply-Eof : (n seq : ℕ) (p : Bytes) → Eof p → row_reply n (some (seq, p)) ≡ finished
row_reply-Eof n seq p h =
    let (b, t, e, hb) = h.0 in
    ap (λ q. row_reply n (some (seq, q))) e
    ∙ row_reply-eof n seq b t hb (omega (arith, h.1, ap length e))

-- A row of `n` cells that fits into a packet.
abbrev pub Fitting : ℕ → List (Option Bytes) → Type 0
Fitting n cs = (length cs ≡ n) × (length (row_bytes cs) < 2 ^ 24)

row_reply-Fitting :
    (n seq : ℕ) (cs : List (Option Bytes))
    → 1 ≤ n
    → Fitting n cs
    → row_reply n (some (seq, row_bytes cs)) ≡ cells_of (map value cs)
row_reply-Fitting n seq cs hn h =
    let (b, t, e, hb) = row_bytes-Head cs (omega (arith, hn, h.0)) h.1 in
    let all : parse_row n (row_bytes cs ++ []) ≡ some (map value cs) =
      ap (λ k. parse_row k (row_bytes cs ++ [])) (sym h.0) ∙ parse_row-row_bytes cs [] h.1 in
    ap (λ q. row_reply n (some (seq, q))) e
    ∙ row_reply-row n seq b t (map value cs) hb
        (ap (parse_row n) (sym e ∙ sym (append-nil (row_bytes cs))) ∙ all)

-- What the client has read, and `more` that is still to arrive.
pub record Answers (o : Option Answer) (n : ℕ) (rows : List (List (Option Bytes))) (more : Bytes)
    : Type 0 where
  pub after : Wire
  pub got :
      o ≡ some (record { ncols = n; cur = negsuc 0; cells = map (map value) rows }, none, after)
  pub flows : Flows after.incoming
  pub left : flat after.incoming ≡ more

record RowsRead (o : Option (List (List Bytes) × Wire)) (cells : List (List Bytes)) (more : Bytes)
    : Type 0 where
  pub after : Wire
  pub got : o ≡ some (cells, after)
  pub flows : Flows after.incoming
  pub left : flat after.incoming ≡ more

-- The loop reads all rows and the EOF, with one round of fuel for each packet.
read_rows-frames :
    (rows : List (List (Option Bytes))) (fuel n seq : ℕ) (w : Wire) (eof more : Bytes)
    → 1 ≤ n
    → length rows < fuel
    → All (Fitting n) rows
    → Eof eof
    → Flows w.incoming
    → flat w.incoming ≡ frames seq (map row_bytes rows ++ eof ∷ []) ++ more
    → RowsRead (read_rows fuel n w) (map (map value) rows) more
unfolding read_rows frames
read_rows-frames rows zero n seq w eof more hn hk hr he hf e = absurd (omega arith)
read_rows-frames [] (suc fuel) n seq w eof more hn hk hr he hf e =
    let p = read_packet-Next w eof [] seq more (omega (arith, he.1)) hf e in
    record {
      after = (read_packet w).1;
      got =
          ap (rows_from (read_packet w).1 (read_rows fuel n (read_packet w).1))
            (ap (row_reply n) p.got ∙ row_reply-Eof n (seq % 2 ^ 8) eof he);
      flows = p.flows;
      left = p.left;
    }
read_rows-frames (cs ∷ rows) (suc fuel) n seq w eof more hn hk hr he hf e =
    let p =
      read_packet-Next w (row_bytes cs) (map row_bytes rows ++ eof ∷ []) seq more hr.0.1 hf e in
    let r =
      read_rows-frames rows fuel n (suc seq) (read_packet w).1 eof more hn (omega arith) hr.1 he
        p.flows p.left in
    record {
      after = r.after;
      got =
          ap (rows_from (read_packet w).1 (read_rows fuel n (read_packet w).1))
            (ap (row_reply n) p.got ∙ row_reply-Fitting n (seq % 2 ^ 8) cs hn hr.0)
          ∙ ap (add_row (map value cs)) r.got;
      flows = r.flows;
      left = r.left;
    }

-- The reply to a query: the number of columns, their definitions, an EOF, the rows, and an EOF.
abbrev pub reply : List Bytes → Bytes → List (List (Option Bytes)) → Bytes → List Bytes
reply defs mid rows eof = lenenc (length defs) ∷ defs ++ mid ∷ (map row_bytes rows ++ eof ∷ [])

result_set-Answers :
    (defs : List Bytes) (mid : Bytes) (rows : List (List (Option Bytes))) (eof more : Bytes)
    (seq : ℕ) (w : Wire)
    → 1 ≤ length defs
    → All Short defs
    → Short mid
    → All (Fitting (length defs)) rows
    → Eof eof
    → Flows w.incoming
    → flat w.incoming ≡ frames seq (defs ++ mid ∷ (map row_bytes rows ++ eof ∷ [])) ++ more
    → Answers (result_set (length defs) w) (length defs) rows more
unfolding result_set
result_set-Answers defs mid rows eof more seq w hn hd hm hr he hf e =
    let n = length defs in
    let behind = map row_bytes rows ++ eof ∷ [] in
    let k = seq + n in
    let skip = skip_packets-frames defs seq w (frames k (mid ∷ behind) ++ more) hd hf (
      e
      ∙ ap (λ t. t ++ more) (frames-append seq defs (mid ∷ behind))
      ∙ append_assoc (frames seq defs) (frames k (mid ∷ behind)) more) in
    let p = read_packet-Next (skip_packets n w) mid behind k more hm skip.0 skip.1 in
    let w1 = (read_packet (skip_packets n w)).1 in
    let r =
      read_rows-frames rows (suc (length (flat w1.incoming))) n (suc k) w1 eof more hn
        (omega (
          arith,
          ap length p.left,
          length-append (frames (suc k) behind) more,
          length-frames (suc k) behind,
          length-append (map row_bytes rows) (eof ∷ []),
          length-map row_bytes rows,
        ))
        hr he p.flows p.left in
    record { after = r.after; got = ap (with_rows n) r.got; flows = r.flows; left = r.left }

first_reply-byte :
    (seq b : ℕ) (p : Bytes) (w : Wire)
    → b ≢ 0xff
    → b ≢ 0
    → first_reply (some (seq, b ∷ p)) w
      ≡ (lenenc_int (b ∷ p) >>= (λ r. result_set (to_count r.0) w))
unfolding first_reply
first_reply-byte seq b p w h1 h2 = rw (ne→== b 0xff h1, ne→== b 0 h2) refl

first_reply-lenenc :
    (seq n : ℕ) (w : Wire)
    → 1 ≤ n
    → n < 2 ^ 31
    → first_reply (some (seq, lenenc n)) w ≡ result_set n w
first_reply-lenenc seq n w hn hc =
    let (b, t, e, number) = lenenc-Head n in
    let count : to_count n ≡ n = ground arith in
    ap (λ q. first_reply (some (seq, q)) w) e
    ∙ first_reply-byte seq b t w number.1 (number.3 hn)
    ∙ ap (λ q. lenenc_int q >>= (λ r. result_set (to_count r.0) w))
        (sym e ∙ sym (append-nil (lenenc n)))
    ∙ ap (λ o. o >>= (λ r. result_set (to_count r.0) w)) (lenenc_int-lenenc n [] (omega arith))
    ∙ ap (λ c. result_set c w) count

-- When no read ends early, a result set of 1 to 2^31 - 1 columns, whose packets are shorter than
-- 2^24 bytes, whose rows have a cell for each column and which an EOF packet of fewer than 9 bytes
-- ends, is read whole: as many columns, the rows in their order, the text of each cell with an empty
-- one for NULL; and what comes behind it is left.
pub run_open-reply :
    (w : Wire) (sql : Bytes) (defs : List Bytes) (mid : Bytes) (rows : List (List (Option Bytes)))
    (eof more : Bytes)
    → 1 ≤ length defs
    → length defs < 2 ^ 31
    → All Short defs
    → Short mid
    → All (Fitting (length defs)) rows
    → Eof eof
    → Flows w.incoming
    → flat w.incoming ≡ frames 1 (reply defs mid rows eof) ++ more
    → Answers (run_open w sql) (length defs) rows more
unfolding run_open
run_open-reply w sql defs mid rows eof more hn hc hd hm hr he hf e =
    let n = length defs in
    let w1 = (write_packet w (0x03 ∷ sql) 0).1 in
    let same = write_packet_incoming w (0x03 ∷ sql) 0 in
    let behind = defs ++ mid ∷ (map row_bytes rows ++ eof ∷ []) in
    let p =
      read_packet-Next w1 (lenenc n) behind 1 more (omega (arith, length-lenenc n)) (rw same hf)
        (ap flat same ∙ e) in
    let r =
      result_set-Answers defs mid rows eof more 2 (read_packet w1).1 hn hd hm hr he p.flows
        p.left in
    record {
      after = r.after;
      got =
          ap (λ o. first_reply o (read_packet w1).1) p.got
          ∙ first_reply-lenenc 1 n (read_packet w1).1 hn hc
          ∙ r.got;
      flows = r.flows;
      left = r.left;
    }
