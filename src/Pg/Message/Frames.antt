-- ===== src/Pg/Message/Frames.antt =====
-- What one side sends as a message is the message that the other side reads.
use vader_langue.Prelude.{
  ℕ, ◌+◌, ◌-◌, ◌^◌, ◌≡◌, ◌<◌, refl, ap, sym, ◌∙◌, arith, true, false, Bool-cases, inl, inr, some,
  [], ◌++◌, append_assoc, append-nil, Bytes, lt→ltb, leb, length,
}
use vader_langue.Net.{Wire, recv, send}
use vader_langue.Net.Transfer.{flat, Flows, recv-Delivers, send-true}
use vader_langue.Pg.Message.{put32, get32, body_read, header_read, pg_read_msg, msg_header, pg_send}

pub get32-put32 : (n : ℕ) (rest : Bytes) → n < 2 ^ 32 → get32 (put32 n ++ rest) ≡ n
unfolding get32 put32
get32-put32 n rest h = omega arith

unfoldable pub message : ℕ → Bytes → Bytes
message type body = msg_header type body ++ body

-- `pg_send` sends its header and its body.
pg_send-message :
    (w : Wire) (type : ℕ) (body : Bytes)
    → (pg_send w type body).0 ≡ true
    → (pg_send w type body).1.sent ≡ w.sent ++ message type body
unfolding pg_send message
pg_send-message w type body h = elim (Bool-cases (send (msg_header type body) w).0) [
  | inl ok ↦
      let hdr = msg_header type body in
      let w1 = (send hdr w).1 in
      let second : pg_send w type body ≡ send body w1 = rw ok refl in
      ap (λ r. r.1.sent) second
      ∙ send-true body w1 (sym (ap (λ r. r.0) second) ∙ h)
      ∙ ap (λ t. t ++ body) (send-true hdr w ok)
      ∙ append_assoc w.sent hdr body
  | inr failed ↦
      let fails : (pg_send w type body).0 ≡ false = rw failed refl in absurd (cc (sym h ∙ fails))
]

-- To write does not read.
pub pg_send_incoming :
    (w : Wire) (type : ℕ) (body : Bytes) → (pg_send w type body).1.incoming ≡ w.incoming
unfolding pg_send send
pg_send_incoming w type body = elim (Bool-cases (send (msg_header type body) w).0) [
  | inl ok ↦ rw ok refl
  | inr failed ↦ rw failed refl
]

header_read_lem :
    (type : ℕ) (body : Bytes) (w w1 : Wire)
    → length body + 4 < 2 ^ 31
    → header_read w (some (msg_header type body, w1))
      ≡ body_read (msg_header type body) w1 (recv (length body) w1)
unfolding msg_header
header_read_lem type body w w1 h =
    let n = length body + 4 in
    let len : get32 (put32 n) ≡ n =
      ap get32 (sym (append-nil (put32 n))) ∙ get32-put32 n [] (omega arith) in
    let least : leb 4 n ≡ true = ground arith in
    let gone : n - 4 ≡ length body = omega arith in rw (len, least, lt→ltb n (2 ^ 31) h, gone) refl

-- A message is read, and `more` is still to arrive.
pub record Reads (w : Wire) (type : ℕ) (body more : Bytes) : Type 0 where
  pub after : Wire
  pub got : pg_read_msg w ≡ (some (type, body), after)
  pub flows : Flows after.incoming
  pub left : flat after.incoming ≡ more
  pub same_sent : after.sent ≡ w.sent
  pub same_accepts : after.accepts ≡ w.accepts

pub pg_read_msg-message :
    (w : Wire) (type : ℕ) (body more : Bytes)
    → length body + 4 < 2 ^ 31
    → Flows w.incoming
    → flat w.incoming ≡ message type body ++ more
    → Reads w type body more
unfolding pg_read_msg message msg_header put32
pg_read_msg-message w type body more hl hf e =
    let hdr = msg_header type body in
    let d = recv-Delivers w hdr (body ++ more) hf (e ∙ append_assoc hdr body more) in
    let r = recv-Delivers d.after body more d.flows d.left in
    record {
      after = r.after;
      got =
          ap (header_read w) d.got
          ∙ header_read_lem type body w d.after hl
          ∙ ap (body_read hdr d.after) r.got;
      flows = r.flows;
      left = r.left;
      same_sent = r.same_sent ∙ d.same_sent;
      same_accepts = r.same_accepts ∙ d.same_accepts;
    }

-- A body of up to 2^31 - 5 bytes that one side has sent without an error is read by the other side with its
-- type, whatever pieces it arrives in, and what comes behind it is left.
pub pg_read_msg-pg_send :
    (a b : Wire) (type : ℕ) (body more : Bytes)
    → length body + 4 < 2 ^ 31
    → a.sent ≡ []
    → (pg_send a type body).0 ≡ true
    → Flows b.incoming
    → flat b.incoming ≡ (pg_send a type body).1.sent ++ more
    → Reads b type body more
pg_read_msg-pg_send a b type body more hl ha hw hf e =
    pg_read_msg-message b type body more hl hf (
      e
      ∙ ap (λ t. t ++ more) (pg_send-message a type body hw ∙ ap (λ t. t ++ message type body) ha))
