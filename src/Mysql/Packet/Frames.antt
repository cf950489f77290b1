-- ===== src/Mysql/Packet/Frames.antt =====
-- What one side writes as a packet is the packet that the other side reads.
use vader_langue.Prelude.{
  ℕ, ◌^◌, ◌≡◌, ◌<◌, refl, ap, sym, ◌∙◌, arith, true, false, Bool-cases, inl, inr, some, [], ◌++◌,
  append_assoc, Bytes, length,
}
use vader_langue.Net.{Wire, recv, send}
use vader_langue.Net.Transfer.{little-low_bytes, flat, Flows, recv-Delivers, send-true}
use vader_langue.Mysql.Packet.{header_read, payload_read, read_packet, packet_header, write_packet}

unfoldable pub frame : Bytes → ℕ → Bytes
frame payload seq = packet_header payload seq ++ payload

-- `write_packet` sends its header and its payload.
write_packet-frame :
    (w : Wire) (payload : Bytes) (seq : ℕ)
    → (write_packet w payload seq).0 ≡ true
    → (write_packet w payload seq).1.sent ≡ w.sent ++ frame payload seq
unfolding write_packet frame
write_packet-frame w payload seq h = elim (Bool-cases (send (packet_header payload seq) w).0) [
  | inl ok ↦
      let hdr = packet_header payload seq in
      let w1 = (send hdr w).1 in
      let second : write_packet w payload seq ≡ send payload w1 = rw ok refl in
      ap (λ r. r.1.sent) second
      ∙ send-true payload w1 (sym (ap (λ r. r.0) second) ∙ h)
      ∙ ap (λ t. t ++ payload) (send-true hdr w ok)
      ∙ append_assoc w.sent hdr payload
  | inr failed ↦
      let fails : (write_packet w payload seq).0 ≡ false = rw failed refl in
      absurd (cc (sym h ∙ fails))
]

-- To write does not read.
pub write_packet_incoming :
    (w : Wire) (payload : Bytes) (seq : ℕ) → (write_packet w payload seq).1.incoming ≡ w.incoming
unfolding write_packet send
write_packet_incoming w payload seq = elim (Bool-cases (send (packet_header payload seq) w).0) [
  | inl ok ↦ rw ok refl
  | inr failed ↦ rw failed refl
]

-- A packet is read with the sequence number `seq`, and `more` is still to arrive.
pub record Reads (w : Wire) (payload : Bytes) (seq : ℕ) (more : Bytes) : Type 0 where
  pub after : Wire
  pub got : read_packet w ≡ (some (seq, payload), after)
  pub flows : Flows after.incoming
  pub left : flat after.incoming ≡ more
  pub same_sent : after.sent ≡ w.sent
  pub same_accepts : after.accepts ≡ w.accepts

pub read_packet-frame :
    (w : Wire) (payload : Bytes) (seq : ℕ) (more : Bytes)
    → length payload < 2 ^ 24
    → seq < 2 ^ 8
    → Flows w.incoming
    → flat w.incoming ≡ frame payload seq ++ more
    → Reads w payload seq more
unfolding read_packet frame packet_header
read_packet-frame w payload seq more hl hs hf e =
    let hdr = packet_header payload seq in
    let d = recv-Delivers w hdr (payload ++ more) hf (e ∙ append_assoc hdr payload more) in
    let r = recv-Delivers d.after payload more d.flows d.left in
    record {
      after = r.after;
      got =
          ap (header_read w) d.got
          ∙ ap (payload_read hdr d.after)
              (ap (λ n. recv n d.after) (little-low_bytes 3 (length payload) hl) ∙ r.got)
          ∙ ap (λ q. (some (q, payload), r.after)) (omega arith);
      flows = r.flows;
      left = r.left;
      same_sent = r.same_sent ∙ d.same_sent;
      same_accepts = r.same_accepts ∙ d.same_accepts;
    }

-- When no read ends early, a payload that is below 2^24 bytes, with a sequence number below 2^8,
-- that one side has written first and without an error is read by the other side with that number,
-- whatever pieces it arrives in, and what comes behind it is left.
pub read_packet-write_packet :
    (a b : Wire) (payload : Bytes) (seq : ℕ) (more : Bytes)
    → length payload < 2 ^ 24
    → seq < 2 ^ 8
    → a.sent ≡ []
    → (write_packet a payload seq).0 ≡ true
    → Flows b.incoming
    → flat b.incoming ≡ (write_packet a payload seq).1.sent ++ more
    → Reads b payload seq more
read_packet-write_packet a b payload seq more hl hs ha hw hf e =
    read_packet-frame b payload seq more hl hs hf (
      e
      ∙ ap (λ t. t ++ more)
          (write_packet-frame a payload seq hw ∙ ap (λ t. t ++ frame payload seq) ha))
