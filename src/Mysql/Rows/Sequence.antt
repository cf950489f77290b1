-- ===== src/Mysql/Rows/Sequence.antt =====
-- Packets that follow each other on a connection.
use vader_langue.Prelude.{
  ℕ, suc, ◌+◌, ◌%◌, ◌^◌, ◌≡◌, ◌≤◌, ◌<◌, ap, sym, ◌∙◌, arith, some, List, [], ◌∷◌, ◌++◌,
  append_assoc, Bytes, length, length-append, All,
}
use vader_langue.Net.{Wire}
use vader_langue.Net.Transfer.{flat, Flows}
use vader_langue.Mysql.Packet.{read_packet, packet_header}
use vader_langue.Mysql.Packet.Frames.{frame, read_packet-frame}
use vader_langue.Mysql.Rows.{skip_packets}

-- Packets one after the other, numbered from `seq`.
unfoldable pub frames : ℕ → List Bytes → Bytes
frames seq [] = []
frames seq (p ∷ ps) = frame p (seq % 2 ^ 8) ++ frames (suc seq) ps

pub frames-append :
    (seq : ℕ) (ps qs : List Bytes)
    → frames seq (ps ++ qs) ≡ frames seq ps ++ frames (seq + length ps) qs
unfolding frames
frames-append seq [] qs = ap (λ k. frames k qs) (omega arith)
frames-append seq (p ∷ ps) qs =
    ap (λ t. frame p (seq % 2 ^ 8) ++ t)
      (frames-append (suc seq) ps qs ∙ ap (λ k. frames (suc seq) ps ++ frames k qs) (omega arith))
    ∙ sym (
        append_assoc (frame p (seq % 2 ^ 8)) (frames (suc seq) ps)
          (frames (seq + length (p ∷ ps)) qs))

-- There are at least as many bytes as packets.
pub length-frames : (seq : ℕ) (ps : List Bytes) → length ps ≤ length (frames seq ps)
unfolding frames frame packet_header
length-frames seq [] = omega arith
length-frames seq (p ∷ ps) = omega (
  arith,
  length-frames (suc seq) ps,
  length-append (frame p (seq % 2 ^ 8)) (frames (suc seq) ps),
  length-append (packet_header p (seq % 2 ^ 8)) p,
)

-- What a packet may hold.
abbrev pub Short : Bytes → Type 0
Short p = length p < 2 ^ 24

-- The connection when the packet `p` has been read.
pub record Next (w : Wire) (p : Bytes) (seq : ℕ) (more : Bytes) : Type 0 where
  pub got : (read_packet w).0 ≡ some (seq % 2 ^ 8, p)
  pub flows : Flows (read_packet w).1.incoming
  pub left : flat (read_packet w).1.incoming ≡ more

pub read_packet-Next :
    (w : Wire) (p : Bytes) (ps : List Bytes) (seq : ℕ) (more : Bytes)
    → Short p
    → Flows w.incoming
    → flat w.incoming ≡ frames seq (p ∷ ps) ++ more
    → Next w p seq (frames (suc seq) ps ++ more)
unfolding frames
read_packet-Next w p ps seq more hp hf e =
    let r =
      read_packet-frame w p (seq % 2 ^ 8) (frames (suc seq) ps ++ more) hp (omega arith) hf
        (e ∙ append_assoc (frame p (seq % 2 ^ 8)) (frames (suc seq) ps) more) in
    let then_at : (read_packet w).1 ≡ r.after = ap (λ x. x.1) r.got in
    record { got = ap (λ x. x.0) r.got; flows = rw then_at r.flows; left = rw then_at r.left }

pub skip_packets-frames :
    (ps : List Bytes) (seq : ℕ) (w : Wire) (more : Bytes)
    → All Short ps
    → Flows w.incoming
    → flat w.incoming ≡ frames seq ps ++ more
    → Flows (skip_packets (length ps) w).incoming
      × (flat (skip_packets (length ps) w).incoming ≡ more)
unfolding skip_packets
skip_packets-frames [] seq w more h hf e = (hf, unfold frames in e)
skip_packets-frames (p ∷ ps) seq w more h hf e =
    let n = read_packet-Next w p ps seq more h.0 hf e in
    skip_packets-frames ps (suc seq) (read_packet w).1 more h.1 n.flows n.left
