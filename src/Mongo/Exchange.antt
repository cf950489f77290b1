-- ===== src/Mongo/Exchange.antt =====
-- runtime/vader_mongo.c: requests and replies. `none` where a reply is read outside its buffer.
use vader_langue.Prelude.{
  ℕ, ◌+◌, ◌-◌, ◌^◌, Bool, true, false, ◌&&◌, Option, none, some, List, [], ◌∷◌, ◌++◌, Bytes, ltb,
  leb, if◌then◌else◌, length, take, drop,
}
use vader_langue.Net.{Wire, recv, ended, low_bytes, little}
use vader_langue.Json.{JVal}
use vader_langue.Mongo.Bson.{Codec, bson_doc, bson_decode}

abbrev pub write_step : Bytes → Wire → List ℕ → Bool × Wire
write_step s w [] = (false, w)
write_step s w (n ∷ left) =
    (leb (length s) n, record w { accepts = left; sent = w.sent ++ take n s })

-- One `write` of the whole: whether it took all.
abbrev pub write_once : Bytes → Wire → Bool × Wire
write_once s w = write_step s w w.accepts

-- `msg`: header, flags, the kind of the section, and the command.
unfoldable pub op_msg_request : Bytes → Bytes
op_msg_request cmd =
    let body = low_bytes 4 0 ++ (0 ∷ cmd) in
    low_bytes 4 (16 + length body)
    ++ (low_bytes 4 1 ++ (low_bytes 4 0 ++ (low_bytes 4 2013 ++ body)))

-- What follows the reads of the reply's body and of its header.
abbrev pub reply_body : Wire → Option (Bytes × Wire) → Option Bytes × Wire
reply_body w none = (none, ended w)
reply_body w (some (rb, w1)) = (some (drop 5 rb), w1)

abbrev pub reply_header : Wire → Option (Bytes × Wire) → Option Bytes × Wire
reply_header w none = (none, ended w)
reply_header w (some (hdr, w1)) =
    let n = little (take 4 hdr) in
    let body = recv (n - 16) w1 in
    if ltb 21 n && ltb n (2 ^ 31) then reply_body w1 body else (none, w1)

-- Behind the write.
abbrev pub written : Bool × Wire → Option Bytes × Wire
written (false, w) = (none, w)
written (true, w) = reply_header w (recv 16 w)

-- `op_msg_raw`: the document of the reply, `none` for a null pointer.
unfoldable pub op_msg_raw : Wire → Bytes → Option Bytes × Wire
op_msg_raw w cmd = written (write_once (op_msg_request cmd) w)

abbrev pub with_tree : {D : Type 0} → Wire → Option (JVal D) → Option (Option (JVal D) × Wire)
with_tree w none = none
with_tree w (some reply) = some (some reply, w)

-- `op_msg`
abbrev pub decoded : {D : Type 0} → Codec D → Wire → Option Bytes → Option (Option (JVal D) × Wire)
decoded x w none = some (none, w)
decoded x w (some doc) = with_tree w (bson_decode x doc false)

unfoldable pub op_msg : {D : Type 0} → Codec D → Wire → JVal D → Option (Option (JVal D) × Wire)
op_msg x w cmd = let r = op_msg_raw w (bson_doc x cmd) in decoded x r.1 r.0
