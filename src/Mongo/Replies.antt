-- ===== src/Mongo/Replies.antt =====
-- A reply of the server, through the connection and the decoder to what a command gives.
use vader_langue.Prelude.{
  ℕ, ◌+◌, ◌^◌, ◌≡◌, ◌<◌, ◌≤◌, Option, some, List, ◌∷◌, ◌++◌, ℤ, codes, Bytes, length,
}
use vader_langue.Net.{Wire, low_bytes}
use vader_langue.Net.Transfer.{flat, Flows}
use vader_langue.Json.{JVal, j_int, j_dbl, j_str, j_arr, j_obj, Items, Fields, end, field}
use vader_langue.Mongo.Commands.{Mongo}

-- A message of the server: the length, twelve bytes of header, five of flags and kind, and a document.
abbrev pub server_message : Bytes → Bytes → Bytes → Bytes
server_message ids flags doc = (low_bytes 4 (length doc + 21) ++ ids) ++ (flags ++ doc)

-- The server takes a request in one write, and `more` arrives behind its message.
pub record Replies (w : Wire) (request ids flags doc more : Bytes) : Type 0 where
  pub room : ℕ
  pub later : List ℕ
  pub accepts : w.accepts ≡ room ∷ later
  pub fits : length request ≤ room
  pub twelve : length ids ≡ 12
  pub five : length flags ≡ 5
  pub short : length doc + 21 < 2 ^ 31
  pub some_doc : 1 ≤ length doc
  pub flows : Flows w.incoming
  pub arrives : flat w.incoming ≡ server_message ids flags doc ++ more

-- What the exchange leaves.
pub record Exchanged (o : Option Bytes × Wire) (doc more : Bytes) : Type 0 where
  pub after : Wire
  pub got : o ≡ (some doc, after)
  pub flows : Flows after.incoming
  pub left : flat after.incoming ≡ more

-- What a query gives, and `more` that is still to arrive.
pub record FindGives {D : Type 0} (o : Option (JVal D × Option Mongo)) (batch : JVal D) (m : Mongo)
    (more : Bytes) : Type 0 where
  pub after : Wire
  pub got : o ≡ some (batch, some (record m { wire = after }))
  pub flows : Flows after.incoming
  pub left : flat after.incoming ≡ more

-- MongoDB's `find` command for a query, and its answer with the documents of the first batch, the cursor's
-- number and the name of the collection, and `ok`.
unfoldable pub find_request : {D : Type 0} → Bytes → Bytes → JVal D → JVal D
find_request db coll query = j_obj (
    field (codes "find") (j_str coll)
      (field (codes "filter") query (field (codes "$db") (j_str db) end)))

unfoldable pub find_answer : {D : Type 0} → Items D → ℤ → Bytes → D → Fields D
find_answer docs id ns ok =
    field (codes "cursor")
      (j_obj (
        field (codes "firstBatch") (j_arr docs)
          (field (codes "id") (j_int id) (field (codes "ns") (j_str ns) end))))
      (field (codes "ok") (j_dbl ok) end)
