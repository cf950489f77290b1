-- ===== src/Mongo/Tests.antt =====
-- runtime/vader_mongo.c: a document and back, a query and its reply, a name.
use vader_langue.Prelude.{
  zero, suc, ◌≡◌, refl, arith, Bool, true, false, some, [], ◌∷◌, ◌++◌, Bytes, codes, pos, negsuc,
  length, replicate,
}
use vader_langue.Libc.{strstr, strchr, is_prefix}
use vader_langue.Json.{
  JVal, j_null, j_int, j_str, j_obj, nil, cons, Items, Fields, end, field, Doubles,
}
use vader_langue.Json.Tree.{put_field}
use vader_langue.Mongo.Bson.{Codec, bson_doc, bson_elem, bson_decode}
use vader_langue.Mongo.Bson.Stored.{Lawful, stored}
use vader_langue.Mongo.Bson.RoundTrip.{bson_decode-bson_doc}
use vader_langue.Mongo.Commands.{Mongo}
use vader_langue.Mongo.Replies.{server_message, find_answer}
use vader_langue.Mongo.Login.{mongo_dsn}

-- Numbers that are 0 or 1.
abbrev bit_of : Bytes → Bool
bit_of [] = false
bit_of (zero ∷ s) = false
bit_of (suc b ∷ s) = true

abbrev bit_bytes : Bool → Bytes
bit_bytes false = 0 ∷ 0 ∷ 0 ∷ 0 ∷ 0 ∷ 0 ∷ 0 ∷ 0 ∷ []
bit_bytes true = 1 ∷ 0 ∷ 0 ∷ 0 ∷ 0 ∷ 0 ∷ 0 ∷ 0 ∷ []

abbrev bits : Doubles
bits = record {
  Double = Bool;
  strtod = λ s. (false, 0);
  to_ll = λ b. pos 0;
  of_ll = λ i. false;
  print_g = λ b. [];
}

abbrev codec : Codec Bool
codec = record {
  bits = bit_bytes;
  of_bits = bit_of;
  below_half = λ b. elim b [ true ↦ false | false ↦ true ];
  above_half = λ b. b;
}

bit_size : (b : Bool) → length (bit_bytes b) ≡ 8
bit_size true = refl
bit_size false = refl

bit_back : (b : Bool) → bit_of (bit_bytes b) ≡ b
bit_back true = refl
bit_back false = refl

codec-Lawful : Lawful codec
codec-Lawful = record { size = bit_size; back = bit_back }

abbrev person : Fields Bool
person =
    field (codes "n") (j_int (negsuc 4))
      (field (codes "s") (j_str (codes "A")) (field (codes "x") j_null end))

bson_decode-bson_doc_example :
    bson_decode codec (bson_doc codec (j_obj person) ++ 7 ∷ []) false ≡ some (stored (j_obj person))
unfolding bson_doc bson_elem
bson_decode-bson_doc_example =
    bson_decode-bson_doc codec codec-Lawful person (7 ∷ [])
      (ground arith, omega arith, (ground arith, ground arith, (ground arith, tt, tt)))
      (omega arith)

abbrev with_null : JVal Bool
with_null = j_obj (field (codes "x") j_null end)

abbrev with_empty : JVal Bool
with_empty = j_obj (field (codes "x") (j_str []) end)

-- Null is an empty string when it comes back.
null_of_person : stored with_null ≡ with_empty
unfolding put_field
null_of_person = refl

abbrev docs : Items Bool
docs = cons (j_obj person) nil

abbrev reply : Bytes
reply =
    server_message (replicate 12 0) (replicate 5 0)
      (bson_doc codec (j_obj (find_answer docs (pos 0) (codes "a.b") true)))

abbrev mongo : Mongo
mongo = record {
  wire = record { incoming = reply ∷ []; accepts = 1000 ∷ []; sent = [] };
  db = codes "shop";
}

-- The defaults hold where the name has no such part.
mongo_dsn_short : mongo_dsn (codes "mongodb://db.example") ≡ record {
  user = [];
  pass = [];
  host = codes "db.example";
  port = pos 27017;
  db = codes "test";
}
unfolding mongo_dsn strstr strchr is_prefix
mongo_dsn_short = refl
