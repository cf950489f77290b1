-- ===== src/Mongo/Commands.antt =====
-- runtime/vader_mongo.c: the commands. `none` where a reply is read outside its buffer.
use vader_langue.Prelude.{
  Bool, true, false, ◌&&◌, Option, none, some, Bytes, codes, ltb, if◌then◌else◌, pos,
}
use vader_langue.Net.{Wire}
use vader_langue.Json.{JVal, j_arr, j_obj, nil, end, Doubles}
use vader_langue.Json.Tree.{
  obj_set, arr_add, set_str, set_int, set_bool, get_field, count, as_float,
}
use vader_langue.Mongo.Bson.{Codec}
use vader_langue.Mongo.Exchange.{op_msg}

-- `Mongo`
pub record Mongo : Type 0 where
  pub wire : Wire
  pub db : Bytes

abbrev pub is_arr : {D : Type 0} → JVal D → Bool
is_arr (j_arr items) = true
is_arr v = false

module _ (d : Doubles) (x : Codec d.Double) where
  open d use {Double}

  -- The text of an error, `none` for NULL, and the handle after the request.
  abbrev pub Outcome : Type 0
  Outcome = Option (Option Bytes × Option Mongo)

  abbrev pub rejected : JVal Double → Bool
  rejected reply = x.below_half (as_float d (get_field reply (codes "ok")))

  -- What a command makes of its reply, `none` for a null pointer.
  abbrev pub answered :
      Mongo → (Option (JVal Double) → Option Bytes) → Option (Option (JVal Double) × Wire) → Outcome
  answered m judge none = none
  answered m judge (some (reply, w)) = some (judge reply, some (record m { wire = w }))

  abbrev pub judge : Bytes → Option (JVal Double) → Option Bytes
  judge refusal none = some (codes "mongo: request failed")
  judge refusal (some reply) = if rejected reply then some refusal else none

  abbrev pub insert_judge : Option (JVal Double) → Option Bytes
  insert_judge none = some (codes "mongo: request failed")
  insert_judge (some reply) =
      let we = get_field reply (codes "writeErrors") in
      if rejected reply
      then some (codes "mongo: insert rejected (auth?)")
      else if is_arr we && ltb 0 (count we)
      then some (codes "mongo: write error")
      else none

  -- `cmd` of each command.
  unfoldable pub insert_cmd : Bytes → Bytes → JVal Double → JVal Double
  insert_cmd db coll doc =
      set_str
        (obj_set (set_str (j_obj end) (codes "insert") coll) (codes "documents")
          (arr_add (j_arr nil) doc))
        (codes "$db") db

  unfoldable pub find_cmd : Bytes → Bytes → JVal Double → JVal Double
  find_cmd db coll query =
      set_str (obj_set (set_str (j_obj end) (codes "find") coll) (codes "filter") query)
        (codes "$db") db

  unfoldable pub aggregate_cmd : Bytes → Bytes → JVal Double → JVal Double
  aggregate_cmd db coll pipeline =
      set_str
        (obj_set
          (obj_set (set_str (j_obj end) (codes "aggregate") coll) (codes "pipeline") pipeline)
          (codes "cursor") (j_obj end))
        (codes "$db") db

  unfoldable pub update_cmd : Bytes → Bytes → JVal Double → JVal Double → JVal Double
  update_cmd db coll filter changes =
      let set = obj_set (j_obj end) (codes "$set") changes in
      let one =
        set_bool (obj_set (obj_set (j_obj end) (codes "q") filter) (codes "u") set) (codes "multi")
          (pos 1) in
      set_str
        (obj_set (set_str (j_obj end) (codes "update") coll) (codes "updates")
          (arr_add (j_arr nil) one))
        (codes "$db") db

  unfoldable pub delete_cmd : Bytes → Bytes → JVal Double → JVal Double
  delete_cmd db coll filter =
      let one = set_int (obj_set (j_obj end) (codes "q") filter) (codes "limit") (pos 0) in
      set_str
        (obj_set (set_str (j_obj end) (codes "delete") coll) (codes "deletes")
          (arr_add (j_arr nil) one))
        (codes "$db") db

  abbrev pub not_connected : Outcome
  not_connected = some (some (codes "mongo: not connected"), none)

  unfoldable pub mongo_insert : Option Mongo → Bytes → JVal Double → Outcome
  mongo_insert none coll doc = not_connected
  mongo_insert (some m) coll doc =
      answered m insert_judge (op_msg x m.wire (insert_cmd m.db coll doc))

  unfoldable pub mongo_update : Option Mongo → Bytes → JVal Double → JVal Double → Outcome
  mongo_update none coll filter changes = not_connected
  mongo_update (some m) coll filter changes =
      answered m (judge (codes "mongo: update rejected (auth?)"))
        (op_msg x m.wire (update_cmd m.db coll filter changes))

  unfoldable pub mongo_delete : Option Mongo → Bytes → JVal Double → Outcome
  mongo_delete none coll filter = not_connected
  mongo_delete (some m) coll filter =
      answered m (judge (codes "mongo: delete rejected (auth?)"))
        (op_msg x m.wire (delete_cmd m.db coll filter))

  -- The documents of a reply.
  abbrev pub first_batch : Option (JVal Double) → JVal Double
  first_batch none = j_arr nil
  first_batch (some reply) =
      let batch = get_field (get_field reply (codes "cursor")) (codes "firstBatch") in
      if is_arr batch then batch else j_arr nil

  abbrev pub Batch : Type 0
  Batch = Option (JVal Double × Option Mongo)

  abbrev pub batch_of : Mongo → Option (Option (JVal Double) × Wire) → Batch
  batch_of m none = none
  batch_of m (some (reply, w)) = some (first_batch reply, some (record m { wire = w }))

  unfoldable pub mongo_find : Option Mongo → Bytes → JVal Double → Batch
  mongo_find none coll query = some (j_arr nil, none)
  mongo_find (some m) coll query = batch_of m (op_msg x m.wire (find_cmd m.db coll query))

  unfoldable pub mongo_aggregate : Option Mongo → Bytes → JVal Double → Batch
  mongo_aggregate none coll pipeline = some (j_arr nil, none)
  mongo_aggregate (some m) coll pipeline =
      batch_of m (op_msg x m.wire (aggregate_cmd m.db coll pipeline))
