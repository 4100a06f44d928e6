-- ===== src/Witnesses/OfStorage.antt =====
-- The database and the storage at concrete values.
use dscuss.Prelude.{
  ℕ, suc, ◌≡◌, ◌≢◌, ◌↔◌, ◌≤◌, ◌<◌, ◌+◌, ◌&&◌, not, refl, Bytes, codes, Bool, true, false, List, [],
  ◌∷◌, ◌++◌, length, any, ◌==◌, if◌then◌else◌, Option, none, some, arith, Result, ok, err, fatal,
  no_such_entity, db_oper_failed, inconsistent_db,
}
use dscuss.Subs.Topic.{Topic, slice, join}
use dscuss.Subs.Topic
use dscuss.Entity.{Message, Entity}
use dscuss.Entity.Messages
use dscuss.Entity.Operations
use dscuss.Entity.Messages.{is_reply}
use dscuss.Sqlite.{EntityDatabase, empty}
use dscuss.Sqlite.MessageTable.{put_message, get_message, has_message}
use dscuss.Sqlite.MessageTable.RoundTrip
use dscuss.Sqlite.MessageTable.RoundTrip.{get_message-put_message}
use dscuss.Sqlite.MessageTable.Faults.{put_message_twice}
use dscuss.Sqlite.OperationTable.{put_operation, get_operation, has_operation}
use dscuss.Sqlite.OperationTable.RoundTrip.{
  get_operation-put_operation, put_operation_orphan, has_object,
}
use dscuss.Sqlite.OperationTable
use dscuss.Storage.{Storage, put_entity, put_in_db}
use dscuss.Storage.Notifying.{put_entity-queue, is_ok, receives, offer}
use dscuss.Witnesses.Samples.{
  sample_env, sample_env-JoinsAll, sample_message, sample_operation, go_os, tag_go, tag_os,
}

sample_message-IsNew : RoundTrip.IsNew empty sample_message
unfolding has_message
sample_message-IsNew = record { unstored = refl; untagged = refl }

sample_message-IsValid : Messages.is_unsigned_part_valid sample_env sample_message ≡ true
unfolding Messages.is_unsigned_part_valid dscuss.Prelude.bytes_eq
sample_message-IsValid = refl

go_os-IsValid : Topic.is_valid go_os ≡ true
unfolding Topic.is_valid Topic.is_tag_valid Topic.is_tag_char dscuss.Prelude.bytes_eq
go_os-IsValid = refl

get_message-put_message_example :
    ((put_message empty sample_message 50).0 ≡ ok tt)
    × (m' : Message) × (get_message sample_env
          (put_message empty sample_message 50).1
          sample_message.id
        ≡ ok m')
    × RoundTrip.IsReordered sample_message m'
get_message-put_message_example =
    get_message-put_message sample_env empty sample_message 50 sample_env-JoinsAll
      sample_message-IsNew refl sample_message-IsValid go_os-IsValid

tags-distinct : RoundTrip.distinct [] (tag_go ∷ tag_os ∷ []) ≡ true
unfolding dscuss.Prelude.bytes_eq
tags-distinct = refl

put_message_twice_example :
    ((put_message empty sample_message 50).0 ≡ ok tt)
    × ((put_message (put_message empty sample_message 50).1 sample_message 60).0
        ≡ err db_oper_failed)
put_message_twice_example =
    put_message_twice empty sample_message 50 60 tag_go (tag_os ∷ []) sample_message-IsNew refl
      tags-distinct

-- The database with the sample message in it.
abbrev with_message : EntityDatabase
with_message = (put_message empty sample_message 50).1

sample_operation-IsNew : OperationTable.RoundTrip.IsNew with_message sample_operation
unfolding put_message has_operation dscuss.Prelude.bytes_eq
sample_operation-IsNew = record { unstored = refl; no_message = refl; no_user = refl }

sample_operation-IsValid : Operations.is_unsigned_part_valid sample_env sample_operation ≡ true
unfolding Operations.is_unsigned_part_valid
sample_operation-IsValid = refl

object-stored : has_object with_message sample_operation ≡ true
unfolding put_message has_message dscuss.Prelude.bytes_eq
object-stored = refl

object-unknown : has_object empty sample_operation ≡ false
unfolding has_message
object-unknown = refl

get_operation-put_operation_example :
    ((put_operation with_message sample_operation 70).0 ≡ ok tt)
    × (get_operation sample_env
          (put_operation with_message sample_operation 70).1
          sample_operation.id
        ≡ ok sample_operation)
get_operation-put_operation_example =
    get_operation-put_operation with_message sample_operation 70 sample_operation-IsNew sample_env
      refl sample_operation-IsValid object-stored

operation-IsNew_alone : OperationTable.RoundTrip.IsNew empty sample_operation
unfolding has_operation
operation-IsNew_alone = record { unstored = refl; no_message = refl; no_user = refl }

put_operation_orphan_example :
    ((put_operation empty sample_operation 70).0 ≡ err no_such_entity)
    × (get_operation sample_env (put_operation empty sample_operation 70).1 sample_operation.id
        ≡ err db_oper_failed)
put_operation_orphan_example =
    put_operation_orphan empty sample_operation 70 operation-IsNew_alone sample_env object-unknown
      refl

-- A storage of that database with two peers, the second of which is slow: its buffer is full.
abbrev sample_storage : Storage
sample_storage = record {
  db = with_message;
  observers = 1 ∷ 2 ∷ [];
  queue = λ c. if c == 2 then Entity.message sample_message ∷ [] else [];
  capacity = λ c. 1;
}

put_entity-queue_example :
    (put_entity sample_storage (Entity.operation sample_operation) (some 2) 70).1.queue 1 ≡ (
      if is_ok (put_in_db with_message (Entity.operation sample_operation) 70).0
        && receives (1 ∷ 2 ∷ []) (some 2) 1
      then offer (Entity.operation sample_operation) 1 []
      else [])
put_entity-queue_example =
    put_entity-queue sample_storage (Entity.operation sample_operation) (some 2) 70 1 refl
