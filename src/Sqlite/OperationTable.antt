-- ===== src/Sqlite/OperationTable.antt =====
-- sqlite/entity_database.go: operations and their objects.
pub mod RoundTrip
use dscuss.Prelude.{
  ℕ, Bool, List, [], ◌∷◌, ◌++◌, any, find, select, take, ltb, ◌==◌, if◌then◌else◌, Option, none,
  some, Result, Outcome, ok, err, fatal, ◌>>=◌, no_such_entity, inconsistent_db, db_oper_failed,
}
use dscuss.Entity.{EntityId, Time, Operation, StoredOperation}
use dscuss.Entity.Operations.{type_remove_message, type_ban_user, new_operation}
use dscuss.Env.{Env}
use dscuss.Sqlite.{
  is_stored_after, EntityDatabase, OperationRow, ObjectRow, insert_or_ignore, has_user,
}
use dscuss.Sqlite.MessageTable.{has_message, or_inconsistent}

abbrev pub object_row : EntityId → EntityId → ObjectRow
object_row oper_id obj_id = record { operation_id = oper_id; object_id = obj_id }

unfoldable pub put_message_operation : EntityDatabase → EntityId → EntityId → EntityDatabase
put_message_operation db oper_id msg_id = record db {
  operations_on_messages = db.operations_on_messages ++ object_row oper_id msg_id ∷ [];
}

unfoldable pub put_user_operation : EntityDatabase → EntityId → EntityId → EntityDatabase
put_user_operation db oper_id user_id = record db {
  operations_on_users = db.operations_on_users ++ object_row oper_id user_id ∷ [];
}

unfoldable pub put_operation_object : EntityDatabase → Operation → Outcome × EntityDatabase
unfolding put_message_operation put_user_operation has_user has_message
put_operation_object db o =
    if o.operation_type == type_remove_message
    then (if has_message db o.object_id
        then (ok tt, put_message_operation db o.id o.object_id)
        else (err no_such_entity, db))
    else if o.operation_type == type_ban_user
    then (if has_user db o.object_id
        then (ok tt, put_user_operation db o.id o.object_id)
        else (err no_such_entity, db))
    else (fatal, db)

abbrev pub row_of_operation : Operation → Time → OperationRow
row_of_operation oper ts = record {
  id = oper.id;
  typ = oper.operation_type;
  reason = oper.reason;
  comment = oper.comment;
  author_id = oper.author_id;
  timestamp = oper.date_performed;
  signature = oper.sig;
  time_stored = ts;
}

-- The row is inserted before the object is looked for.
unfoldable pub put_operation : EntityDatabase → Operation → Time → Outcome × EntityDatabase
unfolding put_operation_object
put_operation db oper ts =
    let rows = insert_or_ignore (λ r. r.id) (row_of_operation oper ts) db.operations in
    put_operation_object (record db { operations = rows }) oper

-- The part of `scanSingleOperationRow` after the object is known.
unfoldable pub operation_of_row : Env → OperationRow → EntityId → Result Operation
operation_of_row env r obj_id =
    or_inconsistent
      (new_operation env r.typ r.reason r.comment r.author_id obj_id r.timestamp r.signature)

abbrev pub linked : EntityId → List ObjectRow → Option ObjectRow
linked oper_id rows = find (λ l. l.operation_id == oper_id) rows

-- The object by the left joins: a message first, then a user.
abbrev pub object_of : Option ObjectRow → Option ObjectRow → Result EntityId
object_of (some l) u = ok l.object_id
object_of none (some l) = ok l.object_id
object_of none none = err inconsistent_db

unfoldable pub joined_operation : Env → EntityDatabase → OperationRow → Result Operation
unfolding operation_of_row
joined_operation env db r = do
  obj_id ← object_of (linked r.id db.operations_on_messages) (linked r.id db.operations_on_users)
  operation_of_row env r obj_id

unfoldable pub find_operation : EntityDatabase → EntityId → Option OperationRow
find_operation db oid = find (λ r. r.id == oid) db.operations

abbrev pub or_failed : Result Operation → Result Operation
or_failed (ok o) = ok o
or_failed (err e) = err db_oper_failed
or_failed fatal = fatal

abbrev pub found_operation : Env → EntityDatabase → Option OperationRow → Result Operation
found_operation env db none = err no_such_entity
found_operation env db (some r) = or_failed (joined_operation env db r)

unfoldable pub get_operation : Env → EntityDatabase → EntityId → Result Operation
unfolding find_operation joined_operation
get_operation env db oid = found_operation env db (find_operation db oid)

unfoldable pub has_operation : EntityDatabase → EntityId → Bool
has_operation db eid = any (λ r. r.id == eid) db.operations

-- `scanOperationRows` for one object.
unfoldable pub scan_operation_rows : Env → EntityId → List OperationRow → Result (List Operation)
unfolding operation_of_row
scan_operation_rows env obj_id [] = ok []
scan_operation_rows env obj_id (r ∷ rs) = do
  o ← operation_of_row env r obj_id
  os ← scan_operation_rows env obj_id rs
  ok (o ∷ os)

-- The inner join and GROUP BY: the operations with a link to the object, each once.
abbrev is_linked : List ObjectRow → EntityId → OperationRow → Bool
is_linked rows obj_id r =
    any (λ l. if l.operation_id == r.id then l.object_id == obj_id else Bool.false) rows

unfoldable pub get_operations_on_user : Env → EntityDatabase → EntityId → Result (List Operation)
unfolding scan_operation_rows
get_operations_on_user env db uid =
    scan_operation_rows env uid (select (is_linked db.operations_on_users uid) db.operations)

unfoldable pub get_operations_on_message : Env → EntityDatabase → EntityId → Result (List Operation)
unfolding scan_operation_rows
get_operations_on_message env db mid =
    scan_operation_rows env mid (select (is_linked db.operations_on_messages mid) db.operations)

-- `scanStoredOperationRows`
unfoldable pub scan_stored_operation_rows :
    Env → EntityDatabase → List OperationRow → Result (List StoredOperation)
unfolding joined_operation
scan_stored_operation_rows env db [] = ok []
scan_stored_operation_rows env db (r ∷ rs) = do
  o ← joined_operation env db r
  os ← scan_stored_operation_rows env db rs
  ok (record { o = o; stored = r.time_stored } ∷ os)

-- GROUP BY Operations.Id, which SQLite does by sorting.
abbrev pub insert_by_id : OperationRow → List OperationRow → List OperationRow
insert_by_id r [] = r ∷ []
insert_by_id r (s ∷ rs) =
    let rest = insert_by_id r rs in if ltb r.id s.id then r ∷ s ∷ rs else s ∷ rest

unfoldable pub group_by_id : List OperationRow → List OperationRow → List OperationRow
group_by_id acc [] = acc
group_by_id acc (r ∷ rs) = group_by_id (insert_by_id r acc) rs

unfoldable pub get_operations_stored_after :
    Env → EntityDatabase → Time → ℕ → Result (List StoredOperation)
unfolding scan_stored_operation_rows group_by_id is_stored_after
get_operations_stored_after env db ts limit =
    scan_stored_operation_rows env db (
      take limit
        (group_by_id [] (select (λ r. is_stored_after env ts r.time_stored) db.operations)))
