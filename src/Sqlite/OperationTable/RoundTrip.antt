-- ===== src/Sqlite/OperationTable/RoundTrip.antt =====
-- sqlite/entity_database.go: `PutOperation`, then `GetOperation`.
use dscuss.Prelude.{
  ◌≡◌, refl, ap, ◌∙◌, Bool, true, false, ◌&&◌, List, [], ◌∷◌, ◌++◌, any, find, find-append_none,
  ==_refl, ◌==◌, if◌then◌else◌, ltb, arith, none, some, Result, ok, err, ◌>>=◌, db_oper_failed,
  no_such_entity, Bool-cases, inl, inr,
}
use dscuss.Entity.{EntityId, Time, type_operation, Signature, UnsignedOperation, Operation}
use dscuss.Entity.Operations.{
  type_remove_message, type_ban_user, operation_to_id, new_unsigned_operation,
  is_unsigned_operation_valid, is_unsigned_part_valid, new_operation, valid_or_wrong,
}
use dscuss.Entity.Operations.Performing.{is_unsigned_operation_valid_iff}
use dscuss.Env.{Env}
use dscuss.Sqlite.{EntityDatabase, ObjectRow, has_user}
use dscuss.Sqlite.MessageTable.{has_message, or_inconsistent}
use dscuss.Sqlite.OperationTable.{
  object_row, put_message_operation, put_user_operation, put_operation_object, put_operation,
  row_of_operation, operation_of_row, linked, object_of, joined_operation, find_operation,
  found_operation, or_failed, get_operation, has_operation,
}

new_unsigned_operation-columns :
    (env : Env) (uo : UnsignedOperation)
    → uo.typ ≡ type_operation
    → uo.id ≡ operation_to_id env uo.content
    → new_unsigned_operation env uo.operation_type uo.reason uo.comment uo.author_id uo.object_id
        uo.date_performed
      ≡ uo
unfolding new_unsigned_operation
new_unsigned_operation-columns env uo t i = rw (← i, ← t)

valid_or_wrong-ok :
    (env : Env) (uo : UnsignedOperation) (sig : Signature)
    → is_unsigned_operation_valid env uo ≡ true
    → valid_or_wrong env uo sig ≡ ok (record { unsigned = uo; sig = sig })
valid_or_wrong-ok env uo sig v = rw v

-- `NewOperation` on the columns of a valid operation makes that operation.
operation_of_row-columns :
    (env : Env) (o : Operation) (ts : Time)
    → o.typ ≡ type_operation
    → is_unsigned_part_valid env o ≡ true
    → operation_of_row env (row_of_operation o ts) o.object_id ≡ ok o
unfolding operation_of_row new_operation is_unsigned_part_valid
operation_of_row-columns env o ts t v =
    let w = (is_unsigned_operation_valid_iff env o.unsigned).0 v in
    ap (λ (uo : UnsignedOperation). or_inconsistent (valid_or_wrong env uo o.sig))
      (new_unsigned_operation-columns env o.unsigned t w.hashed)
    ∙ ap or_inconsistent (valid_or_wrong-ok env o.unsigned o.sig v)

-- Neither the operation nor a link from it is stored.
pub record IsNew (db : EntityDatabase) (o : Operation) : Type 0 where
  pub unstored : has_operation db o.id ≡ false
  pub no_message : any (λ l. l.operation_id == o.id) db.operations_on_messages ≡ false
  pub no_user : any (λ l. l.operation_id == o.id) db.operations_on_users ≡ false

-- The object that the type of the operation asks for is stored.
abbrev pub has_object : EntityDatabase → Operation → Bool
has_object db o =
    if o.operation_type == type_remove_message
    then has_message db o.object_id
    else (o.operation_type == type_ban_user && has_user db o.object_id)

linked-none :
    (id : EntityId) (l : List ObjectRow)
    → any (λ r. r.operation_id == id) l ≡ false
    → linked id l ≡ none
linked-none id [] h = refl
linked-none id (r ∷ l) h = ground (arith, linked-none id l)

linked-append :
    (id obj : EntityId) (l : List ObjectRow)
    → any (λ r. r.operation_id == id) l ≡ false
    → linked id (l ++ object_row id obj ∷ []) ≡ some (object_row id obj)
linked-append id obj l h =
    find-append_none (λ r. r.operation_id == id) l (object_row id obj ∷ []) h ∙ rw ==_refl

abbrev Links : EntityDatabase → Operation → Type 0
Links db o =
    object_of (linked o.id db.operations_on_messages) (linked o.id db.operations_on_users)
    ≡ ok o.object_id

linked-message :
    (db : EntityDatabase) (o : Operation)
    → any (λ l. l.operation_id == o.id) db.operations_on_messages ≡ false
    → Links (put_message_operation db o.id o.object_id) o
unfolding put_message_operation
linked-message db o n = rw (linked-append o.id o.object_id db.operations_on_messages n)

linked-user :
    (db : EntityDatabase) (o : Operation)
    → any (λ l. l.operation_id == o.id) db.operations_on_messages ≡ false
    → any (λ l. l.operation_id == o.id) db.operations_on_users ≡ false
    → Links (put_user_operation db o.id o.object_id) o
unfolding put_user_operation
linked-user db o n m = rw (
  linked-none o.id db.operations_on_messages n,
  linked-append o.id o.object_id db.operations_on_users m,
)

object-put :
    (db : EntityDatabase) (o : Operation)
    → any (λ l. l.operation_id == o.id) db.operations_on_messages ≡ false
    → any (λ l. l.operation_id == o.id) db.operations_on_users ≡ false
    → has_object db o ≡ true
    → ((put_operation_object db o).0 ≡ ok tt) × Links (put_operation_object db o).1 o
unfolding put_operation_object
object-put db o n m h = elim (Bool-cases (o.operation_type == type_remove_message)) [
  | inl r ↦ ground (arith, linked-message db o n)
  | inr r ↦ ground (arith, linked-user db o n m)
]

module _ (db : EntityDatabase) (o : Operation) (ts : Time) (new : IsNew db o) where
  with_row : EntityDatabase
  with_row = record db { operations = db.operations ++ row_of_operation o ts ∷ [] }

  put_operation-with_row : put_operation db o ts ≡ put_operation_object with_row o
  unfolding put_operation with_row has_operation
  put_operation-with_row =
      ap
        (λ b.
          put_operation_object
            (record db {
              operations = if b then db.operations else db.operations ++ row_of_operation o ts ∷ [];
            })
            o)
        new.unstored

  operations-object : (put_operation_object with_row o).1.operations ≡ with_row.operations
  unfolding put_operation_object put_message_operation put_user_operation
  operations-object = ground arith

  find_operation-put : find_operation (put_operation db o ts).1 o.id ≡ some (row_of_operation o ts)
  unfolding find_operation has_operation with_row
  find_operation-put =
      ap (λ q. find (λ r. r.id == o.id) q.1.operations) put_operation-with_row
      ∙ ap (find (λ r. r.id == o.id)) operations-object
      ∙ find-append_none (λ r. r.id == o.id) db.operations (row_of_operation o ts ∷ []) new.unstored
      ∙ rw ==_refl

  -- A valid operation is put without an error and is then got unchanged, if its object is stored and
  -- neither the operation nor a link from it is.
  pub get_operation-put_operation :
      (env : Env)
      → o.typ ≡ type_operation
      → is_unsigned_part_valid env o ≡ true
      → has_object db o ≡ true
      → ((put_operation db o ts).0 ≡ ok tt)
        × (get_operation env (put_operation db o ts).1 o.id ≡ ok o)
  unfolding get_operation joined_operation has_message has_user with_row
  get_operation-put_operation env t v h =
      let p = object-put with_row o new.no_message new.no_user h in
      (
        ap (λ q. q.0) put_operation-with_row ∙ p.0,
        ap (λ f. found_operation env (put_operation db o ts).1 f) find_operation-put
            ∙ ap (λ q. or_failed (joined env q.1)) put_operation-with_row
            ∙ ap (λ i. or_failed (i >>= operation_of_row env (row_of_operation o ts))) p.1
            ∙ ap or_failed (operation_of_row-columns env o ts t v),
      )
    where
      joined : Env → EntityDatabase → Result Operation
      joined env d = joined_operation env d (row_of_operation o ts)

  orphan-object :
      has_object db o ≡ false
      → ltb 1 o.operation_type ≡ false
      → put_operation_object with_row o ≡ (err no_such_entity, with_row)
  unfolding put_operation_object with_row has_message has_user
  orphan-object h b = ground arith

  -- An operation of either type whose object is not stored is refused with NoSuchEntity and leaves
  -- its row behind, if neither it nor a link from it was stored: the next request for it fails with
  -- DBOperFailed.
  pub put_operation_orphan :
      (env : Env)
      → has_object db o ≡ false
      → ltb 1 o.operation_type ≡ false
      → ((put_operation db o ts).0 ≡ err no_such_entity)
        × (get_operation env (put_operation db o ts).1 o.id ≡ err db_oper_failed)
  unfolding get_operation joined_operation with_row
  put_operation_orphan env h b =
      let p = put_operation-with_row ∙ orphan-object h b in
      (
        ap (λ q. q.0) p,
        ap (λ f. found_operation env (put_operation db o ts).1 f) find_operation-put
            ∙ ap (λ q. or_failed (joined_operation env q.1 (row_of_operation o ts))) p
            ∙ rw (
              linked-none o.id db.operations_on_messages new.no_message,
              linked-none o.id db.operations_on_users new.no_user,
            ),
      )
