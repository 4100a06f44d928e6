-- ===== src/Storage.antt =====
-- storage/storage.go. A channel is named by a number; sending to it without waiting, as `select`
-- with `default` does, drops the entity when the buffer is full. A nil sender is none.
pub mod Notifying
pub mod Lookup
use dscuss.Prelude.{
  ℕ, zero, suc, Bool, true, false, not, length, List, [], ◌∷◌, ◌++◌, ltb, ◌==◌, if◌then◌else◌,
  Option, none, some, Result, Outcome, ok, err, fatal, is_no_such_entity,
}
use dscuss.Entity.{EntityId, Time, Message, Entity}
use dscuss.Entity
use dscuss.Entity.Messages.{is_reply}
use dscuss.Env.{Env}
use dscuss.Sqlite.{EntityDatabase, put_user, get_user, has_user}
use dscuss.Sqlite.MessageTable.{put_message, get_message, has_message}
use dscuss.Sqlite.OperationTable.{put_operation, get_operation, has_operation}

pub record Storage : Type 0 where
  pub db : EntityDatabase
  pub observers : List ℕ
  -- what waits in the buffer of each channel, and the size of the buffer
  pub queue : ℕ → List Entity
  pub capacity : ℕ → ℕ

unfoldable pub attach_observer : Storage → ℕ → Storage
attach_observer s c = record s { observers = s.observers ++ c ∷ [] }

abbrev pub remove_first : ℕ → List ℕ → List ℕ
remove_first c [] = []
remove_first c (o ∷ os) = let rest = remove_first c os in if o == c then os else o ∷ rest

unfoldable pub detach_observer : Storage → ℕ → Storage
detach_observer s c = record s { observers = remove_first c s.observers }

abbrev pub is_sender : Option ℕ → ℕ → Bool
is_sender none o = false
is_sender (some c) o = o == c

unfoldable pub send : Storage → ℕ → Entity → Storage
send s o e =
    if ltb (length (s.queue o)) (s.capacity o)
    then record s { queue = λ c. if c == o then s.queue o ++ e ∷ [] else s.queue c }
    else s

-- The loop of `notifyObservers` over the rest of the observers.
unfoldable pub notify : Storage → Entity → Option ℕ → List ℕ → Storage
unfolding send
notify s e sender [] = s
notify s e sender (o ∷ os) = notify (if is_sender sender o then s else send s o e) e sender os

unfoldable pub notify_observers : Storage → Entity → Option ℕ → Storage
unfolding notify
notify_observers s e sender = notify s e sender s.observers

-- The call of the database that `PutEntity` makes, at the time `now`.
unfoldable pub put_in_db : EntityDatabase → Entity → Time → Outcome × EntityDatabase
unfolding put_user put_message put_operation
put_in_db db (Entity.user u) now = (ok tt, put_user db u now)
put_in_db db (Entity.message m) now = put_message db m now
put_in_db db (Entity.operation o) now = put_operation db o now

abbrev pub notify_if_put :
    Storage → Entity → Option ℕ → Outcome × EntityDatabase → Outcome × Storage
notify_if_put s ent sender (ok u, db) = (ok u, notify_observers (record s { db = db }) ent sender)
notify_if_put s ent sender (err e, db) = (err e, record s { db = db })
notify_if_put s ent sender (fatal, db) = (fatal, record s { db = db })

unfoldable pub put_entity : Storage → Entity → Option ℕ → Time → Outcome × Storage
unfolding put_in_db notify_observers
put_entity s ent sender now = notify_if_put s ent sender (put_in_db s.db ent now)

unfoldable pub has_entity : EntityDatabase → EntityId → Bool
unfolding has_user has_message has_operation
has_entity db eid =
    if has_user db eid then true else if has_message db eid then true else has_operation db eid

-- What is found, or on NoSuchEntity the next place to look.
abbrev pub or_next : Result Entity → Result Entity → Result Entity
or_next (ok e) next = ok e
or_next (err e) next = if is_no_such_entity e then next else err e
or_next fatal next = fatal

abbrev pub as_entity {ℓ} : {A : Type ℓ} → (A → Entity) → Result A → Result Entity
as_entity f (ok a) = ok (f a)
as_entity f (err e) = err e
as_entity f fatal = fatal

unfoldable pub get_entity : Env → EntityDatabase → EntityId → Result Entity
unfolding get_user get_message get_operation
get_entity env db eid = or_next (as_entity Entity.user (get_user env db eid)) (
    or_next (as_entity Entity.message (get_message env db eid))
      (as_entity Entity.operation (get_operation env db eid)))

-- `GetRoot`, in at most `fuel` turns of its loop; none stands for a loop that still runs.
unfoldable pub get_root : Env → EntityDatabase → ℕ → Message → Option (Result Message)
unfolding is_reply get_message
get_root env db zero m = none
get_root env db (suc fuel) m =
    let next : Option (Result Message) = elim (get_message env db m.parent_id) [
      | ok p ↦ get_root env db fuel p
      | err e ↦ some (err e)
      | fatal ↦ some fatal
    ] in
    if is_reply m then next else some (ok m)

-- `GetMessageDepth`, with the number of turns made.
unfoldable pub count_depth : Env → EntityDatabase → ℕ → Message → ℕ → Option (Result ℕ)
unfolding is_reply get_message
count_depth env db zero m d = none
count_depth env db (suc fuel) m d =
    let next : Option (Result ℕ) = elim (get_message env db m.parent_id) [
      | ok p ↦ count_depth env db fuel p (suc d)
      | err e ↦ some (err e)
      | fatal ↦ some fatal
    ] in
    if is_reply m then next else some (ok d)

unfoldable pub get_message_depth : Env → EntityDatabase → ℕ → Message → Option (Result ℕ)
unfolding count_depth
get_message_depth env db fuel m = count_depth env db fuel m 0
