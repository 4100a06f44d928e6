-- ===== src/Sqlite/MessageTable.antt =====
-- sqlite/entity_database.go: messages and their tags.
mod Columns
mod Reordering
pub mod RoundTrip
pub mod Faults
use dscuss.Prelude.{
  Bytes, Bool, ◌&&◌, List, [], ◌∷◌, ◌++◌, any, find, select, ◌==◌, bytes_eq, if◌then◌else◌, Option,
  none, some, Result, Outcome, ok, err, fatal, ◌>>=◌, no_such_entity, inconsistent_db,
  db_oper_failed,
}
use dscuss.Subs.Topic
use dscuss.Subs.Topic.{Topic, nil, join, new_topic}
use dscuss.Entity.{EntityId, Time, Message}
use dscuss.Entity.Messages.{new_message}
use dscuss.Env.{one_message, ConcatQuery, Env}
use dscuss.Sqlite.{EntityDatabase, MessageRow, MessageTag, insert_or_ignore}

unfoldable pub put_tag : EntityDatabase → Bytes → EntityDatabase
put_tag db tag =
    if any (λ t. bytes_eq t tag) db.tags then db else record db { tags = db.tags ++ tag ∷ [] }

abbrev pub is_tag_of : Bytes → EntityId → MessageTag → Bool
is_tag_of tag id r = bytes_eq r.tag tag && (r.message_id == id)

-- A violation of UNIQUE (Tag_id, Message_id) is an error.
unfoldable pub put_message_tag : EntityDatabase → Bytes → EntityId → Outcome × EntityDatabase
put_message_tag db tag id =
    let row = let r : MessageTag = record { tag = tag; message_id = id } in r in
    if any (is_tag_of tag id) db.message_tags
    then (err db_oper_failed, db)
    else (ok tt, record db { message_tags = db.message_tags ++ row ∷ [] })

-- The loop of `putMesageTopic`.
unfoldable pub put_message_topic : EntityDatabase → List Bytes → EntityId → Outcome × EntityDatabase
unfolding put_tag put_message_tag
put_message_topic db [] id = (ok tt, db)
put_message_topic db (tag ∷ ts) id =
    let (r, db') = put_message_tag (put_tag db tag) tag id in
    elim r [
      | ok u ↦ put_message_topic db' ts id
      | err e ↦ (err db_oper_failed, db')
      | fatal ↦ (fatal, db')
    ]

abbrev pub row_of_message : Message → Time → MessageRow
row_of_message msg ts = record {
  id = msg.id;
  subject = msg.subject;
  content = msg.text;
  timestamp = msg.date_written;
  author_id = msg.author_id;
  parent_id = msg.parent_id;
  signature = msg.sig;
  time_stored = ts;
}

unfoldable pub put_message : EntityDatabase → Message → Time → Outcome × EntityDatabase
unfolding put_message_topic
put_message db msg ts =
    let rows = insert_or_ignore (λ r. r.id) (row_of_message msg ts) db.messages in
    put_message_topic (record db { messages = rows }) (Topic.tags msg.topic) msg.id

abbrev pub tag_names : List MessageTag → List Bytes
tag_names [] = []
tag_names (r ∷ rs) = r.tag ∷ tag_names rs

-- GROUP_CONCAT(Tags.Name) for one message; NULL if it has no tag.
unfoldable pub names_of : EntityDatabase → EntityId → List Bytes
names_of db id = tag_names (select (λ r. r.message_id == id) db.message_tags)

abbrev pub concat_names : List Bytes → Option Bytes
concat_names [] = none
concat_names (n ∷ ns) = some (join (n ∷ ns))

unfoldable pub topic_string : Env → ConcatQuery → EntityDatabase → EntityId → Option Bytes
unfolding names_of
topic_string env q db id = concat_names (env.concat_order q db.tags (names_of db id))

-- An error of the parse, or of `NewMessage`, means that the row is invalid.
abbrev pub or_inconsistent {ℓ} : {A : Type ℓ} → Result A → Result A
or_inconsistent (ok a) = ok a
or_inconsistent (err e) = err inconsistent_db
or_inconsistent fatal = fatal

abbrev pub parse_topic : Option Bytes → Result Topic
parse_topic none = ok nil
parse_topic (some s) = or_inconsistent (new_topic s)

-- What `GetMessage` and `scanSingleMessageRow` make of a row and its topic.
unfoldable pub message_of_row : Env → MessageRow → Option Bytes → Result Message
message_of_row env r topic_str = do
  topic ← parse_topic topic_str
  or_inconsistent
      (new_message env r.subject r.content r.author_id r.parent_id r.timestamp r.signature topic)

unfoldable pub find_message : EntityDatabase → EntityId → Option MessageRow
find_message db eid = find (λ r. r.id == eid) db.messages

abbrev pub found_message : Env → EntityDatabase → EntityId → Option MessageRow → Result Message
found_message env db eid none = err no_such_entity
found_message env db eid (some r) = message_of_row env r (topic_string env one_message db eid)

unfoldable pub get_message : Env → EntityDatabase → EntityId → Result Message
unfolding find_message message_of_row topic_string
get_message env db eid = found_message env db eid (find_message db eid)

unfoldable pub has_message : EntityDatabase → EntityId → Bool
has_message db eid = any (λ r. r.id == eid) db.messages
