-- ===== src/Sqlite/MessageQueries.antt =====
-- sqlite/entity_database.go: the queries that return lists of messages.
use dscuss.Prelude.{
  ℕ, ◌+◌, ◌-◌, ◌/◌, Bytes, Bool, true, false, not, ◌&&◌, List, [], ◌∷◌, any, find, select, length,
  take, drop, ltb, ◌==◌, bytes_eq, if◌then◌else◌, Option, none, some, Result, ok, ◌>>=◌,
}
use dscuss.Subs.Topic
use dscuss.Subs.Topic.{Topic, nil, join, new_topic}
use dscuss.Entity.{EntityId, Time, Duration, second, zero_id, Message, StoredMessage}
use dscuss.Env.{Env, root_messages, topic_messages, stored_messages}
use dscuss.Sqlite.{EntityDatabase, MessageRow, text_less, is_stored_after}
use dscuss.Sqlite.MessageTable.{message_of_row, topic_string, names_of}

-- `scanMessageRows`: the first row that is invalid makes the whole query fail.
unfoldable pub scan_message_rows :
    Env → (MessageRow → Option Bytes) → List MessageRow → Result (List Message)
unfolding message_of_row
scan_message_rows env topic_str [] = ok []
scan_message_rows env topic_str (r ∷ rs) = do
  m ← message_of_row env r (topic_str r)
  ms ← scan_message_rows env topic_str rs
  ok (m ∷ ms)

-- ORDER BY Timestamp ASC, on the texts of the column.
unfoldable pub insert_by_time : Env → MessageRow → List MessageRow → List MessageRow
unfolding text_less
insert_by_time env r [] = r ∷ []
insert_by_time env r (s ∷ rs) =
    let rest = insert_by_time env r rs in
    if text_less (env.timestamp_text r.id r.timestamp) (env.timestamp_text s.id s.timestamp)
    then r ∷ s ∷ rs
    else s ∷ rest

unfoldable pub order_by_time : Env → List MessageRow → List MessageRow → List MessageRow
unfolding insert_by_time
order_by_time env acc [] = acc
order_by_time env acc (r ∷ rs) = order_by_time env (insert_by_time env r acc) rs

abbrev is_nonempty : List Bytes → Bool
is_nonempty [] = false
is_nonempty (n ∷ ns) = true

-- The inner joins drop a root message without a tag.
unfoldable pub get_root_messages : Env → EntityDatabase → ℕ → ℕ → Result (List Message)
unfolding scan_message_rows order_by_time topic_string
get_root_messages env db offset limit =
    let wanted = λ (r : MessageRow). (r.parent_id == zero_id) && is_nonempty (names_of db r.id) in
    scan_message_rows env (λ r. topic_string env root_messages db r.id)
      (take limit (drop offset (order_by_time env [] (select wanted db.messages))))

-- The messages that have all the tags of the topic; none if the topic has no tag.
unfoldable pub get_topic_messages : Env → EntityDatabase → Topic → ℕ → ℕ → Result (List Message)
unfolding scan_message_rows order_by_time topic_string
get_topic_messages env db topic offset limit =
    let in_topic = λ (n : Bytes). any (λ t. bytes_eq n t) (Topic.tags topic) in
    let shared = λ (r : MessageRow). select in_topic (names_of db r.id) in
    let wanted = λ (r : MessageRow).
      is_nonempty (shared r) && (length (shared r) == length (Topic.tags topic)) in
    scan_message_rows env (λ r. topic_string env topic_messages db r.id)
      (take limit (drop offset (order_by_time env [] (select wanted db.messages))))

-- `scanStoredMessageRows`
unfoldable pub scan_stored_message_rows :
    Env → EntityDatabase → List MessageRow → Result (List StoredMessage)
unfolding message_of_row topic_string
scan_stored_message_rows env db [] = ok []
scan_stored_message_rows env db (r ∷ rs) = do
  m ← message_of_row env r (topic_string env stored_messages db r.id)
  ms ← scan_stored_message_rows env db rs
  ok (record { m = m; stored = r.time_stored } ∷ ms)

unfoldable pub get_messages_stored_after :
    Env → EntityDatabase → Time → ℕ → Result (List StoredMessage)
unfolding scan_stored_message_rows order_by_time is_stored_after
get_messages_stored_after env db ts limit = scan_stored_message_rows env db (
    take limit
      (order_by_time env [] (select (λ r. is_stored_after env ts r.time_stored) db.messages)))

-- `GetReplies` selects '' as the topic, which `NewTopic` reads as nil.
unfoldable pub get_replies : Env → EntityDatabase → EntityId → Result (List Message)
unfolding scan_message_rows order_by_time
get_replies env db eid =
    scan_message_rows env (λ r. some [])
      (order_by_time env [] (select (λ r. r.parent_id == eid) db.messages))

-- |a - b|, in whole seconds of each.
abbrev pub seconds_apart : Time → Time → ℕ
seconds_apart a b = (a / second - b / second) + (b / second - a / second)

abbrev near_id : Option MessageRow → Option EntityId
near_id none = none
near_id (some r) = some r.id

unfoldable pub get_near_message_id : EntityDatabase → Message → Duration → Option EntityId
get_near_message_id db m diff =
    let is_near = λ (r : MessageRow).
      (r.author_id == m.author_id)
      && (not (r.id == m.id) && ltb (seconds_apart r.timestamp m.date_written) (diff / second)) in
    near_id (find is_near db.messages)
