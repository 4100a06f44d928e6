-- ===== src/Sqlite/ProfileDatabase.antt =====
-- sqlite/profile_database.go: the moderators and the subscriptions of the owner, and the histories of
-- users. Rows stand in the order of their insertion.
pub mod History
use dscuss.Prelude.{
  false, not, select, find, Option, none, some, ◌>>=◌, db_oper_failed, no_user_history, Bytes, Bool,
  List, [], ◌∷◌, ◌++◌, any, ◌==◌, bytes_eq, if◌then◌else◌, Result, Outcome, ok, err, fatal,
  already_moderator, no_such_moderator, already_subscribed, not_subscribed, parsing,
}
use dscuss.Subs.Topic.{Topic, to_string, new_topic}
use dscuss.Subs.Subscriptions.{Subscriptions, add_topic, read}
use dscuss.Entity.{EntityId, Time, UserHistory}
use dscuss.Env.{user_history, Env}
use dscuss.Sqlite.MessageTable.{or_inconsistent}

-- A row of User_Histories, and a row of User_Subscriptions.
pub record HistoryRow : Type 0 where
  pub user_id : EntityId
  pub disconnected : Time

pub record UserTopicRow : Type 0 where
  pub user_id : EntityId
  pub topic : Bytes

pub record ProfileDatabase : Type 0 where
  pub moderator_rows : List EntityId
  pub topic_rows : List Bytes
  pub history_rows : List HistoryRow
  pub user_topic_rows : List UserTopicRow

abbrev pub is_moderator_row : ProfileDatabase → EntityId → Bool
is_moderator_row db id = any (λ m. m == id) db.moderator_rows

unfoldable pub put_moderator : ProfileDatabase → EntityId → Outcome × ProfileDatabase
put_moderator db id =
    if is_moderator_row db id
    then (err already_moderator, db)
    else (ok tt, record db { moderator_rows = db.moderator_rows ++ id ∷ [] })

-- DELETE of the rows with the key.
abbrev pub delete_id : EntityId → List EntityId → List EntityId
delete_id id [] = []
delete_id id (m ∷ ms) = let rest = delete_id id ms in if m == id then rest else m ∷ rest

unfoldable pub remove_moderator : ProfileDatabase → EntityId → Outcome × ProfileDatabase
remove_moderator db id =
    if is_moderator_row db id
    then (ok tt, record db { moderator_rows = delete_id id db.moderator_rows })
    else (err no_such_moderator, db)

unfoldable pub get_moderators : ProfileDatabase → List EntityId
get_moderators db = db.moderator_rows

abbrev pub is_topic_row : ProfileDatabase → Topic → Bool
is_topic_row db t = any (λ s. bytes_eq s (to_string t)) db.topic_rows

unfoldable pub put_subscription : ProfileDatabase → Topic → Outcome × ProfileDatabase
put_subscription db t =
    if is_topic_row db t
    then (err already_subscribed, db)
    else (ok tt, record db { topic_rows = db.topic_rows ++ to_string t ∷ [] })

abbrev pub delete_topic : Bytes → List Bytes → List Bytes
delete_topic s [] = []
delete_topic s (r ∷ rs) = let rest = delete_topic s rs in if bytes_eq r s then rest else r ∷ rest

unfoldable pub remove_subscription : ProfileDatabase → Topic → Outcome × ProfileDatabase
remove_subscription db t =
    if is_topic_row db t
    then (ok tt, record db { topic_rows = delete_topic (to_string t) db.topic_rows })
    else (err not_subscribed, db)

-- The loop of `GetSubscriptions`.
unfoldable pub read_topics : Subscriptions → List Bytes → Result Subscriptions
unfolding add_topic
read_topics res [] = ok res
read_topics res (s ∷ rows) = elim (new_topic s) [
  | ok t ↦ read_topics (add_topic res t) rows
  | err e ↦ err parsing
  | fatal ↦ fatal
]

unfoldable pub get_subscriptions : ProfileDatabase → Result Subscriptions
unfolding read_topics
get_subscriptions db = read_topics [] db.topic_rows

-- The rows of another user stay.
abbrev pub delete_history : EntityId → List HistoryRow → List HistoryRow
delete_history id rows = select (λ r. not (r.user_id == id)) rows

abbrev pub delete_user_topics : EntityId → List UserTopicRow → List UserTopicRow
delete_user_topics id rows = select (λ r. not (r.user_id == id)) rows

abbrev pub user_topics_of : EntityId → Subscriptions → List UserTopicRow
user_topics_of id [] = []
user_topics_of id (t ∷ ts) = record { user_id = id; topic = to_string t } ∷ user_topics_of id ts

-- INSERT OR REPLACE deletes a row with the key first, and the foreign key of User_Subscriptions
-- deletes the topics of that row with it.
unfoldable pub put_user_history : ProfileDatabase → UserHistory → ProfileDatabase
put_user_history db h =
    let row = let r : HistoryRow = record { user_id = h.id; disconnected = h.disconnected } in r in
    record db {
      history_rows = delete_history h.id db.history_rows ++ row ∷ [];
      user_topic_rows = delete_user_topics h.id db.user_topic_rows ++ user_topics_of h.id h.subs;
    }

abbrev pub topics_in : List UserTopicRow → List Bytes
topics_in [] = []
topics_in (r ∷ rs) = r.topic ∷ topics_in rs

abbrev pub join_lines : List Bytes → Bytes
join_lines [] = []
join_lines (l ∷ []) = l
join_lines (l ∷ m ∷ ls) = l ++ b'\n' ∷ join_lines (m ∷ ls)

-- GROUP_CONCAT of no row is NULL, which `Scan` does not put into a string.
abbrev pub subs_of : Env → List Bytes → Result Subscriptions
subs_of env [] = err db_oper_failed
subs_of env (s ∷ ss) = or_inconsistent (read false (env.scan_lines (join_lines (s ∷ ss))))

abbrev pub topics_of_user : Env → ProfileDatabase → EntityId → List Bytes
topics_of_user env db id =
    env.concat_order user_history (topics_in db.user_topic_rows)
      (topics_in (select (λ r. r.user_id == id) db.user_topic_rows))

unfoldable pub history_of :
    Env → ProfileDatabase → EntityId → Option HistoryRow → Result UserHistory
unfolding read
history_of env db id none = err no_user_history
history_of env db id (some r) = do
  s ← subs_of env (topics_of_user env db id)
  ok (record { id = id; disconnected = r.disconnected; subs = s })

unfoldable pub get_user_history : Env → ProfileDatabase → EntityId → Result UserHistory
unfolding history_of
get_user_history env db id = history_of env db id (find (λ r. r.user_id == id) db.history_rows)

-- `scanHistoryRows`
unfoldable pub scan_history_rows :
    Env → ProfileDatabase → List HistoryRow → Result (List UserHistory)
unfolding history_of
scan_history_rows env db [] = ok []
scan_history_rows env db (r ∷ rs) = do
  h ← history_of env db r.user_id (some r)
  hs ← scan_history_rows env db rs
  ok (h ∷ hs)

unfoldable pub get_full_history : Env → ProfileDatabase → Result (List UserHistory)
unfolding scan_history_rows
get_full_history env db = scan_history_rows env db db.history_rows
