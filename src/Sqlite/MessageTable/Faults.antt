-- ===== src/Sqlite/MessageTable/Faults.antt =====
-- sqlite/entity_database.go: messages whose put or get is an error.
use dscuss.Prelude.{
  ◌≡◌, ap, ◌∙◌, Bytes, true, List, [], ◌∷◌, ◌++◌, any, any-append, ==_refl, bytes_eq_refl, arith,
  ok, err, db_oper_failed,
}
use dscuss.Subs.Topic
use dscuss.Subs.Topic.{Topic, slice, join, new_topic}
use dscuss.Entity.{EntityId, Time, Message}
use dscuss.Sqlite.{EntityDatabase}
use dscuss.Sqlite.MessageTable.RoundTrip.{IsNew, rows_of, distinct, put_message-fresh}
use dscuss.Sqlite.MessageTable.{is_tag_of, put_message_topic, put_message}

put_message_topic-again :
    (db : EntityDatabase) (t : Bytes) (ts : List Bytes) (id : EntityId)
    → any (is_tag_of t id) db.message_tags ≡ true
    → (put_message_topic db (t ∷ ts) id).0 ≡ err db_oper_failed
unfolding put_message_topic
put_message_topic-again db t ts id h = ground arith

put_message-tagged :
    (db : EntityDatabase) (m : Message) (ts : Time) (t : Bytes) (rest : List Bytes)
    → Topic.tags m.topic ≡ t ∷ rest
    → any (is_tag_of t m.id) db.message_tags ≡ true
    → (put_message db m ts).0 ≡ err db_oper_failed
unfolding put_message
put_message-tagged db m ts t rest e h = rw e (put_message_topic-again _ t rest m.id h)

-- A message with a topic of distinct tags, of which nothing is stored, is put without an error; a
-- second put of it fails with DBOperFailed.
pub put_message_twice :
    (db : EntityDatabase) (m : Message) (ts ts' : Time) (t : Bytes) (rest : List Bytes)
    → IsNew db m
    → Topic.tags m.topic ≡ t ∷ rest
    → distinct [] (t ∷ rest) ≡ true
    → ((put_message db m ts).0 ≡ ok tt)
      × ((put_message (put_message db m ts).1 m ts').0 ≡ err db_oper_failed)
put_message_twice db m ts ts' t rest new e d =
    let first = put_message-fresh db m ts new (ap (distinct []) e ∙ d) in
    (
      first.0,
      put_message-tagged (put_message db m ts).1 m ts' t rest e (
          ap (any (is_tag_of t m.id))
            (first.1 ∙ ap (λ (l : List Bytes). db.message_tags ++ rows_of l m.id) e)
          ∙ any-append (is_tag_of t m.id) db.message_tags (rows_of (t ∷ rest) m.id)
          ∙ ground (arith, bytes_eq_refl t, ==_refl m.id)),
    )
