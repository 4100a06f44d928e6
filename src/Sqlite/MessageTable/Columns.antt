-- ===== src/Sqlite/MessageTable/Columns.antt =====
-- sqlite/entity_database.go: the columns of a message, and the message made of them.
use dscuss.Prelude.{◌≡◌, refl, ap, ◌∙◌, Bytes, true, List, [], ◌∷◌, arith, ok}
use dscuss.Subs.Topic
use dscuss.Subs.Topic.{Topic, nil, slice, check_tags, to_string, join, new_topic}
use dscuss.Subs.Topic.Strings.{new_topic-to_string}
use dscuss.Entity.{type_message, Message, Signature, MessageContent, UnsignedMessage}
use dscuss.Entity.Messages.{
  is_unsigned_part_valid, is_unsigned_message_valid, message_to_id, new_unsigned_message,
  new_message, new_message_content, copy_topic, valid_or_wrong,
}
use dscuss.Entity.Messages.Posting.{is_unsigned_message_valid_iff}
use dscuss.Env.{Env}
use dscuss.Sqlite.MessageTable.{concat_names, parse_topic}

new_topic-join :
    (t : Bytes) (ts : List Bytes)
    → Topic.is_valid (slice (t ∷ ts)) ≡ true
    → new_topic (join (t ∷ ts)) ≡ ok (slice (t ∷ ts))
unfolding to_string
new_topic-join t ts v = new_topic-to_string (slice (t ∷ ts)) v

-- The topic of a valid message, from the names that its rows give.
pub parse_topic-names :
    (topic : Topic)
    → Topic.is_valid topic ≡ true
    → parse_topic (concat_names (Topic.tags topic)) ≡ ok topic
parse_topic-names nil v = refl
parse_topic-names (slice []) v = absurd (unfold Topic.is_valid in ground arith)
parse_topic-names (slice (t ∷ ts)) v = rw (new_topic-join t ts v)

copy_topic_lem : (topic : Topic) → copy_topic topic ≡ topic
unfolding Topic.copy
copy_topic_lem nil = refl
copy_topic_lem (slice ts) = refl

new_message_content-columns :
    (mc : MessageContent)
    → new_message_content mc.subject mc.text mc.author_id mc.parent_id mc.date_written mc.topic ≡ mc
unfolding new_message_content
new_message_content-columns mc =
    ap (λ (t : Topic). let c : MessageContent = record mc { topic = t } in c)
      (copy_topic_lem mc.topic)

new_unsigned_message-columns :
    (env : Env) (um : UnsignedMessage)
    → um.typ ≡ type_message
    → um.id ≡ message_to_id env um.content
    → new_unsigned_message env um.subject um.text um.author_id um.parent_id um.date_written um.topic
      ≡ um
unfolding new_unsigned_message
new_unsigned_message-columns env um t i = rw (new_message_content-columns um.content, ← i, ← t)

valid_or_wrong-ok :
    (env : Env) (um : UnsignedMessage) (sig : Signature)
    → is_unsigned_message_valid env um ≡ true
    → valid_or_wrong env um sig ≡ ok (record { unsigned = um; sig = sig })
valid_or_wrong-ok env um sig v = rw v

-- `NewMessage` on the columns of a valid message makes that message.
pub new_message-columns :
    (env : Env) (m : Message)
    → m.typ ≡ type_message
    → is_unsigned_part_valid env m ≡ true
    → new_message env m.subject m.text m.author_id m.parent_id m.date_written m.sig m.topic ≡ ok m
unfolding new_message is_unsigned_part_valid
new_message-columns env m t v =
    let w = (is_unsigned_message_valid_iff env m.unsigned).0 v in
    ap (λ (um : UnsignedMessage). valid_or_wrong env um m.sig)
      (new_unsigned_message-columns env m.unsigned t w.hashed)
    ∙ valid_or_wrong-ok env m.unsigned m.sig v
