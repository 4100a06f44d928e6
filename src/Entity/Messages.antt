-- ===== src/Entity/Messages.antt =====
-- entity/message.go. A reading of the clock is an argument; the variable `lastMsgTimestamp` is
-- passed in and handed back.
pub mod Posting
use dscuss.Prelude.{
  ℕ, ◌-◌, Bytes, Bool, true, false, not, ◌&&◌, ◌||◌, length, ltb, ◌==◌, if◌then◌else◌, [], ◌∷◌,
  bytes_eq, Result, ok, err, fatal, ◌>>=◌, wrong_arguments, msg_post_rate_err,
}
use dscuss.Subs.Topic
use dscuss.Subs.Topic.{Topic, nil, slice}
use dscuss.Entity.{
  EntityId, Time, Duration, minute, is_zero, type_message, Signature, PublicKey, PrivateKey,
  Descriptor, MessageContent, UnsignedMessage, Message,
}
use dscuss.Env.{Env}
use dscuss.Crypto.{sign, verify}

abbrev pub max_message_subject_len : ℕ
max_message_subject_len = 128

abbrev pub max_message_text_len : ℕ
max_message_text_len = 1024

abbrev pub max_message_depth : ℕ
max_message_depth = 1024

abbrev pub min_message_post_delay : Duration
min_message_post_delay = minute

abbrev pub is_nil : Topic → Bool
is_nil nil = true
is_nil (slice ts) = false

-- `newMessageContent` copies a topic that is not nil.
abbrev pub copy_topic : Topic → Topic
copy_topic nil = nil
copy_topic (slice ts) = Topic.copy (slice ts)

unfoldable pub new_message_content :
    Bytes → Bytes → EntityId → EntityId → Time → Topic → MessageContent
new_message_content subject text author_id parent_id date_written topic = record {
  subject = subject;
  text = text;
  author_id = author_id;
  parent_id = parent_id;
  date_written = date_written;
  topic = copy_topic topic;
}

-- `MessageContent.ToID`
unfoldable pub message_to_id : Env → MessageContent → EntityId
message_to_id env mc = env.sha256 (env.json_message_content mc)

unfoldable pub new_unsigned_message :
    Env → Bytes → Bytes → EntityId → EntityId → Time → Topic → UnsignedMessage
unfolding new_message_content message_to_id
new_unsigned_message env subject text author_id parent_id date_written topic =
    let mc = new_message_content subject text author_id parent_id date_written topic in
    record { descriptor = record { typ = type_message; id = message_to_id env mc }; content = mc }

-- `UnsignedMessage.isValid`
unfoldable pub is_unsigned_message_valid : Env → UnsignedMessage → Bool
unfolding message_to_id is_zero
is_unsigned_message_valid env um =
    if not (um.id == message_to_id env um.content)
    then false
    else if ltb max_message_subject_len (length um.subject)
    then false
    else if ltb max_message_text_len (length um.text)
    then false
    else if bytes_eq um.subject [] || bytes_eq um.text []
    then false
    else if is_nil um.topic && is_zero um.parent_id
    then false
    else if not (is_nil um.topic) && not (is_zero um.parent_id)
    then false
    else true

-- `IsUnsignedPartValid`
unfoldable pub is_unsigned_part_valid : Env → Message → Bool
unfolding is_unsigned_message_valid
is_unsigned_part_valid env m = is_unsigned_message_valid env m.unsigned

unfoldable pub is_sig_valid : Env → Message → PublicKey → Result Bool
unfolding verify
is_sig_valid env m pub_key = verify env pub_key (env.json_message m.unsigned) m.sig

unfoldable pub is_message_valid : Env → Message → PublicKey → Result Bool
unfolding is_unsigned_part_valid is_sig_valid
is_message_valid env m pub_key =
    if is_unsigned_part_valid env m then is_sig_valid env m pub_key else ok false

unfoldable pub is_reply : Message → Bool
unfolding is_zero
is_reply m = not (is_zero m.parent_id)

-- `Message.Copy`
unfoldable pub copy_message : Message → Message
unfolding Topic.copy
copy_message m = record {
  unsigned = record {
    descriptor = m.descriptor;
    content = record {
      subject = m.subject;
      text = m.text;
      author_id = m.author_id;
      parent_id = m.parent_id;
      date_written = m.date_written;
      topic = copy_topic m.topic;
    };
  };
  sig = m.sig;
}

abbrev pub valid_or_wrong : Env → UnsignedMessage → Signature → Result Message
valid_or_wrong env um sig =
    if is_unsigned_message_valid env um
    then ok (record { unsigned = um; sig = sig })
    else err wrong_arguments

unfoldable pub new_message :
    Env → Bytes → Bytes → EntityId → EntityId → Time → Signature → Topic → Result Message
unfolding new_unsigned_message is_unsigned_message_valid
new_message env subject text author_id parent_id date_written sig topic =
    valid_or_wrong env
      (new_unsigned_message env subject text author_id parent_id date_written topic) sig

-- The three readings of the clock in `EmergeMessage`, in its order.
pub record Readings : Type 0 where
  pub checked : Time
  pub stamped : Time
  pub written : Time

-- The message or the error, and the new `lastMsgTimestamp`. Truncated subtraction agrees with
-- `time.Since`, since only a difference below the delay is tested.
unfoldable pub emerge_message :
    Env
    → Time
    → Readings
    → Bytes
    → Bytes
    → EntityId
    → EntityId
    → PrivateKey
    → Topic
    → Result Message × Time
unfolding new_unsigned_message is_unsigned_message_valid sign
emerge_message env last now subject text author_id parent_id signer topic =
    let um = new_unsigned_message env subject text author_id parent_id now.written topic in
    if ltb (now.checked - last) min_message_post_delay
    then (err msg_post_rate_err, last)
    else (valid_or_wrong env um (sign env signer (env.json_message um)), now.stamped)
