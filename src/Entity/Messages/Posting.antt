-- ===== src/Entity/Messages/Posting.antt =====
-- entity/message.go: `isValid` and `EmergeMessage`.
use dscuss.Prelude.{
  ◌+◌, ◌≤◌, ◌<◌, ◌≡◌, ◌≢◌, ◌↔◌, Bytes, true, false, [], length, Result, ok, err, wrong_arguments,
  msg_post_rate_err, arith, bytes_eq_iff,
}
use dscuss.Subs.Topic.{Topic}
use dscuss.Entity.{EntityId, Time, zero_id, PrivateKey, UnsignedMessage, Message, minute}
use dscuss.Env.{Env, IsLawful}
use dscuss.Crypto.Signing.{verify-sign}
use dscuss.Entity.Messages.{
  is_nil, message_to_id, new_unsigned_message, is_unsigned_message_valid, is_message_valid,
  Readings, emerge_message,
}

-- What `isValid` asks for, in words: the ID is the hash of the content, the sizes are in bounds,
-- neither text is empty, and exactly one of topic and parent is given.
pub record IsWellFormed (env : Env) (um : UnsignedMessage) : Type 0 where
  pub hashed : um.id ≡ message_to_id env um.content
  pub subject_fits : length um.subject ≤ 128
  pub text_fits : length um.text ≤ 1024
  pub subject_given : um.subject ≢ []
  pub text_given : um.text ≢ []
  pub root_has_topic : um.parent_id ≡ zero_id → is_nil um.topic ≡ false
  pub reply_has_none : um.parent_id ≢ zero_id → is_nil um.topic ≡ true

-- `isValid` decides `IsWellFormed`.
pub is_unsigned_message_valid_iff :
    (env : Env) (um : UnsignedMessage)
    → (is_unsigned_message_valid env um ≡ true) ↔ IsWellFormed env um
unfolding is_unsigned_message_valid
is_unsigned_message_valid_iff env um = (
  λ h. record {
    hashed = ground arith;
    subject_fits = ground arith;
    text_fits = ground arith;
    subject_given = λ e. ground (arith, bytes_eq_iff um.subject []);
    text_given = λ e. ground (arith, bytes_eq_iff um.text []);
    root_has_topic = λ e. ground arith;
    reply_has_none = λ e. ground arith;
  },
  λ w. ground (
    arith,
    w.hashed,
    w.subject_fits,
    w.text_fits,
    w.subject_given,
    w.text_given,
    w.root_has_topic,
    w.reply_has_none,
    bytes_eq_iff um.subject [],
    bytes_eq_iff um.text [],
  ),
)

module _ (env : Env) (subject text : Bytes) (author_id parent_id : EntityId) (signer : PrivateKey)
    (topic : Topic) where
  -- If ECDSA verifies what it signs and r and s fit a coordinate, a message that `EmergeMessage`
  -- returns is valid by `IsValid` under the key of the signer.
  pub emerge_message-is_valid :
      (last : Time) (now : Readings) (m : Message)
      → IsLawful env
      → (emerge_message env last now subject text author_id parent_id signer topic).0 ≡ ok m
      → is_message_valid env m (env.public signer) ≡ ok true
  unfolding emerge_message is_message_valid
  emerge_message-is_valid last now m lawful h =
      let um = new_unsigned_message env subject text author_id parent_id now.written topic in
      ground (arith, verify-sign env lawful signer (env.json_message um))

-- What a call of `EmergeMessage` is given beside the clock.
pub record Draft : Type 0 where
  pub subject : Bytes
  pub text : Bytes
  pub author_id : EntityId
  pub parent_id : EntityId
  pub signer : PrivateKey
  pub topic : Topic

abbrev pub emerge : Env → Time → Readings → Draft → Result Message × Time
emerge env last now d =
    emerge_message env last now d.subject d.text d.author_id d.parent_id d.signer d.topic

-- Two messages that `EmergeMessage` returns one after the other are at least a minute apart: the
-- second is begun a minute or more after the moment that the first recorded.
pub emerge_message_rate :
    (env : Env) (last : Time) (first second : Readings) (d e : Draft) (a b : Message)
    → (emerge env last first d).0 ≡ ok a
    → (emerge env (emerge env last first d).1 second e).0 ≡ ok b
    → first.stamped + minute ≤ second.checked
unfolding emerge_message
emerge_message_rate env last first second d e a b h k = ground arith

-- A draft that is rejected as malformed uses up the minute too: after it, the next message is
-- refused for the rate, whatever it is, until a minute has passed.
pub emerge_message-after_malformed :
    (env : Env) (last : Time) (first second : Readings) (d e : Draft)
    → (emerge env last first d).0 ≡ err wrong_arguments
    → second.checked < first.stamped + minute
    → (emerge env (emerge env last first d).1 second e).0 ≡ err msg_post_rate_err
unfolding emerge_message
emerge_message-after_malformed env last first second d e h early = ground arith
