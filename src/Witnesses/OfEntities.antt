-- ===== src/Witnesses/OfEntities.antt =====
-- Messages, operations, signatures and packets at concrete values.
use dscuss.Prelude.{
  ℕ, ◌≡◌, ◌≢◌, ◌↔◌, ◌≤◌, ◌<◌, ◌+◌, refl, Bytes, codes, Bool, true, false, List, [], ◌∷◌, length,
  arith, Result, ok, err, fatal, wrong_arguments, msg_post_rate_err,
}
use dscuss.Entity.{Message, Operation}
use dscuss.Entity.Messages
use dscuss.Entity.Operations
use dscuss.Entity.Messages.{emerge_message, is_unsigned_message_valid, is_message_valid}
use dscuss.Entity.Messages.Posting.{emerge, emerge_message-is_valid}
use dscuss.Entity.Operations.{
  emerge_operation, is_unsigned_operation_valid, is_operation_valid, parse_reason, reason_string,
}
use dscuss.Packet.{PacketType, Payload, Packet}
use dscuss.Packet.Checks.{new, verify_sig, verify_header, decode_payload}
use dscuss.Packet.Checks.Delivery.{new-accepted}
use dscuss.Crypto.{sign}
use dscuss.Witnesses.Samples.{
  sample_env, sample_env-IsLawful, sample_key, go_os, first_readings, next_readings, sample_draft,
  empty_draft,
}

abbrev sample_packet : Packet
sample_packet = new sample_env PacketType.ann 9 (Payload.announce 7) sample_key 1000

new-accepted_example :
    (verify_sig sample_env sample_packet sample_key ≡ ok true)
    × (verify_header PacketType.ann sample_packet 9 2000 ≡ true)
    × (decode_payload sample_env sample_packet ≡ ok (Payload.announce 7))
new-accepted_example =
    new-accepted sample_env sample_env-IsLawful 9 (Payload.announce 7) sample_key 1000 2000 refl
      (ground arith)

-- The message of the sample draft, and the later one.
abbrev posted : Message
posted = record {
  unsigned =
      Messages.new_unsigned_message sample_env (codes "hello") (codes "text") 5 0 100000000002
        go_os;
  sig = sign sample_env sample_key (codes "hellotext");
}

abbrev posted_next : Message
posted_next = record {
  unsigned =
      Messages.new_unsigned_message sample_env (codes "hello") (codes "text") 5 0 160000000003
        go_os;
  sig = sign sample_env sample_key (codes "hellotext");
}

first-posted : (emerge sample_env 0 first_readings sample_draft).0 ≡ ok posted
unfolding emerge_message dscuss.Prelude.bytes_eq dscuss.Subs.Topic.copy
first-posted = refl

next-posted :
    (emerge sample_env
      (emerge sample_env 0 first_readings sample_draft).1
      next_readings
      sample_draft).0
    ≡ ok posted_next
unfolding emerge_message dscuss.Prelude.bytes_eq dscuss.Subs.Topic.copy
next-posted = refl

emerge_message-is_valid_example : is_message_valid sample_env posted sample_key ≡ ok true
emerge_message-is_valid_example =
    emerge_message-is_valid sample_env (codes "hello") (codes "text") 5 0 sample_key go_os 0
      first_readings posted sample_env-IsLawful first-posted

empty-refused : (emerge sample_env 0 first_readings empty_draft).0 ≡ err wrong_arguments
unfolding emerge_message dscuss.Prelude.bytes_eq
empty-refused = refl

abbrev performed : Operation
performed = record {
  unsigned = Operations.new_unsigned_operation sample_env 1 1 (codes "spam") 5 6 100000000002;
  sig = sign sample_env sample_key (codes "spam");
}

operation-performed :
    (emerge_operation sample_env 0 first_readings 1 1 (codes "spam") 5 6 sample_key).0
    ≡ ok performed
unfolding emerge_operation
operation-performed = refl
