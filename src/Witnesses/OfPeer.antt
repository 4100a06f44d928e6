-- ===== src/Witnesses/OfPeer.antt =====
-- The state of receiving at concrete values.
use dscuss.Prelude.{
  ◌||◌, ◌⊎◌, some, ℕ, zero, suc, ◌≡◌, refl, Bytes, codes, Bool, true, false, List, [], ◌∷◌, Option,
  none, some, arith, Result, ok, err, fatal, closed_connection,
}
use dscuss.Entity.{Operation, EntityId, Message, User, Entity}
use dscuss.Entity
use dscuss.Packet.{PacketType, Payload, Packet}
use dscuss.Packet.Checks
use dscuss.Sqlite.{get_user, EntityDatabase, empty, put_user}
use dscuss.Entity.Operations
use dscuss.Storage.{has_entity}
use dscuss.Owner.View.{is_user_banned}
use dscuss.Env.{Env}
use dscuss.Peer.Receiving.{
  Session, World, Turn, Ended, is_present, get_pending_entity, get_pending_user,
}
use dscuss.Peer.Receiving.Verdicts.{check_message, check_operation}
use dscuss.Peer.Receiving.Verdicts.Accepted.{
  IsAccepted, check_message_matched, check_operation_matched,
}
use dscuss.Peer.Receiving.Verdicts
use dscuss.Peer.Receiving
use dscuss.Peer.Receiving.Performing.{perform, turn, ask, write}
use dscuss.Peer.Receiving.Performing.Ending.{perform_total}
use dscuss.Witnesses.Samples.{
  sample_env, sample_message, sample_operation, sample_profile, sample_key, first_readings,
  next_readings,
}

-- The library functions, where what is decoded is the sample message.
abbrev message_env : Env
message_env = record sample_env { unmarshal = λ t s. some (Payload.message sample_message) }

-- User 6, with the sample key.
abbrev author : User
author = record {
  unsigned = record {
    descriptor = record { typ = 0; id = 3 };
    content = record {
      pub_key = sample_key;
      proof = 0;
      nickname = codes "eve";
      info = [];
      reg_date = 50;
    };
  };
  sig = [];
}

abbrev session : Session
session = record { user = author; out_entity_chan = 1; owner_id = 9; signer = sample_key }

abbrev world : World
world = record {
  storage = record { db = empty; observers = []; queue = λ c. []; capacity = λ c. 100 };
  profile = sample_profile;
  last_oper = 0;
  written = [];
}

abbrev turn_with : Result Packet → Turn
turn_with r = record {
  sent = 1000;
  write = ok tt;
  packet = r;
  verified = 2000;
  put = λ i. 3000;
  banning = first_readings;
  banned_at = 4000;
  banning_sender = next_readings;
  sender_banned_at = 5000;
}

-- The peer sends the message, and then it closes the connection.
abbrev message_turn : Turn
message_turn =
    turn_with (
      ok (Checks.new message_env PacketType.msg 9 (Payload.message sample_message) sample_key 1500))

abbrev turns : ℕ → Turn
turns zero = message_turn
turns (suc i) = turn_with (err closed_connection)

perform_total_example :
    (e : Ended) × (w : World) × (perform message_env session turns 2052 world
        (Checks.new message_env PacketType.ann 9 (Payload.announce 10) sample_key 1500)
        2000
        (ok tt)
        6000
      ≡ some (e, w))
perform_total_example =
    perform_total message_env session turns world
      (Checks.new message_env PacketType.ann 9 (Payload.announce 10) sample_key 1500) 2000 (ok tt)
      6000

author-needed :
    turn message_env session message_turn world 10 []
    ≡ ask 6
        (Entity.message sample_message ∷ [])
        (write message_env session world (Payload.req 10) 1000)
unfolding turn dscuss.Prelude.bytes_eq dscuss.Sqlite.OperationTable.get_operations_on_user
author-needed = refl

-- The sample message with a signature by the sample key, and a database that has its author.
abbrev signed_message : Message
signed_message = record sample_message { sig = 10 ∷ 2 ∷ [] }

abbrev with_author_row : EntityDatabase
with_author_row = record empty {
  users =
      record {
        id = 6;
        public_key = sample_key;
        proof = 0;
        nickname = codes "eve";
        info = [];
        timestamp = 50;
        signature = [];
        time_stored = 60;
      }
      ∷ [];
}

message-matched :
    (check_message sample_env with_author_row sample_profile
      (Entity.message signed_message ∷ [])
      signed_message).0
    ≡ ok Receiving.matched
unfolding check_message dscuss.Prelude.bytes_eq dscuss.Sqlite.OperationTable.get_operations_on_user
    dscuss.Entity.Users.new_user Verdicts.if_covered dscuss.Owner.Profile.cached_subs
    dscuss.Subs.Topic.new_topic dscuss.Subs.Topic.is_tag_valid dscuss.Subs.Topic.is_tag_char
    dscuss.Subs.Subscriptions.contains dscuss.Subs.Topic.contains_topic dscuss.Subs.Topic.copy
    dscuss.Subs.Topic.contains_tag
message-matched = refl

check_message_matched_example :
    IsAccepted sample_env with_author_row sample_profile
      (Entity.message signed_message ∷ [])
      signed_message
check_message_matched_example =
    check_message_matched sample_env with_author_row sample_profile
      (Entity.message signed_message ∷ []) signed_message message-matched

-- The sample operation with a signature by the sample key, and the message it removes.
abbrev signed_operation : Operation
signed_operation = record sample_operation { sig = 5 ∷ 2 ∷ [] }

abbrev both : List Entity
both = Entity.operation signed_operation ∷ Entity.message signed_message ∷ []

operation-matched :
    (check_operation sample_env with_author_row sample_profile both signed_operation).0
    ≡ ok Receiving.matched
unfolding check_operation dscuss.Sqlite.OperationTable.get_operations_on_user
    dscuss.Entity.Users.new_user
operation-matched = refl

check_operation_matched_example :
    (Operations.is_unsigned_part_valid sample_env signed_operation ≡ true)
    × ((is_user_banned sample_env with_author_row sample_profile 6).0 ≡ ok false)
    × ((u : User) × ((get_pending_user both 6 ≡ some u)
          ⊎ (get_user sample_env with_author_row 6 ≡ ok u))
        × (Operations.is_sig_valid sample_env signed_operation u.pub_key ≡ ok true))
    × ((is_present (get_pending_entity both 10) || has_entity with_author_row 10) ≡ true)
check_operation_matched_example =
    check_operation_matched sample_env with_author_row sample_profile both signed_operation
      operation-matched
