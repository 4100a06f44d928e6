-- ===== src/Witnesses/OfSyncing.antt =====
-- The synchronization and the sending of entities at concrete values.
use dscuss.Prelude.{
  ◌≤◌, all, ◌≡◌, ◌≢◌, refl, sym, ◌∙◌, Memᴰ, ℕ, Bytes, codes, Bool, true, false, List, [], ◌∷◌,
  Option, none, some, Result, ok, err, fatal, closed_connection,
}
use dscuss.Entity.{
  StoredOperation, StoredMessage, EntityId, Message, User, UserHistory, Entity, Time,
}
use dscuss.Entity
use dscuss.Subs.Topic.{Topic, nil, slice}
use dscuss.Packet.{PacketType, Payload}
use dscuss.Packet.Checks
use dscuss.Sqlite.{is_stored_after, EntityDatabase}
use dscuss.Peer.Receiving.{World, next}
use dscuss.Peer.Receiving.Performing.{write}
use dscuss.Peer.Syncing.{
  max_sync_number_of_operations, max_sync_number_of_messages, State, handshaking,
  new_state_active_syncing, sending, SyncTurn,
}
use dscuss.Peer.Machine.{session}
use dscuss.Peer.Syncing.{passive_syncing, switch}
use dscuss.Peer.Syncing.Draining.{sync_all, sync_all-found}
use dscuss.Peer.Sending.{SendTurn, is_reply_type, requested_entity, serve_all}
use dscuss.Peer.Sending.Serving.{Carries, IsVerified, Exchange, serve_all-Exchange}
use dscuss.Sqlite.MessageQueries.{get_messages_stored_after}
use dscuss.Sqlite.OperationTable.{get_operations_stored_after}
use dscuss.Packet.Checks.{decode_payload, verify_sig, verify_header_full}
use dscuss.Witnesses.Samples.{moderated, sample_message, sample_operation}
use dscuss.Witnesses.PeerSamples.{peer_env, own, packet, world, known}

-- A database with the sample operation and the message that it removes.
abbrev stocked : EntityDatabase
stocked = record moderated {
  messages =
      record {
        id = 10;
        subject = codes "hello";
        content = codes "text";
        timestamp = 100;
        author_id = 6;
        parent_id = 0;
        signature = 1 ∷ 2 ∷ [];
        time_stored = 150;
      }
      ∷ [];
  tags = codes "golang" ∷ codes "linux" ∷ [];
  message_tags =
      record { tag = codes "golang"; message_id = 10 }
      ∷ record { tag = codes "linux"; message_id = 10 }
      ∷ [];
}

abbrev sync_turns : ℕ → World × SyncTurn
sync_turns i = (
  record world { storage = record world.storage { db = stocked } },
  record { now = 9000; sent = 9000; write = ok tt },
)

one_message :
    get_messages_stored_after peer_env stocked 0 1000
    ≡ ok (record { m = sample_message; stored = 150 } ∷ [])
unfolding get_messages_stored_after dscuss.Subs.Topic.new_topic dscuss.Subs.Topic.join
    dscuss.Subs.Topic.is_tag_valid dscuss.Subs.Topic.is_tag_char dscuss.Prelude.bytes_eq
    dscuss.Entity.Messages.new_message dscuss.Subs.Topic.copy
one_message = refl

one_operation :
    get_operations_stored_after peer_env stocked 0 1000
    ≡ ok (record { o = sample_operation; stored = 200 } ∷ [])
unfolding get_operations_stored_after dscuss.Entity.Operations.new_operation
one_operation = refl

sync_all-found_example :
    (sync_all peer_env
        (session own known)
        known
        true
        sync_turns
        3
        0
        (record { messages = none; operations = none; start_time = none })
      ≡ (
        (Entity.message sample_message, 150) ∷ (Entity.operation sample_operation, 200) ∷ [],
        some (
            switch passive_syncing
              (write peer_env (session own known) (sync_turns 2).0 Payload.done 9000)),
      ))
    × (all
          (λ (m : StoredMessage). is_stored_after peer_env 0 m.stored)
          (record { m = sample_message; stored = 150 } ∷ [])
        ≡ true)
    × (1 ≤ max_sync_number_of_messages)
    × (all
          (λ (o : StoredOperation). is_stored_after peer_env 0 o.stored)
          (record { o = sample_operation; stored = 200 } ∷ [])
        ≡ true)
    × (1 ≤ max_sync_number_of_operations)
unfolding dscuss.Peer.Syncing.get_start_time
sync_all-found_example =
    sync_all-found peer_env (session own known) known true sync_turns stocked
      (record { m = sample_message; stored = 150 } ∷ [])
      (record { o = sample_operation; stored = 200 } ∷ []) (λ j. refl) one_message one_operation
      refl

-- The peer asks for the sample message, which is the one announced, and acknowledges.
abbrev send_turn : PacketType → SendTurn
send_turn t = record { packet = ok (packet t 3); verified = 2000; sent = 1600; write = ok tt }

req_checked :
    IsVerified peer_env (session own known) (send_turn PacketType.req) (packet PacketType.req 3)
unfolding verify_sig Checks.new verify_header_full is_reply_type Checks.type_eq
req_checked = record { read = refl; signed = refl; headed = refl }

ack_checked :
    IsVerified peer_env (session own known) (send_turn PacketType.ack) (packet PacketType.ack 3)
unfolding verify_sig Checks.new verify_header_full is_reply_type Checks.type_eq
ack_checked = record { read = refl; signed = refl; headed = refl }

exchanged :
    Exchange peer_env
      (session own known)
      (Entity.message sample_message)
      world
      (send_turn PacketType.req ∷ send_turn PacketType.ack ∷ [])
      (write peer_env (session own known) world (Payload.message sample_message) 1600)
unfolding requested_entity decode_payload Checks.new
exchanged =
    Exchange.asked world _ (send_turn PacketType.req) _ (packet PacketType.req 3) 10
      (Entity.message sample_message) (Payload.message sample_message) req_checked refl refl
      (record { announced = λ h. refl; stored = λ n. absurd (n refl) })
      (Carries.message sample_message) refl
      (Exchange.acked _ (send_turn PacketType.ack) [] (packet PacketType.ack 3) ack_checked refl)

serve_all-Exchange_example :
    serve_all peer_env
      (session own known)
      world
      (Entity.message sample_message)
      (send_turn PacketType.req ∷ send_turn PacketType.ack ∷ [])
    ≡ (some next, write peer_env (session own known) world (Payload.message sample_message) 1600)
serve_all-Exchange_example =
    serve_all-Exchange peer_env (session own known) (Entity.message sample_message) world _ _
      exchanged
