-- ===== src/Peer/Sending.antt =====
-- p2p/peer/state_sending.go. The state reads packets until it ends; the list of its turns says what
-- each `Read` returned.
pub mod Serving
use dscuss.Prelude.{
  ℕ, Bool, true, false, ◌||◌, List, [], ◌∷◌, ◌==◌, if◌then◌else◌, Option, none, some, Result,
  Outcome, ok, err, fatal, protocol_violation, Error,
}
use dscuss.Entity.{EntityId, Time, Entity, entity_id}
use dscuss.Entity
use dscuss.Packet.{PacketType, Payload, Packet}
use dscuss.Packet
use dscuss.Packet.Checks.{type_eq, verify_sig, verify_header_full, decode_payload}
use dscuss.Env.{Env}
use dscuss.Storage.{get_entity}
use dscuss.Peer.Receiving.{Session, World, Ended, next, died, failed}
use dscuss.Peer.Receiving.Performing.{write}
use dscuss.Peer.Interest.{Known, is_interested_in_entity}

-- What one turn of the loop gets from outside.
pub record SendTurn : Type 0 where
  pub packet : Result Packet
  pub verified : Time
  pub sent : Time
  pub write : Outcome

-- `verifyType` of `perform`.
unfoldable pub is_reply_type : PacketType → Bool
unfolding type_eq
is_reply_type t = type_eq t PacketType.ack || type_eq t PacketType.req || type_eq t PacketType.ann

-- The payload of `sendEntity`, which has the entity's own packet type.
abbrev pub payload_of : Entity → Payload
payload_of (Entity.user u) = Payload.user u
payload_of (Entity.message m) = Payload.message m
payload_of (Entity.operation o) = Payload.operation o

-- What a turn comes to: the loop goes on, or it ends.
pub data Served : Type 0 where
  again : World → Served
  over : Ended → World → Served

-- A write, and what follows it.
abbrev pub after_write : Outcome → World → World → Served
after_write (ok u) before w = again w
after_write (err e) before w = over (failed e) before
after_write fatal before w = over died before

abbrev pub send_found : Env → Session → World → SendTurn → Result Entity → Served
unfolding write
send_found env s w t (ok e) = after_write t.write w (write env s w (payload_of e) t.sent)
send_found env s w t (err e) = over (failed e) w
send_found env s w t fatal = over died w

-- The entity that `processReq` sends.
unfoldable pub requested_entity : Env → World → Entity → EntityId → Result Entity
unfolding entity_id get_entity
requested_entity env w out id =
    if id == entity_id out then ok out else get_entity env w.storage.db id

abbrev pub request_of : Env → Session → World → Entity → SendTurn → Result Payload → Served
unfolding requested_entity send_found
request_of env s w out t (ok (Payload.req id)) =
    send_found env s w t (requested_entity env w out id)
request_of env s w out t (ok pld) = over died w
request_of env s w out t (err e) = over (failed protocol_violation) w
request_of env s w out t fatal = over died w

unfoldable pub process_req : Env → Session → World → Entity → SendTurn → Packet → Served
unfolding request_of decode_payload
process_req env s w out t pkt = request_of env s w out t (decode_payload env pkt)

-- The switch on the type of a packet whose signature and header are verified.
abbrev pub answer : Env → Session → World → Entity → SendTurn → Packet → PacketType → Served
unfolding process_req
answer env s w out t pkt PacketType.ann = over next w
answer env s w out t pkt PacketType.ack = over next w
answer env s w out t pkt PacketType.req = process_req env s w out t pkt
answer env s w out t pkt _ = over died w

-- A packet with the wrong signature or header is a violation of the protocol.
abbrev pub if_verified : Result Bool → Bool → World → Served → Served
if_verified (ok true) true w r = r
if_verified (ok true) false w r = over (failed protocol_violation) w
if_verified (ok false) h w r = over (failed protocol_violation) w
if_verified (err e) h w r = over (failed protocol_violation) w
if_verified fatal h w r = over died w

abbrev pub serve_packet : Env → Session → World → Entity → SendTurn → Result Packet → Served
unfolding verify_sig verify_header_full answer is_reply_type
serve_packet env s w out t (ok pkt) =
    if_verified (verify_sig env pkt s.user.pub_key)
      (verify_header_full is_reply_type pkt s.owner_id t.verified) w
      (answer env s w out t pkt pkt.typ)
serve_packet env s w out t (err e) = over (failed e) w
serve_packet env s w out t fatal = over died w

-- One turn of the loop of `perform`.
unfoldable pub serve : Env → Session → World → Entity → SendTurn → Served
unfolding serve_packet
serve env s w out t = serve_packet env s w out t t.packet

-- The loop; the left result stands for a loop that still runs after the given turns.
unfoldable pub serve_all : Env → Session → World → Entity → List SendTurn → Option Ended × World
unfolding serve
serve_all env s w out [] = (none, w)
serve_all env s w out (t ∷ ts) = elim (serve env s w out t) [
  | again w' ↦ serve_all env s w' out ts
  | over e w' ↦ (some e, w')
]

abbrev pub announce :
    Env → Session → World → Entity → Time → Outcome → List SendTurn → Option Ended × World
unfolding write serve_all entity_id
announce env s w out sent (ok u) turns =
    serve_all env s (write env s w (Payload.announce (entity_id out)) sent) out turns
announce env s w out sent (err e) turns = (some (failed e), w)
announce env s w out sent fatal turns = (some died, w)

abbrev pub if_interested :
    Env
    → Session
    → World
    → Entity
    → Time
    → Outcome
    → List SendTurn
    → Option (Result Bool)
    → Option Ended × World
unfolding announce
if_interested env s w out sent o turns none = (none, w)
if_interested env s w out sent o turns (some (ok true)) = announce env s w out sent o turns
if_interested env s w out sent o turns (some (ok false)) = (some next, w)
if_interested env s w out sent o turns (some (err e)) = (some died, w)
if_interested env s w out sent o turns (some fatal) = (some died, w)

-- `perform`: the announcement goes out at the time `sent`, with the outcome `o`.
unfoldable pub perform :
    Env
    → Session
    → Known
    → ℕ
    → World
    → Entity
    → Time
    → Time
    → Outcome
    → List SendTurn
    → Option Ended × World
unfolding if_interested is_interested_in_entity
perform env s k fuel w out stored sent o turns =
    if_interested env s w out sent o turns
      (is_interested_in_entity env w.storage.db fuel k out stored)
