-- ===== src/Packet.antt =====
-- packet/: the data types. The operations are in the module below.
pub mod Checks
use dscuss.Prelude.{ℕ, Bytes, Bool, bytes_eq}
use dscuss.Subs.Subscriptions.{Subscriptions}
use dscuss.Entity.{EntityId, Time, Signature, User, Message, Operation}

-- `packet.Type` is a string; a peer may send any.
pub data PacketType : Type 0 where
  user msg oper hello ann ack req done : PacketType
  unknown : Bytes → PacketType

pub record PayloadHello : Type 0 where
  pub proto : ℕ
  pub subs : Subscriptions

-- What `DecodePayload` returns as an `interface{}`, and what `New` takes.
pub data Payload : Type 0 where
  user : User → Payload
  message : Message → Payload
  operation : Operation → Payload
  hello : PayloadHello → Payload
  announce : EntityId → Payload
  req : EntityId → Payload
  ack : Payload
  done : Payload

pub record Body : Type 0 where
  pub typ : PacketType
  pub receiver_id : EntityId
  pub date_composed : Time
  pub payload : Bytes

pub record Packet : Type 0 where
  pub body : Body
  pub open body use *
  pub sig : Signature
