-- ===== src/Env.antt =====
-- What the program takes from elsewhere: hashing, ECDSA, scrypt and JSON of Go's libraries.
use dscuss.Prelude.{
  suc, bytes_eq, if◌then◌else◌, [], ◌∷◌, length, ℕ, ◌<◌, ◌^◌, ◌≡◌, Bool, true, Bytes, List, Option,
}
use dscuss.Entity.{
  Time, EntityId, PublicKey, PrivateKey, MessageContent, UnsignedMessage, OperationContent,
  UnsignedOperation, UnsignedUser,
}
use dscuss.Packet.{PacketType, Payload, Body}

-- The queries with a GROUP_CONCAT: GetMessage, GetRootMessages, GetTopicMessages,
-- GetMessagesStoredAfter, GetUserHistory.
pub data ConcatQuery : Type 0 where
  one_message root_messages topic_messages stored_messages user_history : ConcatQuery

-- How often a name is in a list.
abbrev pub occurrences : Bytes → List Bytes → ℕ
occurrences t [] = 0
occurrences t (s ∷ ss) = let rest = occurrences t ss in if bytes_eq s t then suc rest else rest

pub record Env : Type 0 where
  -- sha256.Sum256, as the number that the 32 bytes write
  pub sha256 : Bytes → EntityId
  -- the bytes in a coordinate of the key's curve
  pub curve_len : PublicKey → ℕ
  pub public : PrivateKey → PublicKey
  -- ecdsa.Sign and ecdsa.Verify on a digest; a signature is the pair r, s
  pub ecdsa_sign : PrivateKey → ℕ → ℕ × ℕ
  pub ecdsa_verify : PublicKey → ℕ → ℕ → ℕ → Bool
  -- scrypt.Key under the parameters of crypto/pow.go, as a number
  pub scrypt : Bytes → ℕ
  -- json.Marshal at the types that are hashed, signed or sent
  pub json_message_content : MessageContent → Bytes
  pub json_message : UnsignedMessage → Bytes
  pub json_operation_content : OperationContent → Bytes
  pub json_operation : UnsignedOperation → Bytes
  pub json_user : UnsignedUser → Bytes
  pub json_body : Body → Bytes
  pub json_payload : Payload → Bytes
  -- json.Unmarshal into the Go type that a packet type stands for
  pub unmarshal : PacketType → Bytes → Option Payload
  -- the order in which SQLite's GROUP_CONCAT joins the names of a group: it depends on the plan of
  -- the query and on the rows of the table that has the names, which comes before the names of the
  -- group in the order of their insertion
  pub concat_order : ConcatQuery → List Bytes → List Bytes → List Bytes
  -- a time as the driver writes it into a column or a query, with the offset of its zone: the
  -- timestamp in the row of the given message, whose zone may be that of its author, the time at
  -- which the node stored something, and the argument of a query
  pub timestamp_text : EntityId → Time → Bytes
  pub stored_text : Time → Bytes
  pub argument_text : Time → Bytes
  -- the lines that a bufio.Scanner finds in a text
  pub scan_lines : Bytes → List Bytes
  -- base64.StdEncoding.EncodeToString of the 32 bytes
  pub base64 : EntityId → Bytes

-- The packet type under which a payload is sent.
abbrev pub type_of : Payload → PacketType
type_of (Payload.user u) = PacketType.user
type_of (Payload.message m) = PacketType.msg
type_of (Payload.operation o) = PacketType.oper
type_of (Payload.hello h) = PacketType.hello
type_of (Payload.announce i) = PacketType.ann
type_of (Payload.req i) = PacketType.req
type_of Payload.ack = PacketType.ack
type_of Payload.done = PacketType.done

-- What the libraries document of these functions, as far as the program relies on it.
pub record IsLawful (env : Env) : Type 0 where
  pub verifies :
      (k : PrivateKey) (h : ℕ)
      → env.ecdsa_verify (env.public k) h (env.ecdsa_sign k h).0 (env.ecdsa_sign k h).1 ≡ true
  pub fits :
      (k : PrivateKey) (h : ℕ)
      → ((env.ecdsa_sign k h).0 < 256 ^ env.curve_len (env.public k))
        × ((env.ecdsa_sign k h).1 < 256 ^ env.curve_len (env.public k))

-- What GROUP_CONCAT documents: it joins all the names of the group, in an arbitrary order.
abbrev pub JoinsAll : Env → Type 0
JoinsAll env =
    (q : ConcatQuery) (table l : List Bytes)
    → (length (env.concat_order q table l) ≡ length l)
      × ((t : Bytes) → occurrences t (env.concat_order q table l) ≡ occurrences t l)
