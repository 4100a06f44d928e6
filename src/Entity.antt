-- ===== src/Entity.antt =====
-- entity/: the data types. The operations on them are in the modules below.
pub mod Messages
pub mod Operations
pub mod Users
pub mod Ids
use dscuss.Prelude.{ℕ, Bytes, Bool, ◌*◌, ◌+◌, ◌^◌, ◌==◌, List}
use dscuss.Subs.Topic.{Topic}
use dscuss.Subs.Subscriptions.{Subscriptions}

-- `type ID [32]byte`: the number that the 32 bytes write, most significant byte first.
abbrev pub EntityId : Type 0
EntityId = ℕ

abbrev pub zero_id : EntityId
zero_id = 0

unfoldable pub is_zero : EntityId → Bool
is_zero i = i == zero_id

-- `time.Time`, in nanoseconds since the zero time, 1 January of the year 1.
abbrev pub Time : Type 0
Time = ℕ

-- `time.Duration`, where it is not negative.
abbrev pub Duration : Type 0
Duration = ℕ

abbrev pub second : Duration
second = 10 ^ 9

abbrev pub minute : Duration
minute = 60 * second

-- The Unix time 0.
abbrev pub unix_zero : Time
unix_zero = 62135596800 * second

-- Keys by their DER encoding, signatures by their bytes.
abbrev pub PublicKey : Type 0
PublicKey = Bytes

abbrev pub PrivateKey : Type 0
PrivateKey = Bytes

abbrev pub Signature : Type 0
Signature = Bytes

-- `entity.Type`, an int that a peer may set to any value; negative ones are left out, and the
-- code treats them as it treats any other unknown value.
abbrev pub type_user : ℕ
type_user = 0

abbrev pub type_message : ℕ
type_message = 1

abbrev pub type_operation : ℕ
type_operation = 2

pub record Descriptor : Type 0 where
  pub typ : ℕ
  pub id : EntityId

pub record MessageContent : Type 0 where
  pub subject : Bytes
  pub text : Bytes
  pub author_id : EntityId
  pub parent_id : EntityId
  pub date_written : Time
  pub topic : Topic

pub record UnsignedMessage : Type 0 where
  pub descriptor : Descriptor
  pub open descriptor use *
  pub content : MessageContent
  pub open content use *

pub record Message : Type 0 where
  pub unsigned : UnsignedMessage
  pub open unsigned use *
  pub sig : Signature

pub record StoredMessage : Type 0 where
  pub m : Message
  pub stored : Time

-- `OperationType` and `OperationReason` are ints, like `Type`.
pub record OperationContent : Type 0 where
  pub operation_type : ℕ
  pub reason : ℕ
  pub comment : Bytes
  pub author_id : EntityId
  pub object_id : EntityId
  pub date_performed : Time

pub record UnsignedOperation : Type 0 where
  pub descriptor : Descriptor
  pub open descriptor use *
  pub content : OperationContent
  pub open content use *

pub record Operation : Type 0 where
  pub unsigned : UnsignedOperation
  pub open unsigned use *
  pub sig : Signature

pub record StoredOperation : Type 0 where
  pub o : Operation
  pub stored : Time

pub record UserContent : Type 0 where
  pub pub_key : PublicKey
  pub proof : ℕ
  pub nickname : Bytes
  pub info : Bytes
  pub reg_date : Time

pub record UnsignedUser : Type 0 where
  pub descriptor : Descriptor
  pub open descriptor use *
  pub content : UserContent
  pub open content use *

pub record User : Type 0 where
  pub unsigned : UnsignedUser
  pub open unsigned use *
  pub sig : Signature

pub record UserHistory : Type 0 where
  pub id : EntityId
  pub disconnected : Time
  pub subs : Subscriptions

-- What the interface `Entity` stands for.
pub data Entity : Type 0 where
  user : User → Entity
  message : Message → Entity
  operation : Operation → Entity

unfoldable pub entity_id : Entity → EntityId
entity_id (user u) = u.id
entity_id (message m) = m.id
entity_id (operation o) = o.id

unfoldable pub entity_type : Entity → ℕ
entity_type (user u) = u.typ
entity_type (message m) = m.typ
entity_type (operation o) = o.typ
