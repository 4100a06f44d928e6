-- ===== src/Peer/Receiving.antt =====
-- p2p/peer/state_receiving.go and errors.go: the data of the state, and the searches through what is
-- pending.
pub mod Verdicts
pub mod Performing
use dscuss.Prelude.{
  ℕ, ◌+◌, ◌-◌, ◌*◌, Bytes, Bool, true, false, not, ◌&&◌, ◌||◌, List, [], ◌∷◌, find, any, ltb, leb,
  ◌==◌, if◌then◌else◌, Option, none, some, Result, Outcome, ok, err, fatal, Error, take,
}
use dscuss.Entity.{EntityId, Time, Duration, Message, User, PrivateKey, Entity, entity_id}
use dscuss.Entity
use dscuss.Entity.Messages.{Readings, max_message_depth}
use dscuss.Env.{Env}
use dscuss.Packet.{Packet}
use dscuss.Storage.{Storage}
use dscuss.Owner.Profile.{Profile}

abbrev pub max_pending_entities_num : ℕ
max_pending_entities_num = (max_message_depth + 2) * 2

-- What the check of a pending entity comes to: a nil error, or the errors of errors.go.
pub data Verdict : Type 0 where
  matched banned skip : Verdict
  need_id : EntityId → Verdict
  ban_sender : Bytes → Verdict
  ban_id : EntityId → Bytes → Verdict

-- What of `Peer` and `Owner` stays the same during the state.
pub record Session : Type 0 where
  -- the peer's user, and the channel of entities to be sent to it
  pub user : User
  pub out_entity_chan : ℕ
  pub owner_id : EntityId
  pub signer : PrivateKey

-- What the state changes: the storage, the caches of the profile, `lastOperTimestamp`, and the
-- packets that went out, the last one first.
pub record World : Type 0 where
  pub storage : Storage
  pub profile : Profile
  pub last_oper : Time
  pub written : List Packet

-- What one turn of the loop gets from outside: the outcome of the write, the packet that is
-- read, and the readings of the clock, those of `PutEntity` one for each entity.
pub record Turn : Type 0 where
  pub sent : Time
  pub write : Outcome
  pub packet : Result Packet
  pub verified : Time
  pub put : ℕ → Time
  pub banning : Readings
  pub banned_at : Time
  pub banning_sender : Readings
  pub sender_banned_at : Time

-- How the state ends: with the next state, with an error, with the ban of the sender, or with the
-- end of the process.
pub data Ended : Type 0 where
  next died : Ended
  failed : Error → Ended
  sender_banned : Bytes → Ended

-- `ID.Shorten`
unfoldable pub shorten : Env → EntityId → Bytes
shorten env id = take 8 (env.base64 id)

unfoldable pub get_pending_entity : List Entity → EntityId → Option Entity
unfolding entity_id
get_pending_entity pending id = find (λ e. entity_id e == id) pending

abbrev pub as_user : Option Entity → Option User
as_user (some (Entity.user u)) = some u
as_user _ = none

abbrev pub as_message : Option Entity → Option Message
as_message (some (Entity.message m)) = some m
as_message _ = none

unfoldable pub get_pending_user : List Entity → EntityId → Option User
unfolding get_pending_entity
get_pending_user pending id = as_user (get_pending_entity pending id)

unfoldable pub get_pending_message : List Entity → EntityId → Option Message
unfolding get_pending_entity
get_pending_message pending id = as_message (get_pending_entity pending id)

-- Another message of the same author within the time: one of the two differences is 0.
abbrev pub is_near : Message → Duration → Entity → Bool
is_near m diff (Entity.message e) =
    not (e.id == m.id)
    && ((e.author_id == m.author_id)
        && ltb ((e.date_written - m.date_written) + (m.date_written - e.date_written)) diff)
is_near m diff _ = false

abbrev pub id_of : Option Entity → Option EntityId
unfolding entity_id
id_of none = none
id_of (some e) = some (entity_id e)

unfoldable pub get_near_pending_message_id : List Entity → Message → Duration → Option EntityId
get_near_pending_message_id pending m diff = id_of (find (is_near m diff) pending)

abbrev pub is_present {ℓ} : {A : Type ℓ} → Option A → Bool
is_present none = false
is_present (some a) = true
