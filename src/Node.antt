-- ===== src/Node.antt =====
-- dscuss.go: what a user who is logged in does. A function that only passes its arguments on to
-- another one of this library is that function.
pub mod Replying
pub mod Listing
pub mod Login
use dscuss.Prelude.{
  ℤ, pos, negsuc, ℕ, Bytes, Bool, true, false, List, Option, none, some, Result, Outcome, ok, err,
  fatal, wrong_arguments, msg_depth_exceeded, no_such_user, ltb, leb, if◌then◌else◌,
}
use dscuss.Entity.{EntityId, Time, Message, Operation, User, PrivateKey, Entity, zero_id}
use dscuss.Entity
use dscuss.Entity.Messages.{Readings, emerge_message, max_message_depth}
use dscuss.Entity.Operations.{emerge_operation}
use dscuss.Subs.Topic.{Topic, nil}
use dscuss.Thread
use dscuss.Env.{Env}
use dscuss.Sqlite.{EntityDatabase, has_user}
use dscuss.Sqlite.MessageTable.{get_message}
use dscuss.Sqlite.MessageQueries.{get_root_messages, get_topic_messages}
use dscuss.Sqlite.Threads.{get_thread}
use dscuss.Storage.{Storage, put_entity, get_message_depth}
use dscuss.Owner.Profile.{Profile, put_moderator}
use dscuss.Owner.View.{moderate_messages, moderate_thread}

-- `LoginHandle` with its owner, and the times of the last message and of the last operation.
pub record LoginHandle : Type 0 where
  pub user : User
  pub signer : PrivateKey
  pub storage : Storage
  pub profile : Profile
  pub last_msg : Time
  pub last_oper : Time

abbrev pub with_message : LoginHandle → Result Message × Time → Result Message × LoginHandle
with_message lh (r, last) = (r, record lh { last_msg = last })

unfoldable pub new_thread :
    Env → LoginHandle → Readings → Bytes → Bytes → Topic → Result Message × LoginHandle
unfolding emerge_message
new_thread env lh now subj text topic =
    with_message lh
      (emerge_message env lh.last_msg now subj text lh.user.id zero_id lh.signer topic)

-- A nil topic is given to a reply. None stands for a search for the depth that still runs.
unfoldable pub reply_at :
    Env
    → LoginHandle
    → Readings
    → Bytes
    → Bytes
    → EntityId
    → Option (Result ℕ)
    → Option (Result Message × LoginHandle)
unfolding emerge_message
reply_at env lh now subj text parent_id none = none
reply_at env lh now subj text parent_id (some (err e)) = some (err e, lh)
reply_at env lh now subj text parent_id (some fatal) = some (fatal, lh)
reply_at env lh now subj text parent_id (some (ok d)) =
    if leb max_message_depth d
    then some (err msg_depth_exceeded, lh)
    else some (
        with_message lh
          (emerge_message env lh.last_msg now subj text lh.user.id parent_id lh.signer nil))

unfoldable pub reply_to :
    Env
    → LoginHandle
    → ℕ
    → Readings
    → Bytes
    → Bytes
    → EntityId
    → Result Message
    → Option (Result Message × LoginHandle)
unfolding reply_at get_message_depth
reply_to env lh fuel now subj text parent_id (ok p) =
    reply_at env lh now subj text parent_id (get_message_depth env lh.storage.db fuel p)
reply_to env lh fuel now subj text parent_id (err e) = some (err e, lh)
reply_to env lh fuel now subj text parent_id fatal = some (fatal, lh)

unfoldable pub new_reply :
    Env
    → LoginHandle
    → ℕ
    → Readings
    → Bytes
    → Bytes
    → EntityId
    → Option (Result Message × LoginHandle)
unfolding reply_to get_message
new_reply env lh fuel now subj text parent_id =
    reply_to env lh fuel now subj text parent_id (get_message env lh.storage.db parent_id)

unfoldable pub new_operation :
    Env → LoginHandle → Readings → ℕ → ℕ → Bytes → EntityId → Result Operation × LoginHandle
unfolding emerge_operation
new_operation env lh now typ reason comment object_id =
    let (r, last) =
      emerge_operation env lh.last_oper now typ reason comment lh.user.id object_id lh.signer in
    (r, record lh { last_oper = last })

unfoldable pub post_entity : LoginHandle → Entity → Time → Outcome × LoginHandle
unfolding put_entity
post_entity lh e now =
    let (r, st) = put_entity lh.storage e none now in (r, record lh { storage = st })

unfoldable pub moderated :
    Env → LoginHandle → Result (List Message) → Result (List Message) × LoginHandle
unfolding moderate_messages
moderated env lh (ok mm) =
    let (r, p) = moderate_messages env lh.storage.db lh.profile mm in (r, record lh { profile = p })
moderated env lh (err e) = (err e, lh)
moderated env lh fatal = (fatal, lh)

unfoldable pub page :
    Env
    → LoginHandle
    → ℤ
    → ℤ
    → (ℕ → ℕ → Result (List Message))
    → Result (List Message) × LoginHandle
unfolding moderated
page env lh (pos offset) (pos limit) get = moderated env lh (get offset limit)
page env lh _ _ get = (err wrong_arguments, lh)

unfoldable pub list_board : Env → LoginHandle → ℤ → ℤ → Result (List Message) × LoginHandle
unfolding page get_root_messages
list_board env lh offset limit = page env lh offset limit (get_root_messages env lh.storage.db)

unfoldable pub list_topic : Env → LoginHandle → Topic → ℤ → ℤ → Result (List Message) × LoginHandle
unfolding page get_topic_messages
list_topic env lh topic offset limit =
    page env lh offset limit (get_topic_messages env lh.storage.db topic)

unfoldable pub moderated_thread :
    Env
    → LoginHandle
    → Option (Result Thread.Node)
    → Option (Result (Option Thread.Node) × LoginHandle)
unfolding moderate_thread
moderated_thread env lh none = none
moderated_thread env lh (some (ok t)) =
    let (r, p) = moderate_thread env lh.storage.db lh.profile t in
    some (r, record lh { profile = p })
moderated_thread env lh (some (err e)) = some (err e, lh)
moderated_thread env lh (some fatal) = some (fatal, lh)

unfoldable pub list_thread :
    Env → LoginHandle → ℕ → EntityId → Option (Result (Option Thread.Node) × LoginHandle)
unfolding moderated_thread get_thread
list_thread env lh fuel id = moderated_thread env lh (get_thread env lh.storage.db fuel id)

abbrev pub with_profile : LoginHandle → Outcome × Profile → Outcome × LoginHandle
with_profile lh (r, p) = (r, record lh { profile = p })

unfoldable pub add_moderator : LoginHandle → EntityId → Outcome × LoginHandle
unfolding has_user put_moderator
add_moderator lh id =
    if has_user lh.storage.db id
    then with_profile lh (put_moderator lh.profile id)
    else (err no_such_user, lh)
