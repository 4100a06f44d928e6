-- ===== src/Peer/Interest.antt =====
-- p2p/peer/peer.go: which entities a peer is interested in.
pub mod History
use dscuss.Prelude.{
  ℕ, Bool, true, false, List, [], ◌∷◌, ltb, ◌==◌, if◌then◌else◌, Option, none, some, Result, ok,
  err, fatal,
}
use dscuss.Subs.Subscriptions
use dscuss.Subs.Subscriptions.{Subscriptions, covers}
use dscuss.Entity.{EntityId, Time, Message, User, UserHistory, Entity}
use dscuss.Entity
use dscuss.Entity.Messages.{is_reply}
use dscuss.Entity.Operations.{type_ban_user}
use dscuss.Env.{Env}
use dscuss.Sqlite.{EntityDatabase}
use dscuss.Sqlite.MessageTable.{get_message}
use dscuss.Storage.{get_root}

-- What a node knows of the peer after the handshake: `User`, `Subs` and `hist` of `Peer`.
pub record Known : Type 0 where
  pub user : User
  pub subs : Subscriptions
  pub hist : Option UserHistory

-- An error of the database is fatal; none stands for a search for the root that still runs.
abbrev pub covers_root : Subscriptions → Option (Result Message) → Option (Result Bool)
covers_root s none = none
covers_root s (some (ok r)) = some (ok (covers s r.topic))
covers_root s (some (err e)) = some fatal
covers_root s (some fatal) = some fatal

-- `isInterestedInMessage`, with at most `fuel` turns of the search for the root.
unfoldable pub is_interested_in_message :
    Env → EntityDatabase → ℕ → Subscriptions → Message → Option (Result Bool)
unfolding is_reply get_root covers
is_interested_in_message env db fuel s m =
    if is_reply m then covers_root s (get_root env db fuel m) else some (ok (covers s m.topic))

abbrev pub is_interested_in_object :
    Env → EntityDatabase → ℕ → Subscriptions → Result Message → Option (Result Bool)
unfolding is_interested_in_message
is_interested_in_object env db fuel s (ok m) = is_interested_in_message env db fuel s m
is_interested_in_object env db fuel s (err e) = some fatal
is_interested_in_object env db fuel s fatal = some fatal

-- What the peer may still want of the entities stored at that time. Entities that were stored before
-- it was last disconnected are wanted by new subscriptions only.
abbrev pub wanted_subs : Known → Time → Subscriptions
unfolding Subscriptions.diff
wanted_subs k stored = elim k.hist [
  | none ↦ k.subs
  | some h ↦ if ltb stored h.disconnected then Subscriptions.diff k.subs h.subs else k.subs
]

-- The part of `isInterestedInEntity` after the subscriptions are chosen; nil ones cover nothing.
unfoldable pub is_interested_by :
    Env → EntityDatabase → ℕ → Subscriptions → Entity → Option (Result Bool)
unfolding is_interested_in_message is_interested_in_object get_message
is_interested_by env db fuel [] ent = some (ok false)
is_interested_by env db fuel (t ∷ ts) (Entity.message m) =
    is_interested_in_message env db fuel (t ∷ ts) m
is_interested_by env db fuel (t ∷ ts) (Entity.operation o) =
    let object = is_interested_in_object env db fuel (t ∷ ts) (get_message env db o.object_id) in
    if o.operation_type == type_ban_user then some (ok true) else object
is_interested_by env db fuel (t ∷ ts) (Entity.user u) = some (ok false)

unfoldable pub is_interested_in_entity :
    Env → EntityDatabase → ℕ → Known → Entity → Time → Option (Result Bool)
unfolding wanted_subs is_interested_by
is_interested_in_entity env db fuel k ent stored =
    is_interested_by env db fuel (wanted_subs k stored) ent
