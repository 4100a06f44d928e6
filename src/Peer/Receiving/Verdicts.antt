-- ===== src/Peer/Receiving/Verdicts.antt =====
-- p2p/peer/state_receiving.go: the checks of the pending entities.
pub mod Accepted
use dscuss.Prelude.{
  ℕ, Bytes, codes, Bool, true, false, not, ◌&&◌, ◌||◌, List, [], ◌∷◌, ◌++◌, ltb, ◌==◌,
  if◌then◌else◌, Option, none, some, Result, ok, err, fatal, is_no_such_entity,
}
use dscuss.Entity.{EntityId, is_zero, Message, Operation, User, PublicKey, Entity}
use dscuss.Entity
use dscuss.Entity.Messages
use dscuss.Entity.Messages.{min_message_post_delay}
use dscuss.Entity.Operations
use dscuss.Entity.Operations.{type_ban_user}
use dscuss.Entity.Users.{is_user_valid}
use dscuss.Subs.Subscriptions.{Subscriptions, covers}
use dscuss.Env.{Env}
use dscuss.Sqlite.{EntityDatabase, get_user}
use dscuss.Sqlite.MessageTable.{has_message}
use dscuss.Sqlite.MessageQueries.{get_near_message_id}
use dscuss.Storage.{has_entity}
use dscuss.Owner.Profile.{Profile, get_subscriptions}
use dscuss.Owner.View.{is_user_banned}
use dscuss.Peer.Receiving.{
  Verdict, matched, banned, skip, need_id, ban_sender, ban_id, shorten, get_pending_entity,
  get_pending_user, get_pending_message, get_near_pending_message_id, is_present,
}

-- A verdict, or the end of the process, and the profile with its caches.
abbrev pub Checked : Type 0
Checked = Result Verdict × Profile

-- What each check does with the answer of `IsUserBanned`; an error is fatal.
abbrev pub unless_user_banned : Result Bool × Profile → (Profile → Checked) → Checked
unless_user_banned (ok true, p) k = (ok banned, p)
unless_user_banned (ok false, p) k = k p
unless_user_banned (err e, p) k = (fatal, p)
unless_user_banned (fatal, p) k = (fatal, p)

-- The user that is pending, or the one of the database; without either, it is needed.
abbrev pub with_stored : EntityId → Profile → Result User → (User → Checked) → Checked
with_stored id p (ok u) k = k u
with_stored id p (err e) k = if is_no_such_entity e then (ok (need_id id), p) else (fatal, p)
with_stored id p fatal k = (fatal, p)

abbrev pub with_author : EntityId → Profile → Option User → Result User → (User → Checked) → Checked
with_author id p (some u) stored k = k u
with_author id p none stored k = with_stored id p stored k

-- What the checks do with the answer of `IsSigValid`.
abbrev pub if_signed : Bytes → Profile → Result Bool → Checked → Checked
if_signed comment p (ok true) next = next
if_signed comment p (ok false) next = (ok (ban_sender comment), p)
if_signed comment p (err e) next = (fatal, p)
if_signed comment p fatal next = (fatal, p)

unfoldable pub check_user : Env → EntityDatabase → Profile → User → Checked
unfolding is_user_valid is_user_banned shorten
check_user env db p u =
    if_signed (codes "peer sent malformed user " ++ shorten env u.id) p (is_user_valid env u)
      (unless_user_banned (is_user_banned env db p u.id) (λ q. (ok matched, q)))

abbrev pub or_else : Option EntityId → Option EntityId → Option EntityId
or_else (some a) b = some a
or_else none b = b

-- A root message must be subscribed to.
unfoldable pub if_covered : Env → Message → Result Subscriptions × Profile → Checked
unfolding covers shorten
if_covered env m (ok s, p) =
    if covers s m.topic
    then (ok matched, p)
    else (ok (ban_sender (codes "peer sent unsolicited message " ++ shorten env m.id)), p)
if_covered env m (err e, p) = (fatal, p)
if_covered env m (fatal, p) = (fatal, p)

-- The end of `checkMessage`: the root is subscribed to, or the parent is there.
unfoldable pub check_parent : Env → EntityDatabase → Profile → List Entity → Message → Checked
unfolding is_zero get_subscriptions has_message get_pending_message if_covered
check_parent env db p pending m =
    if is_zero m.parent_id
    then if_covered env m (get_subscriptions p)
    else if has_message db m.parent_id || is_present (get_pending_message pending m.parent_id)
    then (ok matched, p)
    else (ok (need_id m.parent_id), p)

abbrev pub if_not_near : Env → Message → Profile → Option EntityId → Checked → Checked
if_not_near env m p none next = next
if_not_near env m p (some near) next = (
  ok (
      ban_id m.author_id (
        env.base64 m.id
        ++ codes " and "
        ++ env.base64 near
        ++ codes " violate the limit of the message post rate")),
  p,
)

-- The part of `checkMessage` after the signature.
unfoldable pub check_post : Env → EntityDatabase → Profile → List Entity → Message → User → Checked
unfolding get_near_message_id get_near_pending_message_id check_parent
check_post env db p pending m u =
    if ltb m.date_written u.reg_date
    then (ok (ban_id u.id (codes "RegDate is less than timestamp of " ++ env.base64 m.id)), p)
    else if_not_near env m p
        (or_else (get_near_message_id db m min_message_post_delay)
          (get_near_pending_message_id pending m min_message_post_delay))
        (check_parent env db p pending m)

-- The part of `checkMessage` after the author is known.
unfoldable pub check_message_of :
    Env → EntityDatabase → Profile → List Entity → Message → User → Checked
unfolding Messages.is_sig_valid check_post shorten
check_message_of env db p pending m u =
    if_signed (codes "peer sent message " ++ shorten env m.id ++ codes " with invalid signature") p
      (Messages.is_sig_valid env m u.pub_key) (check_post env db p pending m u)

unfoldable pub check_message : Env → EntityDatabase → Profile → List Entity → Message → Checked
unfolding Messages.is_unsigned_part_valid is_user_banned get_pending_user get_user check_message_of
    shorten
check_message env db p pending m =
    if not (Messages.is_unsigned_part_valid env m)
    then (ok (ban_sender (codes "peer sent malformed message " ++ shorten env m.id)), p)
    else unless_user_banned (is_user_banned env db p m.author_id) (λ q.
      with_author m.author_id q (get_pending_user pending m.author_id) (get_user env db m.author_id)
        (λ u. check_message_of env db q pending m u))

-- The end of `checkOperation`: the object is there, or is asked for.
unfoldable pub check_object : EntityDatabase → Profile → List Entity → Operation → Checked
unfolding get_pending_entity has_entity
check_object db p pending o =
    if is_present (get_pending_entity pending o.object_id) || has_entity db o.object_id
    then (ok matched, p)
    else if o.operation_type == type_ban_user
    then (ok skip, p)
    else (ok (need_id o.object_id), p)

unfoldable pub check_operation : Env → EntityDatabase → Profile → List Entity → Operation → Checked
unfolding Operations.is_unsigned_part_valid Operations.is_sig_valid is_user_banned get_pending_user
    get_user check_object shorten
check_operation env db p pending o =
    if not (Operations.is_unsigned_part_valid env o)
    then (ok (ban_sender (codes "peer sent malformed operation " ++ shorten env o.id)), p)
    else unless_user_banned (is_user_banned env db p o.author_id) (λ q.
      with_author o.author_id q (get_pending_user pending o.author_id) (get_user env db o.author_id)
        (λ u.
          if_signed
            (codes "peer sent operation " ++ shorten env o.id ++ codes " with invalid signature") q
            (Operations.is_sig_valid env o u.pub_key) (check_object db q pending o)))

unfoldable pub check_entity : Env → EntityDatabase → Profile → List Entity → Entity → Checked
unfolding check_user check_message check_operation
check_entity env db p pending (Entity.user u) = check_user env db p u
check_entity env db p pending (Entity.message m) = check_message env db p pending m
check_entity env db p pending (Entity.operation o) = check_operation env db p pending o

-- The loop of `checkPendingEntities`: it ends at the first entity that does not match.
unfoldable pub check_each : Env → EntityDatabase → Profile → List Entity → List Entity → Checked
unfolding check_entity
check_each env db p pending [] = (ok matched, p)
check_each env db p pending (e ∷ es) =
    let (r, q) = check_entity env db p pending e in
    elim r [ ok matched ↦ check_each env db q pending es | v ↦ (v, q) ]

unfoldable pub check_pending_entities : Env → EntityDatabase → Profile → List Entity → Checked
unfolding check_each shorten
check_pending_entities env db p [] = (fatal, p)
check_pending_entities env db p (Entity.user u ∷ es) =
    (ok (ban_sender (codes "peer advertised a user entity " ++ shorten env u.id)), p)
check_pending_entities env db p (e ∷ es) = check_each env db p (e ∷ es) (e ∷ es)
