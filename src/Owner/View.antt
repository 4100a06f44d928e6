-- ===== src/Owner/View.antt =====
-- owner/view.go: the operations of the owner's moderators, applied to users and messages.
pub mod Moderation
pub mod Pruning
pub mod Asking
use dscuss.Prelude.{
  ℕ, Bool, true, false, List, [], ◌∷◌, ◌==◌, if◌then◌else◌, Option, none, some, Result, ok, err,
  fatal,
}
use dscuss.Entity.{EntityId, Message, Operation}
use dscuss.Entity.Operations.{type_remove_message, type_ban_user}
use dscuss.Thread.{Node, ModeratingHandler, msg, moderate}
use dscuss.Env.{Env}
use dscuss.Sqlite.{EntityDatabase}
use dscuss.Sqlite.OperationTable.{get_operations_on_user, get_operations_on_message}
use dscuss.Owner.Profile.{Profile, has_moderator}

-- The loop of `IsUserBanned`.
unfoldable pub find_ban : Profile → List Operation → Result Bool × Profile
unfolding has_moderator
find_ban p [] = (ok false, p)
find_ban p (o ∷ os) =
    let (is_moder, p') = has_moderator p o.author_id in
    let rest = find_ban p' os in
    if is_moder
    then (if o.operation_type == type_ban_user then (ok true, p') else (fatal, p'))
    else rest

abbrev pub ban_among : Profile → Result (List Operation) → Result Bool × Profile
ban_among p (ok ops) = find_ban p ops
ban_among p (err e) = (err e, p)
ban_among p fatal = (fatal, p)

unfoldable pub is_user_banned : Env → EntityDatabase → Profile → EntityId → Result Bool × Profile
unfolding find_ban
is_user_banned env db p uid = ban_among p (get_operations_on_user env db uid)

-- The loop of `ModerateMessage`, with `applyOperationToMessage`; none is a nil message.
unfoldable pub apply_operations :
    Profile → Message → List Operation → Result (Option Message) × Profile
unfolding has_moderator
apply_operations p m [] = (ok (some m), p)
apply_operations p m (o ∷ os) =
    let (is_moder, p') = has_moderator p o.author_id in
    let rest = apply_operations p' m os in
    if is_moder
    then (if o.operation_type == type_remove_message then (ok none, p') else (fatal, p'))
    else rest

abbrev pub applied : Profile → Message → Result (List Operation) → Result (Option Message) × Profile
applied p m (ok ops) = apply_operations p m ops
applied p m (err e) = (err e, p)
applied p m fatal = (fatal, p)

abbrev pub unless_banned :
    Env → EntityDatabase → Message → Result Bool × Profile → Result (Option Message) × Profile
unless_banned env db m (ok true, p) = (ok none, p)
unless_banned env db m (ok false, p) = applied p m (get_operations_on_message env db m.id)
unless_banned env db m (err e, p) = (err e, p)
unless_banned env db m (fatal, p) = (fatal, p)

unfoldable pub moderate_message :
    Env → EntityDatabase → Profile → Message → Result (Option Message) × Profile
unfolding is_user_banned apply_operations
moderate_message env db p m = unless_banned env db m (is_user_banned env db p m.author_id)

abbrev pub kept : Option Message → List Message → List Message
kept none ms = ms
kept (some m) ms = m ∷ ms

abbrev with_first :
    Option Message → Result (List Message) × Profile → Result (List Message) × Profile
with_first m (ok ms, p) = (ok (kept m ms), p)
with_first m (err e, p) = (err e, p)
with_first m (fatal, p) = (fatal, p)

unfoldable pub moderate_messages :
    Env → EntityDatabase → Profile → List Message → Result (List Message) × Profile
unfolding moderate_message
moderate_messages env db p [] = (ok [], p)
moderate_messages env db p (m ∷ brd) =
    let (r, p') = moderate_message env db p m in
    elim r [
      | ok mm ↦ with_first mm (moderate_messages env db p' brd)
      | err e ↦ (err e, p')
      | fatal ↦ (fatal, p')
    ]

-- `ThreadModerator.Handle`, with the profile as its state.
abbrev pub handle : Env → EntityDatabase → ModeratingHandler Profile
handle env db n p = moderate_message env db p (msg n)

unfoldable pub moderate_thread :
    Env → EntityDatabase → Profile → Node → Result (Option Node) × Profile
unfolding moderate
moderate_thread env db p t = moderate (handle env db) t p
