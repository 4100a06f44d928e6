-- ===== src/Owner/Profile.antt =====
-- owner/profile.go: the profile with its caches. The locks make each operation one step.
pub mod Caches
use dscuss.Prelude.{
  ℕ, Bool, true, false, List, [], ◌∷◌, ◌++◌, any, ◌==◌, if◌then◌else◌, Option, none, some, Result,
  Outcome, ok, err, fatal, already_moderator, forbidden_operation,
}
use dscuss.Subs.Topic.{Topic}
use dscuss.Subs.Subscriptions
use dscuss.Subs.Subscriptions.{Subscriptions}
use dscuss.Entity.{EntityId}
use dscuss.Sqlite.ProfileDatabase
use dscuss.Sqlite.ProfileDatabase.{ProfileDatabase}

-- `moderators` is none for nil. A nil and an empty `subs` are both []: the code tests for nil only,
-- and what it keeps there is nil when there is no topic.
pub record Profile : Type 0 where
  pub db : ProfileDatabase
  pub moderators : Option (List EntityId)
  pub subs : Subscriptions
  pub self_id : EntityId

unfoldable pub put_moderator : Profile → EntityId → Outcome × Profile
unfolding ProfileDatabase.put_moderator
put_moderator p id =
    if id == p.self_id
    then (err already_moderator, p)
    else let (r, db) = ProfileDatabase.put_moderator p.db id in
      (r, record p { db = db; moderators = none })

unfoldable pub remove_moderator : Profile → EntityId → Outcome × Profile
unfolding ProfileDatabase.remove_moderator
remove_moderator p id =
    if id == p.self_id
    then (err forbidden_operation, p)
    else let (r, db) = ProfileDatabase.remove_moderator p.db id in
      (r, record p { db = db; moderators = none })

-- What `GetModerators` does with its cache: the owner stands last.
abbrev pub cached : Profile → Option (List EntityId) → List EntityId × Profile
unfolding ProfileDatabase.get_moderators
cached p (some ms) = (ms, p)
cached p none =
    let ms = ProfileDatabase.get_moderators p.db ++ p.self_id ∷ [] in
    (ms, record p { moderators = some ms })

unfoldable pub get_moderators : Profile → List EntityId × Profile
get_moderators p = cached p p.moderators

unfoldable pub has_moderator : Profile → EntityId → Bool × Profile
unfolding get_moderators
has_moderator p id =
    let (ms, p') = get_moderators p in
    if id == p.self_id then (true, p) else (any (λ m. m == id) ms, p')

unfoldable pub put_subscription : Profile → Topic → Outcome × Profile
unfolding ProfileDatabase.put_subscription
put_subscription p t =
    let (r, db) = ProfileDatabase.put_subscription p.db t in (r, record p { db = db; subs = [] })

unfoldable pub remove_subscription : Profile → Topic → Outcome × Profile
unfolding ProfileDatabase.remove_subscription
remove_subscription p t =
    let (r, db) = ProfileDatabase.remove_subscription p.db t in (r, record p { db = db; subs = [] })

-- An error of the database is fatal.
abbrev pub loaded : Profile → Result Subscriptions → Result Subscriptions × Profile
loaded p (ok s) = (ok (Subscriptions.copy s), record p { subs = s })
loaded p (err e) = (fatal, p)
loaded p fatal = (fatal, p)

unfoldable pub cached_subs : Profile → Subscriptions → Result Subscriptions × Profile
unfolding ProfileDatabase.get_subscriptions Subscriptions.copy
cached_subs p [] = loaded p (ProfileDatabase.get_subscriptions p.db)
cached_subs p (t ∷ ts) = (ok (Subscriptions.copy (t ∷ ts)), p)

unfoldable pub get_subscriptions : Profile → Result Subscriptions × Profile
unfolding cached_subs
get_subscriptions p = cached_subs p p.subs
