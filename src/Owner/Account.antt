-- ===== src/Owner/Account.antt =====
-- owner/owner.go: registering a user, and opening the data of a registered one. A directory stands
-- for its files, under the nickname that it is named by.
pub mod Opening
pub mod Registering
use dscuss.Prelude.{
  ℕ, Bytes, bytes_eq, Bool, true, false, find, List, [], ◌∷◌, ◌++◌, if◌then◌else◌, Option, none,
  some, Result, Outcome, ok, err, fatal, wrong_nickname, already_registered, filesystem, internal,
  database, no_such_user,
}
use dscuss.Subs.Subscriptions.{Subscriptions}
use dscuss.Entity.{EntityId, Time, PrivateKey, User, Entity}
use dscuss.Entity.Users.{emerge_user}
use dscuss.Env.{Env}
use dscuss.Crypto.Keys.{KeyCodec, encode_to_pem, parse_private_key_from_pem}
use dscuss.Sqlite
use dscuss.Sqlite.{EntityDatabase, get_user}
use dscuss.Sqlite.ProfileDatabase.{ProfileDatabase}
use dscuss.Storage.{Storage, put_entity}
use dscuss.Owner.Profile.{Profile, put_subscription}

-- The files of a user directory; a database that is not there is opened as an empty one.
pub record UserDir : Type 0 where
  pub name : Bytes
  pub priv_key : Option Bytes
  pub entity_db : EntityDatabase
  pub profile_db : ProfileDatabase

pub record Owner : Type 0 where
  pub user : User
  pub storage : Storage
  pub profile : Profile
  pub signer : PrivateKey

abbrev pub empty_profile : ProfileDatabase
empty_profile = record {
  moderator_rows = [];
  topic_rows = [];
  history_rows = [];
  user_topic_rows = [];
}

unfoldable pub new_dir : Bytes → UserDir
new_dir nickname = record {
  name = nickname;
  priv_key = none;
  entity_db = Sqlite.empty;
  profile_db = empty_profile;
}

-- `storage.New`: no observers, so no channel is ever sent to.
unfoldable pub new_storage : EntityDatabase → Storage
new_storage db = record { db = db; observers = []; queue = λ c. []; capacity = λ c. 0 }

-- `NewProfile`
unfoldable pub new_profile : ProfileDatabase → EntityId → Profile
new_profile db self_id = record { db = db; moderators = none; subs = []; self_id = self_id }

-- What the calls of the system and the search for a proof of work give to `Register`: none is a key
-- that could not be made, and a search that failed; and two readings of the clock.
pub record Given : Type 0 where
  pub mkdir_fails : Bool
  pub key : Option PrivateKey
  pub write_fails : Bool
  pub proof : Option ℕ
  pub now : Time
  pub stored : Time

unfoldable pub find_dir : List UserDir → Bytes → Option UserDir
find_dir disk nickname = find (λ d. bytes_eq d.name nickname) disk

-- The loop over the topics.
unfoldable pub put_subscriptions : Profile → Subscriptions → Outcome × Profile
unfolding put_subscription
put_subscriptions p [] = (ok tt, p)
put_subscriptions p (t ∷ ts) =
    let (r, p') = put_subscription p t in
    elim r [ ok u ↦ put_subscriptions p' ts | err e ↦ (err e, p') | fatal ↦ (fatal, p') ]

abbrev pub with_profile : UserDir → Outcome × Profile → Outcome × UserDir
with_profile d (r, p) = (r, record d { profile_db = p.db })

-- After the user is stored.
abbrev pub subscribe_in : Subscriptions → UserDir → EntityId → Outcome × Storage → Outcome × UserDir
unfolding put_subscriptions new_profile
subscribe_in subs d uid (ok u, s) =
    with_profile (record d { entity_db = s.db })
      (put_subscriptions (new_profile d.profile_db uid) subs)
subscribe_in subs d uid (err e, s) = (err database, record d { entity_db = s.db })
subscribe_in subs d uid (fatal, s) = (fatal, record d { entity_db = s.db })

-- After `EmergeUser`.
abbrev pub store_user : Subscriptions → UserDir → Time → Result User → Outcome × UserDir
unfolding subscribe_in put_entity new_storage
store_user subs d stored (ok u) =
    subscribe_in subs d u.id (put_entity (new_storage d.entity_db) (Entity.user u) none stored)
store_user subs d stored (err e) = (err e, d)
store_user subs d stored fatal = (fatal, d)

abbrev pub emerge_in :
    Env
    → Given
    → Bytes
    → Bytes
    → Subscriptions
    → UserDir
    → PrivateKey
    → Option ℕ
    → Outcome × UserDir
unfolding store_user emerge_user
emerge_in env g nickname info subs d k none = (fatal, d)
emerge_in env g nickname info subs d k (some proof) =
    store_user subs d g.stored (emerge_user env nickname info proof k g.now)

-- What `Register` does in the directory that it has made.
abbrev pub set_up :
    KeyCodec
    → Env
    → Given
    → Bytes
    → Bytes
    → Subscriptions
    → UserDir
    → Option PrivateKey
    → Outcome × UserDir
unfolding emerge_in encode_to_pem
set_up c env g nickname info subs d none = (err internal, d)
set_up c env g nickname info subs d (some k) =
    if g.write_fails
    then (err filesystem, d)
    else emerge_in env g nickname info subs (record d { priv_key = some (encode_to_pem c k) }) k
        g.proof

abbrev pub is_empty : Bytes → Bool
is_empty [] = true
is_empty (c ∷ s) = false

abbrev pub make_dir :
    List UserDir → Given → Outcome × UserDir → Option UserDir → Outcome × List UserDir
make_dir disk g made (some d) = (err already_registered, disk)
make_dir disk g (r, made) none =
    if g.mkdir_fails then (err filesystem, disk) else (r, disk ++ made ∷ [])

unfoldable pub register :
    KeyCodec → Env → Given → List UserDir → Bytes → Bytes → Subscriptions → Outcome × List UserDir
unfolding set_up new_dir find_dir
register c env g disk nickname info subs =
    if is_empty nickname
    then (err wrong_nickname, disk)
    else make_dir disk g (set_up c env g nickname info subs (new_dir nickname) g.key)
        (find_dir disk nickname)

unfoldable pub owner_of : UserDir → PrivateKey → Result User → Result Owner
unfolding new_storage new_profile
owner_of d k (ok u) = ok (record {
  user = u;
  storage = new_storage d.entity_db;
  profile = new_profile d.profile_db u.id;
  signer = k;
})
owner_of d k (err e) = err e
owner_of d k fatal = fatal

unfoldable pub with_key : Env → UserDir → Result PrivateKey → Result Owner
unfolding owner_of get_user
with_key env d (ok k) = owner_of d k (get_user env d.entity_db (env.sha256 (env.public k)))
with_key env d (err e) = err e
with_key env d fatal = fatal

unfoldable pub read_key : KeyCodec → Option Bytes → Result PrivateKey
unfolding parse_private_key_from_pem
read_key c none = err filesystem
read_key c (some encoded) = parse_private_key_from_pem c encoded

unfoldable pub open_in : KeyCodec → Env → Option UserDir → Result Owner
unfolding with_key read_key
open_in c env none = err no_such_user
open_in c env (some d) = with_key env d (read_key c d.priv_key)

-- `New`
unfoldable pub new : KeyCodec → Env → List UserDir → Bytes → Result Owner
unfolding open_in find_dir
new c env disk nickname = open_in c env (find_dir disk nickname)
