-- ===== src/Owner/Account/Registering.antt =====
-- What a registration does to the user directories.
use dscuss.Prelude.{
  ℕ, ◌≡◌, refl, sym, ap, ◌∙◌, Bytes, bytes_eq, bytes_eq_refl, Bool, true, false, all,
  find-append_none, find-none, List, [], ◌∷◌, ◌++◌, Option, none, some, Result, Outcome, ok, err,
  fatal, wrong_nickname, filesystem, already_registered, arith, Bool-cases, inl, inr, if◌then◌else◌,
}
use dscuss.Subs.Subscriptions.{Subscriptions}
use dscuss.Entity.{EntityId, Time, User, PrivateKey, Entity}
use dscuss.Entity.Users.{
  new_unsigned_user, new_user_content, is_nickname_valid, emerge_user, is_unsigned_user_valid,
}
use dscuss.Env.{Env, IsLawful}
use dscuss.Storage.{Storage, put_entity}
use dscuss.Crypto.Keys.{KeyCodec, Decodes, encode_to_pem}
use dscuss.Owner.Account.{
  Owner, UserDir, Given, new_dir, find_dir, subscribe_in, store_user, emerge_in, set_up, register,
  new, open_in, new_storage, is_empty,
}
use dscuss.Owner.Account.Opening.{is_proper, IsRegistered, set_up-Opened}

-- Each step leaves the name of the directory.
subscribe_in-name :
    (subs : Subscriptions) (d : UserDir) (uid : EntityId) (r : Outcome × Storage)
    → (subscribe_in subs d uid r).1.name ≡ d.name
unfolding subscribe_in
subscribe_in-name subs d uid (ok u, s) = refl
subscribe_in-name subs d uid (err e, s) = refl
subscribe_in-name subs d uid (fatal, s) = refl

store_user-name :
    (subs : Subscriptions) (d : UserDir) (stored : Time) (r : Result User)
    → (store_user subs d stored r).1.name ≡ d.name
unfolding store_user
store_user-name subs d stored (ok u) =
    subscribe_in-name subs d u.id (put_entity (new_storage d.entity_db) (Entity.user u) none stored)
store_user-name subs d stored (err e) = refl
store_user-name subs d stored fatal = refl

module _ (c : KeyCodec) (env : Env) (g : Given) (nickname info : Bytes) (subs : Subscriptions) where
  emerge_in-name :
      (d : UserDir) (k : PrivateKey) (proof : Option ℕ)
      → (emerge_in env g nickname info subs d k proof).1.name ≡ d.name
  unfolding emerge_in
  emerge_in-name d k none = refl
  emerge_in-name d k (some proof) =
      store_user-name subs d g.stored (emerge_user env nickname info proof k g.now)

  set_up-name :
      (key : Option PrivateKey)
      → (set_up c env g nickname info subs (new_dir nickname) key).1.name ≡ nickname
  unfolding set_up new_dir
  set_up-name none = refl
  set_up-name (some k) = unless_failed g.write_fails
    where
      keyed : UserDir
      keyed = record (new_dir nickname) { priv_key = some (encode_to_pem c k) }

      unless_failed :
          (fails : Bool)
          → (if fails
              then (err filesystem, new_dir nickname)
              else emerge_in env g nickname info subs keyed k g.proof).1.name
            ≡ nickname
      unless_failed true = refl
      unless_failed false = emerge_in-name keyed k g.proof

  abbrev made : UserDir
  unfolding set_up
  made = (set_up c env g nickname info subs (new_dir nickname) g.key).1

  made_found :
      (disk : List UserDir)
      → find_dir disk nickname ≡ none
      → find_dir (disk ++ made ∷ []) nickname ≡ some made
  unfolding find_dir made
  made_found disk absent =
      find-append_none (λ d. bytes_eq d.name nickname) disk (made ∷ [])
        (find-none (λ d. bytes_eq d.name nickname) disk absent)
      ∙ rw (set_up-name g.key, bytes_eq_refl nickname) refl

  -- What a registration does that begins: the nickname is not empty, there is no directory of that
  -- name, and one can be made.
  register-begun :
      (disk : List UserDir)
      → is_empty nickname ≡ false
      → find_dir disk nickname ≡ none
      → g.mkdir_fails ≡ false
      → register c env g disk nickname info subs
        ≡ ((set_up c env g nickname info subs (new_dir nickname) g.key).0, disk ++ made ∷ [])
  unfolding register made
  register-begun disk named absent made_dir = rw (named, absent, made_dir) refl

  -- A registration that succeeds has begun.
  register-ok :
      (disk : List UserDir)
      → (register c env g disk nickname info subs).0 ≡ ok tt
      → (is_empty nickname ≡ false) × (find_dir disk nickname ≡ none) × (g.mkdir_fails ≡ false)
  unfolding register
  register-ok disk h = elim (Bool-cases (is_empty nickname)) [
    | inl empty ↦ absurd (ground arith)
    | inr named ↦ given (find_dir disk nickname) refl
  ]
    where
      given :
          (d : Option UserDir)
          → find_dir disk nickname ≡ d
          → (is_empty nickname ≡ false) × (find_dir disk nickname ≡ none) × (g.mkdir_fails ≡ false)
      given (some d) e = absurd (ground arith)
      given none e = ground arith

  register-known :
      (disk : List UserDir) (d : UserDir)
      → is_empty nickname ≡ false
      → find_dir disk nickname ≡ some d
      → register c env g disk nickname info subs ≡ (err already_registered, disk)
  unfolding register
  register-known disk d named known = rw (named, known) refl

  set_up-wrong :
      (k : PrivateKey) (proof : ℕ)
      → is_nickname_valid nickname ≡ false
      → g.key ≡ some k
      → g.write_fails ≡ false
      → g.proof ≡ some proof
      → (set_up c env g nickname info subs (new_dir nickname) g.key).0 ≡ err wrong_nickname
  unfolding set_up emerge_in emerge_user store_user new_unsigned_user new_user_content
  set_up-wrong k proof bad key written found =
      let uu = new_unsigned_user env nickname info (env.public k) proof g.now in
      let wrong : is_unsigned_user_valid env uu ≡ false =
        unfold is_unsigned_user_valid in ground arith in
      rw (key, written, found, wrong) refl

-- After a registration that succeeds, with topics that have valid tags, the owner's data open. The user has the nickname and the info
-- that were given, its packet is valid, the signer is the key that was made, and the subscriptions
-- are those that were given. It needs the codecs of the key file, and ECDSA on its own signatures.
pub new-register :
    (c : KeyCodec) (decodes : Decodes c) (env : Env) (lawful : IsLawful env) (g : Given)
    (disk : List UserDir) (nickname info : Bytes) (subs : Subscriptions) (k : PrivateKey)
    → all is_proper subs ≡ true
    → g.key ≡ some k
    → (register c env g disk nickname info subs).0 ≡ ok tt
    → (o : Owner) × (new c env (register c env g disk nickname info subs).1 nickname ≡ ok o)
      × IsRegistered env k nickname info subs o
unfolding new made
new-register c decodes env lawful g disk nickname info subs k proper made h =
    let (named, absent, dir) = register-ok c env g nickname info subs disk h in
    let e = register-begun c env g nickname info subs disk named absent dir in
    let (o, opens, is) =
      set_up-Opened c decodes env lawful g nickname info subs proper k made (rw e at h) in
    (
      o,
      ap (λ r. new c env r.1 nickname) e
          ∙ ap (open_in c env) (made_found c env g nickname info subs disk absent)
          ∙ opens,
      is,
    )

-- A nickname that is not acceptable cannot be registered, and is taken after the attempt: the first
-- call says that the nickname is wrong, and leaves the directory, so the next call says that the
-- user is already registered. Here the nickname is not empty, there is no such directory before,
-- and the key is made and written.
pub register_wrong_twice :
    (c : KeyCodec) (env : Env) (g g' : Given) (disk : List UserDir) (nickname info info' : Bytes)
    (subs subs' : Subscriptions) (k : PrivateKey) (proof : ℕ)
    → is_nickname_valid nickname ≡ false
    → is_empty nickname ≡ false
    → find_dir disk nickname ≡ none
    → g.mkdir_fails ≡ false
    → g.key ≡ some k
    → g.write_fails ≡ false
    → g.proof ≡ some proof
    → let r = register c env g disk nickname info subs in
      (r.0 ≡ err wrong_nickname)
      × (register c env g' r.1 nickname info' subs' ≡ (err already_registered, r.1))
unfolding made
register_wrong_twice c env g g' disk nickname info info' subs subs' k proof bad named absent dir key
      written found =
    let e = register-begun c env g nickname info subs disk named absent dir in
    (
      ap (λ r. r.0) e ∙ set_up-wrong c env g nickname info subs k proof bad key written found,
      ap (λ r. register c env g' r.1 nickname info' subs') e
          ∙ register-known c env g' nickname info' subs'
              (disk ++ made c env g nickname info subs ∷ []) (made c env g nickname info subs) named
              (made_found c env g nickname info subs disk absent)
          ∙ ap (λ r. (err already_registered, r.1)) (sym e),
    )
