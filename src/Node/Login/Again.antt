-- ===== src/Node/Login/Again.antt =====
-- Logging in again: what `Relogin` leaves as it was.
use dscuss.Prelude.{
  Option, if◌then◌else◌, ◌==◌, ℕ, ==_refl, ◌≡◌, refl, sym, ap, ◌∙◌, Bytes, bytes_eq, codes, true,
  List, [], ◌∷◌, none, some, Result, ok, err, fatal, arith, Bool-cases, inl, inr,
}
use dscuss.Subs.Topic.{split}
use dscuss.Subs.Subscriptions.{Subscriptions}
use dscuss.Entity.Users.{is_nickname_valid}
use dscuss.Env.{Env}
use dscuss.Crypto.Keys.{KeyCodec}
use dscuss.Sqlite.{EntityDatabase, get_user}
use dscuss.Owner.Profile.{Profile, get_subscriptions, cached_subs, loaded}
use dscuss.Owner.Account
use dscuss.Owner.Account.{
  UserDir, find_dir, read_key, owner_of, with_key, open_in, new_profile, new_storage,
}
use dscuss.Node.{LoginHandle}
use dscuss.Entity.{Time}
use dscuss.Sqlite.ProfileDatabase.{ProfileDatabase, put_user_history}
use dscuss.Storage.{detach_observer}
use dscuss.Peer.Receiving.{World}
use dscuss.Peer.Interest.{Known}
use dscuss.Peer.Machine.{Peer, is_synced, close, close_known, save_history, detached}
use dscuss.Node.Login.{
  world_of, stop_peers, stopped, close_owner, AddressProvider, Opened, Process, is_valid,
  is_logged_in, with_provider, dht_crawler, make_providers, start, open_owner, login, save, logout,
  move_to, login_again, relogin,
}

pub get_subscriptions-db : (p : Profile) → (get_subscriptions p).1.db ≡ p.db
unfolding get_subscriptions
get_subscriptions-db p = cached_db p.subs
  where
    loaded_db : (r : Result Subscriptions) → (loaded p r).1.db ≡ p.db
    loaded_db (ok s) = refl
    loaded_db (err e) = refl
    loaded_db fatal = refl

    cached_db : (s : Subscriptions) → (cached_subs p s).1.db ≡ p.db
    cached_db [] = loaded_db _
    cached_db (t ∷ ts) = refl

with_provider-db :
    (a : AddressProvider) (r : Result (List AddressProvider) × Profile)
    → (with_provider a r).1 ≡ r.1
with_provider-db a (ok aps, p) = refl
with_provider-db a (err e, p) = refl
with_provider-db a (fatal, p) = refl

-- The case of the crawler.
abbrev crawling :
    Profile → List Bytes → Result Subscriptions → Result (List AddressProvider) × Profile
crawling p names (ok s) = with_provider (dht_crawler s) (make_providers p names)
crawling p names (err e) = (err e, p)
crawling p names fatal = (fatal, p)

crawling-db :
    (p : Profile) (names : List Bytes) (r : Result Subscriptions)
    → (make_providers p names).1.db ≡ p.db
    → (crawling p names r).1.db ≡ p.db
crawling-db p names (ok s) ih = ap (λ q. q.db) (with_provider-db _ (make_providers p names)) ∙ ih
crawling-db p names (err e) ih = refl
crawling-db p names fatal ih = refl

make_providers-db : (p : Profile) (names : List Bytes) → (make_providers p names).1.db ≡ p.db
unfolding make_providers
make_providers-db p [] = refl
make_providers-db p (name ∷ names) = elim (Bool-cases (bytes_eq name (codes "addrlist"))) [
  | inl listed ↦
      rw (listed, make_providers)
        (ap (λ q. q.db) (with_provider-db _ (make_providers p names)) ∙ make_providers-db p names)
  | inr other ↦ elim (Bool-cases (bytes_eq name (codes "dht"))) [
    | inl dht ↦
        rw (other, dht, make_providers)
          (crawling-db _ names _ (make_providers-db (get_subscriptions p).1 names)
            ∙ get_subscriptions-db p)
    | inr unknown ↦ rw (other, unknown, make_providers) (make_providers-db p names)
  ]
]

saved : Opened → UserDir → UserDir
saved o d = record d { entity_db = o.handle.storage.db; profile_db = o.handle.profile.db }

find_dir-save :
    (disk : List UserDir) (o : Opened) (d : UserDir)
    → find_dir disk o.name ≡ some d
    → find_dir (save disk o) o.name ≡ some (saved o d)
unfolding find_dir save saved
find_dir-save [] o d h = absurd (ground arith)
find_dir-save (e ∷ disk) o d h = elim (Bool-cases (bytes_eq e.name o.name)) [
  | inl here ↦ ground arith
  | inr other ↦ ground (arith, find_dir-save disk o d)
]

-- A handle that is in use: `login` points to it, its key file holds its signer's key, its user is
-- stored under that key, with a nickname that is valid and names the directory.
pub record IsOpen (c : KeyCodec) (env : Env) (p : Process) (lh : ℕ) (d : UserDir) : Type 0 where
  pub current : p.login ≡ some lh
  pub found : find_dir p.disk (p.heap lh).name ≡ some d
  pub keyed : read_key c d.priv_key ≡ ok (p.heap lh).handle.signer
  pub stored :
      get_user env (p.heap lh).handle.storage.db (env.sha256 (env.public (p.heap lh).handle.signer))
      ≡ ok (p.heap lh).handle.user
  pub named : (p.heap lh).handle.user.nickname ≡ (p.heap lh).name
  pub acceptable : is_nickname_valid (p.heap lh).name ≡ true

unfoldable pub with_known : ProfileDatabase → Option Known → Time → ProfileDatabase
unfolding put_user_history
with_known db (some k) now =
    put_user_history db (record { id = k.user.id; disconnected = now; subs = k.subs })
with_known db none now = db

-- The history that a peer saves at its close: that of a synchronized peer, with the time.
unfoldable pub with_history : ProfileDatabase → Peer → Time → ProfileDatabase
unfolding is_synced with_known
with_history db q now = if is_synced q.state then with_known db q.known now else db

-- The histories that the peers save at a stop, one after the other.
unfoldable pub with_histories : ProfileDatabase → List (Peer × Time) → ProfileDatabase
unfolding with_history
with_histories db [] = db
with_histories db ((q, now) ∷ qs) = with_histories (with_history db q now) qs

abbrev or_world : World → Option World → World
or_world w none = w
or_world w (some v) = v

known-saves :
    (q : Peer) (now : Time) (w' : World) (k : Option Known)
    → close_known q k now ≡ some w'
    → (w'.storage.db ≡ q.world.storage.db) × (w'.profile.db ≡ with_known q.world.profile.db k now)
unfolding save_history with_known detach_observer
known-saves q now w' none h = absurd (ground arith)
known-saves q now w' (some k) h =
    (ap (λ o. (or_world w' o).storage.db) (sym h), ap (λ o. (or_world w' o).profile.db) (sym h))

close-saves :
    (q : Peer) (now : Time) (w' : World)
    → close q now ≡ some w'
    → (w'.storage.db ≡ q.world.storage.db) × (w'.profile.db ≡ with_history q.world.profile.db q now)
unfolding close with_history detach_observer is_synced save_history
close-saves q now w' h = elim (Bool-cases (is_synced q.state)) [
  | inl e ↦
      let (a, b) = known-saves q now w' q.known (
        sym (ap (λ b. if b then close_known q q.known now else some (detached q.own q.world)) e)
        ∙ h) in
      (
        a,
        b
            ∙ sym (
                ap
                  (λ x. if x then with_known q.world.profile.db q.known now else q.world.profile.db)
                  e),
      )
  | inr e ↦
      let f : some (detached q.own q.world) ≡ some w' =
        sym (ap (λ b. if b then close_known q q.known now else some (detached q.own q.world)) e)
        ∙ h in
      (
        ap (λ o. (or_world w' o).storage.db) (sym f),
        ap (λ o. (or_world w' o).profile.db) (sym f)
            ∙ sym (
                ap
                  (λ x. if x then with_known q.world.profile.db q.known now else q.world.profile.db)
                  e),
      )
]

-- The first peer is closed, then the others.
then_saves :
    (q : Peer) (now : Time) (qs : List (Peer × Time)) (w w' : World) (o : Option World)
    → close (record q { world = w }) now ≡ o
    → elim o as (λ x. Option World) [ none ↦ none | some v ↦ stop_peers v qs ] ≡ some w'
    → ((v : World)
        → stop_peers v qs ≡ some w'
        → (w'.storage.db ≡ v.storage.db) × (w'.profile.db ≡ with_histories v.profile.db qs))
    → (w'.storage.db ≡ w.storage.db)
      × (w'.profile.db ≡ with_histories (with_history w.profile.db q now) qs)
unfolding stop_peers with_history
then_saves q now qs w w' none e h ih = absurd (ground arith)
then_saves q now qs w w' (some v) e h ih =
    let (a, b) = close-saves (record q { world = w }) now v e in
    let (c, d) = ih v h in (c ∙ a, d ∙ ap (λ db. with_histories db qs) b)

stop_peers-saves :
    (peers : List (Peer × Time)) (w w' : World)
    → stop_peers w peers ≡ some w'
    → (w'.storage.db ≡ w.storage.db) × (w'.profile.db ≡ with_histories w.profile.db peers)
unfolding stop_peers with_histories
stop_peers-saves [] w w' h =
    (ap (λ o. (or_world w' o).storage.db) (sym h), ap (λ o. (or_world w' o).profile.db) (sym h))
stop_peers-saves ((q, now) ∷ qs) w w' h =
    then_saves q now qs w w' (close (record q { world = w }) now) refl h
      (λ v. stop_peers-saves qs v w')

module _ (c : KeyCodec) (env : Env) (configured : Bytes) (p : Process) (lh : ℕ) (d : UserDir)
    (is_open : IsOpen c env p lh d) (peers : List (Peer × Time)) (w : World)
    (stops : stop_peers (world_of (p.heap lh).handle) peers ≡ some w) where
  -- The handle when the peers are closed.
  abbrev pub before : Opened
  before = stopped (p.heap lh) w

  abbrev pub reopened : Profile
  unfolding new_profile
  reopened = new_profile before.handle.profile.db before.handle.user.id

  abbrev closed : Process
  unfolding save
  closed = record p {
    disk = save p.disk before;
    login = none;
    heap = λ h. if h == lh then before else p.heap h;
    last_msg = before.handle.last_msg;
    last_oper = before.handle.last_oper;
  }

  -- The handle that the login makes.
  abbrev pub after : Profile → LoginHandle
  unfolding new_storage
  after prf = record (p.heap lh).handle {
    storage = new_storage (p.heap lh).handle.storage.db;
    profile = prf;
  }

  logout-open : logout p lh peers ≡ (ok tt, closed)
  unfolding logout is_valid close_owner
  logout-open = rw (is_open.current, ==_refl lh, stops) refl

  still_stored :
      get_user env w.storage.db (env.sha256 (env.public (p.heap lh).handle.signer))
      ≡ ok (p.heap lh).handle.user
  still_stored =
      ap (λ db. get_user env db (env.sha256 (env.public (p.heap lh).handle.signer)))
        (stop_peers-saves peers (world_of (p.heap lh).handle) w stops).0
      ∙ is_open.stored

  open-saved :
      Account.new c env closed.disk before.name
      ≡ ok (record {
        user = before.handle.user;
        storage = new_storage before.handle.storage.db;
        profile = reopened;
        signer = before.handle.signer;
      })
  unfolding Account.new open_in with_key owner_of saved reopened closed
  open-saved = rw (find_dir-save p.disk before d is_open.found, is_open.keyed, still_stored) refl

  logged_in :
      (a : AddressProvider) (aps : List AddressProvider) (prf : Profile)
      → make_providers reopened (split configured) ≡ (ok (a ∷ aps), prf)
      → login c env configured closed before.name
        ≡ start closed before.name
            (record {
              user = before.handle.user;
              storage = new_storage before.handle.storage.db;
              profile = reopened;
              signer = before.handle.signer;
            })
            (ok (a ∷ aps), prf)
  unfolding login is_logged_in open_owner closed
  logged_in a aps prf made = rw (is_open.acceptable, open-saved, made) refl

  -- Logging in again keeps what the user has: where the handle is in use, no peer panics at its
  -- close and some address provider is configured, `Relogin` succeeds and the same handle is valid
  -- afterwards, with the same user, signer and database of entities and the times of the last message
  -- and operation. The database of the profile is as before, but for the histories that the peers
  -- which count as synchronized save when they are closed. Only the observers of the storage and
  -- the caches of the profile are new.
  pub relogin_lem :
      (a : AddressProvider) (aps : List AddressProvider) (prf : Profile)
      → make_providers reopened (split configured) ≡ (ok (a ∷ aps), prf)
      → let (r, q) = relogin c env configured p lh peers in
        (r ≡ ok tt)
        × (is_valid q lh ≡ true)
        × ((q.heap lh).handle ≡ after prf)
        × (prf.db ≡ with_histories (p.heap lh).handle.profile.db peers)
  unfolding relogin login_again closed is_valid
  relogin_lem a aps prf made =
      let saves = stop_peers-saves peers (world_of (p.heap lh).handle) w stops in
      let e : relogin c env configured p lh peers
          ≡ move_to lh (
              start closed before.name
                (record {
                  user = before.handle.user;
                  storage = new_storage before.handle.storage.db;
                  profile = reopened;
                  signer = before.handle.signer;
                })
                (ok (a ∷ aps), prf)) =
        ap (login_again c env configured lh before.handle.user.nickname) logout-open
        ∙ ap (λ n. move_to lh (login c env configured closed n)) is_open.named
        ∙ ap (move_to lh) (logged_in a aps prf made) in
      (
        rw e refl,
        rw (e, ==_refl lh) refl,
        ap (λ r. (r.1.heap lh).handle) e
            ∙ rw (==_refl lh, ==_refl p.next)
                (ap
                  (λ (db : EntityDatabase).
                    let h : LoginHandle = record before.handle {
                      storage = new_storage db;
                      profile = prf;
                    } in
                    h)
                  saves.0),
        ap (λ r. r.1.db) (sym made) ∙ make_providers-db reopened (split configured) ∙ saves.1,
      )
